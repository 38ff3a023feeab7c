-- ===== src/Patterns/Groups/Laws.antt =====
-- Each group holds windows with its signature, and holds all of them in order.
use hidden_steps.Prelude.{
  All, All-append, Bool, Bool-cases, List, Text, [], and-true, ap, arith, drop, false,
  if◌then◌else◌, inl, inr, keep, length, length-append, map, refl, subst, suc, sym, take, text_eq,
  text_eq_refl, text_eq_sound, true, zero, ℕ, ◌++◌, ◌+◌, ◌-◌, ◌∙◌, ◌∷◌, ◌≡◌, ◌≤◌,
}
use hidden_steps.Patterns.Select.{Occurrence}
use hidden_steps.Patterns.Groups.{
  Groups, group_from, occurrence_at, push_to, texts_eq, windows_by_signature,
}

pub texts_eq_sound : (ss ts : List Text) → texts_eq ss ts ≡ true → ss ≡ ts
unfolding texts_eq
texts_eq_sound [] [] h = refl
texts_eq_sound [] (t ∷ ts) h = cc
texts_eq_sound (s ∷ ss) [] h = cc
texts_eq_sound (s ∷ ss) (t ∷ ts) h =
    let both = and-true (text_eq s t) (texts_eq ss ts) h in
    let e = text_eq_sound s t both.0 in let es = texts_eq_sound ss ts both.1 in cc

pub texts_eq_refl : (ss : List Text) → texts_eq ss ss ≡ true
unfolding texts_eq
texts_eq_refl [] = refl
texts_eq_refl (s ∷ ss) = ground (arith, text_eq_refl s, texts_eq_refl ss)

-- What is filed under a signature.
abbrev pub values : {V : Type 0} → List Text → Groups V → List V
values k [] = []
values k ((l, vs) ∷ groups) = if texts_eq l k then vs else values k groups

texts_eq_trans : (a b c : List Text) → texts_eq a b ≡ true → texts_eq a c ≡ texts_eq b c
texts_eq_trans a b c h = ap (λ x. texts_eq x c) (texts_eq_sound a b h)

true-ne-false : true ≡ false → ⊥
true-ne-false e = cc

texts_ne : (m l k : List Text) → texts_eq m l ≡ false → texts_eq m k ≡ true → texts_eq l k ≡ false
texts_ne m l k ne e = elim (Bool-cases (texts_eq l k)) [
  | inr h ↦ h
  | inl h ↦
      let same = texts_eq_sound m k e ∙ sym (texts_eq_sound l k h) in
      absurd (true-ne-false (sym (texts_eq_refl l) ∙ (rw same at ne)))
]

module _ {V : Type 0} where
  append_nil : (xs : List V) → xs ++ [] ≡ xs
  append_nil [] = refl
  append_nil (x ∷ xs) = ap (λ l. x ∷ l) (append_nil xs)

  append_assoc : (xs ys zs : List V) → (xs ++ ys) ++ zs ≡ xs ++ (ys ++ zs)
  append_assoc [] ys zs = refl
  append_assoc (x ∷ xs) ys zs = ap (λ l. x ∷ l) (append_assoc xs ys zs)

  if_pushed :
      (b : Bool) (xs ys zs : List V)
      → (if b then xs ++ zs else ys) ≡ (if b then xs else ys) ++ (if b then zs else [])
  if_pushed true xs ys zs = refl
  if_pushed false xs ys zs = sym (append_nil ys)

  if_kept :
      (b : Bool) (x : V) (xs : List V)
      → (if b then x ∷ [] else []) ++ xs ≡ (if b then x ∷ xs else xs)
  if_kept true x xs = refl
  if_kept false x xs = refl

  values-push_to :
      (k l : List Text) (v : V) (groups : Groups V)
      → values k (push_to l v groups) ≡ values k groups ++ (if texts_eq l k then v ∷ [] else [])
  unfolding push_to
  values-push_to k l v [] = ground arith
  values-push_to k l v ((m, vs) ∷ groups) = elim (Bool-cases (texts_eq m l)) [
    | inl h ↦
        rw h
          (rw (← texts_eq_trans m l k h) (if_pushed (texts_eq m k) vs (values k groups) (v ∷ [])))
    | inr h ↦ rw h (elim (Bool-cases (texts_eq m k)) [
      | inl e ↦ rw e (rw (texts_ne m l k h e) (sym (append_nil vs)))
      | inr e ↦ rw e (values-push_to k l v groups)
    ])
  ]

module _ {Event : Type 0} (key : Event → Text) (events : List Event) (window : ℕ) where
  -- The windows one after the other.
  abbrev pub windows_from : ℕ → ℕ → List (Occurrence Event)
  windows_from start zero = []
  windows_from start (suc count) =
      occurrence_at events window start ∷ windows_from (start + 1) count

  values-group_from :
      (k : List Text) (start count : ℕ) (groups : Groups (Occurrence Event))
      → values k (group_from key events window start count groups)
        ≡ values k groups ++ keep (λ o. texts_eq (map key o.slice) k) (windows_from start count)
  unfolding group_from
  values-group_from k start zero groups = sym (append_nil (values k groups))
  values-group_from k start (suc count) groups =
      let o = occurrence_at events window start in
      let b = texts_eq (map key o.slice) k in
      let later = keep (λ p. texts_eq (map key p.slice) k) (windows_from (start + 1) count) in
      values-group_from k (start + 1) count (push_to (map key o.slice) o groups)
      ∙ ap (λ l. l ++ later) (values-push_to k (map key o.slice) o groups)
      ∙ append_assoc (values k groups) (if b then o ∷ [] else []) later
      ∙ ap (λ l. values k groups ++ l) (if_kept b o later)

  -- Under each signature stand exactly the windows that have it, in the order of the history.
  pub values-windows_by_signature :
      (k : List Text)
      → values k (windows_by_signature key events window)
        ≡ keep (λ o. texts_eq (map key o.slice) k) (windows_from 0 (length events - window + 1))
  unfolding windows_by_signature
  values-windows_by_signature k = values-group_from k 0 (length events - window + 1) []

  -- A window of the history that has a signature.
  pub record IsWindow (signature : List Text) (o : Occurrence Event) : Type 0 where
    pub fits : o.start + window ≤ length events
    pub contents : o.slice ≡ take window (drop o.start events)
    pub keys : map key o.slice ≡ signature

  abbrev pub IsGroup : List Text × List (Occurrence Event) → Type 0
  IsGroup (signature, os) = (1 ≤ length os) × All (IsWindow signature) os

  push_to-IsGroup :
      (k : List Text) (o : Occurrence Event) (groups : Groups (Occurrence Event))
      → IsWindow k o
      → All IsGroup groups
      → All IsGroup (push_to k o groups)
  unfolding push_to
  push_to-IsGroup k o [] good h = ((omega arith, (good, tt)), tt)
  push_to-IsGroup k o ((l, os) ∷ groups) good h = elim (Bool-cases (texts_eq l k)) [
    | inl e ↦ rw e (
      (
        omega (arith, length-append os (o ∷ [])),
        All-append (IsWindow l) os (o ∷ []) h.0.1
            (subst (λ s. IsWindow s o) (sym (texts_eq_sound l k e)) good, tt),
      ),
      h.1,
    )
    | inr e ↦ rw e (h.0, push_to-IsGroup k o groups good h.1)
  ]

  group_from-IsGroup :
      (start count : ℕ) (groups : Groups (Occurrence Event))
      → start + count + window ≤ length events + 1
      → All IsGroup groups
      → All IsGroup (group_from key events window start count groups)
  unfolding group_from
  group_from-IsGroup start zero groups fits h = h
  group_from-IsGroup start (suc count) groups fits h =
      group_from-IsGroup (start + 1) count
        (push_to (map key (occurrence_at events window start).slice)
          (occurrence_at events window start) groups)
        (omega arith)
        (push_to-IsGroup _ (occurrence_at events window start) groups
          record { fits = omega arith; contents = refl; keys = refl } h)

  pub windows_by_signature-IsGroup :
      window ≤ length events → All IsGroup (windows_by_signature key events window)
  unfolding windows_by_signature
  windows_by_signature-IsGroup fits =
      group_from-IsGroup 0 (length events - window + 1) [] (omega arith) tt
