-- ===== src/Members.antt =====
-- Members of lists: what holds of all of them, and what stays of a list.
use mathlib.Core.List.{Memᴰ}
use hidden_steps.Prelude.{
  All, All-map, Bool, Bool-cases, List, [], any, ap, false, inl, inr, keep, refl, subst, sym, true,
  ◌++◌, ◌∙◌, ◌∷◌, ◌≡◌,
}

module _ {A : Type 0} where
  pub All-Mem : (xs : List A) → All (λ x. Memᴰ x xs) xs
  All-Mem [] = tt
  All-Mem (x ∷ xs) = (Memᴰ.head refl, All-map (λ y. Memᴰ y xs) (λ y m. Memᴰ.tail m) xs (All-Mem xs))

  pub All-both : (P Q : A → Type 0) (xs : List A) → All P xs → All Q xs → All (λ x. P x × Q x) xs
  All-both P Q [] h k = tt
  All-both P Q (x ∷ xs) h k = ((h.0, k.0), All-both P Q xs h.1 k.1)

  -- What holds of all members holds of each.
  pub All-at : (P : A → Type 0) {x : A} {xs : List A} → All P xs → Memᴰ x xs → P x
  All-at P h (Memᴰ.head e) = subst P (sym e) h.0
  All-at P h (Memᴰ.tail m) = All-at P h.1 m

  pub Mem-keep : (p : A → Bool) {x : A} {xs : List A} → p x ≡ true → Memᴰ x xs → Memᴰ x (keep p xs)
  Mem-keep p h (Memᴰ.head {x = y} {xs = xs} e) = rw (ap p (sym e) ∙ h) (Memᴰ.head e)
  Mem-keep p h (Memᴰ.tail {x = y} {xs = xs} m) = elim (Bool-cases (p y)) [
    | inl kept ↦ rw kept (Memᴰ.tail (Mem-keep p h m))
    | inr gone ↦ rw gone (Mem-keep p h m)
  ]

  pub Mem-append : {x : A} {xs : List A} (ys : List A) → Memᴰ x xs → Memᴰ x (xs ++ ys)
  Mem-append ys (Memᴰ.head e) = Memᴰ.head e
  Mem-append ys (Memᴰ.tail m) = Memᴰ.tail (Mem-append ys m)

  -- A test that holds of some member has one.
  pub any-Mem : (p : A → Bool) (xs : List A) → any p xs ≡ true → (x : A) × Memᴰ x xs × (p x ≡ true)
  any-Mem p [] h = absurd (cc h)
  any-Mem p (x ∷ xs) h = elim (Bool-cases (p x)) [
    | inl e ↦ (x, Memᴰ.head refl, e)
    | inr e ↦ let (y, m, k) = any-Mem p xs (rw e at h) in (y, Memᴰ.tail m, k)
  ]

  pub Mem-any : (p : A → Bool) {x : A} {xs : List A} → Memᴰ x xs → p x ≡ true → any p xs ≡ true
  Mem-any p (Memᴰ.head e) h = rw (ap p (sym e) ∙ h) refl
  Mem-any p (Memᴰ.tail {x = y} m) h = elim (Bool-cases (p y)) [
    | inl e ↦ rw e refl
    | inr e ↦ rw e (Mem-any p m h)
  ]

  pub any-append : (p : A → Bool) (xs ys : List A) → any p xs ≡ true → any p (xs ++ ys) ≡ true
  any-append p [] ys h = cc
  any-append p (x ∷ xs) ys h = elim (Bool-cases (p x)) [
    | inl e ↦ rw e refl
    | inr e ↦ rw e (any-append p xs ys (rw e at h))
  ]

  pub any-last : (p : A → Bool) (xs : List A) (y : A) → p y ≡ true → any p (xs ++ y ∷ []) ≡ true
  any-last p [] y h = rw h refl
  any-last p (x ∷ xs) y h = elim (Bool-cases (p x)) [
    | inl e ↦ rw e refl
    | inr e ↦ rw e (any-last p xs y h)
  ]

  pub any-none : (p : A → Bool) (xs : List A) → All (λ x. p x ≡ false) xs → any p xs ≡ false
  any-none p [] h = refl
  any-none p (x ∷ xs) h = rw (h.0, any-none p xs h.1) refl
