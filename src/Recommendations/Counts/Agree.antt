-- ===== src/Recommendations/Counts/Agree.antt =====
-- crates/recommendations/src/validate.rs: what a text mentions that does not contradict a count.
use mathlib.Core.List.{Memᴰ}
use hidden_steps.Prelude.{
  All, All-map, Bool, Bool-cases, List, Option, Text, [], and-true, and_then, any, arith, codes,
  false, if◌then◌else◌, inl, inr, leb, leb→le, map, none, not, refl, some, text_eq, ℕ, ◌&&◌, ◌++◌,
  ◌+◌, ◌==◌, ◌∷◌, ◌≡◌, ◌≤◌, ◌⊎◌, All-append,
}
use hidden_steps.Members.{All-Mem, All-at, any-Mem, any-append, any-last}
use hidden_steps.Redaction.Numbers.{parse_u32}
use hidden_steps.Recommendations.Counts.{
  CountMatchers, Mention, compound_loop, contradicts_occurrence_count, digits_loop,
  mentioned_counts, once_loop, ones_word_value, or_else, push_some, single_loop, tens_word_value,
  to_ascii_lowercase,
}

-- A number that was read is the count.
unfoldable pub Agrees : ℕ → Option ℕ → Type 0
Agrees count none = Unit
Agrees count (some n) = n ≡ count

-- The value of the two words of a compound.
abbrev pub compound_value : Text → Text → Option ℕ
compound_value tens ones =
    and_then (tens_word_value tens) λ t. and_then (ones_word_value ones) λ o. some (t + o)

-- Each single word is the count, has no value, or lies within another match: one of the ranges, or
-- that of a word before it.
unfoldable pub WordsAgree : ℕ → (ℕ × ℕ → Type 0) → List (ℕ × ℕ × Text) → Type 0
unfolding Agrees
WordsAgree count Range [] = Unit
WordsAgree count Range ((start, finish, word) ∷ ms) =
    (((r : ℕ × ℕ) × Range r × (r.0 ≤ start) × (finish ≤ r.1))
      ⊎ Agrees count (or_else (ones_word_value word) (tens_word_value word)))
    × WordsAgree count (λ r. Range r ⊎ (r ≡ (start, finish))) ms

-- The mentions of a text, as the regular expressions find them: numbers of digits that fit 32 bits,
-- compounds, single words that are not part of these, and "once" and "twice".
pub record MentionsAgree (m : CountMatchers) (count : ℕ) (text : Text) : Type 0 where
  pub numbers : All (λ d. Agrees count (and_then d.2 parse_u32)) (m.occurrence_mention text)
  pub compounds : All (λ c. Agrees count (compound_value c.2 c.3)) (m.spelled_compound text)
  pub words :
      WordsAgree count
        (λ r.
          ((word : Option Text) × Memᴰ (r.0, r.1, word) (m.occurrence_mention text))
          ⊎ ((tens : Text) × (ones : Text) × Memᴰ (r.0, r.1, tens, ones) (m.spelled_compound text)))
        (m.spelled_single text)
  pub once_or_twice :
      All
        (λ w. (if text_eq (map to_ascii_lowercase w.2) (codes "once") then 1 else 2) ≡ count)
        (m.once_or_twice text)

module _ {A : Type 0} (p : A → Bool) where
  snoc-false :
      (xs : List A) (y : A) → any p (xs ++ y ∷ []) ≡ false → (any p xs ≡ false) × (p y ≡ false)
  snoc-false xs y h = (
    elim (Bool-cases (any p xs)) [
      | inr e ↦ e
      | inl e ↦ absurd (cc (any-append p xs (y ∷ []) e, h))
    ],
    elim (Bool-cases (p y)) [ inr e ↦ e | inl e ↦ absurd (cc (any-last p xs y e, h)) ],
  )

module _ (count : ℕ) where
  abbrev differs : Mention → Bool
  differs x = not (x.2 == count)

  same_count : (n : ℕ) → not (n == count) ≡ false → n ≡ count
  same_count n h = ground arith

  push_some-Agrees :
      (start finish : ℕ) (o : Option ℕ) (mentions : List Mention)
      → any differs (push_some start finish o mentions) ≡ false
      → (any differs mentions ≡ false) × Agrees count o
  unfolding push_some Agrees
  push_some-Agrees start finish none mentions h = (h, tt)
  push_some-Agrees start finish (some n) mentions h =
      let (old, new) = snoc-false differs mentions (start, finish, n) h in (old, same_count n new)

  digits_loop-Agrees :
      (ms : List (ℕ × ℕ × Option Text)) (mentions : List Mention)
      → any differs (digits_loop ms mentions) ≡ false
      → (any differs mentions ≡ false) × All (λ d. Agrees count (and_then d.2 parse_u32)) ms
  unfolding digits_loop
  digits_loop-Agrees [] mentions h = (h, tt)
  digits_loop-Agrees ((start, finish, word) ∷ ms) mentions h =
      let (pushed, rest) = digits_loop-Agrees ms _ h in
      let (old, new) = push_some-Agrees start finish (and_then word parse_u32) mentions pushed in
      (old, (new, rest))

  compound_loop-Agrees :
      (ms : List (ℕ × ℕ × Text × Text)) (mentions : List Mention)
      → any differs (compound_loop ms mentions) ≡ false
      → (any differs mentions ≡ false) × All (λ c. Agrees count (compound_value c.2 c.3)) ms
  unfolding compound_loop
  compound_loop-Agrees [] mentions h = (h, tt)
  compound_loop-Agrees ((start, finish, tens, ones) ∷ ms) mentions h =
      let (pushed, rest) = compound_loop-Agrees ms _ h in
      let (old, new) = push_some-Agrees start finish (compound_value tens ones) mentions pushed in
      (old, (new, rest))

  once_loop-agrees :
      (ms : List (ℕ × ℕ × Text)) (mentions : List Mention)
      → any differs (once_loop ms mentions) ≡ false
      → (any differs mentions ≡ false)
        × All
            (λ w. (if text_eq (map to_ascii_lowercase w.2) (codes "once") then 1 else 2) ≡ count)
            ms
  unfolding once_loop
  once_loop-agrees [] mentions h = (h, tt)
  once_loop-agrees ((start, finish, word) ∷ ms) mentions h =
      let (pushed, rest) = once_loop-agrees ms _ h in
      let (old, new) = snoc-false differs mentions _ pushed in (old, (same_count _ new, rest))

-- The ranges of mentions are such ranges.
abbrev Ranged : (ℕ × ℕ → Type 0) → List Mention → Type 0
Ranged Range mentions = All (λ x. Range (x.0, x.1)) mentions

push_some-Ranged :
    (Range : ℕ × ℕ → Type 0) (start finish : ℕ) (o : Option ℕ) (mentions : List Mention)
    → Range (start, finish)
    → Ranged Range mentions
    → Ranged Range (push_some start finish o mentions)
unfolding push_some
push_some-Ranged Range start finish none mentions r h = h
push_some-Ranged Range start finish (some n) mentions r h =
    All-append (λ x. Range (x.0, x.1)) mentions ((start, finish, n) ∷ []) h (r, tt)

digits_loop-Ranged :
    (Range : ℕ × ℕ → Type 0) (ms : List (ℕ × ℕ × Option Text)) (mentions : List Mention)
    → All (λ d. Range (d.0, d.1)) ms
    → Ranged Range mentions
    → Ranged Range (digits_loop ms mentions)
unfolding digits_loop
digits_loop-Ranged Range [] mentions r h = h
digits_loop-Ranged Range ((start, finish, word) ∷ ms) mentions r h =
    digits_loop-Ranged Range ms _ r.1 (push_some-Ranged Range start finish _ mentions r.0 h)

compound_loop-Ranged :
    (Range : ℕ × ℕ → Type 0) (ms : List (ℕ × ℕ × Text × Text)) (mentions : List Mention)
    → All (λ c. Range (c.0, c.1)) ms
    → Ranged Range mentions
    → Ranged Range (compound_loop ms mentions)
unfolding compound_loop
compound_loop-Ranged Range [] mentions r h = h
compound_loop-Ranged Range ((start, finish, tens, ones) ∷ ms) mentions r h =
    compound_loop-Ranged Range ms _ r.1 (push_some-Ranged Range start finish _ mentions r.0 h)

single_loop-Agrees :
    (count : ℕ) (Range : ℕ × ℕ → Type 0) (ms : List (ℕ × ℕ × Text)) (mentions : List Mention)
    → Ranged Range mentions
    → any (differs count) (single_loop ms mentions) ≡ false
    → (any (differs count) mentions ≡ false) × WordsAgree count Range ms
unfolding single_loop WordsAgree
single_loop-Agrees count Range [] mentions r h = (h, tt)
single_loop-Agrees count Range ((start, finish, word) ∷ ms) mentions r h =
    let Later = λ (x : ℕ × ℕ). Range x ⊎ (x ≡ (start, finish)) in
    let later = All-map (λ (x : Mention). Range (x.0, x.1)) (λ x i. inl i) mentions r in
    elim (Bool-cases (any (λ (x : Mention). leb x.0 start && leb finish x.1) mentions)) [
      | inl inside ↦
          let (x, there, k) =
            any-Mem (λ (x : Mention). leb x.0 start && leb finish x.1) mentions inside in
          let (low, high) = and-true (leb x.0 start) (leb finish x.1) k in
          let (old, rest) = single_loop-Agrees count Later ms mentions later (rw inside at h) in
          (
            old,
            (
              inl (
                (x.0, x.1),
                All-at (λ (x : Mention). Range (x.0, x.1)) r there,
                leb→le x.0 start low,
                leb→le finish x.1 high,
              ),
              rest,
            ),
          )
      | inr alone ↦
          let (pushed, rest) =
            single_loop-Agrees count Later ms _
              (push_some-Ranged Later start finish
                (or_else (ones_word_value word) (tens_word_value word)) mentions (inr refl) later)
              (rw alone at h) in
          let (old, new) = push_some-Agrees count start finish _ mentions pushed in
          (old, (inr new, rest))
    ]

-- A text that is not found to contradict the count mentions no other.
pub contradicts_occurrence_count-MentionsAgree :
    (m : CountMatchers) (text : Text) (count : ℕ)
    → contradicts_occurrence_count m text count ≡ false
    → MentionsAgree m count text
unfolding contradicts_occurrence_count mentioned_counts
contradicts_occurrence_count-MentionsAgree m text count h =
    let Range = λ (r : ℕ × ℕ).
      ((word : Option Text) × Memᴰ (r.0, r.1, word) (m.occurrence_mention text))
      ⊎ ((tens : Text) × (ones : Text) × Memᴰ (r.0, r.1, tens, ones) (m.spelled_compound text)) in
    let digits = digits_loop (m.occurrence_mention text) [] in
    let ranged =
      compound_loop-Ranged Range (m.spelled_compound text) digits
        (All-map (λ (c : ℕ × ℕ × Text × Text). Memᴰ c (m.spelled_compound text))
          (λ c i. inr (c.2, c.3, i)) (m.spelled_compound text) (All-Mem (m.spelled_compound text)))
        (digits_loop-Ranged Range (m.occurrence_mention text) []
          (All-map (λ (d : ℕ × ℕ × Option Text). Memᴰ d (m.occurrence_mention text))
            (λ d i. inl (d.2, i)) (m.occurrence_mention text) (All-Mem (m.occurrence_mention text)))
          tt) in
    let (singles, once) = once_loop-agrees count (m.once_or_twice text) _ h in
    let (compounds, words) =
      single_loop-Agrees count Range (m.spelled_single text) _ ranged singles in
    let (numbers, compounds_agree) =
      compound_loop-Agrees count (m.spelled_compound text) digits compounds in
    record {
      numbers = (digits_loop-Agrees count (m.occurrence_mention text) [] numbers).1;
      compounds = compounds_agree;
      words = words;
      once_or_twice = once;
    }
