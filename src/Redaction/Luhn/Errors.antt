-- ===== src/Redaction/Luhn/Errors.antt =====
-- The checksum notices every single wrong digit.
use mathlib.Core.List.{reverse, reverse-append, append_assoc}
use hidden_steps.Prelude.{
  All, All-append, Bool-cases, List, Text, [], ap, arith, false, inl, inr, leb, length,
  length-append, refl, suc, sym, true, ℕ, ◌%◌, ◌&&◌, ◌*◌, ◌++◌, ◌+◌, ◌-◌, ◌<◌, ◌^◌, ◌∙◌, ◌∷◌, ◌≡◌,
  ◌≢◌, ◌≤◌,
}
use hidden_steps.Redaction.Luhn.{digits_of, is_ascii_digit, luhn_loop, luhn_valid, weight}

-- The sum of the loop before any wrap-around, on the reversed digits.
luhn_sum : ℕ → List ℕ → ℕ
luhn_sum i [] = 0
luhn_sum i (d ∷ ds) = weight i d + luhn_sum (i + 1) ds

weight-le_nine : (i d : ℕ) → d ≤ 9 → weight i d ≤ 9
unfolding weight
weight-le_nine i d h = ground arith

weight_injective : (i d e : ℕ) → d ≤ 9 → e ≤ 9 → weight i d ≡ weight i e → d ≡ e
unfolding weight
weight_injective i d e hd he h = ground arith

luhn_sum-append :
    (xs ys : List ℕ) (i : ℕ) → luhn_sum i (xs ++ ys) ≡ luhn_sum i xs + luhn_sum (i + length xs) ys
unfolding luhn_sum
luhn_sum-append [] ys i = rw (sum_index i) (omega arith)
  where
    sum_index : (i : ℕ) → i + 0 ≡ i
    sum_index i = omega arith
luhn_sum-append (x ∷ xs) ys i =
    let shift : i + 1 + length xs ≡ i + suc (length xs) = omega arith in
    rw (← shift) (omega (arith, luhn_sum-append xs ys (i + 1)))

luhn_sum-le : (xs : List ℕ) (i : ℕ) → All (λ d. d ≤ 9) xs → luhn_sum i xs ≤ 9 * length xs
unfolding luhn_sum
luhn_sum-le [] i h = omega arith
luhn_sum-le (x ∷ xs) i h = omega (arith, weight-le_nine i x h.0, luhn_sum-le xs (i + 1) h.1)

-- While the digits are few, the 32-bit sum does not wrap around.
luhn_loop-eq :
    (xs : List ℕ) (sum i : ℕ)
    → All (λ d. d ≤ 9) xs
    → sum + 9 * length xs < 2 ^ 32
    → luhn_loop sum i xs ≡ sum + luhn_sum i xs
unfolding luhn_loop luhn_sum
luhn_loop-eq [] sum i h fits = omega arith
luhn_loop-eq (x ∷ xs) sum i h fits =
    let small : weight i x ≤ 9 = weight-le_nine i x h.0 in
    let same : (sum + weight i x) % 2 ^ 32 ≡ sum + weight i x = omega arith in
    rw same (omega (arith, luhn_loop-eq xs (sum + weight i x) (i + 1) h.1 (omega arith)))

digits_of-le_nine : (s : Text) → All (λ d. d ≤ 9) (digits_of s)
unfolding digits_of is_ascii_digit
digits_of-le_nine [] = tt
digits_of-le_nine (c ∷ s) = elim (Bool-cases (leb b'0' c && leb c b'9')) [
  | inl e ↦ rw e (ground arith, digits_of-le_nine s)
  | inr e ↦ rw e (digits_of-le_nine s)
]

digits_of-append : (s t : Text) → digits_of (s ++ t) ≡ digits_of s ++ digits_of t
unfolding digits_of
digits_of-append [] t = refl
digits_of-append (c ∷ s) t = ground (arith, digits_of-append s t)

-- Of two digits at one place only one gives a sum that ends in zero.
one_digit_per_sum :
    (before after w v : ℕ)
    → w ≤ 9
    → v ≤ 9
    → (before + (w + after)) % 10 ≡ 0
    → (before + (v + after)) % 10 ≡ 0
    → w ≡ v
one_digit_per_sum before after w v hw hv p q = omega arith

All-reverse : (xs : List ℕ) → All (λ d. d ≤ 9) xs → All (λ d. d ≤ 9) (reverse xs)
All-reverse [] h = tt
All-reverse (x ∷ xs) h =
    rw (reverse-append (x ∷ []) xs)
      (All-append (λ d. d ≤ 9) (reverse xs) (x ∷ []) (All-reverse xs h.1) (h.0, tt))

length-reverse : (xs : List ℕ) → length (reverse xs) ≡ length xs
length-reverse [] = refl
length-reverse (x ∷ xs) =
    rw (reverse-append (x ∷ []) xs)
      (omega (arith, length-append {0} (reverse xs) (x ∷ []), length-reverse xs))

valid-sum :
    (s : Text)
    → 9 * length (digits_of s) < 2 ^ 32
    → luhn_valid s ≡ true
    → luhn_sum 0 (reverse (digits_of s)) % 10 ≡ 0
unfolding luhn_valid
valid-sum s fits h =
    let digits = digits_of s in
    let sum =
      luhn_loop-eq (reverse digits) 0 0 (All-reverse digits (digits_of-le_nine s))
        (omega (arith, length-reverse digits)) in
    ground (arith, sum)

digits_of-digit :
    (c : ℕ) (s : Text) → is_ascii_digit c ≡ true → digits_of (c ∷ s) ≡ (c - 48) ∷ digits_of s
unfolding digits_of
digits_of-digit c s h = ground arith

length-digits_of-le : (s : Text) → length (digits_of s) ≤ length s
unfolding digits_of
length-digits_of-le [] = omega arith
length-digits_of-le (c ∷ s) = ground (arith, length-digits_of-le s)

digit_bounds : (c : ℕ) → is_ascii_digit c ≡ true → (48 ≤ c) × (c ≤ 57)
unfolding is_ascii_digit
digit_bounds c h = (ground arith, ground arith)

reverse_split {ℓ} :
    {A : Type ℓ} (before after : List A) (x : A)
    → reverse (before ++ x ∷ after) ≡ reverse after ++ x ∷ reverse before
reverse_split before after x =
    reverse-append before (x ∷ after)
    ∙ (ap (λ l. l ++ reverse before) (reverse-append (x ∷ []) after)
        ∙ append_assoc (reverse after) (x ∷ []) (reverse before))

-- The sum of a number, split at one of its digits.
sum_split :
    (xs ys : Text) (c : ℕ)
    → is_ascii_digit c ≡ true
    → luhn_sum 0 (reverse (digits_of (xs ++ c ∷ ys)))
      ≡ luhn_sum 0 (reverse (digits_of ys))
        + (weight (0 + length (reverse (digits_of ys))) (c - 48)
            + luhn_sum (0 + length (reverse (digits_of ys)) + 1) (reverse (digits_of xs)))
unfolding luhn_sum
sum_split xs ys c h =
    ap (λ l. luhn_sum 0 (reverse l))
      (digits_of-append xs (c ∷ ys) ∙ ap (λ l. digits_of xs ++ l) (digits_of-digit c ys h))
    ∙ (ap (luhn_sum 0) (reverse_split (digits_of xs) (digits_of ys) (c - 48))
        ∙ luhn_sum-append (reverse (digits_of ys)) ((c - 48) ∷ reverse (digits_of xs)) 0)

fits_in :
    (xs ys : Text) (x : ℕ)
    → 9 * (length xs + length ys + 1) < 2 ^ 32
    → 9 * length (digits_of (xs ++ x ∷ ys)) < 2 ^ 32
fits_in xs ys x h = omega (arith, length-digits_of-le (xs ++ x ∷ ys), length-append {0} xs (x ∷ ys))

valid_split :
    (xs ys : Text) (c : ℕ)
    → is_ascii_digit c ≡ true
    → 9 * (length xs + length ys + 1) < 2 ^ 32
    → luhn_valid (xs ++ c ∷ ys) ≡ true
    → (luhn_sum 0 (reverse (digits_of ys))
          + (weight (0 + length (reverse (digits_of ys))) (c - 48)
              + luhn_sum (0 + length (reverse (digits_of ys)) + 1) (reverse (digits_of xs))))
        % 10
      ≡ 0
valid_split xs ys c h fits valid =
    ap (λ (n : ℕ). n % 10) (sym (sum_split xs ys c h))
    ∙ valid-sum (xs ++ c ∷ ys) (fits_in xs ys c fits) valid

-- Of two digits at one place of a number only one makes it valid.
same_digit :
    (xs ys : Text) (c d : ℕ)
    → is_ascii_digit c ≡ true
    → is_ascii_digit d ≡ true
    → 9 * (length xs + length ys + 1) < 2 ^ 32
    → luhn_valid (xs ++ c ∷ ys) ≡ true
    → luhn_valid (xs ++ d ∷ ys) ≡ true
    → c ≡ d
same_digit xs ys c d hc hd fits valid other =
    let i : ℕ = 0 + length (reverse (digits_of ys)) in
    let (c_low, c_high) = digit_bounds c hc in
    let (d_low, d_high) = digit_bounds d hd in
    let same =
      one_digit_per_sum _ _ (weight i (c - 48)) (weight i (d - 48))
        (weight-le_nine i (c - 48) (omega arith)) (weight-le_nine i (d - 48) (omega arith))
        (valid_split xs ys c hc fits valid) (valid_split xs ys d hd fits other) in
    omega (arith, weight_injective i (c - 48) (d - 48) (omega arith) (omega arith) same)

-- No two numbers that differ in one digit both pass the checksum, so that a single mistyped digit
-- always makes a valid card number invalid. The bound on the length keeps the 32-bit sum exact.
pub single_digit_error :
    (xs ys : Text) (c d : ℕ)
    → is_ascii_digit c ≡ true
    → is_ascii_digit d ≡ true
    → c ≢ d
    → 9 * (length xs + length ys + 1) < 2 ^ 32
    → luhn_valid (xs ++ c ∷ ys) ≡ true
    → luhn_valid (xs ++ d ∷ ys) ≡ false
single_digit_error xs ys c d hc hd ne fits valid = elim (Bool-cases (luhn_valid (xs ++ d ∷ ys))) [
  | inl other ↦ absurd (ne (same_digit xs ys c d hc hd fits valid other))
  | inr other ↦ other
]
