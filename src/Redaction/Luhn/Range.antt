-- ===== src/Redaction/Luhn/Range.antt =====
-- Where the bytes of a card number lie.
use hidden_steps.Prelude.{
  All, All-drop, All-map, All-take, Bool-cases, List, Text, [], arith, drop, inl, inr, length,
  length-drop, length-take, some, suc, take, zero, ℕ, ◌+◌, ◌<◌, ◌∷◌, ◌≡◌, ◌≤◌,
}
use hidden_steps.Redaction.Luhn.{
  digit_positions, find_luhn_valid_window, is_ascii_digit, last_position, span_of, window,
}
use hidden_steps.Redaction.Luhn.Window.{find_sound}

-- Positions that grow, from `low` on.
abbrev Ascends : ℕ → List (ℕ × ℕ) → Type 0
Ascends low [] = Unit
Ascends low ((c, p) ∷ w) = (low ≤ p) × Ascends (p + 1) w

Ascends-weaken : (w : List (ℕ × ℕ)) (low low' : ℕ) → low' ≤ low → Ascends low w → Ascends low' w
Ascends-weaken [] low low' h a = tt
Ascends-weaken ((c, p) ∷ w) low low' h a = (omega arith, a.1)

Ascends-drop : (n : ℕ) (w : List (ℕ × ℕ)) (low : ℕ) → Ascends low w → Ascends low (drop n w)
Ascends-drop zero w low a = a
Ascends-drop (suc n) [] low a = tt
Ascends-drop (suc n) ((c, p) ∷ w) low a =
    Ascends-weaken (drop n w) (p + 1) low (omega arith) (Ascends-drop n w (p + 1) a.1)

Ascends-take : (n : ℕ) (w : List (ℕ × ℕ)) (low : ℕ) → Ascends low w → Ascends low (take n w)
Ascends-take zero w low a = tt
Ascends-take (suc n) [] low a = tt
Ascends-take (suc n) ((c, p) ∷ w) low a = (a.0, Ascends-take n w (p + 1) a.1)

Ascends-digit_positions : (s : Text) (at : ℕ) → Ascends at (digit_positions at s)
unfolding digit_positions
Ascends-digit_positions [] at = tt
Ascends-digit_positions (c ∷ s) at =
    let later = Ascends-digit_positions s (at + 1) in
    elim (Bool-cases (is_ascii_digit c)) [
      | inl e ↦ rw e (omega arith, later)
      | inr e ↦ rw e (Ascends-weaken (digit_positions (at + 1) s) (at + 1) at (omega arith) later)
    ]

Below-digit_positions :
    (s : Text) (at : ℕ) → All (λ (p : ℕ × ℕ). p.1 < at + length s) (digit_positions at s)
unfolding digit_positions
Below-digit_positions [] at = tt
Below-digit_positions (c ∷ s) at =
    let later =
      All-map (λ (p : ℕ × ℕ). p.1 < at + 1 + length s) {Q = λ p. p.1 < at + suc (length s)}
        (λ p h. omega arith) (digit_positions (at + 1) s) (Below-digit_positions s (at + 1)) in
    elim (Bool-cases (is_ascii_digit c)) [ inl e ↦ rw e (omega arith, later) | inr e ↦ rw e later ]

last_position-bounds :
    (w : List (ℕ × ℕ)) (p high : ℕ)
    → Ascends (p + 1) w
    → All (λ (q : ℕ × ℕ). q.1 < high) w
    → p < high
    → (p ≤ last_position p w) × (last_position p w < high)
unfolding last_position
last_position-bounds [] p high a b h = (omega arith, h)
last_position-bounds ((c, q) ∷ w) p high a b h =
    let rest = last_position-bounds w q high a.1 b.1 b.0 in (omega arith, rest.1)

span-bounds :
    (w : List (ℕ × ℕ)) (low high : ℕ)
    → 0 < length w
    → Ascends low w
    → All (λ (q : ℕ × ℕ). q.1 < high) w
    → (low ≤ (span_of w).0) × ((span_of w).0 < (span_of w).1) × ((span_of w).1 ≤ high)
unfolding span_of
span-bounds [] low high h a b = absurd (omega arith)
span-bounds ((c, p) ∷ w) low high h a b =
    let rest = last_position-bounds w p high a.1 b.1 b.0 in
    (a.0, omega (arith, rest.0), omega (arith, rest.1))

length-window :
    (positions : List (ℕ × ℕ)) (len idx : ℕ)
    → idx + len ≤ length positions
    → length (window positions len idx) ≡ len
unfolding window
length-window positions len idx h =
    length-take len (drop idx positions) (omega (arith, length-drop {0} idx positions))

-- The range that the search returns is not empty and lies within the candidate.
find_within :
    (candidate : Text) (start : ℕ) (found : ℕ × ℕ)
    → find_luhn_valid_window candidate start ≡ some found
    → (start ≤ found.0) × (found.0 < found.1) × (found.1 ≤ start + length candidate)
unfolding window
find_within candidate start found h =
    let c = find_sound candidate start found h in
    let positions = digit_positions start candidate in
    let w = window positions c.len c.idx in
    let bounds =
      span-bounds w start (start + length candidate)
        (omega (arith, length-window positions c.len c.idx c.inside, c.at_least_13))
        (Ascends-take c.len (drop c.idx positions) start
          (Ascends-drop c.idx positions start (Ascends-digit_positions candidate start)))
        (All-take (λ (q : ℕ × ℕ). q.1 < start + length candidate) c.len (drop c.idx positions)
          (All-drop (λ (q : ℕ × ℕ). q.1 < start + length candidate) c.idx positions
            (Below-digit_positions candidate start))) in
    rw c.range bounds
