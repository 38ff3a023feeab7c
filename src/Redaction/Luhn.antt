-- ===== src/Redaction/Luhn.antt =====
-- detectors.rs: the checksum of card numbers, and the search for a card in a run of digits.
pub mod Errors
pub mod Window
pub mod Range
use mathlib.Core.List.{reverse}
use hidden_steps.Prelude.{
  Bool, List, Option, Text, [], drop, false, if◌then◌else◌, leb, length, ltb, map, max, min, none,
  some, suc, take, zero, ℕ, ◌%◌, ◌&&◌, ◌*◌, ◌+◌, ◌-◌, ◌==◌, ◌^◌, ◌∷◌,
}

unfoldable pub is_ascii_digit : ℕ → Bool
is_ascii_digit c = leb b'0' c && leb c b'9'

-- `filter_map(|c| c.to_digit(10))`
unfoldable pub digits_of : Text → List ℕ
unfolding is_ascii_digit
digits_of [] = []
digits_of (c ∷ s) = if is_ascii_digit c then (c - 48) ∷ digits_of s else digits_of s

-- What the digit at index `i` from the right adds to the sum.
weight : ℕ → ℕ → ℕ
weight i d =
    if i % 2 == 1
    then (let doubled = d * 2 in if ltb 9 doubled then doubled - 9 else doubled)
    else d

-- The loop over the reversed digits, on a 32-bit sum.
unfoldable pub luhn_loop : ℕ → ℕ → List ℕ → ℕ
unfolding weight
luhn_loop sum i [] = sum
luhn_loop sum i (d ∷ ds) = luhn_loop ((sum + weight i d) % 2 ^ 32) (i + 1) ds

unfoldable pub luhn_valid : Text → Bool
unfolding digits_of luhn_loop
luhn_valid text =
    let digits = digits_of text in
    if ltb (length digits) 13 then false else luhn_loop 0 0 (reverse digits) % 10 == 0

-- `char_indices().filter(is_ascii_digit)`, each digit with its byte offset in the whole text. The
-- bytes of a character that is no digit are no digits either.
unfoldable pub digit_positions : ℕ → Text → List (ℕ × ℕ)
unfolding is_ascii_digit
digit_positions at [] = []
digit_positions at (c ∷ s) =
    if is_ascii_digit c then (c, at) ∷ digit_positions (at + 1) s else digit_positions (at + 1) s

-- The byte range of a window: from its first digit to behind its last one.
last_position : ℕ → List (ℕ × ℕ) → ℕ
last_position p [] = p
last_position p ((_, q) ∷ w) = last_position q w

unfoldable pub span_of : List (ℕ × ℕ) → ℕ × ℕ
unfolding last_position
span_of [] = (0, 0)
span_of ((_, p) ∷ w) = (p, last_position p w + 1)

unfoldable pub window : List (ℕ × ℕ) → ℕ → ℕ → List (ℕ × ℕ)
window positions len idx = take len (drop idx positions)

is_card : List (ℕ × ℕ) → Bool
unfolding luhn_valid
is_card w = luhn_valid (map (λ (p : ℕ × ℕ). p.0) w)

-- The start indices from `idx` on, `count` of them.
try_starts : List (ℕ × ℕ) → ℕ → ℕ → ℕ → Option (ℕ × ℕ)
unfolding window is_card span_of
try_starts positions len zero idx = none
try_starts positions len (suc count) idx =
    let w = window positions len idx in
    let rest = try_starts positions len count (idx + 1) in
    if is_card w then some (span_of w) else rest

-- The window lengths from `min_len + count - 1` down to `min_len`.
try_lens : List (ℕ × ℕ) → ℕ → ℕ → Option (ℕ × ℕ)
unfolding try_starts
try_lens positions min_len zero = none
try_lens positions min_len (suc count) =
    let len = min_len + count in
    let shorter = try_lens positions min_len count in
    elim (try_starts positions len (length positions - len + 1) 0) [
      | some found ↦ some found
      | none ↦ shorter
    ]

unfoldable pub find_luhn_valid_window : Text → ℕ → Option (ℕ × ℕ)
unfolding digit_positions try_lens
find_luhn_valid_window candidate candidate_start =
    let positions = digit_positions candidate_start candidate in
    let total = length positions in
    let max_len = min total 19 in
    let min_len = max (max_len - 1) 13 in
    if ltb total 13 then none else try_lens positions min_len (max_len + 1 - min_len)
