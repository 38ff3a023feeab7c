-- ===== src/Redaction/Luhn/Window.antt =====
-- What the search for a card number finds, and what it rules out.
use native.Mathlib.Decide.{ℕ_discrete}
use hidden_steps.Prelude.{
  Bool-cases, List, Option-cases, Text, arith, false, inl, inr, length, ltb, map, max, min, none,
  not_ltb→le, some, suc, true, zero, ℕ, ◌+◌, ◌-◌, ◌<◌, ◌≡◌, ◌≤◌,
}
use hidden_steps.Redaction.Luhn.{
  digit_positions, find_luhn_valid_window, is_card, luhn_valid, span_of, try_lens, try_starts,
  window,
}

-- A window of the digits that passes the checksum, with its byte range.
record Card (positions : List (ℕ × ℕ)) (len : ℕ) (first count : ℕ) (found : ℕ × ℕ) : Type 0 where
  idx : ℕ
  after_first : first ≤ idx
  before_end : idx < first + count
  valid : is_card (window positions len idx) ≡ true
  range : found ≡ span_of (window positions len idx)

module _ (positions : List (ℕ × ℕ)) (len : ℕ) where
  try_starts_sound :
      (count idx : ℕ) (found : ℕ × ℕ)
      → try_starts positions len count idx ≡ some found
      → Card positions len idx count found
  unfolding try_starts
  try_starts_sound zero idx found h = absurd (cc h)
  try_starts_sound (suc count) idx found h =
      elim (Bool-cases (is_card (window positions len idx))) [
        | inl e ↦ record {
          idx = idx;
          after_first = omega arith;
          before_end = omega arith;
          valid = e;
          range = ground arith;
        }
        | inr e ↦
            let c = try_starts_sound count (idx + 1) found (ground arith) in
            record {
              idx = c.idx;
              after_first = omega (arith, c.after_first);
              before_end = omega (arith, c.before_end);
              valid = c.valid;
              range = c.range;
            }
      ]

  try_starts-none :
      (count idx : ℕ)
      → try_starts positions len count idx ≡ none
      → (j : ℕ) → idx ≤ j
      → j < idx + count
      → is_card (window positions len j) ≡ false
  unfolding try_starts
  try_starts-none zero idx h j low high = absurd (omega arith)
  try_starts-none (suc count) idx h j low high = elim (ℕ_discrete idx j) [
    | yes e ↦ rw (← e) (ground arith)
    | no e ↦ try_starts-none count (idx + 1) (ground arith) j (omega arith) (omega arith)
  ]

record CardOfLength (positions : List (ℕ × ℕ)) (low high : ℕ) (found : ℕ × ℕ) : Type 0 where
  len : ℕ
  above : low ≤ len
  below : len < high
  card : Card positions len 0 (length positions - len + 1) found

module _ (positions : List (ℕ × ℕ)) (min_len : ℕ) where
  try_lens_sound :
      (count : ℕ) (found : ℕ × ℕ)
      → try_lens positions min_len count ≡ some found
      → CardOfLength positions min_len (min_len + count) found
  unfolding try_lens
  try_lens_sound zero found h = absurd (cc h)
  try_lens_sound (suc count) found h =
      let len : ℕ = min_len + count in
      elim (Option-cases (try_starts positions len (length positions - len + 1) 0)) [
        | inl e ↦
            let c = try_lens_sound count found (ground arith) in
            record { len = c.len; above = c.above; below = omega (arith, c.below); card = c.card }
        | inr (f, e) ↦ record {
          len = len;
          above = omega arith;
          below = omega arith;
          card = try_starts_sound positions len (length positions - len + 1) 0 found (ground arith);
        }
      ]

  try_lens-none :
      (count : ℕ)
      → try_lens positions min_len count ≡ none
      → (len idx : ℕ) → min_len ≤ len
      → len < min_len + count
      → idx < length positions - len + 1
      → is_card (window positions len idx) ≡ false
  unfolding try_lens
  try_lens-none zero h len idx low high inside = absurd (omega arith)
  try_lens-none (suc count) h len idx low high inside = elim (ℕ_discrete len (min_len + count)) [
    | yes e ↦
        try_starts-none positions len (length positions - len + 1) 0 (rw e (ground arith)) idx
          (omega arith) (omega arith)
    | no e ↦ try_lens-none count (ground arith) len idx low (omega arith) inside
  ]

-- A card number in a run of digits: a window of 13 to 19 digits, at most one digit shorter than the
-- run (or than 19), that passes the checksum and whose bytes are the range.
pub record FoundCard (positions : List (ℕ × ℕ)) (found : ℕ × ℕ) : Type 0 where
  pub len : ℕ
  pub idx : ℕ
  pub at_least_13 : 13 ≤ len
  pub at_most_19 : len ≤ 19
  pub nearly_all : min (length positions) 19 ≤ len + 1
  pub inside : idx + len ≤ length positions
  pub passes : luhn_valid (map (λ (p : ℕ × ℕ). p.0) (window positions len idx)) ≡ true
  pub range : found ≡ span_of (window positions len idx)

-- What the search returns is the byte range of a card number: a window of the run's digits that
-- passes the checksum, of 13 to 19 digits and at most one digit short of the whole run.
pub find_sound :
    (candidate : Text) (start : ℕ) (found : ℕ × ℕ)
    → find_luhn_valid_window candidate start ≡ some found
    → FoundCard (digit_positions start candidate) found
unfolding find_luhn_valid_window
find_sound candidate start found h =
    elim (Bool-cases (ltb (length (digit_positions start candidate)) 13)) [
      | inl few ↦ absurd (cc (rw few at h))
      | inr enough ↦
          let positions = digit_positions start candidate in
          let max_len : ℕ = min (length positions) 19 in
          let min_len : ℕ = max (max_len - 1) 13 in
          let c = try_lens_sound positions min_len (max_len + 1 - min_len) found (rw enough at h) in
          let total = not_ltb→le (length positions) 13 enough in
          record {
            len = c.len;
            idx = c.card.idx;
            at_least_13 = omega (arith, c.above, c.below, total);
            at_most_19 = omega (arith, c.above, c.below, total);
            nearly_all = omega (arith, c.above, c.below, total);
            inside = omega (arith, c.above, c.below, total, c.card.before_end);
            passes = unfold is_card in c.card.valid;
            range = c.card.range;
          }
    ]

-- If the search finds nothing in a run of at least 13 digits, then no window of an admissible length
-- passes the checksum: not the whole run, and not the run less one digit.
pub find_complete :
    (candidate : Text) (start len idx : ℕ)
    → 13 ≤ length (digit_positions start candidate)
    → find_luhn_valid_window candidate start ≡ none
    → 13 ≤ len
    → len ≤ min (length (digit_positions start candidate)) 19
    → min (length (digit_positions start candidate)) 19 ≤ len + 1
    → idx + len ≤ length (digit_positions start candidate)
    → luhn_valid (map (λ (p : ℕ × ℕ). p.0) (window (digit_positions start candidate) len idx))
      ≡ false
unfolding find_luhn_valid_window is_card
find_complete candidate start len idx enough h low high near inside =
    let positions = digit_positions start candidate in
    let max_len : ℕ = min (length positions) 19 in
    let min_len : ℕ = max (max_len - 1) 13 in
    try_lens-none positions min_len (max_len + 1 - min_len) (ground arith) len idx (omega arith)
      (omega arith) (omega arith)
