-- ===== src/Recommendations/Counts.antt =====
-- crates/recommendations/src/validate.rs: the counts that a text mentions. What the regular
-- expressions match is a parameter: the range of a match and the words that it captures.
pub mod Agree
use hidden_steps.Prelude.{
  Bool, List, Option, Text, [], and_then, any, codes, if◌then◌else◌, leb, map, none, not, some,
  text_eq, ℕ, ◌&&◌, ◌++◌, ◌+◌, ◌==◌, ◌∷◌,
}
use hidden_steps.Redaction.Numbers.{parse_u32}

pub record CountMatchers : Type 0 where
  pub occurrence_mention : Text → List (ℕ × ℕ × Option Text)
  pub spelled_compound : Text → List (ℕ × ℕ × Text × Text)
  pub spelled_single : Text → List (ℕ × ℕ × Text)
  pub once_or_twice : Text → List (ℕ × ℕ × Text)

abbrev pub Mention : Type 0
Mention = ℕ × ℕ × ℕ

-- `u8::to_ascii_lowercase`
pub to_ascii_lowercase : ℕ → ℕ
to_ascii_lowercase c = if leb b'A' c && leb c b'Z' then c + 32 else c

-- The value of the first entry whose word this is.
word_value : List (Text × ℕ) → Text → Option ℕ
word_value [] word = none
word_value ((w, n) ∷ table) word = if text_eq w word then some n else word_value table word

unfoldable pub ones_word_value : Text → Option ℕ
unfolding word_value to_ascii_lowercase
ones_word_value word =
    word_value
      ((codes "one", 1)
        ∷ (codes "two", 2)
        ∷ (codes "three", 3)
        ∷ (codes "four", 4)
        ∷ (codes "five", 5)
        ∷ (codes "six", 6)
        ∷ (codes "seven", 7)
        ∷ (codes "eight", 8)
        ∷ (codes "nine", 9)
        ∷ (codes "ten", 10)
        ∷ (codes "eleven", 11)
        ∷ (codes "twelve", 12)
        ∷ (codes "thirteen", 13)
        ∷ (codes "fourteen", 14)
        ∷ (codes "fifteen", 15)
        ∷ (codes "sixteen", 16)
        ∷ (codes "seventeen", 17)
        ∷ (codes "eighteen", 18)
        ∷ (codes "nineteen", 19)
        ∷ [])
      (map to_ascii_lowercase word)

unfoldable pub tens_word_value : Text → Option ℕ
unfolding word_value to_ascii_lowercase
tens_word_value word =
    word_value
      ((codes "twenty", 20)
        ∷ (codes "thirty", 30)
        ∷ (codes "forty", 40)
        ∷ (codes "fifty", 50)
        ∷ (codes "sixty", 60)
        ∷ (codes "seventy", 70)
        ∷ (codes "eighty", 80)
        ∷ (codes "ninety", 90)
        ∷ [])
      (map to_ascii_lowercase word)

push_some : ℕ → ℕ → Option ℕ → List Mention → List Mention
push_some start finish none mentions = mentions
push_some start finish (some n) mentions = mentions ++ ((start, finish, n) ∷ [])

digits_loop : List (ℕ × ℕ × Option Text) → List Mention → List Mention
unfolding push_some
digits_loop [] mentions = mentions
digits_loop ((start, finish, word) ∷ ms) mentions =
    digits_loop ms (push_some start finish (and_then word parse_u32) mentions)

compound_loop : List (ℕ × ℕ × Text × Text) → List Mention → List Mention
unfolding push_some
compound_loop [] mentions = mentions
compound_loop ((start, finish, tens, ones) ∷ ms) mentions = compound_loop ms (
    push_some start finish
      (and_then (tens_word_value tens) λ t. and_then (ones_word_value ones) λ o. some (t + o))
      mentions)

pub or_else : Option ℕ → Option ℕ → Option ℕ
or_else (some n) o = some n
or_else none o = o

single_loop : List (ℕ × ℕ × Text) → List Mention → List Mention
unfolding push_some or_else
single_loop [] mentions = mentions
single_loop ((start, finish, word) ∷ ms) mentions =
    let inside_compound = any (λ (m : Mention). leb m.0 start && leb finish m.1) mentions in
    single_loop ms (
      if inside_compound
      then mentions
      else push_some start finish (or_else (ones_word_value word) (tens_word_value word)) mentions)

once_loop : List (ℕ × ℕ × Text) → List Mention → List Mention
unfolding to_ascii_lowercase
once_loop [] mentions = mentions
once_loop ((start, finish, word) ∷ ms) mentions =
    let n = if text_eq (map to_ascii_lowercase word) (codes "once") then 1 else 2 in
    once_loop ms (mentions ++ ((start, finish, n) ∷ []))

module _ (m : CountMatchers) where
  unfoldable pub mentioned_counts : Text → List (ℕ × ℕ × ℕ)
  unfolding digits_loop compound_loop single_loop once_loop
  mentioned_counts text = once_loop (m.once_or_twice text) (
      single_loop (m.spelled_single text)
        (compound_loop (m.spelled_compound text) (digits_loop (m.occurrence_mention text) [])))

  unfoldable pub contradicts_occurrence_count : Text → ℕ → Bool
  unfolding mentioned_counts
  contradicts_occurrence_count text actual_count =
      any (λ (x : ℕ × ℕ × ℕ). not (x.2 == actual_count)) (mentioned_counts text)
