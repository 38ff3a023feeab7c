-- ===== src/Recommendations/Extract/Object.antt =====
-- What is extracted from an answer is its first object, by a description of texts that close what
-- they depth.
use mathlib.Core.Option
use hidden_steps.Prelude.{
  Bool, Bool-cases, Option, Text, [], and_then-eq-some, any, ap, arith, false, inl, inr, none, refl,
  some, some_inj, subst, suc, sym, true, zero, ℕ, ◌++◌, ◌+◌, ◌-◌, ◌==◌, ◌↔◌, ◌∙◌, ◌∷◌, ◌≡◌,
}
use hidden_steps.Recommendations.Extract.{
  Scanner, closes, extract_json_object, from_brace, object_from, outside, step,
}

-- Texts that close `depth` open braces and end with the last of them; the second index says whether the
-- text begins in a string. In a string a backslash takes the next character with it, a quotation
-- mark ends it, and braces do not count.
pub data Closing : (depth : ℕ) (in_string : Bool) → Text → Type 0 where
  last_closed : {c : ℕ} → c ≡ b'}' → Closing 1 false (c ∷ [])
  one_closed :
      {depth c : ℕ} {s : Text}
      → c ≡ b'}'
      → Closing (suc depth) false s
      → Closing (suc (suc depth)) false (c ∷ s)
  one_opened :
      {depth c : ℕ} {s : Text}
      → c ≡ b'{'
      → Closing (suc (suc depth)) false s
      → Closing (suc depth) false (c ∷ s)
  string_begun :
      {depth c : ℕ} {s : Text}
      → c ≡ b'"'
      → Closing (suc depth) true s
      → Closing (suc depth) false (c ∷ s)
  other :
      {depth c : ℕ} {s : Text}
      → (c == b'"') ≡ false
      → (c == b'{') ≡ false
      → (c == b'}') ≡ false
      → Closing (suc depth) false s
      → Closing (suc depth) false (c ∷ s)
  string_ended :
      {depth c : ℕ} {s : Text}
      → c ≡ b'"'
      → Closing (suc depth) false s
      → Closing (suc depth) true (c ∷ s)
  escaped_taken :
      {depth c d : ℕ} {s : Text}
      → c ≡ b'\\'
      → Closing (suc depth) true s
      → Closing (suc depth) true (c ∷ d ∷ s)
  in_string_other :
      {depth c : ℕ} {s : Text}
      → (c == b'"') ≡ false
      → (c == b'\\') ≡ false
      → Closing (suc depth) true s
      → Closing (suc depth) true (c ∷ s)

-- A piece of a text that begins at its first opening brace, closes all that it opens, and ends there.
pub record IsObjectIn (text out : Text) : Type 0 where
  pub before : Text
  pub inside : Text
  pub after : Text
  pub pieces : text ≡ before ++ (out ++ after)
  pub at_first_brace : any (λ c. c == b'{') before ≡ false
  pub opens : out ≡ b'{' ∷ inside
  pub closed : Closing 1 false inside

abbrev at : ℕ → Bool → Bool → Scanner
at depth in_string escaped = record { depth = depth; in_string = in_string; escaped = escaped }

cons_some :
    (c : ℕ) (o : Option Text) {t : Text} → o ≡ some t → Option.map (λ t. c ∷ t) o ≡ some (c ∷ t)
cons_some c o e = rw e refl

is_code : (c b : ℕ) → (c == b) ≡ true → c ≡ b
is_code c b h = ground arith

down : (depth : ℕ) → suc depth - 1 ≡ depth
down depth = omega arith

up : (depth : ℕ) → suc depth + 1 ≡ suc (suc depth)
up depth = omega arith

still_open : (depth : ℕ) → (suc depth == 0) ≡ false
still_open depth = ground arith

-- A text that closes what is open is what the loop takes, whatever follows.
Closing-object_from :
    {depth : ℕ} {in_string : Bool} {s : Text} (after : Text)
    → Closing depth in_string s
    → object_from (at depth in_string false) (s ++ after) ≡ some s
unfolding object_from closes step
Closing-object_from after (last_closed e) = rw e refl
Closing-object_from after (one_closed {depth = depth} e r) =
    rw e (rw (down (suc depth), still_open depth) (cons_some _ _ (Closing-object_from after r)))
Closing-object_from after (one_opened {depth = depth} e r) =
    rw e (rw (up depth) (cons_some _ _ (Closing-object_from after r)))
Closing-object_from after (string_begun e r) = rw e (cons_some _ _ (Closing-object_from after r))
Closing-object_from after (other q o c r) =
    rw (q, o, c) (cons_some _ _ (Closing-object_from after r))
Closing-object_from after (string_ended e r) = rw e (cons_some _ _ (Closing-object_from after r))
Closing-object_from after (escaped_taken e r) =
    rw e (cons_some _ _ (cons_some _ _ (Closing-object_from after r)))
Closing-object_from after (in_string_other q b r) =
    rw (q, b) (cons_some _ _ (Closing-object_from after r))

map_cons :
    (ch : ℕ) (o : Option Text) (out : Text)
    → Option.map (λ t. ch ∷ t) o ≡ some out
    → (t : Text) × (o ≡ some t) × (out ≡ ch ∷ t)
map_cons ch none out h = cc
map_cons ch (some t) out h = (t, refl, sym (some_inj h))

Closing-brace :
    (depth : ℕ) (s out : Text)
    → ((rest : ℕ) (t : Text)
        → object_from (at (suc rest) false false) s ≡ some t
        → Closing (suc rest) false t)
    → object_from (at (suc depth) false false) (b'}' ∷ s) ≡ some out
    → Closing (suc depth) false out
unfolding object_from closes step
Closing-brace zero s out later h = subst (Closing 1 false) (some_inj h) (last_closed refl)
Closing-brace (suc depth) s out later h =
    let (t, found, made) = map_cons b'}' _ out (rw (down (suc depth), still_open depth) at h) in
    rw made (one_closed refl (later depth t found))

-- What the loop takes from a state: after a backslash, any character first.
Taken : ℕ → Bool → Bool → Text → Type 0
Taken depth in_string false out = Closing depth in_string out
Taken depth false true out = Unit
Taken depth true true out = (c : ℕ) × (t : Text) × (out ≡ c ∷ t) × Closing depth true t

-- What the loop takes closes what is open.
object_from-Closing :
    (depth : ℕ) (in_string escaped : Bool) (s out : Text)
    → object_from (at (suc depth) in_string escaped) s ≡ some out
    → Taken (suc depth) in_string escaped out
unfolding object_from closes step Taken
object_from-Closing depth false true s out h = tt
object_from-Closing depth false false [] out h = absurd (cc h)
object_from-Closing depth true false [] out h = absurd (cc h)
object_from-Closing depth true true [] out h = absurd (cc h)
object_from-Closing depth true true (c ∷ s) out h =
    let (t, found, made) = map_cons c _ out h in
    (c, t, made, object_from-Closing depth true false s t found)
object_from-Closing depth true false (c ∷ s) out h = elim (Bool-cases (c == b'\\')) [
  | inl e ↦
      let (t, found, made) = map_cons c _ out (rw e at h) in
      let (d, rest, split, closing) = object_from-Closing depth true true s t found in
      rw (made, split) (escaped_taken (is_code c b'\\' e) closing)
  | inr e ↦ elim (Bool-cases (c == b'"')) [
    | inl q ↦
        let (t, found, made) = map_cons c _ out (rw (e, q) at h) in
        rw made (string_ended (is_code c b'"' q) (object_from-Closing depth false false s t found))
    | inr q ↦
        let (t, found, made) = map_cons c _ out (rw (e, q) at h) in
        rw made (in_string_other q e (object_from-Closing depth true false s t found))
  ]
]
object_from-Closing depth false false (c ∷ s) out h = elim (Bool-cases (c == b'}')) [
  | inl e ↦
      Closing-brace depth s out (λ rest t found. object_from-Closing rest false false s t found)
        (subst (λ c. object_from (at (suc depth) false false) (c ∷ s) ≡ some out) (is_code c b'}' e)
          h)
  | inr e ↦ elim (Bool-cases (c == b'"')) [
    | inl q ↦
        let (t, found, made) = map_cons c _ out (rw (e, q) at h) in
        rw made (string_begun (is_code c b'"' q) (object_from-Closing depth true false s t found))
    | inr q ↦ elim (Bool-cases (c == b'{')) [
      | inl o ↦
          let (t, found, made) = map_cons c _ out (rw (up depth) at (rw (e, q, o) at h)) in
          rw made
            (one_opened (is_code c b'{' o) (object_from-Closing (suc depth) false false s t found))
      | inr o ↦
          let (t, found, made) = map_cons c _ out (rw (e, q, o) at h) in
          rw made (other q o e (object_from-Closing depth false false s t found))
    ]
  ]
]

from_brace-first :
    (text s : Text)
    → from_brace text ≡ some s
    → (before : Text) × (inside : Text) × (text ≡ before ++ (b'{' ∷ inside))
      × (any (λ c. c == b'{') before ≡ false)
      × (s ≡ b'{' ∷ inside)
unfolding from_brace
from_brace-first [] s h = cc
from_brace-first (c ∷ text) s h = elim (Bool-cases (c == b'{')) [
  | inl e ↦
      let brace = ap (λ c. c ∷ text) (is_code c b'{' e) in
      ([], text, brace, refl, sym (some_inj (rw e at h)) ∙ brace)
  | inr e ↦
      let (before, inside, pieces, free, split) = from_brace-first text s (rw e at h) in
      (c ∷ before, inside, ap (λ l. c ∷ l) pieces, rw (e, free) refl, split)
]

from_brace-found :
    (before rest : Text)
    → any (λ c. c == b'{') before ≡ false
    → from_brace (before ++ (b'{' ∷ rest)) ≡ some (b'{' ∷ rest)
unfolding from_brace
from_brace-found [] rest h = refl
from_brace-found (c ∷ before) rest h = elim (Bool-cases (c == b'{')) [
  | inl e ↦ absurd (cc (rw e at h))
  | inr e ↦ rw e (from_brace-found before rest (rw e at h))
]

object_from-prefix :
    (st : Scanner) (s out : Text)
    → object_from st s ≡ some out
    → (after : Text) × (s ≡ out ++ after)
unfolding object_from
object_from-prefix st [] out h = cc
object_from-prefix st (ch ∷ s) out h = elim (Bool-cases (closes st ch)) [
  | inl e ↦ (s, ap (λ l. l ++ s) (some_inj (rw e at h)))
  | inr e ↦
      let (t, found, made) = map_cons ch _ out (rw e at h) in
      let (after, split) = object_from-prefix (step st ch) s t found in
      (after, rw made (ap (λ l. ch ∷ l) split))
]

-- A text is extracted exactly when it is the first object: a piece that begins at the first opening
-- brace, closes all braces that it opens outside of strings, and ends with the first brace that does.
pub extract_json_object-IsObjectIn :
    (text out : Text) → (extract_json_object text ≡ some out) ↔ IsObjectIn text out
unfolding extract_json_object object_from closes step Taken
extract_json_object-IsObjectIn text out = (
  λ h.
      let (s, found, taken) = and_then-eq-some (from_brace text) (object_from outside) h in
      let (before, inside, pieces, free, split) = from_brace-first text s found in
      let (t, rest, made) =
        map_cons b'{' _ out (subst (λ l. object_from outside l ≡ some out) split taken) in
      let (after, tail) = object_from-prefix (at 1 false false) inside t rest in
      record {
        before = before;
        inside = t;
        after = after;
        pieces = pieces ∙ rw made (ap (λ l. before ++ (b'{' ∷ l)) tail);
        at_first_brace = free;
        opens = made;
        closed = object_from-Closing 0 false false inside t rest;
      },
  λ object.
      rw (object.pieces, object.opens)
        (rw (from_brace-found object.before (object.inside ++ object.after) object.at_first_brace)
          (cons_some b'{' _ (Closing-object_from object.after object.closed))),
)
