-- ===== src/Redaction/Detect/Tiers.antt =====
-- Ambiguous tokens are only looked for where nothing was found with high confidence.
use hidden_steps.Prelude.{
  All, All-any-false, All-append, All-map, Bool, List, Option, Text, [], and_then-eq-some, any,
  arith, false, if◌then◌else◌, none, not, refl, some, some_inj, subst, true, ℕ, ◌&&◌, ◌++◌, ◌<◌,
  ◌∷◌, ◌≡◌, ◌≤◌,
}
use hidden_steps.Float.{Float}
use hidden_steps.Redaction.{
  Category, Detection, ambiguous, api_key_or_token, credit_card, email, high, medical, password,
  private_key,
}
use hidden_steps.Redaction.Luhn.{find_luhn_valid_window}
use hidden_steps.Redaction.Engine.{is_ambiguous}
use hidden_steps.Redaction.Detect.Sort.{All-sort, detect_all_sorts}
use hidden_steps.Redaction.Detect.{
  Matchers, Span, SsnMatch, ambiguous_from, before_dashless, card_detections, certain,
  dashless_detections, detect_all, group_detections, judge_ssn, looks_secret, piece, push_matches,
  ranges_overlap, sort_by_start, span_at, split_ssn, ssn_detections, sure, unsorted, unsure,
}

-- The test of the code, of an ambiguous detection and one of high confidence.
unfoldable clashes : Detection → Detection → Bool
unfolding is_ambiguous ranges_overlap
clashes a d = is_ambiguous a && (not (is_ambiguous d) && ranges_overlap (span_at d) (span_at a))

abbrev NoClash : List Detection → Type 0
NoClash ds = All (λ a. All (λ d. clashes a d ≡ false) ds) ds

-- An ambiguous detection and one of high confidence that have a byte in common.
abbrev pub Clash : Detection → Detection → Type 0
Clash a d =
    (a.confidence ≡ ambiguous)
    × (d.confidence ≡ high)
    × ((i : ℕ) × (a.start ≤ i) × (i < a.end) × (d.start ≤ i) × (i < d.end))

clashes-Clash : (a d : Detection) → clashes a d ≡ false → ¬ Clash a d
unfolding clashes is_ambiguous ranges_overlap
clashes-Clash a d h (unsure_one, sure_one, (i, from, before, from_too, before_too)) =
    ground (arith, h, unsure_one, sure_one, from, before, from_too, before_too)

abbrev pub Sure : Detection → Type 0
Sure d = d.confidence ≡ high

Sure-NoClash-row : (a d : Detection) → Sure a → clashes a d ≡ false
unfolding clashes
Sure-NoClash-row a d h = ground arith

Sure-NoClash :
    (ds es : List Detection) → All Sure ds → All (λ a. All (λ d. clashes a d ≡ false) es) ds
Sure-NoClash [] es h = tt
Sure-NoClash (a ∷ ds) es h = (row es, Sure-NoClash ds es h.1)
  where
    row : (es : List Detection) → All (λ d. clashes a d ≡ false) es
    row [] = tt
    row (d ∷ es) = (Sure-NoClash-row a d h.0, row es)

clashes-unsure : (a : Detection) (span : Span) → clashes a (unsure span) ≡ false
unfolding clashes
clashes-unsure a span = ground arith

unsure-clashes :
    (d : Detection) (span : Span)
    → ranges_overlap (span_at d) span ≡ false
    → clashes (unsure span) d ≡ false
unfolding clashes
unsure-clashes d span h = ground arith

NoClash-snoc :
    (found : List Detection) (span : Span)
    → any (λ d. ranges_overlap (span_at d) span) found ≡ false
    → NoClash found
    → NoClash (found ++ unsure span ∷ [])
NoClash-snoc found span free h =
    All-append (λ a. All (λ d. clashes a d ≡ false) (found ++ unsure span ∷ [])) found
      (unsure span ∷ []) old (new, tt)
  where
    old : All (λ a. All (λ d. clashes a d ≡ false) (found ++ unsure span ∷ [])) found
    old =
        All-map (λ a. All (λ d. clashes a d ≡ false) found)
          (λ a row.
            All-append (λ d. clashes a d ≡ false) found (unsure span ∷ []) row
              (clashes-unsure a span, tt))
          found h

    new : All (λ d. clashes (unsure span) d ≡ false) (found ++ unsure span ∷ [])
    new =
        All-append (λ d. clashes (unsure span) d ≡ false) found (unsure span ∷ [])
          (All-map (λ d. ranges_overlap (span_at d) span ≡ false) (λ d e. unsure-clashes d span e)
            found (All-any-false (λ d. ranges_overlap (span_at d) span) found free))
          (clashes-unsure (unsure span) span, tt)

module _ (fl : Float) (text : Text) where
  NoClash-ambiguous_from :
      (spans : List Span) (found : List Detection)
      → NoClash found
      → NoClash (ambiguous_from fl text found spans)
  unfolding ambiguous_from
  NoClash-ambiguous_from [] found h = h
  NoClash-ambiguous_from (span ∷ spans) found h = NoClash-ambiguous_from spans _ (
      next (any (λ d. ranges_overlap (span_at d) span) found) (looks_secret fl (piece text span))
        refl)
    where
      next :
          (claimed secret : Bool)
          → any (λ d. ranges_overlap (span_at d) span) found ≡ claimed
          → NoClash (if claimed then found else if secret then found ++ unsure span ∷ [] else found)
      next true secret e = h
      next false true e = NoClash-snoc found span e h
      next false false e = h

push_matches-Sure : (spans : List Span) (c : Category) → All Sure (push_matches spans c)
unfolding push_matches
push_matches-Sure [] c = tt
push_matches-Sure (span ∷ spans) c = (refl, push_matches-Sure spans c)

group_detections-Sure : (ms : List (Option Span)) (c : Category) → All Sure (group_detections ms c)
unfolding group_detections
group_detections-Sure [] c = tt
group_detections-Sure (none ∷ ms) c = group_detections-Sure ms c
group_detections-Sure (some span ∷ ms) c = (refl, group_detections-Sure ms c)

All-if :
    (b : Bool) (d : Detection) (ds : List Detection)
    → Sure d
    → All Sure ds
    → All Sure (if b then d ∷ ds else ds)
All-if true d ds s h = (s, h)
All-if false d ds s h = h

ssn_detections-Sure : (text : Text) (ms : List SsnMatch) → All Sure (ssn_detections text ms)
unfolding ssn_detections
ssn_detections-Sure text [] = tt
ssn_detections-Sure text (m ∷ ms) = All-if _ _ _ refl (ssn_detections-Sure text ms)

card_detections-Sure : (text : Text) (spans : List Span) → All Sure (card_detections text spans)
unfolding card_detections
card_detections-Sure text [] = tt
card_detections-Sure text (span ∷ spans) =
    step (find_luhn_valid_window (piece text span) span.0) (card_detections-Sure text spans)
  where
    step :
        (o : Option (ℕ × ℕ))
        → All Sure (card_detections text spans)
        → All Sure (elim o [
          | some found ↦ sure credit_card found ∷ card_detections text spans
          | none ↦ card_detections text spans
        ])
    step none h = h
    step (some found) h = (refl, h)

judge-Sure :
    (span : Span) (groups : Text × Text × Text) (rest : List Detection)
    → All Sure rest
    → All Sure (judge_ssn span groups rest)
unfolding judge_ssn
judge-Sure span (area, group, serial) rest h = All-if _ _ rest refl h

pub dashless-Sure :
    (text : Text) (spans : List Span) (ds : List Detection)
    → dashless_detections text spans ≡ some ds
    → All Sure ds
unfolding dashless_detections
dashless-Sure text [] ds h = subst (All Sure) (some_inj h) tt
dashless-Sure text (span ∷ spans) ds h =
    let (groups, cut, more) = and_then-eq-some (split_ssn (piece text span)) _ h in
    let (rest, found, judged) = and_then-eq-some (dashless_detections text spans) _ more in
    subst (All Sure) (some_inj judged)
      (judge-Sure span groups rest (dashless-Sure text spans rest found))

before_dashless-Sure : (m : Matchers) (text : Text) → All Sure (before_dashless m text)
unfolding before_dashless
before_dashless-Sure m text =
    let r0 = ssn_detections-Sure text (m.ssn_spaced text) in
    let r1 =
      All-append Sure (ssn_detections text (m.ssn_dashed text)) _
        (ssn_detections-Sure text (m.ssn_dashed text)) r0 in
    let r2 =
      All-append Sure (push_matches (m.email_address text) email) _
        (push_matches-Sure (m.email_address text) email) r1 in
    let r3 =
      All-append Sure (group_detections (m.medical_key_value text) medical) _
        (group_detections-Sure (m.medical_key_value text) medical) r2 in
    let r4 =
      All-append Sure (group_detections (m.key_value_secret text) password) _
        (group_detections-Sure (m.key_value_secret text) password) r3 in
    let r5 =
      All-append Sure (push_matches (m.jwt text) api_key_or_token) _
        (push_matches-Sure (m.jwt text) api_key_or_token) r4 in
    let r6 =
      All-append Sure (push_matches (m.slack_token text) api_key_or_token) _
        (push_matches-Sure (m.slack_token text) api_key_or_token) r5 in
    let r7 =
      All-append Sure (push_matches (m.github_token text) api_key_or_token) _
        (push_matches-Sure (m.github_token text) api_key_or_token) r6 in
    let r8 =
      All-append Sure (push_matches (m.aws_access_key text) api_key_or_token) _
        (push_matches-Sure (m.aws_access_key text) api_key_or_token) r7 in
    let r9 =
      All-append Sure (push_matches (m.pem_private_key text) private_key) _
        (push_matches-Sure (m.pem_private_key text) private_key) r8 in
    r9

pub certain-Sure :
    (m : Matchers) (text : Text) (dashless : List Detection)
    → All Sure dashless
    → All Sure (certain m text dashless)
unfolding certain
certain-Sure m text dashless h =
    All-append Sure (before_dashless m text) _ (before_dashless-Sure m text)
      (All-append Sure dashless _ h (card_detections-Sure text (m.credit_card_candidate text)))

NoClash-sort : (ds : List Detection) → NoClash ds → NoClash (sort_by_start ds)
NoClash-sort ds h =
    All-sort (λ a. All (λ d. clashes a d ≡ false) (sort_by_start ds)) ds
      (All-map (λ a. All (λ d. clashes a d ≡ false) ds)
        (λ a row. All-sort (λ d. clashes a d ≡ false) ds row) ds h)

-- No ambiguous detection has a byte in common with one of high confidence: a token that a precise
-- detector has claimed never drops the event.
pub detect_all-NoClash :
    (fl : Float) (m : Matchers) (text : Text) (ds : List Detection)
    → detect_all fl m text ≡ some ds
    → All (λ a. All (λ d. ¬ Clash a d) ds) ds
unfolding unsorted
detect_all-NoClash fl m text ds h =
    let (dashless, found, sorted) = detect_all_sorts fl m text ds h in
    let sure_ones =
      certain-Sure m text dashless (dashless-Sure text (m.ssn_dashless text) dashless found) in
    let tested = subst NoClash sorted (
      NoClash-sort _ (
        NoClash-ambiguous_from fl text (m.high_entropy_candidate text) (certain m text dashless)
          (Sure-NoClash (certain m text dashless) (certain m text dashless) sure_ones))) in
    All-map (λ a. All (λ d. clashes a d ≡ false) ds)
      (λ a row. All-map (λ d. clashes a d ≡ false) (λ d e. clashes-Clash a d e) ds row) ds tested
