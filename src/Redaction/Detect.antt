-- ===== src/Redaction/Detect.antt =====
-- crates/redaction/src/detectors.rs: all detections in a text. The regular expressions and their
-- engine are a parameter: what each of them matches, as byte ranges in order.
pub mod Sort
pub mod Tiers
pub mod Dropping
pub mod Ssn
use hidden_steps.Prelude.{
  Bool, List, Option, Text, [], and_then, any, drop, if◌then◌else◌, leb, ltb, map, none, not, some,
  take, ℕ, ◌&&◌, ◌++◌, ◌-◌, ◌||◌, ◌∷◌,
}
use hidden_steps.Float.{Float}
use hidden_steps.Redaction.{
  Category, Detection, ambiguous, ambiguous_secret, api_key_or_token, credit_card, email,
  government_id, high, medical, password, private_key, slice,
}
use hidden_steps.Redaction.Luhn.{find_luhn_valid_window}
use hidden_steps.Redaction.Numbers.{is_plausible_ssn, looks_like_common_hex_id}
use hidden_steps.Redaction.Entropy.{shannon_entropy}

abbrev pub Span : Type 0
Span = ℕ × ℕ

-- A match of a separated social security number: the whole, and its three groups.
pub record SsnMatch : Type 0 where
  pub full : Span
  pub area : Span
  pub group : Span
  pub serial : Span

pub record Matchers : Type 0 where
  pub pem_private_key : Text → List Span
  pub aws_access_key : Text → List Span
  pub github_token : Text → List Span
  pub slack_token : Text → List Span
  pub jwt : Text → List Span
  pub key_value_secret : Text → List (Option Span)
  pub medical_key_value : Text → List (Option Span)
  pub email_address : Text → List Span
  pub ssn_dashed : Text → List SsnMatch
  pub ssn_spaced : Text → List SsnMatch
  pub ssn_dashless : Text → List Span
  pub credit_card_candidate : Text → List Span
  pub high_entropy_candidate : Text → List Span

-- `m.as_str()`
unfoldable pub piece : Text → Span → Text
piece text (s, e) = take (e - s) (drop s text)

abbrev sure : Category → Span → Detection
sure category (s, e) = record { start = s; end = e; category = category; confidence = high }

push_matches : List Span → Category → List Detection
push_matches spans category = map (sure category) spans

-- A match whose group 1 took part.
group_detections : List (Option Span) → Category → List Detection
group_detections [] category = []
group_detections (none ∷ ms) category = group_detections ms category
group_detections (some span ∷ ms) category = sure category span ∷ group_detections ms category

ssn_detections : Text → List SsnMatch → List Detection
ssn_detections text [] = []
ssn_detections text (m ∷ ms) =
    if is_plausible_ssn (piece text m.area) (piece text m.group) (piece text m.serial)
    then sure government_id m.full ∷ ssn_detections text ms
    else ssn_detections text ms

-- The nine digits without separators, cut at fixed byte offsets; `none` is the panic of a cut.
split_ssn : Text → Option (Text × Text × Text)
split_ssn digits = and_then (slice digits 0 3) λ area.
    and_then (slice digits 3 5)
      λ group. and_then (slice digits 5 9) λ serial. some (area, group, serial)

judge_ssn : Span → Text × Text × Text → List Detection → List Detection
judge_ssn span (area, group, serial) rest =
    if is_plausible_ssn area group serial then sure government_id span ∷ rest else rest

unfoldable pub dashless_detections : Text → List Span → Option (List Detection)
unfolding split_ssn judge_ssn
dashless_detections text [] = some []
dashless_detections text (span ∷ spans) =
    let later = dashless_detections text spans in
    and_then (split_ssn (piece text span))
      λ groups. and_then later λ rest. some (judge_ssn span groups rest)

card_detections : Text → List Span → List Detection
card_detections text [] = []
card_detections text (span ∷ spans) = elim (find_luhn_valid_window (piece text span) span.0) [
  | some found ↦ sure credit_card found ∷ card_detections text spans
  | none ↦ card_detections text spans
]

unfoldable pub ranges_overlap : Span → Span → Bool
ranges_overlap (a_start, a_end) (b_start, b_end) = ltb a_start b_end && ltb b_start a_end

abbrev pub span_at : Detection → Span
span_at d = (d.start, d.end)

pub is_ascii_alphabetic : ℕ → Bool
is_ascii_alphabetic c = leb b'a' c && leb c b'z' || leb b'A' c && leb c b'Z'

abbrev unsure : Span → Detection
unsure (s, e) = record { start = s; end = e; category = ambiguous_secret; confidence = ambiguous }

module _ (fl : Float) where
  unfoldable pub looks_secret : Text → Bool
  unfolding looks_like_common_hex_id shannon_entropy is_ascii_alphabetic
  looks_secret token =
      not (looks_like_common_hex_id token)
      && (any is_ascii_alphabetic token
          && (any (λ c. not (is_ascii_alphabetic c)) token
              && fl.less_eq (fl.of_ℕ 4) (shannon_entropy fl token)))

  -- The last loop: what is already detected, an ambiguous secret included, claims its bytes.
  ambiguous_from : Text → List Detection → List Span → List Detection
  unfolding ranges_overlap looks_secret
  ambiguous_from text found [] = found
  ambiguous_from text found (span ∷ spans) =
      ambiguous_from text
        (if any (λ d. ranges_overlap (span_at d) span) found
          then found
          else if looks_secret (piece text span)
          then found ++ unsure span ∷ []
          else found)
        spans

-- `sort_by_key(|d| d.start)`, which is stable.
insert_by_start : Detection → List Detection → List Detection
insert_by_start d [] = d ∷ []
insert_by_start d (e ∷ l) = if leb d.start e.start then d ∷ e ∷ l else e ∷ insert_by_start d l

unfoldable pub sort_by_start : List Detection → List Detection
unfolding insert_by_start
sort_by_start [] = []
sort_by_start (d ∷ ds) = insert_by_start d (sort_by_start ds)

module _ (m : Matchers) (text : Text) where
  -- Everything that is found before the ambiguous tokens, all of it with high confidence.
  before_dashless : List Detection
  unfolding push_matches group_detections ssn_detections
  before_dashless =
      push_matches (m.pem_private_key text) private_key
      ++ (push_matches (m.aws_access_key text) api_key_or_token
          ++ (push_matches (m.github_token text) api_key_or_token
              ++ (push_matches (m.slack_token text) api_key_or_token
                  ++ (push_matches (m.jwt text) api_key_or_token
                      ++ (group_detections (m.key_value_secret text) password
                          ++ (group_detections (m.medical_key_value text) medical
                              ++ (push_matches (m.email_address text) email
                                  ++ (ssn_detections text (m.ssn_dashed text)
                                      ++ ssn_detections text (m.ssn_spaced text)))))))))

  pub certain : List Detection → List Detection
  unfolding before_dashless card_detections
  certain dashless =
      before_dashless ++ (dashless ++ card_detections text (m.credit_card_candidate text))

module _ (fl : Float) (m : Matchers) (text : Text) where
  -- All detections in the order of their finding.
  pub unsorted : List Detection → List Detection
  unfolding certain ambiguous_from
  unsorted dashless =
      ambiguous_from fl text (certain m text dashless) (m.high_entropy_candidate text)

  -- `none` is a panic.
  unfoldable pub detect_all : Option (List Detection)
  unfolding unsorted sort_by_start dashless_detections
  detect_all =
      and_then (dashless_detections text (m.ssn_dashless text))
        λ dashless. some (sort_by_start (unsorted dashless))
