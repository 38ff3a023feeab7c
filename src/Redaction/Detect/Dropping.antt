-- ===== src/Redaction/Detect/Dropping.antt =====
-- crates/redaction/src/engine.rs and detectors.rs together: which texts are dropped.
use mathlib.Core.List.{Memᴰ}
use hidden_steps.Prelude.{
  All, All-any-false, All-map, Bool, Bool-cases, List, Text, [], any, ap, arith, false, inl, inr,
  leb, not, refl, some, sym, true, ◌&&◌, ◌++◌, ◌||◌, ◌↔◌, ◌∙◌, ◌∷◌, ◌≡◌, ◌≤◌, ◌⊎◌,
}
use hidden_steps.Members.{any-append, any-last, any-none}
use hidden_steps.Float.{Float}
use hidden_steps.Redaction.{Detection}
use hidden_steps.Redaction.Engine.{dropped, is_ambiguous, scan}
use hidden_steps.Redaction.Engine.Safety.{scan-dropped_any}
use hidden_steps.Redaction.Entropy.{shannon_entropy}
use hidden_steps.Redaction.Numbers.{looks_like_common_hex_id}
use hidden_steps.Redaction.Detect.{
  Matchers, Span, ambiguous_from, certain, dashless_detections, detect_all, insert_by_start,
  is_ascii_alphabetic, looks_secret, piece, ranges_overlap, sort_by_start, span_at, unsorted,
  unsure,
}
use hidden_steps.Redaction.Detect.Tiers.{Sure, certain-Sure, dashless-Sure}

-- The span lies behind the detection or in front of it.
abbrev pub IsClearOf : Span → Detection → Type 0
IsClearOf span d = (d.end ≤ span.0) ⊎ (span.1 ≤ d.start)

-- A token with a letter and another character, at least 4 bits of entropy per byte, and not of the
-- form of the common identifiers.
abbrev pub IsSecret : Float → Text → Type 0
IsSecret fl token =
    (looks_like_common_hex_id token ≡ false)
    × (any is_ascii_alphabetic token ≡ true)
    × (any (λ c. not (is_ascii_alphabetic c)) token ≡ true)
    × (fl.less_eq (fl.of_ℕ 4) (shannon_entropy fl token) ≡ true)

all_four :
    (a b c d : Bool)
    → ((not a && (b && (c && d))) ≡ true) ↔ ((a ≡ false) × (b ≡ true) × (c ≡ true) × (d ≡ true))
all_four true b c d = (λ h. absurd (cc h), λ h. absurd (cc (h.0)))
all_four false false c d = (λ h. absurd (cc h), λ h. absurd (cc (h.1)))
all_four false true false d = (λ h. absurd (cc h), λ h. absurd (cc (h.2)))
all_four false true true d = (λ h. (refl, refl, refl, h), λ h. h.3)

looks_secret-IsSecret :
    (fl : Float) (token : Text) → (looks_secret fl token ≡ true) ↔ IsSecret fl token
unfolding looks_secret
looks_secret-IsSecret fl token = all_four _ _ _ _

clear-overlap :
    (span : Span) (d : Detection) → (ranges_overlap (span_at d) span ≡ false) ↔ IsClearOf span d
unfolding ranges_overlap
clear-overlap (s, e) d =
    (λ h. ground arith, λ h. elim h [ inl a ↦ ground arith | inr b ↦ ground arith ])

any-insert :
    (p : Detection → Bool) (d : Detection) (l : List Detection)
    → any p (insert_by_start d l) ≡ (p d || any p l)
unfolding insert_by_start
any-insert p d [] = refl
any-insert p d (e ∷ l) = elim (Bool-cases (leb d.start e.start)) [
  | inl first ↦ rw first refl
  | inr later ↦ rw later (ap (λ b. p e || b) (any-insert p d l) ∙ swap (p e) (p d) (any p l))
]
  where
    swap : (a b c : Bool) → (a || (b || c)) ≡ (b || (a || c))
    swap a b c = ground arith

any-sort : (p : Detection → Bool) (ds : List Detection) → any p (sort_by_start ds) ≡ any p ds
unfolding sort_by_start
any-sort p [] = refl
any-sort p (d ∷ ds) = any-insert p d (sort_by_start ds) ∙ ap (λ b. p d || b) (any-sort p ds)

none_ambiguous : (ds : List Detection) → All Sure ds → any is_ambiguous ds ≡ false
unfolding is_ambiguous
none_ambiguous [] h = refl
none_ambiguous (d ∷ ds) h = rw (h.0, none_ambiguous ds h.1) refl

module _ (fl : Float) (text : Text) where
  -- A token that looks secret, away from all that was found.
  abbrev Unclaimed : List Detection → Span → Type 0
  Unclaimed found span =
      (looks_secret fl (piece text span) ≡ true)
      × (any (λ d. ranges_overlap (span_at d) span) found ≡ false)

  ambiguous_from-kept :
      (spans : List Span) (found : List Detection)
      → any is_ambiguous found ≡ true
      → any is_ambiguous (ambiguous_from fl text found spans) ≡ true
  unfolding ambiguous_from
  ambiguous_from-kept [] found h = h
  ambiguous_from-kept (span ∷ spans) found h =
      elim (Bool-cases (any (λ d. ranges_overlap (span_at d) span) found)) [
        | inl claimed ↦ rw claimed (ambiguous_from-kept spans found h)
        | inr free ↦ elim (Bool-cases (looks_secret fl (piece text span))) [
          | inl secret ↦ rw free (
              rw secret (
                ambiguous_from-kept spans (found ++ unsure span ∷ [])
                  (any-append is_ambiguous found (unsure span ∷ []) h)))
          | inr plain ↦ rw free (rw plain (ambiguous_from-kept spans found h))
        ]
      ]

  ambiguous_from-Unclaimed :
      (spans : List Span) (found : List Detection)
      → any is_ambiguous (ambiguous_from fl text found spans) ≡ true
      → any is_ambiguous found ≡ false
      → (span : Span) × Memᴰ span spans × Unclaimed found span
  unfolding ambiguous_from
  ambiguous_from-Unclaimed [] found h sure_all = absurd (cc (h, sure_all))
  ambiguous_from-Unclaimed (span ∷ spans) found h sure_all =
      elim (Bool-cases (any (λ d. ranges_overlap (span_at d) span) found)) [
        | inl claimed ↦
            let (s, m, u) = ambiguous_from-Unclaimed spans found (rw claimed at h) sure_all in
            (s, Memᴰ.tail m, u)
        | inr free ↦ elim (Bool-cases (looks_secret fl (piece text span))) [
          | inl secret ↦ (span, Memᴰ.head refl, (secret, free))
          | inr plain ↦
              let (s, m, u) =
                ambiguous_from-Unclaimed spans found (rw plain at (rw free at h)) sure_all in
              (s, Memᴰ.tail m, u)
        ]
      ]

  Unclaimed-ambiguous_from :
      {span : Span} {spans : List Span} (found : List Detection)
      → Memᴰ span spans
      → Unclaimed found span
      → any is_ambiguous (ambiguous_from fl text found spans) ≡ true
  unfolding ambiguous_from is_ambiguous
  Unclaimed-ambiguous_from found (Memᴰ.head {x = s} {xs = spans} e) (secret, free) = rw (← e) (
      rw free (
        rw secret (
          ambiguous_from-kept spans (found ++ unsure _ ∷ [])
            (any-last is_ambiguous found (unsure _) refl))))
  Unclaimed-ambiguous_from found (Memᴰ.tail {x = s} {xs = spans} m) (secret, free) =
      elim (Bool-cases (any (λ d. ranges_overlap (span_at d) s) found)) [
        | inl claimed ↦ rw claimed (Unclaimed-ambiguous_from found m (secret, free))
        | inr open_one ↦ elim (Bool-cases (looks_secret fl (piece text s))) [
          | inl other ↦ rw open_one (
              rw other (
                ambiguous_from-kept spans (found ++ unsure s ∷ [])
                  (any-last is_ambiguous found (unsure s) refl)))
          | inr plain ↦ rw open_one (rw plain (Unclaimed-ambiguous_from found m (secret, free)))
        ]
      ]

-- When the nine-digit rule does not panic, a text is dropped exactly when one of its candidates for a
-- secret lies away from everything that was found with high confidence, has a letter and another
-- character and enough entropy, and does not have the form of a common identifier.
pub scan-dropped_iff :
    (fl : Float) (m : Matchers) (text : Text) (dashless : List Detection)
    → dashless_detections text (m.ssn_dashless text) ≡ some dashless
    → (scan (detect_all fl m) text ≡ some dropped) ↔ (
        (span : Span) × Memᴰ span (m.high_entropy_candidate text)
        × IsSecret fl (piece text span)
        × All (IsClearOf span) (certain m text dashless))
unfolding detect_all unsorted
scan-dropped_iff fl m text dashless found =
    let base = certain m text dashless in
    let spans = m.high_entropy_candidate text in
    let all_found = ambiguous_from fl text base spans in
    let sorted = any-sort is_ambiguous all_found in
    let tested =
      scan-dropped_any (detect_all fl m) text (sort_by_start all_found) (rw found refl) in
    let sure_all =
      none_ambiguous base
        (certain-Sure m text dashless (dashless-Sure text (m.ssn_dashless text) dashless found)) in
    (
      λ h.
          let (span, there, (secret, free)) =
            ambiguous_from-Unclaimed fl text spans base (sym sorted ∙ tested.0 h) sure_all in
          (
            span,
            there,
            (looks_secret-IsSecret fl (piece text span)).0 secret,
            All-map (λ d. ranges_overlap (span_at d) span ≡ false)
                (λ d e. (clear-overlap span d).0 e) base (All-any-false _ base free),
          ),
      λ (span, there, secret, clear). tested.1 (
          sorted
          ∙ Unclaimed-ambiguous_from fl text base there (
            (looks_secret-IsSecret fl (piece text span)).1 secret,
            any-none (λ d. ranges_overlap (span_at d) span) base
                (All-map (IsClearOf span) (λ d e. (clear-overlap span d).1 e) base clear),
          )),
    )
