-- ===== src/Pipeline/Process/Gate.antt =====
-- Which signals pass, and what their summaries say of the level and of retention.
use mathlib.Core.Option
use hidden_steps.Prelude.{
  Bool-cases, Option, arith, false, if◌then◌else◌, inl, inr, none, refl, some, subst, true, ℕ, ◌+◌,
  ◌↔◌, ◌≡◌, ◌≢◌,
}
use hidden_steps.Json.{Json}
use hidden_steps.Domain.Privacy.{PrivacyLevel, level_eq, level_gt, maximum_assistance}
use hidden_steps.Domain.Signal.{CapturedSignal, EventSummary, SignalType, new_summary}
use hidden_steps.Pipeline.Classify.{Fields, classified_type, classify, minimum_level_for}
use hidden_steps.Pipeline.Process.{
  DropReason, EventPipeline, drop_event, extracted, finish, process,
  signal_not_allowed_at_current_level, summarized, summary_made, summary_of, with_extracted,
}

-- The type that a signal is classified as.
abbrev pub type_of : (j : Json) → CapturedSignal → SignalType
type_of j signal = classified_type (classify j signal.payload)

module _ (j : Json) (pipeline : EventPipeline) (signal : CapturedSignal) (level : PrivacyLevel)
    (now : ℕ) where
  with_extracted-ne :
      (fields : Option (Fields j.Value))
      → with_extracted j pipeline signal (type_of j signal) level now fields
        ≢ some (drop_event signal_not_allowed_at_current_level)
  unfolding with_extracted
  with_extracted-ne none e = cc
  with_extracted-ne (some fields) e = go (summary_of j pipeline.redactor fields j.empty) e
    where
      go :
          (o : Option (Option j.Map))
          → Option.map (finish j pipeline signal (type_of j signal) level now) o
            ≡ some (drop_event signal_not_allowed_at_current_level)
          → ⊥
      go none e = cc
      go (some none) e = cc
      go (some (some m)) e = cc

  -- What a stored summary says beside its content.
  pub record IsFaithful (e : EventSummary j.Value) : Type 0 where
    pub allowed : level_gt (minimum_level_for e.signal_type) level ≡ false
    pub typed : e.signal_type ≡ type_of j signal
    pub level_kept : e.privacy_level_at_capture ≡ level
    pub source : e.source_id ≡ signal.source_id
    pub at : e.occurred_at ≡ now
    pub deep : e.is_deep_mode ≡ level_eq level maximum_assistance
    pub expiry : e.ttl_expires_at ≡ (
        if level_eq level maximum_assistance
        then Option.map (λ ttl. now + ttl) pipeline.deep_mode_ttl
        else none)

  pub drop_event-ne :
      {r : DropReason} {e : EventSummary j.Value} → some (drop_event r) ≢ some (summarized e)
  drop_event-ne eq = cc

  -- A summary comes from a finished loop over the fields.
  pub with_extracted-summarized :
      (fields : Option (Fields j.Value)) {e : EventSummary j.Value}
      → with_extracted j pipeline signal (type_of j signal) level now fields ≡ some (summarized e)
      → (m : j.Map) × (summary_made j pipeline signal (type_of j signal) level now m ≡ e)
        × (fs : Fields j.Value) × (fields ≡ some fs)
        × (summary_of j pipeline.redactor fs j.empty ≡ some (some m))
  unfolding with_extracted finish
  with_extracted-summarized none eq = cc
  with_extracted-summarized (some fields) eq =
      go (summary_of j pipeline.redactor fields j.empty) refl eq
    where
      go :
          (o : Option (Option j.Map)) {e : EventSummary j.Value}
          → summary_of j pipeline.redactor fields j.empty ≡ o
          → Option.map (finish j pipeline signal (type_of j signal) level now) o
            ≡ some (summarized e)
          → (m : j.Map) × (summary_made j pipeline signal (type_of j signal) level now m ≡ e)
            × (fs : Fields j.Value) × (some fields ≡ some fs)
            × (summary_of j pipeline.redactor fs j.empty ≡ some (some m))
      go none h eq = cc
      go (some none) h eq = cc
      go (some (some m)) h eq = (m, cc, fields, refl, h)

  new_summary-IsFaithful :
      (m : j.Map)
      → level_gt (minimum_level_for (type_of j signal)) level ≡ false
      → IsFaithful (summary_made j pipeline signal (type_of j signal) level now m)
  unfolding summary_made new_summary
  new_summary-IsFaithful m h = record {
    allowed = h;
    typed = refl;
    level_kept = refl;
    source = refl;
    at = refl;
    deep = refl;
    expiry = ground arith;
  }

  -- A pipeline that summarizes a signal at a level makes a summary of the signal's own type, allowed
  -- at that level, with the signal's source, that level and the time of the call; it is marked as
  -- deep mode exactly at the highest level, and expires the pipeline's TTL after the call there,
  -- never otherwise.
  pub process-IsFaithful :
      (e : EventSummary j.Value)
      → process j pipeline signal level now ≡ some (summarized e)
      → IsFaithful e
  unfolding process
  process-IsFaithful e eq =
      elim (Bool-cases (level_gt (minimum_level_for (type_of j signal)) level)) [
        | inl h ↦ absurd (drop_event-ne (rw h at eq))
        | inr h ↦
            let found =
              with_extracted-summarized (extracted j pipeline (classify j signal.payload))
                (rw h at eq) in
            subst IsFaithful found.1 (new_summary-IsFaithful found.0 h)
      ]

  -- A signal is turned away for its level exactly when its type needs a higher one.
  pub process-not_allowed_iff :
      (process j pipeline signal level now ≡ some (drop_event signal_not_allowed_at_current_level))
      ↔ (level_gt (minimum_level_for (type_of j signal)) level ≡ true)
  unfolding process
  process-not_allowed_iff =
      elim (Bool-cases (level_gt (minimum_level_for (type_of j signal)) level)) [
        | inl h ↦ (λ _. h, λ _. rw h)
        | inr h ↦ (
          λ eq.
              absurd
                (with_extracted-ne (extracted j pipeline (classify j signal.payload)) (rw h at eq)),
          λ e. cc,
        )
      ]
