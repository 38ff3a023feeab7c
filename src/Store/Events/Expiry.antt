-- ===== src/Store/Events/Expiry.antt =====
-- crates/event-store/src/store.rs: which events `delete_expired_events` removes. The texts of the
-- points in time are compared, whose order is that of time from one second to the next.
use mathlib.Core.Option
use mathlib.Core.List.{Memᴰ}
use hidden_steps.Prelude.{
  All, All-keep, All-kept, All-map, Bool, Bool-cases, List, Option, [], inl, inr, keep, ltb, ltb→lt,
  none, not, not_ltb→le, ok, refl, some, true, ℕ, ◌/◌, ◌∷◌, ◌≡◌, ◌≤◌, ◌⊎◌,
}
use hidden_steps.Members.{All-Mem, All-both, Mem-keep}
use hidden_steps.HashMap.{All-Reordered, Reordered, chain, done, same, swap}
use hidden_steps.Domain.Signal.{EventSummary}
use hidden_steps.Store.{Engine, EventStore}
use hidden_steps.Store.Events.{delete_expired_events, list_recent_events, ttl_passed}
use hidden_steps.Store.Events.Refines.{
  EventLog, Represents, expired, list_recent_events-refines, log_change, log_changes, store_change,
  store_changes,
}

-- The points in time are in nanoseconds.
abbrev second_of : ℕ → ℕ
second_of t = t / 1000000000

-- The event's time is not over by a second or more.
unfoldable pub NotOverdue : ℕ → Option ℕ → Type 0
NotOverdue now none = Unit
NotOverdue now (some ttl) = second_of now ≤ second_of ttl

-- The event has an end, which is not in a later second.
unfoldable pub MayBeOver : ℕ → Option ℕ → Type 0
MayBeOver now none = ⊥
MayBeOver now (some ttl) = second_of ttl ≤ second_of now

Mem-Reordered : {A : Type 0} {x : A} {xs ys : List A} → Reordered xs ys → Memᴰ x xs → Memᴰ x ys
Mem-Reordered done m = m
Mem-Reordered (same r) (Memᴰ.head e) = Memᴰ.head e
Mem-Reordered (same r) (Memᴰ.tail m) = Memᴰ.tail (Mem-Reordered r m)
Mem-Reordered swap (Memᴰ.head e) = Memᴰ.tail (Memᴰ.head e)
Mem-Reordered swap (Memᴰ.tail (Memᴰ.head e)) = Memᴰ.head e
Mem-Reordered swap (Memᴰ.tail (Memᴰ.tail m)) = Memᴰ.tail (Memᴰ.tail m)
Mem-Reordered (chain r s) m = Mem-Reordered s (Mem-Reordered r m)

module _ {Value : Type 0} (db : Engine Value) where
  kept : ℕ → Option ℕ → Bool
  unfolding ttl_passed
  kept now ttl = not (ttl_passed (db.to_rfc3339 now) (Option.map db.to_rfc3339 ttl))

  kept-NotOverdue : (now : ℕ) (ttl : Option ℕ) → kept now ttl ≡ true → NotOverdue now ttl
  unfolding kept NotOverdue ttl_passed
  kept-NotOverdue now none h = tt
  kept-NotOverdue now (some ttl) h = elim (Bool-cases (ltb (second_of ttl) (second_of now))) [
    | inr late ↦ not_ltb→le (second_of ttl) (second_of now) late
    | inl late ↦
        let order = (db.to_rfc3339-order ttl now (ltb→lt (second_of ttl) (second_of now) late)).0 in
        absurd (cc (rw order at h))
  ]

  MayBeOver-or_kept : (now : ℕ) (ttl : Option ℕ) → MayBeOver now ttl ⊎ (kept now ttl ≡ true)
  unfolding kept MayBeOver ttl_passed
  MayBeOver-or_kept now none = inr refl
  MayBeOver-or_kept now (some ttl) = elim (Bool-cases (ltb (second_of now) (second_of ttl))) [
    | inr late ↦ inl (not_ltb→le (second_of now) (second_of ttl) late)
    | inl before ↦
        let order =
          (db.to_rfc3339-order now ttl (ltb→lt (second_of now) (second_of ttl) before)).1 in
        inr (rw order refl)
  ]

  -- Of a store that represents a log of events, deleting the expired ones leaves only events of the
  -- log, and none whose time ended in an earlier second; each event of the log is still there, or
  -- its time has an end that is not in a later second. This holds of what listing all events
  -- returns afterwards.
  pub delete_expired_events-listed :
      {F : Type 0} (now : ℕ) (store : EventStore F) (log : EventLog Value)
      → Represents db store log
      → (events : List (EventSummary Value)) × (list_recent_events db none
            (delete_expired_events db now store).1
          ≡ ok events)
        × All (λ e. Memᴰ e log.events × NotOverdue now e.ttl_expires_at) events
        × All (λ e. MayBeOver now e.ttl_expires_at ⊎ Memᴰ e events) log.events
  unfolding kept store_changes store_change log_changes log_change
  delete_expired_events-listed now store log h =
      let (events, listed, order) = list_recent_events-refines db (expired now ∷ []) store log h in
      let test = λ (e : EventSummary Value). kept now e.ttl_expires_at in
      let left = λ (e : EventSummary Value). Memᴰ e log.events × NotOverdue now e.ttl_expires_at in
      (
        events,
        listed,
        All-Reordered left order (
            All-both (λ e. Memᴰ e log.events) (λ e. NotOverdue now e.ttl_expires_at)
              (keep test log.events) (All-keep _ test log.events (All-Mem log.events))
              (All-map (λ e. test e ≡ true) (λ e k. kept-NotOverdue now e.ttl_expires_at k)
                (keep test log.events) (All-kept test log.events))),
        All-map (λ e. Memᴰ e log.events)
            (λ e m. elim (MayBeOver-or_kept now e.ttl_expires_at) [
              | inl over ↦ inl over
              | inr there ↦ inr (Mem-Reordered order (Mem-keep test there m))
            ])
            log.events (All-Mem log.events),
      )
