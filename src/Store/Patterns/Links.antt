-- ===== src/Store/Patterns/Links.antt =====
-- crates/event-store/src/store.rs: the links from patterns to events, and the rows they refer to.
use mathlib.Core.List.{Memᴰ}
use hidden_steps.Prelude.{
  All, All-append, All-keep, All-kept, All-map, Bool, Bool-cases, List, Option, Result,
  Result-cases, [], and-true, any, ap, arith, err, false, if◌then◌else◌, inl, inr, keep, map, not,
  ok, refl, subst, sym, true, ℕ, ◌&&◌, ◌==◌, ◌||◌, ◌∙◌, ◌∷◌, ◌≡◌, ◌⊎◌,
}
use hidden_steps.Members.{All-Mem, All-at, All-both, Mem-append, Mem-keep, any-Mem, any-append}
use hidden_steps.Store.Erase.{Statement, delete_all_data}
use hidden_steps.Store.Erase.Laws.{delete_all_data_atomic, wiped}
use hidden_steps.Domain.Pattern.{Pattern, PatternStatus}
use hidden_steps.Domain.Signal.{EventSummary}
use hidden_steps.Store.{Engine, EventRow, EventStore, EventStoreError, Table, append_row}
use hidden_steps.Store.Events.{
  delete_events, delete_events_where, delete_expired_events, insert_event_summary,
}
use hidden_steps.Store.Patterns.{
  event_exists, insert_pattern, link_event, link_pattern_events, linked, pattern_exists,
  set_pattern_status, update_pattern_stats, update_row,
}

-- `ON DELETE CASCADE` and `REFERENCES`: every link is from a pattern that is there to an event that
-- is there.
unfoldable pub Intact : {F : Type 0} → EventStore F → Type 0
Intact store =
    All (λ l. (pattern_exists l.0 store ≡ true) × (event_exists l.1 store ≡ true))
      store.pattern_events

-- A row of an event with that id was there and is not any more.
abbrev pub IsGone : {F : Type 0} → EventStore F → EventStore F → ℕ → Type 0
IsGone before after event_id =
    (r : EventRow) × (r.id ≡ event_id)
    × Memᴰ r before.event_summaries.rows
    × ¬ Memᴰ r after.event_summaries.rows

-- Every link stays, unless its event goes.
abbrev pub LinksKept : {F : Type 0} → EventStore F → EventStore F → Type 0
LinksKept before after =
    All (λ l. Memᴰ l after.pattern_events ⊎ IsGone before after l.1) before.pattern_events

-- The calls that change patterns, events or links.
pub data LinkChange (Value F : Type 0) : Type 0 where
  event_inserted : EventSummary Value → LinkChange Value F
  events_deleted : List ℕ → LinkChange Value F
  events_expired : (now : ℕ) → LinkChange Value F
  pattern_inserted : Pattern Value F → LinkChange Value F
  stats_updated : (pattern_id last_seen_at count : ℕ) → Option F → LinkChange Value F
  status_set : (pattern_id : ℕ) → PatternStatus → LinkChange Value F
  events_linked : (pattern_id : ℕ) → List ℕ → LinkChange Value F
  all_erased : (fails : Statement → Bool) (now : ℕ) → LinkChange Value F

module _ {Value : Type 0} (db : Engine Value) {F : Type 0} where
  unfoldable pub after_change : LinkChange Value F → EventStore F → EventStore F
  unfolding insert_event_summary delete_events delete_expired_events insert_pattern
      update_pattern_stats set_pattern_status link_pattern_events delete_all_data
  after_change (event_inserted event) store = (insert_event_summary db event store).1
  after_change (events_deleted ids) store = (delete_events ids store).1
  after_change (events_expired now) store = (delete_expired_events db now store).1
  after_change (pattern_inserted pattern) store = (insert_pattern db pattern store).1
  after_change (stats_updated id last_seen_at count estimate) store =
      (update_pattern_stats db id last_seen_at count estimate store).1
  after_change (status_set id status) store = (set_pattern_status id status store).1
  after_change (events_linked id event_ids) store = (link_pattern_events id event_ids store).1
  after_change (all_erased fails now) store = (delete_all_data db fails now store).1

module _ {A : Type 0} where
  any-kept :
      (p q : A → Bool) (xs : List A)
      → any q xs ≡ true
      → any (λ x. p x && q x) xs ≡ false
      → any q (keep (λ x. not (p x)) xs) ≡ true
  any-kept p q [] h g = h
  any-kept p q (x ∷ xs) h g = elim (Bool-cases (p x)) [
    | inl e ↦ elim (Bool-cases (q x)) [
      | inl f ↦ absurd (cc (rw (e, f) at g))
      | inr f ↦ rw e (any-kept p q xs (rw f at h) (rw (e, f) at g))
    ]
    | inr e ↦ elim (Bool-cases (q x)) [
      | inl f ↦ rw e (rw f refl)
      | inr f ↦ rw e (rw f (any-kept p q xs (rw f at h) (rw e at g)))
    ]
  ]

  any-updated :
      (p selected : A → Bool) (change : A → A) (xs : List A)
      → ((x : A) → p (change x) ≡ p x)
      → any p (map (λ r. if selected r then change r else r) xs) ≡ any p xs
  any-updated p selected change [] h = refl
  any-updated p selected change (x ∷ xs) h = elim (Bool-cases (selected x)) [
    | inl e ↦ rw (e, h x) (ap (λ b. p x || b) (any-updated p selected change xs h))
    | inr e ↦ rw e (ap (λ b. p x || b) (any-updated p selected change xs h))
  ]

  any-append_row :
      (p : A → Bool) (table : Table A) (row : Result A EventStoreError)
      → any p table.rows ≡ true
      → any p (append_row table row).1.rows ≡ true
  unfolding append_row
  any-append_row p table (ok row) h = any-append p table.rows (row ∷ []) h
  any-append_row p table (err e) h = h

not-true : (b : Bool) → not b ≡ true → b ≡ false
not-true b h = ground arith

module _ {F : Type 0} where
  deletion-Intact :
      (condition : EventRow → Bool) (store : EventStore F)
      → Intact store
      → Intact (delete_events_where condition store).1
  unfolding Intact delete_events_where event_exists pattern_exists
  deletion-Intact condition store h =
      let rows = store.event_summaries.rows in
      let unlinked = λ (l : ℕ × ℕ). not (any (λ r. condition r && r.id == l.1) rows) in
      let links = keep unlinked store.pattern_events in
      let there =
        λ (l : ℕ × ℕ). (pattern_exists l.0 store ≡ true) × (event_exists l.1 store ≡ true) in
      All-map (λ l. there l × (unlinked l ≡ true))
        (λ l ((pattern, event), fine).
          (pattern, any-kept condition (λ r. r.id == l.1) rows event (not-true _ fine)))
        links
        (All-both there (λ l. unlinked l ≡ true) links
          (All-keep there unlinked store.pattern_events h) (All-kept unlinked store.pattern_events))

  -- A link that was made, or was there, is between rows that are there.
  link_event-Intact :
      (pattern_id event_id : ℕ) (store : EventStore F)
      → Intact store
      → Intact (link_event pattern_id event_id store).1
  unfolding Intact link_event event_exists pattern_exists
  link_event-Intact pattern_id event_id store h =
      elim (Bool-cases (linked pattern_id event_id store.pattern_events)) [
        | inl there ↦ rw there h
        | inr new ↦
            elim (Bool-cases (pattern_exists pattern_id store && event_exists event_id store)) [
              | inr missing ↦ rw new (rw missing h)
              | inl both ↦ rw new (
                  rw both (
                    All-append _ store.pattern_events ((pattern_id, event_id) ∷ []) h (
                      and-true (pattern_exists pattern_id store) (event_exists event_id store) both,
                      tt,
                    )))
            ]
      ]

  links-Intact :
      (pattern_id : ℕ) (event_ids : List ℕ) (store : EventStore F)
      → Intact store
      → Intact (link_pattern_events pattern_id event_ids store).1
  unfolding link_pattern_events
  links-Intact pattern_id [] store h = h
  links-Intact pattern_id (id ∷ ids) store h =
      let after = (link_event pattern_id id store).1 in
      let intact = link_event-Intact pattern_id id store h in
      elim (Result-cases (link_event pattern_id id store).0) [
        | inl (u, e) ↦ rw (e, link_pattern_events) (links-Intact pattern_id ids after intact)
        | inr (failure, e) ↦ rw (e, link_pattern_events) intact
      ]

module _ {F : Type 0} where
  same-LinksKept :
      (before after : EventStore F)
      → after.pattern_events ≡ before.pattern_events
      → LinksKept before after
  same-LinksKept before after e =
      All-map (λ l. Memᴰ l before.pattern_events) (λ l m. inl (rw e m)) before.pattern_events
        (All-Mem before.pattern_events)

  deletion-LinksKept :
      (condition : EventRow → Bool) (store : EventStore F)
      → LinksKept store (delete_events_where condition store).1
  unfolding delete_events_where
  deletion-LinksKept condition store =
      let rows = store.event_summaries.rows in
      All-map (λ l. Memᴰ l store.pattern_events)
        (λ l m. elim (Bool-cases (any (λ r. condition r && r.id == l.1) rows)) [
          | inr unlinked ↦ inl (Mem-keep _ (rw unlinked refl) m)
          | inl deleted ↦
              let (r, there, k) =
                any-Mem (λ (r : EventRow). condition r && r.id == l.1) rows deleted in
              let (holds, same_id) = and-true (condition r) (r.id == l.1) k in
              inr (
                r,
                is_same r.id l.1 same_id,
                there,
                λ still.
                    let left =
                      All-at (λ (x : EventRow). not (condition x) ≡ true) (All-kept _ rows) still in
                    cc (left, holds),
              )
        ])
        store.pattern_events (All-Mem store.pattern_events)
    where
      is_same : (a b : ℕ) → (a == b) ≡ true → a ≡ b
      is_same a b h = ground arith

  link_event-kept :
      {l : ℕ × ℕ} (pattern_id event_id : ℕ) (store : EventStore F)
      → Memᴰ l store.pattern_events
      → Memᴰ l (link_event pattern_id event_id store).1.pattern_events
  unfolding link_event
  link_event-kept pattern_id event_id store m =
      elim (Bool-cases (linked pattern_id event_id store.pattern_events)) [
        | inl there ↦ rw there m
        | inr new ↦
            elim (Bool-cases (pattern_exists pattern_id store && event_exists event_id store)) [
              | inr missing ↦ rw new (rw missing m)
              | inl both ↦ rw new (rw both (Mem-append ((pattern_id, event_id) ∷ []) m))
            ]
      ]

  link_pattern_events-kept :
      {l : ℕ × ℕ} (pattern_id : ℕ) (event_ids : List ℕ) (store : EventStore F)
      → Memᴰ l store.pattern_events
      → Memᴰ l (link_pattern_events pattern_id event_ids store).1.pattern_events
  unfolding link_pattern_events
  link_pattern_events-kept pattern_id [] store m = m
  link_pattern_events-kept pattern_id (id ∷ ids) store m =
      let kept = link_event-kept pattern_id id store m in
      elim (Result-cases (link_event pattern_id id store).0) [
        | inl (u, e) ↦
            rw (e, link_pattern_events)
              (link_pattern_events-kept pattern_id ids (link_event pattern_id id store).1 kept)
        | inr (failure, e) ↦ rw (e, link_pattern_events) kept
      ]

module _ {Value : Type 0} (db : Engine Value) {F : Type 0} where
  wiped-Intact : (now : ℕ) (store : EventStore F) → Intact (wiped db now store)
  unfolding Intact wiped
  wiped-Intact now store = tt

  all-Intact :
      (change : LinkChange Value F) (store : EventStore F)
      → Intact store
      → Intact (after_change db change store)
  unfolding Intact after_change insert_event_summary delete_events delete_expired_events
      insert_pattern update_pattern_stats set_pattern_status event_exists pattern_exists update_row
  all-Intact (event_inserted event) store h =
      All-map _
        (λ l (pattern, there).
          (pattern, any-append_row (λ r. r.id == l.1) store.event_summaries _ there))
        store.pattern_events h
  all-Intact (events_deleted []) store h = h
  all-Intact (events_deleted (id ∷ ids)) store h = deletion-Intact _ store h
  all-Intact (events_expired now) store h = deletion-Intact _ store h
  all-Intact (pattern_inserted pattern) store h =
      All-map _
        (λ l (there, event). (any-append_row (λ r. r.id == l.0) store.patterns _ there, event))
        store.pattern_events h
  all-Intact (stats_updated id last_seen_at count estimate) store h =
      All-map _
        (λ l (there, event).
          (any-updated (λ r. r.id == l.0) _ _ store.patterns.rows (λ r. refl) ∙ there, event))
        store.pattern_events h
  all-Intact (status_set id status) store h =
      All-map _
        (λ l (there, event).
          (any-updated (λ r. r.id == l.0) _ _ store.patterns.rows (λ r. refl) ∙ there, event))
        store.pattern_events h
  all-Intact (events_linked id event_ids) store h = links-Intact id event_ids store h
  all-Intact (all_erased fails now) store h = elim (delete_all_data_atomic db fails now store) [
    | inl (s, failed, e) ↦ subst (λ r. Intact r.1) (sym e) h
    | inr e ↦ subst (λ r. Intact r.1) (sym e) (wiped-Intact now store)
  ]

module _ {Value : Type 0} (db : Engine Value) {F : Type 0} where
  wiped-LinksKept :
      (now : ℕ) (store : EventStore F) → Intact store → LinksKept store (wiped db now store)
  unfolding Intact wiped event_exists
  wiped-LinksKept now store h =
      All-map (λ l. (pattern_exists l.0 store ≡ true) × (event_exists l.1 store ≡ true))
        (λ l (pattern, event).
          let (r, there, k) =
            any-Mem (λ (r : EventRow). r.id == l.1) store.event_summaries.rows event in
          inr (r, is_same r.id l.1 k, there, λ m. All-at (λ (x : EventRow). ⊥) tt m))
        store.pattern_events h
    where
      is_same : (a b : ℕ) → (a == b) ≡ true → a ≡ b
      is_same a b h = ground arith

  change-kept :
      (change : LinkChange Value F) (store : EventStore F)
      → Intact store
      → LinksKept store (after_change db change store)
  unfolding after_change insert_event_summary delete_events delete_expired_events insert_pattern
      update_pattern_stats set_pattern_status
  change-kept (event_inserted event) store h =
      same-LinksKept store (after_change db (event_inserted event) store) refl
  change-kept (events_deleted []) store h =
      same-LinksKept store (after_change db (events_deleted []) store) refl
  change-kept (events_deleted (id ∷ ids)) store h = deletion-LinksKept _ store
  change-kept (events_expired now) store h = deletion-LinksKept _ store
  change-kept (pattern_inserted pattern) store h =
      same-LinksKept store (after_change db (pattern_inserted pattern) store) refl
  change-kept (stats_updated id last_seen_at count estimate) store h =
      same-LinksKept store (after_change db (stats_updated id last_seen_at count estimate) store)
        refl
  change-kept (status_set id status) store h =
      same-LinksKept store (after_change db (status_set id status) store) refl
  change-kept (events_linked id event_ids) store h =
      All-map (λ l. Memᴰ l store.pattern_events)
        (λ l m. inl (link_pattern_events-kept id event_ids store m)) store.pattern_events
        (All-Mem store.pattern_events)
  change-kept (all_erased fails now) store h = elim (delete_all_data_atomic db fails now store) [
    | inl (s, failed, e) ↦
        subst (λ r. LinksKept store r.1) (sym e) (same-LinksKept store store refl)
    | inr e ↦ subst (λ r. LinksKept store r.1) (sym e) (wiped-LinksKept now store h)
  ]

  -- Every change, the deletion of everything included, whether its statements fail or not, leaves
  -- only links between a pattern and an event that are both in the store, when this held before; and
  -- it keeps every link but those whose event it removes.
  pub change-Intact :
      (change : LinkChange Value F) (store : EventStore F)
      → Intact store
      → Intact (after_change db change store) × LinksKept store (after_change db change store)
  change-Intact change store h = (all-Intact db change store h, change-kept change store h)
