-- ===== src/Cloud/Sync/Pull.antt =====
-- Pulling again with the cursors of the last answer: no event and no unsubscribe is passed over.
use mail_chad.Base.{
  ℕ, ◌≡◌, ◌⊎◌, refl, Bool, true, ◌||◌, [], ◌∷◌, Text, text_lt, is_empty, All, All-keep, All-take,
  In, keep, take,
}
use mail_chad.Base.Partition.{Rows, IsAscending, last_key, page-covers, page-passes}
use mail_chad.Cloud.Event.{Event, event_sk}
use mail_chad.Cloud.Unsub.{UnsubLog, list_unsubs}
use mail_chad.Cloud.Sync.{query_events_since, max_event_id_of, max_unsub_of, sync_pull}

-- Every event stands under its id, in the order of the keys.
abbrev pub Keyed : Text × Event → Type 0
Keyed r = r.0 ≡ event_sk r.1.event_id

abbrev pub IsLog : Rows Event → Type 0
IsLog rows = IsAscending rows × All Keyed rows

last_key-max :
    (since : ℕ) (rows : Rows Event)
    → All Keyed rows
    → last_key (event_sk since) rows ≡ event_sk (max_event_id_of since rows)
last_key-max since [] a = refl
last_key-max since (r ∷ rows) a = rw (a.0) (last_key-max r.1.event_id rows a.1)

last_key-unsub :
    (since : Text) (rows : Rows UnsubLog) → last_key since rows ≡ max_unsub_of since rows
last_key-unsub since [] = refl
last_key-unsub since (r ∷ rows) = last_key-unsub r.0 rows

abbrev page_of : Text → ℕ → Rows Event → Rows Event
page_of since n events = take n (keep (λ r. text_lt since r.0) events)

abbrev pub is_past : (since : Text) → Text → Bool
is_past since key = is_empty since || text_lt since key

-- No event and no unsubscribe that is in the log when a terminal pulls is passed over. An event
-- behind the cursor is returned, or stands behind the cursor that is returned; the same holds for
-- the entries of the unsubscribe log. Only events and entries behind the cursor are returned.
-- The events stand under their ids, and both logs in the order of their keys.
pub sync_pull-covers :
    (since : ℕ) (unsub_since : Text) (events : Rows Event) (log : Rows UnsubLog)
    → IsLog events
    → IsAscending log
    → let pulled = sync_pull since unsub_since events log in
      ((r : Text × Event)
        → In r events
        → text_lt (event_sk since) r.0 ≡ true
        → In r pulled.events ⊎ (text_lt (event_sk pulled.max_event_id) r.0 ≡ true))
      × ((r : Text × UnsubLog)
          → In r log
          → is_past unsub_since r.0 ≡ true
          → In r pulled.unsubs ⊎ (text_lt pulled.max_unsub_at r.0 ≡ true))
      × ((r : Text × Event)
          → In r pulled.events
          → In r events × (text_lt (event_sk since) r.0 ≡ true))
      × ((r : Text × UnsubLog) → In r pulled.unsubs → In r log × (is_past unsub_since r.0 ≡ true))
unfolding sync_pull query_events_since list_unsubs
sync_pull-covers since unsub_since events log (sorted, keyed) ordered =
    let sk = event_sk since in
    let new : Text × Event → Bool = λ r. text_lt sk r.0 in
    let kept = All-take Keyed 500 (keep new events) (All-keep Keyed new events keyed) in
    let entry : Text × UnsubLog → Bool = λ r. is_past unsub_since r.0 in
    (
      λ r m h.
          rw (← last_key-max since (page_of sk 500 events) kept)
            (page-covers new sk 499 events r sorted m h),
      λ r m h.
          rw (← last_key-unsub unsub_since (take 1000 (keep entry log)))
            (page-covers entry unsub_since 999 log r ordered m h),
      page-passes new 500 events,
      page-passes entry 1000 log,
    )
