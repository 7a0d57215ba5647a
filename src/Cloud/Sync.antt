-- ===== src/Cloud/Sync.antt =====
-- mailman/cloud/sync.py: `sync_push` and `sync_pull`, with the queries of the event log and the near
-- conflicts of mailman/cloud/dynamo.py. Base64 and the difference of two times are parameters, and
-- so is the index by row, which may lag behind the log: it is a function of the log's rows.
pub mod Authors
pub mod Pull
mod Tests
use mail_chad.Base.{
  ℕ, zero, suc, ◌+◌, Bool, true, false, not, ◌&&◌, ◌||◌, Option, none, some, List, [], ◌∷◌, ◌++◌,
  Text, text_eq, text_lt, is_empty, if◌then◌else◌, ltb, ◌==◌, str, keep, take,
}
use mail_chad.Base.Table.{Table}
use mail_chad.Base.Partition.{Rows, row_table, put_row, rows_after}
use mail_chad.Cloud.Event.{Event, Log, put_event, next_id, event_sk}
use mail_chad.Cloud.Unsub.{UnsubLog, list_unsubs}

-- What `raw.get` finds in one pushed event. `revision` and `payload` are none where `int` or the
-- base64 decoder raises; an empty payload text gives no payload.
pub record Wire : Type 0 where
  pub table : Option Text
  pub table_name : Option Text
  pub id : Option Text
  pub row_id : Option Text
  pub revision : Option ℕ
  pub actor : Option Text
  pub modified_at : Option Text
  pub key_id : Option Text
  pub payload : Option (Option Text)
  pub deleted : Bool

pub record Conflict : Type 0 where
  pub conflict_id : ℕ
  pub table_name : Text
  pub row_id : Text
  pub event_id_a : ℕ
  pub event_id_b : ℕ
  pub actor_a : Text
  pub actor_b : Text
  pub modified_at_a : Text
  pub modified_at_b : Text
  pub delta : ℕ
  pub detected_at : Text
  pub acknowledged : Option (Text × Text)

-- The entry of the answer.
pub record Near : Type 0 where
  pub table : Text
  pub row_id : Text
  pub delta : ℕ

pub record Store (Counters : Type 0) : Type 0 where
  pub log : Log Counters (Rows Event)
  pub conflicts : Rows Conflict

-- The loop's state, and how the call ends.
pub record Pushed (Counters : Type 0) : Type 0 where
  pub store : Store Counters
  pub accepted_ids : List ℕ
  pub near_conflicts : List Near

pub data PushEnd : Type 0 where
  all_accepted unreadable missing_field actor_mismatch : PushEnd

-- `x or y`, for entries that may be missing or empty.
abbrev pub given : Option Text → Text
given none = []
given (some t) = t

abbrev pub first_given : Option Text → Option Text → Text
first_given a b = if is_empty (given a) then given b else given a

-- `raw.get(key, default)`
abbrev pub default_to : Text → Option Text → Text
default_to d none = d
default_to d (some t) = t

-- `mod_at.replace("Z", "+00:00")`
unfoldable pub replace_z : Text → Text
replace_z [] = []
replace_z (c ∷ s) = let rest = replace_z s in if c == b'Z' then str "+00:00" ++ rest else c ∷ rest

-- `f"{table_name}#{row_id}"`
abbrev pub row_key : (table_name row_id : Text) → Text
row_key table_name row_id = table_name ++ (b'#' ∷ row_id)

abbrev pub last_event : Rows Event → Option Event
last_event [] = none
last_event (r ∷ []) = some r.1
last_event (r ∷ q ∷ rows) = last_event (q ∷ rows)

-- `query_events_since`
unfoldable pub query_events_since : (since_id limit : ℕ) → Rows Event → Rows Event
query_events_since since_id limit events = rows_after (event_sk since_id) limit events

-- `query_latest_event_for_row`, on the rows that the index shows.
unfoldable pub query_latest_event_for_row :
    (table_name row_id : Text) → (before_id : ℕ) → Rows Event → Option Event
query_latest_event_for_row table_name row_id before_id shown = last_event (
    keep
      (λ r.
        text_eq (row_key r.1.table_name r.1.row_id) (row_key table_name row_id)
        && text_lt r.0 (event_sk before_id))
      shown)

-- The time between two times, in microseconds; none where the parser raises.
module _ (between : Text → Text → Option ℕ) where
  -- An exception counts as 9999 seconds.
  abbrev pub delta_of : (new old : Text) → ℕ
  delta_of new old = elim (between (replace_z new) (replace_z old)) [
    | none ↦ 9999000000
    | some d ↦ d
  ]

  abbrev pub near :
      (now table row_id : Text) → Event → (event_id : ℕ) → (act mod_at : Text) → Conflict
  near now table row_id prior event_id act mod_at = record {
    conflict_id = 0;
    table_name = table;
    row_id = row_id;
    event_id_a = prior.event_id;
    event_id_b = event_id;
    actor_a = prior.actor;
    actor_b = act;
    modified_at_a = prior.modified_at;
    modified_at_b = mod_at;
    delta = delta_of mod_at prior.modified_at;
    detected_at = now;
    acknowledged = none;
  }

  abbrev pub is_near : Event → (act mod_at : Text) → Bool
  is_near prior act mod_at =
      ltb (delta_of mod_at prior.modified_at) 60000000 && not (text_eq prior.actor act)

abbrev pub pushed_event :
    (now : Text) → Wire → (actor : Text) → (revision : ℕ) → (payload : Option Text) → Event
pushed_event now raw actor revision payload = record {
  event_id = 0;
  table_name = first_given raw.table raw.table_name;
  row_id = first_given raw.id raw.row_id;
  revision = revision;
  actor = default_to actor raw.actor;
  modified_at = default_to now raw.modified_at;
  key_id = default_to (str "K_op+K_cl") raw.key_id;
  encrypted_payload = payload;
  deleted = raw.deleted;
  received_at = now;
}

-- The checks on one event, in the code's order.
abbrev pub check_event : (bearer : Text) → Event → Option PushEnd
check_event bearer e =
    if is_empty e.table_name || is_empty e.row_id || is_empty e.actor
    then some missing_field
    else if text_eq e.actor bearer
    then none
    else some actor_mismatch

abbrev pub read_event : (now bearer : Text) → Wire → Option Event
read_event now bearer raw = elim raw.revision [
  | none ↦ none
  | some revision ↦ elim raw.payload [
    | none ↦ none
    | some payload ↦ some (pushed_event now raw bearer revision payload)
  ]
]

module _ {C : Type 0} ⦃ids : Table C ℕ⦄ where
  -- `put_near_conflict`; the id in the argument is replaced by the one that is drawn.
  unfoldable pub put_near_conflict : Conflict → Store C → ℕ × Store C
  put_near_conflict conflict s =
      let (conflict_id, counters') = next_id (str "near_conflict") s.log.counters in
      let log = s.log in
      (
        conflict_id,
        record {
          log = record log { counters = counters' };
          conflicts =
              put_row (event_sk conflict_id) (record conflict { conflict_id = conflict_id })
                s.conflicts;
        },
      )

  module _ (between : Text → Text → Option ℕ) (index : Rows Event → Rows Event) (now : Text) where
    abbrev pub note_conflict :
        Option Event
        → (table row_id : Text) → (event_id : ℕ) → (act mod_at : Text) → Pushed C
        → Pushed C
    note_conflict none table row_id event_id act mod_at s = s
    note_conflict (some prior) table row_id event_id act mod_at s =
        if is_near between prior act mod_at
        then record s {
          store =
              (put_near_conflict (near between now table row_id prior event_id act mod_at)
                s.store).1;
          near_conflicts =
              s.near_conflicts
              ++ (record {
                table = table;
                row_id = row_id;
                delta = delta_of between mod_at prior.modified_at;
              }
                  ∷ []);
        }
        else s

    -- The insertion of one event that has passed the checks.
    unfoldable pub store_event : Event → Pushed C → Pushed C
    store_event e s =
        let (event_id, log') = put_event e s.store.log in
        let st = s.store in
        let prior = query_latest_event_for_row e.table_name e.row_id event_id (index log'.events) in
        note_conflict prior e.table_name e.row_id event_id e.actor e.modified_at (record s {
          store = record st { log = log' };
          accepted_ids = s.accepted_ids ++ (event_id ∷ []);
        })

    unfoldable pub push_events : (bearer : Text) → List Wire → Pushed C → PushEnd × Pushed C
    push_events bearer [] s = (all_accepted, s)
    push_events bearer (raw ∷ raws) s = elim (read_event now bearer raw) [
      | none ↦ (unreadable, s)
      | some e ↦ elim (check_event bearer e) [
        | some why ↦ (why, s)
        | none ↦ push_events bearer raws (store_event e s)
      ]
    ]

    unfoldable pub sync_push : (bearer : Text) → List Wire → Store C → PushEnd × Pushed C
    unfolding push_events
    sync_push bearer raws st =
        push_events bearer raws (record { store = st; accepted_ids = []; near_conflicts = [] })

-- The answer of `sync_pull`.
pub record Pulled : Type 0 where
  pub events : Rows Event
  pub max_event_id : ℕ
  pub unsubs : Rows UnsubLog
  pub max_unsub_at : Text

abbrev pub max_event_id_of : (since : ℕ) → Rows Event → ℕ
max_event_id_of since [] = since
max_event_id_of since (r ∷ rows) = max_event_id_of r.1.event_id rows

abbrev pub max_unsub_of : (since : Text) → Rows UnsubLog → Text
max_unsub_of since [] = since
max_unsub_of since (r ∷ rows) = max_unsub_of r.0 rows

unfoldable pub sync_pull : (since : ℕ) → (unsub_since : Text) → Rows Event → Rows UnsubLog → Pulled
unfolding query_events_since list_unsubs
sync_pull since unsub_since events log =
    let found = query_events_since since 500 events in
    let unsubs = list_unsubs unsub_since 1000 log in
    record {
      events = found;
      max_event_id = max_event_id_of since found;
      unsubs = unsubs;
      max_unsub_at = max_unsub_of unsub_since unsubs;
    }
