-- ===== src/Cloud/Sync/Tests.antt =====
-- Two pushes of one row by the two terminals within a minute, and a pull of what they left.
use mail_chad.Base.{
  ℕ, ◌≡◌, ◌⊎◌, refl, true, false, none, some, Option, [], ◌∷◌, Text, str, text_lt, text_eq, length,
  In,
}
use mail_chad.Base.Table.{FunTable, fun_table, empty_table}
use mail_chad.Base.Partition.{Rows, put_row}
use mail_chad.Cloud.Event.{Event, event_sk, put_event, next_id, padded}
use mail_chad.Cloud.Unsub.{UnsubLog}
use mail_chad.Cloud.Sync.{
  Wire, Store, sync_push, push_events, store_event, sync_pull, query_latest_event_for_row,
  put_near_conflict,
}
use mail_chad.Cloud.Sync.Authors.{Sound, is_accepted, sync_push-Sound}
use mail_chad.Cloud.Sync.Pull.{is_past, sync_pull-covers}

abbrev wire : Wire
wire = record {
  table = some (str "campaign");
  table_name = none;
  id = some (str "c1");
  row_id = none;
  revision = some 1;
  actor = none;
  modified_at = some (str "08:00Z");
  key_id = none;
  payload = some none;
  deleted = false;
}

abbrev no_events : Store (FunTable ℕ)
no_events = record { log = record { counters = empty_table; events = [] }; conflicts = [] }

abbrev one_second : Text → Text → Option ℕ
one_second s t = some 1000000

abbrev whole : Rows Event → Rows Event
whole t = t

abbrev after_first : Store (FunTable ℕ)
after_first =
    (sync_push one_second whole (str "08:00") (str "client") (wire ∷ []) no_events).1.store

near_found :
    length
      (sync_push one_second whole
        (str "08:00")
        (str "operator")
        (wire ∷ [])
        after_first).1.near_conflicts
    ≡ 1
unfolding sync_push push_events store_event put_event next_id query_latest_event_for_row
    put_near_conflict put_row padded text_eq text_lt
near_found = refl

sync_push-Sound_example :
    Sound
      (str "operator")
      after_first
      (sync_push one_second whole (str "08:00") (str "operator") (wire ∷ []) after_first).1.store
    × (is_accepted
            (sync_push one_second whole (str "08:00") (str "operator") (wire ∷ []) after_first).0
          ≡ true
        → length
            (sync_push one_second whole
              (str "08:00")
              (str "operator")
              (wire ∷ [])
              after_first).1.accepted_ids
          ≡ 1)
sync_push-Sound_example =
    sync_push-Sound one_second whole (str "08:00") (str "operator") (wire ∷ []) after_first

abbrev event : ℕ → Event
event n = record {
  event_id = n;
  table_name = str "campaign";
  row_id = str "c1";
  revision = 1;
  actor = str "client";
  modified_at = str "08:00";
  key_id = str "K_op+K_cl";
  encrypted_payload = none;
  deleted = false;
  received_at = str "08:00";
}

abbrev events : Rows Event
events = (event_sk 1, event 1) ∷ (event_sk 2, event 2) ∷ []

abbrev unsubs : Rows UnsubLog
unsubs =
    (str "08:00#ab", record { email_hash = str "ab"; scope = str "all"; added_at = str "08:00" })
    ∷ []

sync_pull-covers_example :
    let pulled = sync_pull 1 [] events unsubs in
    ((r : Text × Event)
      → In r events
      → text_lt (event_sk 1) r.0 ≡ true
      → In r pulled.events ⊎ (text_lt (event_sk pulled.max_event_id) r.0 ≡ true))
    × ((r : Text × UnsubLog)
        → In r unsubs
        → is_past [] r.0 ≡ true
        → In r pulled.unsubs ⊎ (text_lt pulled.max_unsub_at r.0 ≡ true))
    × ((r : Text × Event) → In r pulled.events → In r events × (text_lt (event_sk 1) r.0 ≡ true))
    × ((r : Text × UnsubLog) → In r pulled.unsubs → In r unsubs × (is_past [] r.0 ≡ true))
unfolding padded text_lt
sync_pull-covers_example =
    sync_pull-covers 1 [] events unsubs (((refl, tt), (tt, tt)), (refl, (refl, tt))) (tt, tt)
