-- ===== src/Terminal/Inbox.antt =====
-- mailman/terminal/sync_client.py: one round of `pull_loop` with `_apply_event`, and the push of the
-- outbox. The tables inbox and outbox are lists of rows; what the cloud answers is a parameter, and
-- base64 too, where `none` is an exception.
pub mod Rows
pub mod Delivery
mod Tests
use mail_chad.Base.{
  ℕ, zero, suc, ◌+◌, ◌==◌, Bool, true, false, not, ◌&&◌, ◌||◌, Option, none, some, List, [], ◌∷◌,
  ◌++◌, map, Text, text_eq, is_empty, is_some, if◌then◌else◌, keep, take,
}
use mail_chad.Base.Table.{Table}
use mail_chad.Cloud.Event.{Event}
use mail_chad.Terminal.MergeUnsubs.{Pulled, Suppressed, merge_unsubs}

-- A row of inbox: the event, with its payload decoded.
pub record InboxRow : Type 0 where
  pub event : Event
  pub payload : Option Text
  pub received_at : Text
  pub materialised_at : Option Text

-- The body of an answer to GET /sync/pull.
pub record Page : Type 0 where
  pub events : List Event
  pub max_event_id : ℕ
  pub unsubs : List Pulled
  pub max_unsub_at : Text

-- `failed` is any exception on the way, an error status included.
pub data PullAnswer : Type 0 where
  page : Page → PullAnswer
  unauthorised failed : PullAnswer

-- The rows of sync_state that the loop uses, with the two tables that it fills.
pub record Local (Sup : Type 0) : Type 0 where
  pub inbox : List InboxRow
  pub suppressed : Sup
  pub last_pulled_event_id : ℕ
  pub last_pulled_unsub_at : Text
  pub last_pull_ok_at : Option Text

abbrev pub is_same_row : Event → Event → Bool
is_same_row e f =
    text_eq e.table_name f.table_name && text_eq e.row_id f.row_id && e.revision == f.revision

unfoldable pub is_seen : Event → List InboxRow → Bool
is_seen e [] = false
is_seen e (r ∷ rows) = is_same_row e r.event || is_seen e rows

-- The primary key.
unfoldable pub has_id : ℕ → List InboxRow → Bool
has_id id [] = false
has_id id (r ∷ rows) = r.event.event_id == id || has_id id rows

abbrev pub payload_of : (b64decode : Text → Option Text) → Option Text → Option (Option Text)
payload_of b64decode none = some none
payload_of b64decode (some t) =
    if is_empty t then some none else elim (b64decode t) [ none ↦ none | some b ↦ some (some b) ]

abbrev pub inbox_row : (now : Text) → Event → Option Text → InboxRow
inbox_row now e payload = record {
  event = e;
  payload = payload;
  received_at = now;
  materialised_at = none;
}

abbrev pub insert_row :
    (now : Text) → Event → Option (Option Text) → List InboxRow → Option (List InboxRow)
insert_row now e none rows = none
insert_row now e (some payload) rows =
    if is_seen e rows
    then some rows
    else if has_id e.event_id rows
    then none
    else some (rows ++ (inbox_row now e payload ∷ []))

module _ (b64decode : Text → Option Text) (now : Text) where
  -- `none` is the exception that ends the round.
  unfoldable pub apply_event : Event → List InboxRow → Option (List InboxRow)
  unfolding is_seen has_id
  apply_event e rows = insert_row now e (payload_of b64decode e.encrypted_payload) rows

  -- The loop over the events; each one is committed by itself.
  unfoldable pub apply_events : List Event → List InboxRow → Bool × List InboxRow
  unfolding apply_event
  apply_events [] rows = (true, rows)
  apply_events (e ∷ es) rows = elim (apply_event e rows) [
    | none ↦ (false, rows)
    | some rows' ↦ apply_events es rows'
  ]

  module _ {Sup : Type 0} ⦃table : Table Sup Suppressed⦄ where
    abbrev pub take_unsubs : Page → Local Sup → Local Sup
    take_unsubs p l = if is_empty p.unsubs then l else record l {
      suppressed = (merge_unsubs now p.unsubs l.suppressed).1;
      last_pulled_unsub_at = p.max_unsub_at;
    }

    abbrev pub take_events : Page → List InboxRow → Local Sup → Local Sup
    take_events p rows l =
        if is_empty p.events
        then record l { inbox = rows }
        else record l { inbox = rows; last_pulled_event_id = p.max_event_id }

    abbrev pub finish_round : Page → Bool × List InboxRow → Local Sup → Local Sup
    finish_round p (false, rows) l = record l { inbox = rows }
    finish_round p (true, rows) l =
        let l' = take_unsubs p (take_events p rows l) in record l' { last_pull_ok_at = some now }

    -- One round, from the answer on.
    unfoldable pub pull_round : PullAnswer → Local Sup → Local Sup
    unfolding apply_events
    pull_round unauthorised l = l
    pull_round failed l = l
    pull_round (page p) l = finish_round p (apply_events p.events l.inbox) l

-- A row of outbox; `event` holds the columns that are pushed.
pub record OutboxRow : Type 0 where
  pub outbox_id : ℕ
  pub event : Event
  pub pushed_at : Option Text
  pub assigned_event_id : Option ℕ

-- `_drain_outbox`; the rows stand in the order of their ids.
unfoldable pub drain_outbox : List OutboxRow → List OutboxRow
drain_outbox rows = take 200 (keep (λ r. not (is_some r.pushed_at)) rows)

abbrev pub mark_pushed : (now : Text) → (outbox_id event_id : ℕ) → List OutboxRow → List OutboxRow
mark_pushed now id ev [] = []
mark_pushed now id ev (r ∷ rows) =
    (if r.outbox_id == id
      then record r { pushed_at = some now; assigned_event_id = some ev }
      else r)
    ∷ mark_pushed now id ev rows

-- `_mark_outbox_pushed`: `zip` stops at the shorter list.
unfoldable pub mark_outbox_pushed :
    (now : Text) → (outbox_ids assigned : List ℕ) → List OutboxRow → List OutboxRow
mark_outbox_pushed now [] assigned rows = rows
mark_outbox_pushed now (id ∷ ids) [] rows = rows
mark_outbox_pushed now (id ∷ ids) (ev ∷ evs) rows =
    mark_outbox_pushed now ids evs (mark_pushed now id ev rows)

-- The answer to the push: the assigned ids, or an error or a 401.
unfoldable pub push_round : (now : Text) → Option (List ℕ) → List OutboxRow → List OutboxRow
unfolding drain_outbox mark_outbox_pushed
push_round now none rows = rows
push_round now (some assigned) rows =
    if is_empty (drain_outbox rows)
    then rows
    else mark_outbox_pushed now (map (λ r. r.outbox_id) (drain_outbox rows)) assigned rows
