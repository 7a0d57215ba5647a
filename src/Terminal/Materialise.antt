-- ===== src/Terminal/Materialise.antt =====
-- The inbox materialiser of mailman/terminal/sync_client.py: `_materialise_inbox_batch` and what it
-- applies. Decryption with the JSON reader is a parameter, where `none` is the exception that leaves
-- a row for later; so are SHA-256 and the address of a contact. A key of a payload that is missing,
-- or null, is `none`.

use mathlib.Core.Option
pub mod Engaged
pub mod Keeps
pub mod Stamps
mod Tests
use mail_chad.Base.{
  ℕ, zero, suc, ◌+◌, ◌==◌, Bool, true, false, not, ◌&&◌, ◌||◌, Option, none, some, List, [], ◌∷◌,
  Text, text_eq, is_empty, is_some, contains, if◌then◌else◌, keep, take, leb, str,
}
use mail_chad.Base.Table.{Table, write_item, get_item, always}
use mail_chad.Terminal.Outcomes.{update_where}
use mail_chad.Terminal.MergeUnsubs.{Suppressed}
use mail_chad.Terminal.Inbox.{InboxRow}

pub record Payload : Type 0 where
  pub event_type : Option Text
  pub message_id : Option Text
  pub email_hash : Option Text
  pub reason : Option Text
  pub source : Option Text
  pub added_at : Option Text

-- The columns of campaign_recipients that a webhook event reads and writes.
pub record Mail : Type 0 where
  pub id : ℕ
  pub contact_id : ℕ
  pub status : Text
  pub message_id : Text
  pub clicked_at : Option Text
  pub bounced_at : Option Text
  pub complained_at : Option Text

pub record Tables (Sup : Type 0) : Type 0 where
  pub inbox : List InboxRow
  pub mails : List Mail
  pub suppressed : Sup

abbrev pub value_or : Text → Option Text → Text
value_or default none = default
value_or default (some t) = t

unfoldable pub find_mail : Text → List Mail → Option Mail
find_mail message_id [] = none
find_mail message_id (m ∷ ms) =
    if text_eq m.message_id message_id then some m else find_mail message_id ms

abbrev pub is_final : Text → Bool
is_final status = text_eq status (str "bounced") || text_eq status (str "complained")

abbrev pub is_bounce : Text → Bool
is_bounce event_type = text_eq event_type (str "email.bounced")

abbrev pub is_complaint : Text → Bool
is_complaint event_type = text_eq event_type (str "email.complained")

-- What the event makes of the row that it is for.
abbrev pub noted : (now event_type : Text) → Mail → Mail
noted now event_type m =
    if text_eq event_type (str "email.opened")
    then m
    else if text_eq event_type (str "email.clicked")
    then record m { status = str "clicked"; clicked_at = some now }
    else if is_bounce event_type
    then record m { status = str "bounced"; bounced_at = some now }
    else if is_complaint event_type
    then record m { status = str "complained"; complained_at = some now }
    else m

-- A bounce or a complaint is not overwritten by anything else.
abbrev pub is_guarded : (event_type : Text) → Mail → Bool
is_guarded event_type m = is_final m.status && not (is_bounce event_type || is_complaint event_type)

-- The CHECK on the column, under which INSERT OR IGNORE skips a row.
abbrev pub is_reason : Text → Bool
is_reason reason = contains reason (
    str "unsubscribe"
    ∷ str "complaint"
    ∷ str "bounce_hard"
    ∷ str "manual"
    ∷ str "erasure_request"
    ∷ [])

-- INSERT OR IGNORE: a stored row stays.
abbrev pub inserted : Suppressed → Option Suppressed → Option Suppressed
inserted r none = if is_reason r.reason then some r else none
inserted r (some old) = some old

abbrev pub suppression : (h reason source added_at : Text) → Suppressed
suppression h reason source added_at = record {
  email_hash = h;
  reason = reason;
  scope = str "all";
  source = source;
  added_at = added_at;
}

abbrev pub mark_row : (now : Text) → InboxRow → InboxRow
mark_row now r = record r { materialised_at = some now }

-- `_mark_materialised`
abbrev pub mark_materialised : (now : Text) → ℕ → List InboxRow → List InboxRow
mark_materialised now id rows = update_where (λ r. r.event.event_id == id) (mark_row now) rows

abbrev pub is_webhook : InboxRow → Bool
is_webhook r = text_eq r.event.table_name (str "webhook_event")

abbrev pub is_pending_row : InboxRow → Bool
is_pending_row r =
    not (is_some r.materialised_at)
    && (is_webhook r || text_eq r.event.table_name (str "suppression"))

-- `ORDER BY event_id`
unfoldable pub insert_by_id : InboxRow → List InboxRow → List InboxRow
insert_by_id r [] = r ∷ []
insert_by_id r (q ∷ rows) =
    if leb r.event.event_id q.event.event_id then r ∷ q ∷ rows else q ∷ insert_by_id r rows

unfoldable pub order_by_id : List InboxRow → List InboxRow
unfolding insert_by_id
order_by_id [] = []
order_by_id (r ∷ rows) = insert_by_id r (order_by_id rows)

module _ (open_payload : Text → Option Payload) (sha256 : Text → Text)
    (email_of : (contact_id : ℕ) → Option Text) (now : Text) {Sup : Type 0}
    ⦃table : Table Sup Suppressed⦄ where
  abbrev pub insert_or_ignore : Suppressed → Sup → Sup
  insert_or_ignore r t = (write_item r.email_hash always (inserted r) t).1

  -- `lower` is part of `sha256` here, which is taken of the address.
  abbrev pub suppress_bounce : Option Text → Sup → Sup
  suppress_bounce none t = t
  suppress_bounce (some email) t =
      insert_or_ignore
        (suppression (sha256 email) (str "bounce_hard") (str "auto:materialiser") now) t

  abbrev pub note_mail : (event_type : Text) → Option Mail → Tables Sup → Tables Sup
  note_mail event_type none t = t
  note_mail event_type (some m) t = if is_guarded event_type m then t else record t {
    mails = update_where (λ q. q.id == m.id) (noted now event_type) t.mails;
    suppressed =
        if is_bounce event_type
        then suppress_bounce (email_of m.contact_id) t.suppressed
        else t.suppressed;
  }

  unfoldable pub apply_webhook_event : Payload → Tables Sup → Tables Sup
  unfolding find_mail
  apply_webhook_event p t =
      if is_empty (value_or [] p.message_id)
      then t
      else note_mail (value_or [] p.event_type) (find_mail (value_or [] p.message_id) t.mails) t

  unfoldable pub apply_suppression_event : Payload → Tables Sup → Tables Sup
  apply_suppression_event p t = if is_empty (value_or [] p.email_hash) then t else record t {
    suppressed =
        insert_or_ignore
          (suppression (value_or [] p.email_hash) (value_or (str "unsubscribe") p.reason)
            (value_or (str "sync") p.source) (value_or now p.added_at))
          t.suppressed;
  }

  abbrev pub stamp : InboxRow → Tables Sup → Tables Sup
  stamp r t = record t { inbox = mark_materialised now r.event.event_id t.inbox }

  abbrev pub apply_opened : InboxRow → Option Payload → ℕ × Tables Sup → ℕ × Tables Sup
  apply_opened r none s = s
  apply_opened r (some p) (n, t) = (
    n + 1,
    stamp r (if is_webhook r then apply_webhook_event p t else apply_suppression_event p t),
  )

  abbrev pub apply_row : InboxRow → Option Text → ℕ × Tables Sup → ℕ × Tables Sup
  apply_row r none (n, t) = (n + 1, stamp r t)
  apply_row r (some bytes) s = apply_opened r (open_payload bytes) s

  unfoldable pub apply_rows : List InboxRow → ℕ × Tables Sup → ℕ × Tables Sup
  unfolding apply_webhook_event apply_suppression_event
  apply_rows [] s = s
  apply_rows (r ∷ rows) s = apply_rows rows (apply_row r r.payload s)

  unfoldable pub materialise_inbox_batch : Tables Sup → ℕ × Tables Sup
  unfolding apply_rows order_by_id
  materialise_inbox_batch t =
      apply_rows (take 50 (order_by_id (keep is_pending_row t.inbox))) (0, t)
