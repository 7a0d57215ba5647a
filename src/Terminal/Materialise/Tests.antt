-- ===== src/Terminal/Materialise/Tests.antt =====
-- A bounce and a suppression in the inbox, with one row that cannot be decrypted.
use mail_chad.Base.{
  ℕ, ◌≡◌, refl, none, some, Option, [], ◌∷◌, Text, str, text_eq, false, ◌+◌, ◌==◌, arith, inl, inr,
  if◌then◌else◌,
}
use mail_chad.Base.Table.{FunTable, fun_table, empty_table}
use mail_chad.Terminal.MergeUnsubs.{Suppressed}
use mail_chad.Terminal.Inbox.{InboxRow, inbox_row}
use mail_chad.Terminal.Materialise.{
  Payload, Mail, Tables, suppression, order_by_id, materialise_inbox_batch,
}
use mail_chad.Terminal.Materialise.Engaged.{Keyed}
use mail_chad.Terminal.Materialise.Keeps.{Keeps, materialise_inbox_batch-Keeps}
use mail_chad.Terminal.Materialise.Stamps.{Stamped, materialise_inbox_batch-stamps}

abbrev no_payload : Payload
no_payload = record {
  event_type = none;
  message_id = none;
  email_hash = none;
  reason = none;
  source = none;
  added_at = none;
}

-- The sealed texts that open.
abbrev unseal : Text → Option Payload
unseal t =
    if text_eq t (str "X1")
    then some (record no_payload {
      event_type = some (str "email.bounced");
      message_id = some (str "m1");
    })
    else if text_eq t (str "X2")
    then some (record no_payload { email_hash = some (str "h2") })
    else none

abbrev row : ℕ → (table_name sealed : Text) → InboxRow
row id table_name sealed =
    inbox_row (str "08:02")
      (record {
        event_id = id;
        table_name = table_name;
        row_id = str "r";
        revision = id;
        actor = str "cloud";
        modified_at = str "08:00";
        key_id = str "K_op+K_cl";
        encrypted_payload = none;
        deleted = false;
        received_at = str "08:01";
      })
      (some sealed)

abbrev mail : ℕ → (status message_id : Text) → Mail
mail id status message_id = record {
  id = id;
  contact_id = id + 10;
  status = status;
  message_id = message_id;
  clicked_at = none;
  bounced_at = none;
  complained_at = none;
}

abbrev tables : Tables (FunTable Suppressed)
tables = record {
  inbox =
      row 5 (str "suppression") (str "X2")
      ∷ row 3 (str "webhook_event") (str "X1")
      ∷ row 4 (str "webhook_event") (str "X0")
      ∷ [];
  mails = mail 1 (str "clicked") (str "m1") ∷ mail 2 (str "sent") (str "m2") ∷ [];
  suppressed = empty_table;
}

abbrev address_of : ℕ → Option Text
address_of id = if id == 11 then some (str "ann@x.org") else none

abbrev hash : Text → Text
hash t = b'#' ∷ t

abbrev after : ℕ × Tables (FunTable Suppressed)
after = materialise_inbox_batch unseal hash address_of (str "09:00") tables

two_applied : after.0 ≡ 2
unfolding materialise_inbox_batch text_eq
two_applied = refl

bounced :
    after.1.mails
    ≡ record (mail 1 (str "bounced") (str "m1")) { bounced_at = some (str "09:00") }
      ∷ mail 2 (str "sent") (str "m2")
      ∷ []
unfolding materialise_inbox_batch text_eq
bounced = refl

address_suppressed :
    after.1.suppressed (str "#ann@x.org")
    ≡ some
        (suppression (str "#ann@x.org") (str "bounce_hard") (str "auto:materialiser") (str "09:00"))
unfolding materialise_inbox_batch text_eq
address_suppressed = refl

tables-Keyed : Keyed tables.mails
tables-Keyed = ((λ e. omega arith, tt), (tt, tt))

materialise_inbox_batch-Keeps_example :
    Keeps unseal hash address_of
      (str "09:00")
      tables
      (materialise_inbox_batch unseal hash address_of (str "09:00") tables).1
materialise_inbox_batch-Keeps_example =
    materialise_inbox_batch-Keeps unseal hash address_of (str "09:00") tables tables-Keyed

materialise_inbox_batch-stamps_example :
    Stamped
      (str "09:00")
      5
      (materialise_inbox_batch unseal hash address_of (str "09:00") tables).1.inbox
unfolding order_by_id text_eq
materialise_inbox_batch-stamps_example =
    materialise_inbox_batch-stamps unseal hash address_of (str "09:00") tables
      (row 5 (str "suppression") (str "X2")) tables-Keyed (inr (inr (inl refl)))
      (record no_payload { email_hash = some (str "h2") }, refl)
