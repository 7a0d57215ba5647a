-- ===== src/Cloud/Webhook.antt =====
-- mailman/cloud/webhook_receiver.py, with `load_pubkeys` of mailman/cloud/encryption_cloud.py and the
-- raw rows of mailman/cloud/dynamo.py. SHA-256 with `lower`, the JSON reader and the envelope for both
-- terminals are parameters. The rate limit is left out.
use mathlib.Core.Option
pub mod Once
pub mod Forwards
mod Tests
use mail_chad.Base.{
  ℕ, suc, ◌+◌, ◌-◌, ◌==◌, Bool, true, false, not, ◌&&◌, ◌||◌, Option, none, some, List, [], ◌∷◌,
  ◌++◌, Text, text_eq, str, is_empty, if◌then◌else◌, keep, map, ltb, is_blank, strip, starts_with,
  removeprefix, split_on,
}
use mail_chad.Base.Table.{Table, get_item, write_item, always}
use mail_chad.Cloud.Event.{Event, Log, put_event}
use mail_chad.Cloud.Handshake.{Pubkey}
use mail_chad.Cloud.Svix.{
  ℤ, Request, Refusal, missing_headers, timestamp_not_int, skewed, bad_signature, not_json, failed,
  check_request,
}

-- What the handler reads in the JSON body. `recipient` is the first of `data["to"]`.
pub record Hook : Type 0 where
  pub event_type : Option Text
  pub email_id : Option Text
  pub id : Option Text
  pub recipient : Option Text

-- The body: not JSON, JSON of another shape, where the handler fails, or a hook.
pub data Reading : Type 0 where
  no_json unusable : Reading
  hook : Hook → Reading

-- The payloads that are sealed for the terminals.
pub data Payload : Type 0 where
  webhook_event :
      (svix_id : Text)
      → (event_type message_id recipient : Option Text) → (raw received_at : Text) → Payload
  suppression : (email_hash reason source added_at : Text) → Payload

pub record RawRow : Type 0 where
  pub svix_id : Text
  pub event_type : Text
  pub message_id : Text
  pub received_at : Text
  pub forwarded_event_id : Option ℕ

pub data Answer : Type 0 where
  refused : Refusal → Answer
  duplicate raw_only : Answer
  forwarded : (event_id : ℕ) → (reason : Option Text) → Answer

pub record Hub (Counters Events Raws Pubkeys : Type 0) : Type 0 where
  pub log : Log Counters Events
  pub raws : Raws
  pub pubkeys : Pubkeys

-- The time of the request: to the second, and in full.
pub record Clock : Type 0 where
  pub second : Text
  pub instant : Text

abbrev pub or_else : Option Text → Option Text → Option Text
or_else none b = b
or_else (some t) b = if is_empty t then b else some t

abbrev pub or_empty : Option Text → Text
or_empty none = []
or_empty (some t) = t

-- Auto-suppression by the type of the event.
abbrev pub reason_of : (event_type : Text) → Option Text
reason_of event_type =
    if text_eq event_type (str "email.bounced")
    then some (str "bounce_hard")
    else if text_eq event_type (str "email.complained")
    then some (str "complaint")
    else if text_eq event_type (str "email.unsubscribed")
    then some (str "unsubscribe")
    else none

abbrev pub log_event : (now table_name row_id payload : Text) → Event
log_event now table_name row_id payload = record {
  event_id = 0;
  table_name = table_name;
  row_id = row_id;
  revision = 0;
  actor = str "client";
  modified_at = now;
  key_id = str "K_op+K_cl";
  encrypted_payload = some payload;
  deleted = false;
  received_at = now;
}

-- `load_pubkeys`: both keys, or the exception.
abbrev pub both_keys : Option Pubkey → Option Pubkey → Option (Text × Text)
both_keys none cl = none
both_keys (some op) none = none
both_keys (some op) (some cl) = some (op.kem_pub, cl.kem_pub)

abbrev pub side_reason : Hook → Option Text
side_reason h = if is_empty (or_empty h.recipient) then none else reason_of (or_empty h.event_type)

module _ (now : Clock) where
  abbrev pub raw_row : Request → Hook → Option ℕ → RawRow
  raw_row r h id = record {
    svix_id = r.svix_id;
    event_type = or_empty h.event_type;
    message_id = or_empty (or_else h.email_id h.id);
    received_at = now.second;
    forwarded_event_id = id;
  }

  module _ {Raws : Type 0} ⦃stored : Table Raws RawRow⦄ where
    abbrev pub put_webhook_raw : Request → Hook → Option ℕ → Raws → Raws
    put_webhook_raw r h id t = (write_item r.svix_id always (λ _. some (raw_row r h id)) t).1

module _ (hash_of : Text → Text) (seal : Text × Text → Payload → Text) (now : Clock) where
  abbrev pub hook_event : Text × Text → Request → Hook → Event
  hook_event k r h = log_event now.second (str "webhook_event") r.svix_id (
      seal k (
        webhook_event r.svix_id h.event_type (or_else h.email_id h.id) h.recipient r.body
          now.instant))

  abbrev pub suppression_event : Text × Text → Hook → (reason : Text) → Event
  suppression_event k h reason =
      let hashed = hash_of (or_empty h.recipient) in
      log_event now.second (str "suppression") hashed
        (seal k (suppression hashed reason (str "webhook:" ++ or_empty h.event_type) now.instant))

  module _ {Counters Events : Type 0} ⦃ids : Table Counters ℕ⦄ ⦃rows : Table Events Event⦄ where
    abbrev pub log_suppression :
        Text × Text → Hook → Option Text → Log Counters Events → Log Counters Events
    log_suppression k h none log = log
    log_suppression k h (some reason) log = (put_event (suppression_event k h reason) log).1

    module _ {Raws Pubkeys : Type 0} ⦃stored : Table Raws RawRow⦄
        ⦃keys : Table Pubkeys Pubkey⦄ where
      unfoldable pub forward :
          Text × Text
          → Request
          → Hook
          → Hub Counters Events Raws Pubkeys
          → Answer × Hub Counters Events Raws Pubkeys
      forward k r h hub =
          let (id, log) = put_event (hook_event k r h) hub.log in
          (
            forwarded id (side_reason h),
            record hub {
              log = log_suppression k h (side_reason h) log;
              raws = put_webhook_raw now r h (some id) hub.raws;
            },
          )

      abbrev pub on_keys :
          Option (Text × Text)
          → Request
          → Hook
          → Hub Counters Events Raws Pubkeys
          → Answer × Hub Counters Events Raws Pubkeys
      on_keys none r h hub = (raw_only, record hub { raws = put_webhook_raw now r h none hub.raws })
      on_keys (some k) r h hub = forward k r h hub

      abbrev pub on_stored :
          Option RawRow
          → Request
          → Hook
          → Hub Counters Events Raws Pubkeys
          → Answer × Hub Counters Events Raws Pubkeys
      on_stored (some row) r h hub = (duplicate, hub)
      on_stored none r h hub =
          on_keys
            (both_keys (get_item (str "operator") hub.pubkeys)
              (get_item (str "client") hub.pubkeys))
            r h hub

      abbrev pub on_reading :
          Reading
          → Request
          → Hub Counters Events Raws Pubkeys
          → Answer × Hub Counters Events Raws Pubkeys
      on_reading no_json r hub = (refused not_json, hub)
      on_reading unusable r hub = (refused failed, hub)
      on_reading (hook h) r hub = on_stored (get_item r.svix_id hub.raws) r h hub

      abbrev pub on_check :
          (read_hook : Text → Reading)
          → Option Refusal
          → Request
          → Hub Counters Events Raws Pubkeys
          → Answer × Hub Counters Events Raws Pubkeys
      on_check read_hook (some e) r hub = (refused e, hub)
      on_check read_hook none r hub = on_reading (read_hook r.body) r hub

      module _ (read_hook : Text → Reading) (hmac : (secret message : Text) → Text)
          (b64decode : Text → Option Text) (setting : Text) (parse_int : Text → Option ℤ)
          (max_skew now_s : ℕ) where
        unfoldable pub resend_webhook :
            Request → Hub Counters Events Raws Pubkeys → Answer × Hub Counters Events Raws Pubkeys
        unfolding check_request forward
        resend_webhook r hub =
            on_check read_hook (check_request hmac b64decode setting parse_int max_skew now_s r) r
              hub
