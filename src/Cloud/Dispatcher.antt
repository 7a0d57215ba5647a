-- ===== src/Cloud/Dispatcher.antt =====
-- mailman/cloud/dispatcher_lambda.py: the SQS consumer that sends the packs. Resend is a parameter,
-- a function from the message to its answer; each request made is kept in `posts`, the newest
-- first, with the pack that it was made for. The pauses between sends, with the bounce counts that
-- only their length depends on, are left out.
pub mod Worker
pub mod Refine
pub mod Settle
pub mod Frame
pub mod Batch
pub mod Interleave
mod Tests
use mail_chad.Base.{
  ℕ, Bool, true, false, Option, none, some, List, ◌∷◌, ◌++◌, Text, is_empty, if◌then◌else◌, leb,
  str,
}
use mail_chad.Base.Table.{Table}
use mail_chad.Cloud.Pack.{
  is_sent, is_unknown, Status, sent, failed, stuck_no_key, unknown, Pack, Fields, no_fields,
  is_pending, get_pack, claim_pack, update_pack,
}
use mail_chad.Cloud.Event.{Event, Log, put_event, padded}
use mail_chad.Cloud.KTemp.{KeyItem, Keys, get_active_k_temp}
use mail_chad.Cloud.Envelope.{Result, ok, err, Message, Plain, Codec, open_pack}

-- How the POST to Resend ends. A body that is no JSON has neither a message nor an id; the message
-- of one that is an object may be null.
pub data Reply : Type 0 where
  network_error : (exception : Text) → Reply
  answer : (code : ℕ) → (message : Option (Option Text)) → (id : Option Text) → Reply

-- `(status, message_id, failure_reason)`, or the KeyError of a pack that lacks a key.
pub data SendResult : Type 0 where
  result : Status → (msg_id failure : Option Text) → SendResult
  missing_key : SendResult

pub record Cloud (P C E A K : Type 0) : Type 0 where
  pub packs : P
  pub log : Log C E
  pub keys : Keys A K
  pub posts : List (Text × Message)

-- The readings of the clock in one call of `_process`.
pub record Moment : Type 0 where
  pub claim_at : Text
  pub unix : ℕ
  pub resolve_at : Text
  pub sent_at : Text
  pub received_at : Text

-- `_process` returns an outcome and the size of a sender group, or raises.
pub data Outcome : Type 0 where
  skipped : Outcome
  processed : (group : ℕ) → Outcome
  outcome_unknown : Outcome
  key_error : Outcome

-- `j.get("message", d)`
abbrev or_else : Option (Option Text) → Text → Option Text
or_else none d = some d
or_else (some t) d = t

abbrev classify : Reply → SendResult
classify (network_error e) =
    result unknown none (some (str "network error during send (" ++ e ++ str ")"))
classify (answer code message id) =
    if leb 500 code
    then result unknown none (some (str "resend " ++ padded 3 code ++ str " during send"))
    else if leb 400 code
    then result failed none (or_else message (str "resend " ++ padded 3 code))
    else result sent id none

-- `_send_sync`: the result, and the request if one was made.
unfoldable pub send_sync : (Message → Reply) → Plain → SendResult × Option Message
send_sync post plain = elim plain.resend_api_key [
  | none ↦ (result failed none (some (str "pack missing resend_api_key")), none)
  | some key ↦
      if is_empty key
      then (result failed none (some (str "pack missing resend_api_key")), none)
      else elim plain.message [ none ↦ (missing_key, none) | some m ↦ (classify (post m), some m) ]
]

abbrev pub stuck_fields : Fields
stuck_fields = record no_fields {
  status = some stuck_no_key;
  failure_reason = some (some (str "no active K_temp at dispatch time"));
}

abbrev pub undecryptable_fields : Text → Fields
undecryptable_fields why = record no_fields {
  status = some failed;
  failure_reason = some (some (str "decrypt failed: " ++ why));
  encrypted_payload = some none;
}

abbrev pub sent_time : Status → Text → Option Text
sent_time sent now = some now
sent_time _ now = none

-- The fields that `_finalize` writes.
abbrev pub final_fields : Status → (msg_id failure : Option Text) → Text → Fields
final_fields status msg_id failure now = record no_fields {
  status = some status;
  sent_at = some (sent_time status now);
  resend_message_id = some msg_id;
  failure_reason = some failure;
  encrypted_payload = some none;
}

abbrev pub pack_event : Text → Moment → Event
pack_event pack_id at = record {
  event_id = 0;
  table_name = str "pack";
  row_id = pack_id;
  revision = 1;
  actor = str "cloud";
  modified_at = at.sent_at;
  key_id = str "K_op+K_cl";
  encrypted_payload = none;
  deleted = false;
  received_at = at.received_at;
}

abbrev pub payload_of : Option Pack → Option Text
payload_of none = none
payload_of (some p) = p.encrypted_payload

-- `if not k_temp`
abbrev pub usable : Option Text → Option Text
usable none = none
usable (some k) = if is_empty k then none else some k

module _ {P C E A K : Type 0} ⦃packs : Table P Pack⦄ ⦃ids : Table C ℕ⦄ ⦃events : Table E Event⦄
    ⦃pointers : Table A Text⦄ ⦃key_items : Table K KeyItem⦄ where
  abbrev pub write_pack : Text → Fields → (now : Text) → Cloud P C E A K → Cloud P C E A K
  write_pack id fields now c = record c { packs = update_pack id fields now c.packs }

  abbrev pub log_sent : Status → Text → Moment → Cloud P C E A K → Cloud P C E A K
  log_sent status id at c =
      if is_sent status then record c { log = (put_event (pack_event id at) c.log).1 } else c

  -- `_finalize`
  unfoldable pub finalize :
      Text → Status → (msg_id failure : Option Text) → Moment → Cloud P C E A K → Cloud P C E A K
  finalize id status msg_id failure at c =
      log_sent status id at
        (write_pack id (final_fields status msg_id failure at.sent_at) at.resolve_at c)

  abbrev pub record_post : Text → Option Message → Cloud P C E A K → Cloud P C E A K
  record_post id none c = c
  record_post id (some m) c = record c { posts = (id, m) ∷ c.posts }

  -- What follows `_send_sync`; `_stop_if_unknown` raises after the result is stored.
  abbrev pub finish :
      Text → (group : ℕ) → Moment → SendResult → Cloud P C E A K → Outcome × Cloud P C E A K
  finish id group at missing_key c = (key_error, c)
  finish id group at (result status msg_id failure) c = (
    if is_unknown status then outcome_unknown else processed group,
    finalize id status msg_id failure at c,
  )

  module _ (codec : Codec) (post : Message → Reply) where
    abbrev pub send_plain :
        Text → Moment → Result Plain → Cloud P C E A K → Outcome × Cloud P C E A K
    send_plain id at (err why) c =
        (processed 1, write_pack id (undecryptable_fields why) at.resolve_at c)
    send_plain id at (ok plain) c =
        let (sending, request) = send_sync post plain in
        finish id plain.group at sending (record_post id request c)

    abbrev pub with_key :
        Text
        → Moment
        → (payload : Option Text) → Option Text
        → Cloud P C E A K
        → Outcome × Cloud P C E A K
    with_key id at payload none c = (processed 1, write_pack id stuck_fields at.resolve_at c)
    with_key id at payload (some key) c = send_plain id at (open_pack codec payload key) c

    -- From the second `get_pack` on. An empty key counts as none.
    unfoldable pub process_claimed : Text → Moment → Cloud P C E A K → Outcome × Cloud P C E A K
    process_claimed id at c =
        let payload = payload_of (get_pack id c.packs) in
        let (key, keys') = get_active_k_temp at.unix c.keys in
        with_key id at payload (usable key) (record c { keys = keys' })

    abbrev pub on_claim : Text → Moment → (won : Bool) → Cloud P C E A K → Outcome × Cloud P C E A K
    on_claim id at true c = process_claimed id at c
    on_claim id at false c = (skipped, c)

    abbrev pub try_claim : Text → Moment → Cloud P C E A K → Outcome × Cloud P C E A K
    try_claim id at c =
        let (won, packs') = claim_pack id at.claim_at c.packs in
        on_claim id at won (record c { packs = packs' })

    abbrev pub on_read : Text → Moment → Option Pack → Cloud P C E A K → Outcome × Cloud P C E A K
    on_read id at none c = (skipped, c)
    on_read id at (some p) c = if is_pending p.status then try_claim id at c else (skipped, c)

    unfoldable pub process : Text → Moment → Cloud P C E A K → Outcome × Cloud P C E A K
    unfolding process_claimed
    process id at c = on_read id at (get_pack id c.packs) c
