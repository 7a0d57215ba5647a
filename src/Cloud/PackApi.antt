-- ===== src/Cloud/PackApi.antt =====
-- mailman/cloud/packs.py: the terminals' API to the packs. The queue is the list of the pack ids in
-- it; whether SQS takes a message is a parameter, since `_enqueue` swallows its errors. Base64 is
-- a parameter too: `none` is the exception that ends the call.
pub mod Retry
pub mod Cancel
mod Tests
use mail_chad.Base.{
  ℕ, ◌+◌, Bool, true, false, Option, none, some, List, [], ◌∷◌, ◌++◌, Text, text_le, if◌then◌else◌,
  length,
}
use mail_chad.Base.Table.{Table}
use mail_chad.Cloud.Pack.{
  Status, Pack, NewPack, is_pending, get_pack, put_pack, cancel_pack, cancel_pending_for_campaign,
}

-- `PackIn`
pub record PackIn : Type 0 where
  pub pack_id : Text
  pub campaign_id : ℕ
  pub recipient_hash : Text
  pub content_hash : Text
  pub send_at : Text
  pub key_id : Text
  pub encrypted_blob : Text

-- A pack that the cloud already had, as the answer lists it.
pub record Held : Type 0 where
  pub pack_id : Text
  pub status : Status
  pub resend_message_id : Option Text
  pub failure_reason : Option Text

-- The loop's state: the tables, and the counts of the answer.
pub record Push (P : Type 0) : Type 0 where
  pub packs : P
  pub queue : List Text
  pub accepted : ℕ
  pub enqueued : ℕ
  pub deferred : ℕ
  pub held : List Held

-- The readings of the clock for the call, and for the writes in it.
pub record Clock : Type 0 where
  pub call : Text
  pub store : Text

pub data Answer : Type 0 where
  finished : Answer
  bad_base64 : Answer

abbrev pub decoded : PackIn → (payload : Text) → NewPack
decoded p payload = record {
  pack_id = p.pack_id;
  campaign_id = p.campaign_id;
  recipient_hash = p.recipient_hash;
  content_hash = p.content_hash;
  send_at = p.send_at;
  key_id = p.key_id;
  encrypted_payload = payload;
}

abbrev pub held_row : Pack → Held
held_row cur = record {
  pack_id = cur.pack_id;
  status = cur.status;
  resend_message_id = cur.resend_message_id;
  failure_reason = cur.failure_reason;
}

abbrev pub add_held : Option Pack → List Held → List Held
add_held none held = held
add_held (some cur) held = held ++ (held_row cur ∷ [])

-- `_enqueue`
abbrev enqueue : (takes : Text → Bool) → Text → List Text → List Text
enqueue takes id queue = if takes id then queue ++ (id ∷ []) else queue

module _ {P : Type 0} ⦃packs : Table P Pack⦄ where
  abbrev pub begin_push : P → List Text → Push P
  begin_push t queue = record {
    packs = t;
    queue = queue;
    accepted = 0;
    enqueued = 0;
    deferred = 0;
    held = [];
  }

  module _ (takes : Text → Bool) where
    abbrev count_stored : Clock → PackIn → P → Push P → Push P
    count_stored clock p t s =
        if text_le p.send_at clock.call
        then record s {
          packs = t;
          queue = enqueue takes p.pack_id s.queue;
          accepted = s.accepted + 1;
          enqueued = s.enqueued + 1;
        }
        else record s { packs = t; accepted = s.accepted + 1; deferred = s.deferred + 1 }

    -- One pack whose blob decodes.
    unfoldable pub push_decoded :
        (actor : Text) → Clock → PackIn → (payload : Text) → Push P → Push P
    push_decoded actor clock p payload s =
        let (stored, t) = put_pack (decoded p payload) actor clock.store s.packs in
        if stored
        then count_stored clock p t s
        else record s { packs = t; held = add_held (get_pack p.pack_id t) s.held }

    module _ (b64decode : Text → Option Text) where
      -- `packs_push`, from the state of the loop on.
      unfoldable pub push_all : (actor : Text) → Clock → List PackIn → Push P → Answer × Push P
      push_all actor clock [] s = (finished, s)
      push_all actor clock (p ∷ ps) s = elim (b64decode p.encrypted_blob) [
        | none ↦ (bad_base64, s)
        | some payload ↦ push_all actor clock ps (push_decoded actor clock p payload s)
      ]

      unfoldable pub packs_push :
          (actor : Text) → Clock → List PackIn → P → List Text → Answer × Push P
      unfolding push_all
      packs_push actor clock ps t queue = push_all actor clock ps (begin_push t queue)

-- The answers of `packs_cancel`; `reason` is the status that the pack already has.
pub data CancelAnswer : Type 0 where
  was_cancelled not_confirmed no_such_pack : CancelAnswer
  already : Status → CancelAnswer

abbrev pub second_look : Option Pack → CancelAnswer
second_look none = no_such_pack
second_look (some p) = if is_pending p.status then not_confirmed else already p.status

module _ {P : Type 0} ⦃packs : Table P Pack⦄ where
  -- Other actors may write between the calls of `packs_cancel`: `between` is what they do before the
  -- first read, `later` before the second cancellation, and `last` before the second read.
  module _ (id now : Text) (between later last : P → P) where
    abbrev cancel_again : P → CancelAnswer × P
    cancel_again t =
        let (done, t') = cancel_pack id now (later t) in
        if done then (was_cancelled, t') else (second_look (get_pack id (last t')), last t')

    abbrev first_look : Option Pack → P → CancelAnswer × P
    first_look none t = (no_such_pack, t)
    first_look (some p) t = if is_pending p.status then cancel_again t else (already p.status, t)

    unfoldable pub packs_cancel : P → CancelAnswer × P
    packs_cancel t =
        let (done, t') = cancel_pack id now t in
        if done then (was_cancelled, t') else first_look (get_pack id (between t')) (between t')

-- `packs_cancel_campaign`, for a body with or without a campaign id; `none` is the answer 400.
module _ {P : Type 0} ⦃packs : Table P Pack⦄ where
  unfoldable pub packs_cancel_campaign :
      (campaign_id : Option ℕ) → (now : Text) → (listed : List Pack) → P → Option ℕ × P
  packs_cancel_campaign none now listed t = (none, t)
  packs_cancel_campaign (some c) now listed t =
      let (n, t') = cancel_pending_for_campaign c now listed t in (some n, t')
