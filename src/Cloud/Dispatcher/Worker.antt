-- ===== src/Cloud/Dispatcher/Worker.antt =====
-- `_process` of mailman/cloud/dispatcher_lambda.py cut at its calls to the outside: between two of
-- them another worker, the packs API or the sweep may run.
use mail_chad.Base.{ℕ, Bool, Option, none, some, Text, if◌then◌else◌}
use mail_chad.Base.Table.{Table}
use mail_chad.Cloud.Pack.{Status, Pack, Fields, is_pending, get_pack, claim_pack}
use mail_chad.Cloud.Event.{Event}
use mail_chad.Cloud.KTemp.{KeyItem, get_active_k_temp}
use mail_chad.Cloud.Envelope.{Result, ok, err, Message, Plain, Codec, open_pack}
use mail_chad.Cloud.Dispatcher.{
  Reply, SendResult, result, missing_key, Cloud, Moment, Outcome, skipped, processed,
  outcome_unknown, key_error, send_sync, stuck_fields, undecryptable_fields, final_fields,
  write_pack, log_sent, record_post, payload_of, usable,
}
use mail_chad.Cloud.Pack.{is_unknown}

-- Where a worker stands: what it does next.
pub data Phase : Type 0 where
  start seen holding : Phase
  loaded : (payload : Option Text) → Phase
  ready : Plain → Phase
  storing : Fields → Phase
  reporting : Status → (msg_id failure : Option Text) → (group : ℕ) → Phase
  logging : Status → (group : ℕ) → Phase
  done : Outcome → Phase

pub record Worker : Type 0 where
  pub id : Text
  pub phase : Phase

abbrev pub at_phase : Text → Phase → Worker
at_phase id p = record { id = id; phase = p }

-- After the first `get_pack`, and after the claim.
abbrev pub after_read : Option Pack → Phase
after_read none = done skipped
after_read (some p) = if is_pending p.status then seen else done skipped

abbrev pub after_claim : Bool → Phase
after_claim won = if won then holding else done skipped

abbrev pub after_open : Result Plain → Phase
after_open (err why) = storing (undecryptable_fields why)
after_open (ok plain) = ready plain

abbrev pub after_send : (group : ℕ) → SendResult → Phase
after_send group missing_key = done key_error
after_send group (result status msg_id failure) = reporting status msg_id failure group

abbrev pub after_key : Codec → (payload : Option Text) → Option Text → Phase
after_key codec payload none = storing stuck_fields
after_key codec payload (some key) = after_open (open_pack codec payload key)

module _ {P C E A K : Type 0} ⦃packs : Table P Pack⦄ ⦃ids : Table C ℕ⦄ ⦃events : Table E Event⦄
    ⦃pointers : Table A Text⦄ ⦃key_items : Table K KeyItem⦄ (codec : Codec)
    (post : Message → Reply) where
  -- The next call of the worker for pack `id`.
  unfoldable pub advance : Text → Phase → Moment → Cloud P C E A K → Phase × Cloud P C E A K
  advance id start at c = (after_read (get_pack id c.packs), c)
  advance id seen at c =
      let (won, packs') = claim_pack id at.claim_at c.packs in
      (after_claim won, record c { packs = packs' })
  advance id holding at c = (loaded (payload_of (get_pack id c.packs)), c)
  advance id (loaded payload) at c =
      let (key, keys') = get_active_k_temp at.unix c.keys in
      (after_key codec payload (usable key), record c { keys = keys' })
  advance id (ready plain) at c =
      let (sending, request) = send_sync post plain in
      (after_send plain.group sending, record_post id request c)
  advance id (storing fields) at c = (done (processed 1), write_pack id fields at.resolve_at c)
  advance id (reporting status msg_id failure group) at c = (
    logging status group,
    write_pack id (final_fields status msg_id failure at.sent_at) at.resolve_at c,
  )
  advance id (logging status group) at c = (
    done (if is_unknown status then outcome_unknown else processed group),
    log_sent status id at c,
  )
  advance id (done outcome) at c = (done outcome, c)
