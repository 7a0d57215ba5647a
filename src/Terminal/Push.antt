-- ===== src/Terminal/Push.antt =====
-- mailman/terminal/launch.py: pushing packs in chunks and recording what the cloud acknowledged
-- (`_push_packs`, `_record_dispatch`, `_apply_held_outcomes`, `_push_and_record`), and the claims of a
-- re-launch. What the cloud answers to the i-th chunk is a parameter, and so is the time of a write.

pub mod Chunks
pub mod Record
pub mod Effect
pub mod Claims
mod Tests
use mail_chad.Base.{
  ℕ, zero, suc, ◌+◌, ◌==◌, Bool, true, false, ◌&&◌, ◌||◌, Option, none, some, List, [], ◌∷◌, ◌++◌,
  map, Text, str, text_eq, contains, is_some, if◌then◌else◌, length, take, drop, keep,
}
use mail_chad.Cloud.Pack.{is_resolved}
use mail_chad.Cloud.PackApi.{PackIn, Held}
use mail_chad.Terminal.Outcomes.{
  Job, Recipient, Resolved, Db, find_job, update_where, apply_pack_outcome,
}

-- A dispatched_job record before it is stored, as `_build_pack` makes it.
pub record NewJob : Type 0 where
  pub pack_id : Text
  pub contact_id : Option ℕ
  pub is_seed : Bool

-- The cloud's answer to a chunk; `broken` is every exception, an answer of 400 or more included.
pub record Ack : Type 0 where
  pub accepted : ℕ
  pub submitted : ℕ
  pub enqueued : ℕ
  pub deferred : ℕ
  pub held : List Held

pub data Reply : Type 0 where
  acked : Ack → Reply
  broken : Reply

-- How the push ends, with the packs that were acknowledged: all of them, or those before the chunk
-- that failed.
pub data PushEnd : Type 0 where
  all_pushed : (pushed : ℕ) → Ack → PushEnd
  cut_off : (chunk pushed : ℕ) → Ack → PushEnd

abbrev pub no_acks : Ack
no_acks = record { accepted = 0; submitted = 0; enqueued = 0; deferred = 0; held = [] }

abbrev pub add_ack : Ack → Ack → Ack
add_ack a b = record {
  accepted = a.accepted + b.accepted;
  submitted = a.submitted + b.submitted;
  enqueued = a.enqueued + b.enqueued;
  deferred = a.deferred + b.deferred;
  held = a.held ++ b.held;
}

module _ (size : ℕ) (reply : ℕ → Reply) where
  -- The loop over the chunks, from the i-th on; the packs that are left bound it.
  unfoldable pub push_chunks : (fuel i : ℕ) → List PackIn → (pushed : ℕ) → Ack → PushEnd
  push_chunks zero i packs pushed agg = all_pushed pushed agg
  push_chunks (suc fuel) i [] pushed agg = all_pushed pushed agg
  push_chunks (suc fuel) i (p ∷ ps) pushed agg = elim (reply i) [
    | broken ↦ cut_off i pushed agg
    | acked a ↦
        push_chunks fuel (i + 1) (drop size (p ∷ ps)) (pushed + length (take size (p ∷ ps)))
          (add_ack agg a)
  ]

  unfoldable pub push_packs : List PackIn → PushEnd
  unfolding push_chunks
  push_packs packs = push_chunks (length packs) 0 packs 0 no_acks

abbrev pub job_row : (campaign_id : ℕ) → (contact : ℕ) → NewJob → Job
job_row campaign_id contact j = record {
  job_id = j.pack_id;
  campaign_id = campaign_id;
  recipient_id = contact;
  status = str "dispatched";
  completed_at = none;
  resend_message_id = [];
}

abbrev pub mark_sent : (now : Text) → Recipient → Recipient
mark_sent now r = record r { status = str "sent"; sent_at = some now }

abbrev pub is_row_of : (campaign_id contact : ℕ) → Recipient → Bool
is_row_of campaign_id contact r = r.campaign_id == campaign_id && r.contact_id == contact

-- The contact that a job is recorded for: seeds have none.
unfoldable pub recorded_contact : NewJob → Option ℕ
recorded_contact j = if j.is_seed then none else j.contact_id

module _ (campaign_id : ℕ) (now : Text) where
  -- One job; `none` is the error of a job id that is stored already.
  abbrev pub record_job : NewJob → Option ℕ → Db → Option Db
  record_job j none d = some d
  record_job j (some contact) d =
      if is_some (find_job j.pack_id d.jobs)
      then none
      else some (record d {
        jobs = d.jobs ++ (job_row campaign_id contact j ∷ []);
        recipients = update_where (is_row_of campaign_id contact) (mark_sent now) d.recipients;
      })

  -- The transaction: `none` leaves the tables as they were.
  unfoldable pub record_dispatch : List NewJob → Db → Option Db
  unfolding recorded_contact
  record_dispatch [] d = some d
  record_dispatch (j ∷ js) d = elim (record_job j (recorded_contact j) d) [
    | none ↦ none
    | some d' ↦ record_dispatch js d'
  ]

abbrev pub resolved_of : Held → Resolved
resolved_of h = record {
  pack_id = h.pack_id;
  status = h.status;
  resend_message_id = h.resend_message_id;
  failure_reason = h.failure_reason;
}

unfoldable pub apply_each : (now : Text) → List Held → Db → Db
apply_each now [] d = d
apply_each now (h ∷ hs) d = apply_each now hs (apply_pack_outcome (resolved_of h) now d)

unfoldable pub apply_held_outcomes : (now : Text) → List Held → Db → Db
unfolding apply_each
apply_held_outcomes now held d = apply_each now (keep (λ h. is_resolved h.status) held) d

-- What the caller of `_push_and_record` gets: the ack, the error of the failed chunk, or that of the
-- record.
pub data Pushed : Type 0 where
  returned : Ack → Pushed
  push_error : (chunk : ℕ) → Pushed
  record_error : Pushed

module _ (size : ℕ) (reply : ℕ → Reply) (campaign_id : ℕ) (now : Text) where
  -- The record of the jobs, and then the outcomes that the cloud already had.
  abbrev pub store_all : (on_success on_failure : Pushed) → List Held → Db → Option Db → Pushed × Db
  store_all on_success on_failure held d none = (on_failure, d)
  store_all on_success on_failure held d (some d') = (on_success, apply_held_outcomes now held d')

  abbrev pub store_end : PushEnd → List NewJob → Db → Pushed × Db
  store_end (all_pushed pushed agg) jobs d =
      store_all (returned agg) record_error agg.held d (record_dispatch campaign_id now jobs d)
  store_end (cut_off i zero agg) jobs d = (push_error i, d)
  store_end (cut_off i (suc pushed) agg) jobs d =
      store_all (push_error i) (push_error i) agg.held d
        (record_dispatch campaign_id now (take (suc pushed) jobs) d)

  unfoldable pub push_and_record : List PackIn → List NewJob → Db → Pushed × Db
  unfolding push_packs record_dispatch apply_held_outcomes
  push_and_record packs jobs d = store_end (push_packs size reply packs) jobs d

-- The columns of a campaign that the claims use.
pub record Relaunch : Type 0 where
  pub status : Text
  pub seq : ℕ
  pub gen : ℕ
  pub is_open : Bool

pub data Claim : Type 0 where
  claimed stale : Claim

abbrev pub seq_matches : (expected : Option ℕ) → ℕ → Bool
seq_matches none seq = true
seq_matches (some e) seq = seq == e

-- `_claim_relaunch`; a campaign that is missing is let through here and refused later.
unfoldable pub claim_relaunch : (expected : Option ℕ) → Option Relaunch → Claim × Option Relaunch
claim_relaunch expected none = (claimed, none)
claim_relaunch expected (some c) =
    if seq_matches expected c.seq
    then (claimed, some (record c { seq = c.seq + 1 }))
    else (stale, some c)

-- `_open_relaunch`: the generation, and whether the press finishes one that is open.
unfoldable pub open_relaunch : Relaunch → (ℕ × Bool) × Relaunch
open_relaunch c =
    if c.is_open
    then ((c.gen, true), c)
    else ((c.gen + 1, false), record c { gen = c.gen + 1; is_open = true })

-- The end of a press: only the generation that it worked on is closed.
unfoldable pub close_relaunch : (gen : ℕ) → Relaunch → Relaunch
close_relaunch gen c = if c.gen == gen then record c { is_open = false } else c

-- `_refuse_closed`, with the states that close the caller's path.
abbrev pub refuse_closed : (closed : List Text) → Option Relaunch → Bool
refuse_closed closed none = false
refuse_closed closed (some c) = contains c.status closed
