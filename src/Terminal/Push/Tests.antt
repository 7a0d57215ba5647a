-- ===== src/Terminal/Push/Tests.antt =====
-- Three packs in chunks of two, of which the second chunk fails; and two presses from one page.
use mail_chad.Base.{
  ℕ, ◌≡◌, ◌≤◌, ◌+◌, refl, false, none, some, Option, List, [], ◌∷◌, Text, str, take, text_eq, map,
  arith, if◌then◌else◌,
}
use mail_chad.Cloud.Pack.{sent}
use mail_chad.Cloud.PackApi.{PackIn}
use mail_chad.Terminal.Outcomes.{Job, Recipient, Db, find_job, apply_pack_outcome}
use mail_chad.Terminal.Push.{
  NewJob, Reply, acked, broken, push_error, push_and_record, apply_held_outcomes, Relaunch,
}
use mail_chad.Terminal.Push.Chunks.{acknowledged, held_in}
use mail_chad.Terminal.Push.Record.{AreFresh, recorded}
use mail_chad.Terminal.Push.Effect.{Tells, push_and_record-Stores}
use mail_chad.Terminal.Push.Claims.{
  Move, claim, opening, closing, wins_of, openings_of, closings_of, presses-once,
}

abbrev pack : Text → PackIn
pack id = record {
  pack_id = id;
  campaign_id = 1;
  recipient_hash = [];
  content_hash = [];
  send_at = [];
  key_id = [];
  encrypted_blob = [];
}

abbrev job : Text → Option ℕ → NewJob
job id contact = record { pack_id = id; contact_id = contact; is_seed = false }

-- The first chunk is acknowledged, with an outcome that the cloud already held.
abbrev answers : ℕ → Reply
answers i =
    if◌then◌else◌ (text_eq (i ∷ []) (0 ∷ []))
      (acked (record {
        accepted = 1;
        submitted = 2;
        enqueued = 1;
        deferred = 0;
        held =
            record {
              pack_id = str "a";
              status = sent;
              resend_message_id = some (str "m");
              failure_reason = none;
            }
            ∷ [];
      }))
      broken

abbrev packs : List PackIn
packs = pack (str "a") ∷ pack (str "b") ∷ pack (str "c") ∷ []

abbrev jobs : List NewJob
jobs = job (str "a") (some 7) ∷ job (str "b") none ∷ job (str "c") (some 8) ∷ []

abbrev waiting : ℕ → Recipient
waiting contact = record {
  campaign_id = 1;
  contact_id = contact;
  status = str "queued";
  message_id = [];
  failure_reason = none;
  sent_at = none;
}

abbrev tables : Db
tables = record { jobs = []; recipients = waiting 7 ∷ waiting 8 ∷ []; audits = [] }

-- One job is recorded, with its outcome; the seed is not, and the pack behind the failure is not.
recorded_one :
    map (λ (j : Job). j.status) (push_and_record 2 answers 1 (str "08:00") packs jobs tables).1.jobs
    ≡ str "completed" ∷ []
unfolding push_and_record text_eq find_job apply_pack_outcome
recorded_one = refl

raised : (push_and_record 2 answers 1 (str "08:00") packs jobs tables).0 ≡ push_error 1
unfolding push_and_record text_eq find_job
raised = refl

jobs-AreFresh : AreFresh jobs tables.jobs
unfolding find_job
jobs-AreFresh = (refl, (apart_ab, (apart_ac, tt)), (refl, (apart_bc, tt), (refl, tt, tt)))
  where
    apart_ab : str "a" ≡ str "b" → ⊥
    apart_ab e = ground arith

    apart_ac : str "a" ≡ str "c" → ⊥
    apart_ac e = ground arith

    apart_bc : str "b" ≡ str "c" → ⊥
    apart_bc e = ground arith

push_and_record-Stores_example :
    let n = acknowledged 2 answers 3 0 packs in
    let (answer, d') = push_and_record 2 answers 1 (str "08:00") packs jobs tables in
    (d'
      ≡ apply_held_outcomes
          (str "08:00")
          (held_in 2 answers 3 0 packs)
          (recorded 1 (str "08:00") (take n jobs) tables))
    × Tells n 3 answer
push_and_record-Stores_example =
    push_and_record-Stores 1 answers 1 (str "08:00") packs jobs tables refl jobs-AreFresh

abbrev resting : Relaunch
resting = record { status = str "dispatched"; seq = 4; gen = 0; is_open = false }

-- Two presses from one page, with their openings.
abbrev both : List Move
both = claim (some 4) ∷ claim (some 4) ∷ opening ∷ opening ∷ closing 1 ∷ []

presses-once_example :
    (wins_of 4 both resting ≤ 1) × (openings_of both resting ≤ closings_of both + 1)
presses-once_example = presses-once 4 both resting
