-- ===== src/Terminal/Outcomes/Tests.antt =====
-- An unknown and a sent outcome for one of two recipients.
use mail_chad.Base.{ℕ, ◌≡◌, refl, none, some, [], ◌∷◌, Text, str, text_eq, map}
use mail_chad.Cloud.Pack.{Status, sent, unknown}
use mail_chad.Terminal.Outcomes.{Job, Recipient, Resolved, Db, find_job, apply_pack_outcome}

abbrev recipient : ℕ → Text → Recipient
recipient contact_id status = record {
  campaign_id = 7;
  contact_id = contact_id;
  status = status;
  message_id = [];
  failure_reason = none;
  sent_at = none;
}

abbrev job : Job
job = record {
  job_id = str "p1";
  campaign_id = 7;
  recipient_id = 4;
  status = str "dispatched";
  completed_at = none;
  resend_message_id = [];
}

abbrev db : Db
db = record {
  jobs = job ∷ [];
  recipients = recipient 4 (str "sent") ∷ recipient 5 (str "queued") ∷ [];
  audits = [];
}

abbrev outcome : Status → Resolved
outcome s = record {
  pack_id = str "p1";
  status = s;
  resend_message_id = some (str "re_1");
  failure_reason = none;
}

stays_dispatched :
    map (λ j. j.status) (apply_pack_outcome (outcome unknown) (str "08:00") db).jobs
    ≡ str "dispatched" ∷ []
unfolding apply_pack_outcome find_job text_eq
stays_dispatched = refl

completes :
    map (λ j. j.status) (apply_pack_outcome (outcome sent) (str "08:00") db).jobs
    ≡ str "completed" ∷ []
unfolding apply_pack_outcome find_job text_eq
completes = refl
