-- ===== src/Terminal/Outcomes.antt =====
-- `_apply_pack_outcome` and `_apply_unknown_outcome` of mailman/terminal/sync_client.py: what a terminal
-- records of a pack that the cloud has resolved. The two tables are lists of rows.
pub mod Effect
mod Tests
use mail_chad.Base.{
  ℕ, ◌==◌, Bool, true, false, not, ◌&&◌, Option, none, some, List, [], ◌∷◌, ◌++◌, Text, text_eq,
  is_empty, contains, if◌then◌else◌, str,
}
use mail_chad.Cloud.Pack.{is_sent, is_unknown, Status, sent, unknown}

-- `dispatched_job`
pub record Job : Type 0 where
  pub job_id : Text
  pub campaign_id : ℕ
  pub recipient_id : ℕ
  pub status : Text
  pub completed_at : Option Text
  pub resend_message_id : Text

-- `campaign_recipients`
pub record Recipient : Type 0 where
  pub campaign_id : ℕ
  pub contact_id : ℕ
  pub status : Text
  pub message_id : Text
  pub failure_reason : Option Text
  pub sent_at : Option Text

-- What is read of the pack.
pub record Resolved : Type 0 where
  pub pack_id : Text
  pub status : Status
  pub resend_message_id : Option Text
  pub failure_reason : Option Text

pub record Audit : Type 0 where
  pub action : Text
  pub pack_id : Text
  pub status : Status
  pub reason : Text

pub record Db : Type 0 where
  pub jobs : List Job
  pub recipients : List Recipient
  pub audits : List Audit

-- `x or ""`, and `x or None`.
abbrev pub text_or_empty : Option Text → Text
text_or_empty none = []
text_or_empty (some t) = t

abbrev pub none_if_empty : Text → Option Text
none_if_empty t = if is_empty t then none else some t

-- The states that a webhook reports, which no outcome overwrites.
abbrev pub is_engaged : Text → Bool
is_engaged status =
    contains status
      (str "delivered" ∷ str "opened" ∷ str "clicked" ∷ str "bounced" ∷ str "complained" ∷ [])

unfoldable pub find_job : Text → List Job → Option Job
find_job id [] = none
find_job id (j ∷ jobs) = if text_eq j.job_id id then some j else find_job id jobs

-- `UPDATE … WHERE`
abbrev pub update_where {ℓ} : {A : Type ℓ} → (A → Bool) → (A → A) → List A → List A
update_where p f [] = []
update_where p f (x ∷ xs) = (if p x then f x else x) ∷ update_where p f xs

abbrev pub is_recipient : Job → Recipient → Bool
is_recipient job r = r.campaign_id == job.campaign_id && r.contact_id == job.recipient_id

abbrev pub finish_job : Resolved → (now : Text) → Job → Job
finish_job pack now j =
    if is_sent pack.status
    then record j {
      status = str "completed";
      completed_at = some now;
      resend_message_id = text_or_empty pack.resend_message_id;
    }
    else record j {
      status = str "failed";
      resend_message_id = text_or_empty pack.resend_message_id;
    }

abbrev pub finish_recipient : Resolved → (now : Text) → Recipient → Recipient
finish_recipient pack now r = record r {
  status = if is_sent pack.status then str "sent" else str "failed";
  message_id = text_or_empty pack.resend_message_id;
  failure_reason = none_if_empty (text_or_empty pack.failure_reason);
  sent_at = if is_sent pack.status then some now else none;
}

-- `UNKNOWN_PREFIX + (reason or "no reason recorded")`
abbrev pub unknown_reason : Text → Text
unknown_reason reason =
    str "Delivery unknown: " ++ (if is_empty reason then str "no reason recorded" else reason)

abbrev pub audit_of : (action : Text) → Resolved → Audit
audit_of action pack = record {
  action = action;
  pack_id = pack.pack_id;
  status = pack.status;
  reason = text_or_empty pack.failure_reason;
}

-- `_apply_unknown_outcome`, once the job is found.
abbrev pub note_unknown : Resolved → Job → Db → Db
note_unknown pack job d = record d {
  recipients =
      update_where (λ r. is_recipient job r && text_eq r.status (str "sent"))
        (λ r. record r {
          failure_reason = some (unknown_reason (text_or_empty pack.failure_reason));
        })
        d.recipients;
  audits = d.audits ++ (audit_of (str "pack.outcome_unknown") pack ∷ []);
}

abbrev pub record_outcome : Resolved → (now : Text) → Job → Db → Db
record_outcome pack now job d = record d {
  jobs = update_where (λ j. text_eq j.job_id pack.pack_id) (finish_job pack now) d.jobs;
  recipients =
      update_where (λ r. is_recipient job r && not (is_engaged r.status))
        (finish_recipient pack now) d.recipients;
  audits =
      if is_sent pack.status
      then d.audits
      else d.audits ++ (audit_of (str "pack.outcome_failed") pack ∷ []);
}

abbrev pub apply_to : Resolved → (now : Text) → Option Job → Db → Db
apply_to pack now none d = d
apply_to pack now (some job) d =
    if is_unknown pack.status then note_unknown pack job d else record_outcome pack now job d

unfoldable pub apply_pack_outcome : Resolved → (now : Text) → Db → Db
unfolding find_job
apply_pack_outcome pack now d = apply_to pack now (find_job pack.pack_id d.jobs) d
