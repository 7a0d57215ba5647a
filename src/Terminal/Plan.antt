-- ===== src/Terminal/Plan.antt =====
-- `_plan_sends` of mailman/terminal/launch.py, with `_pack_id` and `_suppressed_map`: which contacts of
-- a campaign are sent to, and under which pack ids. `uuid5` and SHA-256 are parameters.
pub mod Ordinal
pub mod Choke
mod Tests
use mail_chad.Base.{
  ℕ, zero, suc, ◌+◌, ◌-◌, ◌/◌, ◌%◌, ◌==◌, Bool, true, false, not, ◌&&◌, ◌||◌, Option, none, some,
  List, [], ◌∷◌, ◌++◌, Text, text_eq, if◌then◌else◌, ltb, length, contains, str,
}
use mail_chad.Terminal.EmailClean.{lower}

pub record Suppression : Type 0 where
  pub email_hash : Text
  pub reason : Text
  pub scope : Text

-- A recipient row, as the queries for candidates give it.
pub record Candidate : Type 0 where
  pub contact_id : ℕ
  pub email : Text
  pub status : Text

-- `jobs`: the status of each recorded job of the campaign, by its pack id.
abbrev pub Jobs : Type 0
Jobs = List (Text × Text)

pub record SendPlan : Type 0 where
  pub sends : List (Candidate × Text)
  pub recorded : ℕ
  pub suppressed : List (ℕ × Text)

abbrev pub blocks : (is_promotional : Bool) → Suppression → Bool
blocks is_promotional s =
    not (text_eq s.reason (str "unsubscribe")) || text_eq s.scope (str "all") || is_promotional

-- `_suppressed_map(kind).get(h)`: the last row of a hash counts.
unfoldable pub suppressed_reason : (kind : Text) → List Suppression → Text → Option Text
suppressed_reason kind [] h = none
suppressed_reason kind (s ∷ rows) h =
    let later = suppressed_reason kind rows h in
    elim later [
      | some reason ↦ some reason
      | none ↦
          if text_eq s.email_hash h && blocks (text_eq kind (str "promotional")) s
          then some s.reason
          else none
    ]

-- The status of a recorded job.
unfoldable pub job_status : Text → Jobs → Option Text
job_status id [] = none
job_status id ((k, status) ∷ jobs) = if text_eq k id then some status else job_status id jobs

-- `_RETRYABLE_JOB`
abbrev pub is_retryable : Option Text → Bool
is_retryable none = false
is_retryable (some status) = contains status (str "failed" ∷ str "cancelled" ∷ [])

unfoldable pub is_recorded : Text → Jobs → Bool
unfolding job_status
is_recorded id jobs = elim (job_status id jobs) [ none ↦ false | some status ↦ true ]

-- The digits of a number; `fuel` is more than their count.
unfoldable pub digits : (fuel n : ℕ) → Text
digits zero n = []
digits (suc fuel) n =
    let front = digits fuel (n / 10) in
    if ltb n 10 then (b'0' + n) ∷ [] else front ++ ((b'0' + n % 10) ∷ [])

abbrev pub decimal : ℕ → Text
decimal n = digits (suc n) n

-- `_gen_key_for`
abbrev pub gen_key_for : ℕ → Text
gen_key_for gen = if gen == 0 then str "main" else str "relaunch:" ++ decimal gen

-- The loop for the ordinal, from `a` on: `left` is `len(jobs) - a`, and none is the LaunchError.
unfoldable pub find_ordinal : (id : ℕ → Text) → Jobs → (left a : ℕ) → Option ℕ
find_ordinal id jobs zero a = if is_recorded (id a) jobs then none else some a
find_ordinal id jobs (suc left) a =
    let rest = find_ordinal id jobs left (suc a) in if is_recorded (id a) jobs then rest else some a

-- Whether a contact with `a` recorded packs may get another.
abbrev pub may_resend : Candidate → (id : ℕ → Text) → Jobs → (a : ℕ) → Bool
may_resend r id jobs zero = true
may_resend r id jobs (suc a) =
    text_eq r.status (str "queued") && is_retryable (job_status (id a) jobs)

module _ (uuid5 sha256 : Text → Text) where
  -- `_pack_id`
  unfoldable pub pack_id :
      (campaign_id : ℕ) → (created_at send_key : Text) → (contact_id ordinal : ℕ) → Text
  unfolding digits
  pack_id campaign_id created_at send_key contact_id ordinal = uuid5 (
      str "mailman:pack:v1:"
      ++ decimal campaign_id
      ++ str ":"
      ++ created_at
      ++ str ":"
      ++ send_key
      ++ str ":"
      ++ decimal contact_id
      ++ str ":"
      ++ decimal ordinal)

  -- The reason that blocks a recipient.
  unfoldable pub blocked_by : (kind : Text) → List Suppression → Candidate → Option Text
  unfolding suppressed_reason lower
  blocked_by kind rows r = suppressed_reason kind rows (sha256 (lower r.email))

  module _ (campaign_id : ℕ) (created_at kind gen_key : Text) (rows : List Suppression)
      (jobs : Jobs) where
    abbrev pub id_of : Candidate → ℕ → Text
    id_of r ordinal = pack_id campaign_id created_at gen_key r.contact_id ordinal

    abbrev pub plan_id : Candidate → (a : ℕ) → SendPlan → SendPlan
    plan_id r a plan =
        if may_resend r (id_of r) jobs a
        then record plan { sends = plan.sends ++ ((r, id_of r a) ∷ []) }
        else record plan { recorded = plan.recorded + 1 }

    abbrev pub plan_found : Candidate → Option ℕ → SendPlan → Option SendPlan
    plan_found r none plan = none
    plan_found r (some a) plan = some (plan_id r a plan)

    abbrev pub plan_unless : Candidate → (reason : Option Text) → SendPlan → Option SendPlan
    plan_unless r (some reason) plan =
        some (record plan { suppressed = plan.suppressed ++ ((r.contact_id, reason) ∷ []) })
    plan_unless r none plan = plan_found r (find_ordinal (id_of r) jobs (length jobs) 0) plan

    unfoldable pub plan_row : Candidate → SendPlan → Option SendPlan
    plan_row r plan = plan_unless r (blocked_by kind rows r) plan

    unfoldable pub plan_rows : List Candidate → SendPlan → Option SendPlan
    plan_rows [] plan = some plan
    plan_rows (r ∷ candidates) plan = elim (plan_row r plan) [
      | none ↦ none
      | some plan' ↦ plan_rows candidates plan'
    ]

    -- `_plan_sends`
    unfoldable pub plan_sends : List Candidate → Option SendPlan
    unfolding plan_rows
    plan_sends candidates =
        plan_rows candidates (record { sends = []; recorded = 0; suppressed = [] })
