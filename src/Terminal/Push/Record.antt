-- ===== src/Terminal/Push/Record.antt =====
-- Recording a list of jobs is one step from the tables before to those after.
use mathlib.Core.Path.{fun_ext}
use mail_chad.Base.{
  ℕ, zero, suc, ◌≡◌, ◌≢◌, refl, sym, ap, ◌∙◌, Bool, false, ◌||◌, none, some, List, [], ◌∷◌, ◌++◌,
  Text, text_eq, text_eq→eq, if◌then◌else◌, take, All, Bool-cases, Option-cases, inl, inr,
  append-snoc, append-nil,
}
use mail_chad.Terminal.Outcomes.{Job, Recipient, Db, find_job, update_where}
use mail_chad.Terminal.Push.{
  NewJob, job_row, mark_sent, is_row_of, recorded_contact, record_dispatch,
}

-- No id is stored already, and no two are the same.
abbrev pub AreFresh : List NewJob → List Job → Type 0
AreFresh [] jobs = Unit
AreFresh (j ∷ js) jobs =
    (find_job j.pack_id jobs ≡ none) × All (λ k. j.pack_id ≢ k.pack_id) js × AreFresh js jobs

pub AreFresh-take :
    (n : ℕ) (js : List NewJob) (jobs : List Job) → AreFresh js jobs → AreFresh (take n js) jobs
AreFresh-take zero js jobs h = tt
AreFresh-take (suc n) [] jobs h = tt
AreFresh-take (suc n) (j ∷ js) jobs h = (h.0, apart n js h.1, AreFresh-take n js jobs h.2)
  where
    apart :
        (n : ℕ) (ks : List NewJob)
        → All (λ k. j.pack_id ≢ k.pack_id) ks
        → All (λ k. j.pack_id ≢ k.pack_id) (take n ks)
    apart zero ks a = tt
    apart (suc n) [] a = tt
    apart (suc n) (k ∷ ks) a = (a.0, apart n ks a.1)

find_job-snoc :
    (id : Text) (jobs : List Job) (j : Job)
    → find_job id jobs ≡ none
    → j.job_id ≢ id
    → find_job id (jobs ++ (j ∷ [])) ≡ none
unfolding find_job
find_job-snoc id [] j h n = elim (Bool-cases (text_eq j.job_id id)) [
  | inl e ↦ absurd (n (text_eq→eq j.job_id id e))
  | inr e ↦ rw e
]
find_job-snoc id (k ∷ jobs) j h n = elim (Bool-cases (text_eq k.job_id id)) [
  | inl e ↦ absurd (apart (rw e at h))
  | inr e ↦ rw e (find_job-snoc id jobs j (rw e at h) n)
]
  where
    apart : some k ≡ none → ⊥
    apart q = cc

AreFresh-snoc :
    (js : List NewJob) (jobs : List Job) (j : Job)
    → AreFresh js jobs
    → All (λ k. j.job_id ≢ k.pack_id) js
    → AreFresh js (jobs ++ (j ∷ []))
AreFresh-snoc [] jobs j h a = tt
AreFresh-snoc (k ∷ js) jobs j h a =
    (find_job-snoc k.pack_id jobs j h.0 a.0, h.1, AreFresh-snoc js jobs j h.2 a.1)

-- The rows that jobs become, and the recipients that they are sent to.
pub rows_of : (campaign_id : ℕ) → List NewJob → List Job
rows_of campaign_id [] = []
rows_of campaign_id (j ∷ js) = elim (recorded_contact j) [
  | none ↦ rows_of campaign_id js
  | some contact ↦ job_row campaign_id contact j ∷ rows_of campaign_id js
]

pub is_sent_to : (campaign_id : ℕ) → List NewJob → Recipient → Bool
is_sent_to campaign_id [] r = false
is_sent_to campaign_id (j ∷ js) r = elim (recorded_contact j) [
  | none ↦ is_sent_to campaign_id js r
  | some contact ↦ is_row_of campaign_id contact r || is_sent_to campaign_id js r
]

abbrev pub recorded : (campaign_id : ℕ) → (now : Text) → List NewJob → Db → Db
recorded campaign_id now js d = record d {
  jobs = d.jobs ++ rows_of campaign_id js;
  recipients = update_where (is_sent_to campaign_id js) (mark_sent now) d.recipients;
}

module _ (campaign_id : ℕ) (now : Text) where
  is_sent_to-mark_sent :
      (js : List NewJob) (r : Recipient)
      → is_sent_to campaign_id js (mark_sent now r) ≡ is_sent_to campaign_id js r
  unfolding is_sent_to
  is_sent_to-mark_sent [] r = refl
  is_sent_to-mark_sent (j ∷ js) r = elim (Option-cases (recorded_contact j)) [
    | inl e ↦ rw (e, is_sent_to) (is_sent_to-mark_sent js r)
    | inr (contact, e) ↦ rw (e, is_sent_to, is_sent_to-mark_sent js r)
  ]

  marked_row :
      (js : List NewJob) (contact : ℕ) (r : Recipient)
      → let r' = if is_row_of campaign_id contact r then mark_sent now r else r in
        (if is_sent_to campaign_id js r' then mark_sent now r' else r') ≡ (
          if is_row_of campaign_id contact r || is_sent_to campaign_id js r
          then mark_sent now r
          else r)
  marked_row js contact r = elim (Bool-cases (is_row_of campaign_id contact r)) [
    | inr e ↦ rw e
    | inl e ↦ elim (Bool-cases (is_sent_to campaign_id js r)) [
      | inl k ↦ rw (e, is_sent_to-mark_sent js r, k)
      | inr k ↦ rw (e, is_sent_to-mark_sent js r, k)
    ]
  ]

  marked_rows :
      (js : List NewJob) (contact : ℕ) (rs : List Recipient)
      → update_where
          (is_sent_to campaign_id js)
          (mark_sent now)
          (update_where (is_row_of campaign_id contact) (mark_sent now) rs)
        ≡ update_where
            (λ r. is_row_of campaign_id contact r || is_sent_to campaign_id js r)
            (mark_sent now)
            rs
  marked_rows js contact [] = refl
  marked_rows js contact (r ∷ rs) = λ i. marked_row js contact r i ∷ marked_rows js contact rs i

  unmarked : (rs : List Recipient) → update_where (λ r. false) (mark_sent now) rs ≡ rs
  unmarked [] = refl
  unmarked (r ∷ rs) = rw (unmarked rs)

  pub recorded-nil : (d : Db) → recorded campaign_id now [] d ≡ d
  unfolding rows_of is_sent_to
  recorded-nil d =
      λ i. record d { jobs = append-nil d.jobs i; recipients = unmarked d.recipients i }

  recorded-skip :
      (j : NewJob) (js : List NewJob) (d : Db)
      → recorded_contact j ≡ none
      → recorded campaign_id now (j ∷ js) d ≡ recorded campaign_id now js d
  unfolding rows_of is_sent_to
  recorded-skip j js d e = rw (fun_ext same, rows)
    where
      same : (r : Recipient) → is_sent_to campaign_id (j ∷ js) r ≡ is_sent_to campaign_id js r
      same r = rw (e, is_sent_to)

      rows : rows_of campaign_id (j ∷ js) ≡ rows_of campaign_id js
      rows = rw (e, rows_of)

  -- The tables after the first job.
  abbrev after_job : NewJob → ℕ → Db → Db
  after_job j contact d = record d {
    jobs = d.jobs ++ (job_row campaign_id contact j ∷ []);
    recipients = update_where (is_row_of campaign_id contact) (mark_sent now) d.recipients;
  }

  recorded-cons :
      (j : NewJob) (js : List NewJob) (contact : ℕ) (d : Db)
      → recorded_contact j ≡ some contact
      → recorded campaign_id now js (after_job j contact d) ≡ recorded campaign_id now (j ∷ js) d
  unfolding rows_of is_sent_to
  recorded-cons j js contact d e = λ i. record d { jobs = rows i; recipients = all_marked i }
    where
      same :
          (r : Recipient)
          → (is_row_of campaign_id contact r || is_sent_to campaign_id js r)
            ≡ is_sent_to campaign_id (j ∷ js) r
      same r = rw (e, is_sent_to)

      added :
          (job_row campaign_id contact j ∷ rows_of campaign_id js) ≡ rows_of campaign_id (j ∷ js)
      added = rw (e, rows_of)

      rows :
          (d.jobs ++ (job_row campaign_id contact j ∷ [])) ++ rows_of campaign_id js
          ≡ d.jobs ++ rows_of campaign_id (j ∷ js)
      rows =
          append-snoc d.jobs (job_row campaign_id contact j) (rows_of campaign_id js)
          ∙ ap (λ l. d.jobs ++ l) added

      all_marked :
          update_where
            (is_sent_to campaign_id js)
            (mark_sent now)
            (update_where (is_row_of campaign_id contact) (mark_sent now) d.recipients)
          ≡ update_where (is_sent_to campaign_id (j ∷ js)) (mark_sent now) d.recipients
      all_marked =
          marked_rows js contact d.recipients
          ∙ ap (λ p. update_where p (mark_sent now) d.recipients) (fun_ext same)

  pub record_dispatch-recorded :
      (js : List NewJob) (d : Db)
      → AreFresh js d.jobs
      → record_dispatch campaign_id now js d ≡ some (recorded campaign_id now js d)
  unfolding record_dispatch
  record_dispatch-recorded [] d h = ap some (sym (recorded-nil d))
  record_dispatch-recorded (j ∷ js) d h = elim (Option-cases (recorded_contact j)) [
    | inl e ↦
        rw (e, record_dispatch)
          (record_dispatch-recorded js d h.2 ∙ ap some (sym (recorded-skip j js d e)))
    | inr (contact, e) ↦
        rw (e, record_dispatch, h.0)
          (record_dispatch-recorded js (after_job j contact d)
              (AreFresh-snoc js d.jobs (job_row campaign_id contact j) h.2 h.1)
            ∙ ap some (recorded-cons j js contact d e))
  ]
