-- ===== src/Terminal/Plan/Choke.antt =====
-- What a send plan holds, and that there is one.
use mail_chad.Base.{
  In-snoc, str, ap, text_eq, text_eq→eq, and_left, and_right, zero, ℕ, suc, ◌+◌, ◌≡◌, ◌⊎◌, refl,
  sym, subst, ◌∙◌, true, Option, none, some, List, [], ◌∷◌, ◌++◌, Text, length, length-append, In,
  arith, Bool-cases, Option-cases, inl, inr,
}
use mail_chad.Terminal.Plan.{
  job_status, is_retryable, Suppression, Candidate, Jobs, SendPlan, find_ordinal, may_resend,
  blocked_by, id_of, plan_id, plan_found, plan_unless, plan_row, plan_rows, plan_sends,
}
use mail_chad.Terminal.Plan.Ordinal.{IsFirst, DifferBelow, find_ordinal-IsFirst, find_ordinal-finds}

-- Whether a contact with `a` recorded packs may get another: the contact was put back to `queued`,
-- and its last job failed or was cancelled.
abbrev pub Resendable : Candidate → (ℕ → Text) → Jobs → ℕ → Type 0
Resendable r id jobs zero = Unit
Resendable r id jobs (suc a) =
    (r.status ≡ str "queued")
    × ((job_status (id a) jobs ≡ some (str "failed"))
        ⊎ (job_status (id a) jobs ≡ some (str "cancelled")))

is_retryable-cases :
    (o : Option Text)
    → is_retryable o ≡ true
    → (o ≡ some (str "failed")) ⊎ (o ≡ some (str "cancelled"))
is_retryable-cases none h = ground arith
is_retryable-cases (some status) h = elim (Bool-cases (text_eq (str "failed") status)) [
  | inl e ↦ inl (ap some (sym (text_eq→eq (str "failed") status e)))
  | inr e ↦
      let cancelled : text_eq (str "cancelled") status ≡ true = ground arith in
      inr (ap some (sym (text_eq→eq (str "cancelled") status cancelled)))
]

may_resend-Resendable :
    (r : Candidate) (id : ℕ → Text) (jobs : Jobs) (a : ℕ)
    → may_resend r id jobs a ≡ true
    → Resendable r id jobs a
may_resend-Resendable r id jobs zero h = tt
may_resend-Resendable r id jobs (suc a) h = (
  text_eq→eq r.status (str "queued") (and_left (text_eq r.status (str "queued")) _ h),
  is_retryable-cases (job_status (id a) jobs) (and_right (text_eq r.status (str "queued")) _ h),
)

module _ (uuid5 sha256 : Text → Text) (campaign_id : ℕ) (created_at kind gen_key : Text)
    (rows : List Suppression) (jobs : Jobs) where
  abbrev id_at : Candidate → ℕ → Text
  id_at r ordinal = id_of uuid5 sha256 campaign_id created_at kind gen_key rows jobs r ordinal

  -- A send that may be made: the contact is not suppressed; the pack id is the contact's first one
  -- that no job has; and if the contact has a job already, it was put back to `queued` and its last
  -- job failed or was cancelled.
  pub record MaySend (r : Candidate) (id : Text) : Type 0 where
    pub not_blocked : blocked_by uuid5 sha256 kind rows r ≡ none
    pub ordinal : ℕ
    pub its_id : id ≡ id_at r ordinal
    pub first : IsFirst (id_at r) jobs 0 ordinal
    pub allowed : Resendable r (id_at r) jobs ordinal

  pub record Sound (plan : SendPlan) (n : ℕ) : Type 0 where
    pub each_send : (s : Candidate × Text) → In s plan.sends → MaySend s.0 s.1
    pub all_counted : length plan.sends + plan.recorded + length plan.suppressed ≡ n

  abbrev row_plan : Candidate → SendPlan → Option SendPlan
  row_plan r plan = plan_row uuid5 sha256 campaign_id created_at kind gen_key rows jobs r plan

  Sound-plan_id :
      (r : Candidate) (a : ℕ) (plan : SendPlan) {n : ℕ}
      → blocked_by uuid5 sha256 kind rows r ≡ none
      → IsFirst (id_at r) jobs 0 a
      → Sound plan n
      → Sound (plan_id uuid5 sha256 campaign_id created_at kind gen_key rows jobs r a plan) (n + 1)
  Sound-plan_id r a plan {n} free first s = elim (Bool-cases (may_resend r (id_at r) jobs a)) [
    | inl e ↦ rw e (record {
      each_send = λ x m. elim (In-snoc x (r, id_at r a) plan.sends m) [
        | inl h ↦ s.each_send x h
        | inr same ↦ rw (← same) (record {
          not_blocked = free;
          ordinal = a;
          its_id = refl;
          first = first;
          allowed = may_resend-Resendable r (id_at r) jobs a e;
        })
      ];
      all_counted = omega (arith, s.all_counted, length-append plan.sends ((r, id_at r a) ∷ []));
    })
    | inr e ↦ rw e (record { each_send = s.each_send; all_counted = omega (arith, s.all_counted) })
  ]

  Sound-found :
      (r : Candidate) (found : Option ℕ) (plan : SendPlan) {plan' : SendPlan} {n : ℕ}
      → find_ordinal (id_at r) jobs (length jobs) 0 ≡ found
      → blocked_by uuid5 sha256 kind rows r ≡ none
      → plan_found uuid5 sha256 campaign_id created_at kind gen_key rows jobs r found plan
        ≡ some plan'
      → Sound plan n
      → Sound plan' (n + 1)
  Sound-found r none plan e free h s = cc
  Sound-found r (some a) plan {plan'} {n} e free h s =
      let same : plan_id uuid5 sha256 campaign_id created_at kind gen_key rows jobs r a plan
          ≡ plan' =
        cc in
      subst (λ p. Sound p (n + 1)) same
        (Sound-plan_id r a plan free (find_ordinal-IsFirst (id_at r) jobs (length jobs) 0 e) s)

  Sound-unless :
      (r : Candidate) (reason : Option Text) (plan : SendPlan) {plan' : SendPlan} {n : ℕ}
      → blocked_by uuid5 sha256 kind rows r ≡ reason
      → plan_unless uuid5 sha256 campaign_id created_at kind gen_key rows jobs r reason plan
        ≡ some plan'
      → Sound plan n
      → Sound plan' (n + 1)
  Sound-unless r none plan {plan'} {n} e h s =
      Sound-found r (find_ordinal (id_at r) jobs (length jobs) 0) plan refl e h s
  Sound-unless r (some reason) plan {plan'} {n} e h s =
      let entry : ℕ × Text = (r.contact_id, reason) in
      let same : record plan { suppressed = plan.suppressed ++ (entry ∷ []) } ≡ plan' = cc in
      subst (λ p. Sound p (n + 1)) same
        (record {
          each_send = s.each_send;
          all_counted = omega (arith, s.all_counted, length-append plan.suppressed (entry ∷ []));
        })

  Sound-row_plan :
      (r : Candidate) (plan : SendPlan) {plan' : SendPlan} {n : ℕ}
      → row_plan r plan ≡ some plan'
      → Sound plan n
      → Sound plan' (n + 1)
  unfolding plan_row
  Sound-row_plan r plan h s = Sound-unless r (blocked_by uuid5 sha256 kind rows r) plan refl h s

  abbrev all_rows : List Candidate → SendPlan → Option SendPlan
  all_rows candidates plan =
      plan_rows uuid5 sha256 campaign_id created_at kind gen_key rows jobs candidates plan

  all_rows-cons :
      (r : Candidate) (candidates : List Candidate) (plan : SendPlan) {o : Option SendPlan}
      → row_plan r plan ≡ o
      → all_rows (r ∷ candidates) plan
        ≡ elim o [ none ↦ none | some next ↦ all_rows candidates next ]
  unfolding plan_rows
  all_rows-cons r candidates plan e =
      subst
        (λ x.
          all_rows (r ∷ candidates) plan
          ≡ elim x [ none ↦ none | some next ↦ all_rows candidates next ])
        e refl

  Sound-plan_rows :
      (candidates : List Candidate) (plan : SendPlan) {plan' : SendPlan} {n : ℕ}
      → all_rows candidates plan ≡ some plan'
      → Sound plan n
      → Sound plan' (n + length candidates)
  unfolding plan_rows
  Sound-plan_rows [] plan {plan'} {n} h s =
      let same : plan ≡ plan' = cc in
      subst (λ p. Sound p (n + 0)) same
        (record { each_send = s.each_send; all_counted = omega (arith, s.all_counted) })
  Sound-plan_rows (r ∷ candidates) plan {plan'} {n} h s = elim (Option-cases (row_plan r plan)) [
    | inl e ↦ let never = sym (all_rows-cons r candidates plan e) ∙ h in cc
    | inr (next, e) ↦
        let go = sym (all_rows-cons r candidates plan e) ∙ h in
        let step = Sound-row_plan r plan e s in
        let rest = Sound-plan_rows candidates next {plan' = plan'} go step in
        record { each_send = rest.each_send; all_counted = omega (arith, rest.all_counted) }
  ]

  -- The choke point of all sends: whatever the candidates are, each planned send goes to a contact
  -- that is not suppressed, under the first pack id of this contact that no recorded job has; a
  -- contact with a recorded job gets another pack only if it was put back to `queued` and its last
  -- job failed or was cancelled. Each candidate is planned, counted as recorded, or suppressed.
  pub plan_sends-Sound :
      (candidates : List Candidate) {plan : SendPlan}
      → plan_sends uuid5 sha256 campaign_id created_at kind gen_key rows jobs candidates ≡ some plan
      → Sound plan (length candidates)
  unfolding plan_sends
  plan_sends-Sound candidates {plan} h =
      let begun : SendPlan = record { sends = []; recorded = 0; suppressed = [] } in
      let s =
        Sound-plan_rows candidates begun {plan' = plan} {n = 0} h
          (record { each_send = λ x m. absurd m; all_counted = refl }) in
      record { each_send = s.each_send; all_counted = omega (arith, s.all_counted) }

  row_plan-some :
      (r : Candidate) (plan : SendPlan)
      → DifferBelow (suc (length jobs)) (id_at r)
      → row_plan r plan ≡ none
      → ⊥
  unfolding plan_row
  row_plan-some r plan inj h = elim (Option-cases (blocked_by uuid5 sha256 kind rows r)) [
    | inr (reason, e) ↦ let never = rw e at h in cc
    | inl e ↦ elim (Option-cases (find_ordinal (id_at r) jobs (length jobs) 0)) [
      | inl n ↦ find_ordinal-finds (id_at r) jobs inj n
      | inr (a, n) ↦ let never = rw (e, n) at h in cc
    ]
  ]

  all_rows-some :
      (candidates : List Candidate) (plan : SendPlan)
      → ((r : Candidate) → In r candidates → DifferBelow (suc (length jobs)) (id_at r))
      → (plan' : SendPlan) × (all_rows candidates plan ≡ some plan')
  unfolding plan_rows
  all_rows-some [] plan inj = (plan, refl)
  all_rows-some (r ∷ candidates) plan inj = elim (Option-cases (row_plan r plan)) [
    | inl e ↦ absurd (row_plan-some r plan (inj r (inl refl)) e)
    | inr (next, e) ↦
        let (plan', rest) = all_rows-some candidates next (λ x m. inj x (inr m)) in
        (plan', all_rows-cons r candidates plan e ∙ rest)
  ]

  -- As long as the pack ids of each candidate differ for the ordinals up to the number of recorded jobs,
  -- there is a plan: the search
  -- for a free id ends within the number of recorded jobs, and the error for ids that keep
  -- colliding is never raised.
  pub plan_sends-total :
      (candidates : List Candidate)
      → ((r : Candidate) → In r candidates → DifferBelow (suc (length jobs)) (id_at r))
      → (plan : SendPlan) × (plan_sends uuid5 sha256 campaign_id created_at kind gen_key rows jobs
            candidates
          ≡ some plan)
  unfolding plan_sends
  plan_sends-total candidates inj =
      all_rows-some candidates (record { sends = []; recorded = 0; suppressed = [] }) inj
