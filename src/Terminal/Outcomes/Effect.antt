-- ===== src/Terminal/Outcomes/Effect.antt =====
-- What an outcome changes of the jobs and the recipients, and what it never does.
use mail_chad.Base.{
  ◌≡◌, ◌⊎◌, Bool, true, false, some, List, [], ◌∷◌, text_eq, if◌then◌else◌, str, Bool-cases, inl,
  inr,
}
use mail_chad.Terminal.Outcomes.{
  Job, Recipient, Resolved, Db, is_engaged, find_job, update_where, is_recipient,
}
use mail_chad.Cloud.Pack.{is_sent, is_unknown}

-- Two lists of the same length, related row by row.
abbrev pub Each {ℓ} : {A : Type ℓ} → (A → A → Type 0) → List A → List A → Type 0
Each R [] [] = Unit
Each R [] (y ∷ ys) = ⊥
Each R (x ∷ xs) [] = ⊥
Each R (x ∷ xs) (y ∷ ys) = R x y × Each R xs ys

-- What may become of a job: nothing, or the end that the status stands for; never by an unknown one.
abbrev pub JobMove : Resolved → Job → Job → Type 0
JobMove pack j k =
    (k ≡ j)
    ⊎ ((is_unknown pack.status ≡ false)
        × (text_eq j.job_id pack.pack_id ≡ true)
        × (k.status ≡ (if is_sent pack.status then str "completed" else str "failed"))
        × (k.campaign_id ≡ j.campaign_id)
        × (k.recipient_id ≡ j.recipient_id))

-- The recipient that the pack's job is for.
abbrev pub Theirs : Resolved → List Job → Recipient → Type 0
Theirs pack jobs r =
    (job : Job) × (find_job pack.pack_id jobs ≡ some job) × (is_recipient job r ≡ true)

-- What may become of a recipient: nothing; or, if the pack's job is for it, another reason under the
-- same status, or, where no webhook has reported on the mail, the status of the outcome.
abbrev pub RecipientMove : Resolved → List Job → Recipient → Recipient → Type 0
RecipientMove pack jobs r q =
    (q ≡ r)
    ⊎ (Theirs pack jobs r
        × (((is_unknown pack.status ≡ true) × (q.status ≡ r.status) × (r.status ≡ str "sent"))
            ⊎ ((is_unknown pack.status ≡ false)
                × (is_engaged r.status ≡ false)
                × (q.status ≡ (if is_sent pack.status then str "sent" else str "failed")))))

module _ {A : Type 0} (R : A → A → Type 0) where
  pub Each-refl : ((x : A) → R x x) → (xs : List A) → Each R xs xs
  Each-refl h [] = tt
  Each-refl h (x ∷ xs) = (h x, Each-refl h xs)

  pub Each-update_where :
      (p : A → Bool) (f : A → A) (xs : List A)
      → ((x : A) → p x ≡ false → R x x)
      → ((x : A) → p x ≡ true → R x (f x))
      → Each R xs (update_where p f xs)
  Each-update_where p f [] no_change change = tt
  Each-update_where p f (x ∷ xs) no_change change = elim (Bool-cases (p x)) [
    | inl e ↦ rw e (change x e, Each-update_where p f xs no_change change)
    | inr e ↦ rw e (no_change x e, Each-update_where p f xs no_change change)
  ]

abbrev Effect : Resolved → Db → Db → Type 0
Effect pack d d' =
    Each (JobMove pack) d.jobs d'.jobs × Each (RecipientMove pack d.jobs) d.recipients d'.recipients
