-- ===== src/Terminal/Plan/Tests.antt =====
-- A contact whose first pack failed is planned again; without the reset it is not.
use mail_chad.Base.{
  ℕ, ◌<◌, ◌≡◌, ◌⊎◌, ◌∙◌, ap, sym, subst, refl, false, some, [], ◌∷◌, Text, str, text_eq,
  text_eq_refl, In, inl, inr, arith,
}
use mail_chad.Terminal.Plan.{
  Candidate, Jobs, SendPlan, pack_id, plan_sends, plan_rows, plan_row, find_ordinal, is_recorded,
  job_status, blocked_by, suppressed_reason, digits, id_of,
}
use mail_chad.Terminal.Plan.Ordinal.{DifferBelow}
use mail_chad.Terminal.Plan.Choke.{Sound, plan_sends-Sound, plan_sends-total}

abbrev same_text : Text → Text
same_text t = t

abbrev ann : Candidate
ann = record { contact_id = 4; email = str "Ann@example.org"; status = str "queued" }

abbrev first_id : Text
first_id = str "mailman:pack:v1:7:t0:main:4:0"

abbrev second_id : Text
second_id = str "mailman:pack:v1:7:t0:main:4:1"

abbrev jobs : Jobs
jobs = (first_id, str "failed") ∷ []

abbrev plan : SendPlan
plan = record { sends = (ann, second_id) ∷ []; recorded = 0; suppressed = [] }

planned :
    plan_sends same_text same_text 7 (str "t0") (str "promotional") (str "main") [] jobs (ann ∷ [])
    ≡ some plan
unfolding plan_sends plan_rows plan_row find_ordinal is_recorded job_status blocked_by
    suppressed_reason digits pack_id text_eq
planned = refl

plan_sends-Sound_example :
    Sound same_text same_text 7 (str "t0") (str "promotional") (str "main") [] jobs plan 1
plan_sends-Sound_example =
    plan_sends-Sound same_text same_text 7 (str "t0") (str "promotional") (str "main") [] jobs
      (ann ∷ []) {plan = plan} planned

abbrev id : ℕ → Text
id n = id_of same_text same_text 7 (str "t0") (str "promotional") (str "main") [] jobs ann n

apart : (s t : Text) → text_eq s t ≡ false → s ≡ t → ⊥
apart s t h e = let never = rw e at h in ground (arith, text_eq_refl t)

ids_differ : (id 0 ≡ id 1) → ⊥
unfolding pack_id digits text_eq
ids_differ e = apart (id 0) (id 1) refl e

zero_or_one : (b : ℕ) → b < 2 → (b ≡ 0) ⊎ (b ≡ 1)
zero_or_one b h = omega arith

differ : DifferBelow 2 id
differ b c hb hc e = elim (zero_or_one b hb) [
  | inl p ↦ elim (zero_or_one c hc) [
    | inl q ↦ p ∙ sym q
    | inr q ↦ absurd (ids_differ (sym (ap id p) ∙ e ∙ ap id q))
  ]
  | inr p ↦ elim (zero_or_one c hc) [
    | inl q ↦ absurd (ids_differ (sym (ap id q) ∙ sym e ∙ ap id p))
    | inr q ↦ p ∙ sym q
  ]
]

all_differ :
    (r : Candidate)
    → In r (ann ∷ [])
    → DifferBelow 2
        (id_of same_text same_text 7 (str "t0") (str "promotional") (str "main") [] jobs r)
all_differ r (inl same) =
    subst
      (λ x.
        DifferBelow 2
          (id_of same_text same_text 7 (str "t0") (str "promotional") (str "main") [] jobs x))
      same differ
all_differ r (inr m) = absurd m

plan_sends-total_example :
    (p : SendPlan) × (plan_sends same_text same_text 7
        (str "t0")
        (str "promotional")
        (str "main")
        []
        jobs
        (ann ∷ [])
      ≡ some p)
plan_sends-total_example =
    plan_sends-total same_text same_text 7 (str "t0") (str "promotional") (str "main") [] jobs
      (ann ∷ []) all_differ
