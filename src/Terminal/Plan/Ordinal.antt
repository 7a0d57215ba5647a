-- ===== src/Terminal/Plan/Ordinal.antt =====
-- The search for a pack id that is not recorded: what it finds, and that it ends.
use mail_chad.Base.{
  ℕ, zero, suc, ◌+◌, ◌≤◌, ◌<◌, ◌≡◌, ◌⊎◌, refl, sym, ap, ◌∙◌, true, false, none, some, List, [], ◌∷◌,
  Text, text_eq, text_eq→eq, text_eq_refl, if◌then◌else◌, length, In, arith, Bool-cases, inl, inr,
}
use mail_chad.Terminal.Plan.{Jobs, job_status, is_recorded, find_ordinal}

-- The ordinal is the first one whose id is not recorded.
abbrev pub IsFirst : (ℕ → Text) → Jobs → ℕ → ℕ → Type 0
IsFirst id jobs from a =
    (is_recorded (id a) jobs ≡ false)
    × ((b : ℕ) → from ≤ b → b < a → is_recorded (id b) jobs ≡ true)

from-cases : (from b : ℕ) → from ≤ b → (from ≡ b) ⊎ (suc from ≤ b)
from-cases from b h = omega arith

pub find_ordinal-IsFirst :
    (id : ℕ → Text) (jobs : Jobs) (left from : ℕ) {a : ℕ}
    → find_ordinal id jobs left from ≡ some a
    → IsFirst id jobs from a
unfolding find_ordinal
find_ordinal-IsFirst id jobs zero from {a} h = elim (Bool-cases (is_recorded (id from) jobs)) [
  | inl e ↦ let never = rw e at h in cc
  | inr e ↦ let same : from ≡ a = ground arith in (rw (← same) e, λ b lo hi. ground arith)
]
find_ordinal-IsFirst id jobs (suc left) from {a} h =
    elim (Bool-cases (is_recorded (id from) jobs)) [
      | inl e ↦
          let rest = find_ordinal-IsFirst id jobs left (suc from) {a = a} (rw e at h) in
          (
            rest.0,
            λ b lo hi. elim (from-cases from b lo) [
              | inl same ↦ rw (← same) e
              | inr later ↦ rest.1 b later hi
            ],
          )
      | inr e ↦ let same : from ≡ a = ground arith in (rw (← same) e, λ b lo hi. ground arith)
    ]

abbrev pub keys : Jobs → List Text
keys [] = []
keys ((k, status) ∷ jobs) = k ∷ keys jobs

is_recorded-other :
    (id k status : Text) (jobs : Jobs)
    → text_eq k id ≡ false
    → is_recorded id ((k, status) ∷ jobs) ≡ is_recorded id jobs
unfolding is_recorded job_status
is_recorded-other id k status jobs e = rw (e, is_recorded) refl

is_recorded-In : (id : Text) (jobs : Jobs) → is_recorded id jobs ≡ true → In id (keys jobs)
is_recorded-In id [] h = unfold is_recorded job_status in ground arith
is_recorded-In id ((k, status) ∷ jobs) h = elim (Bool-cases (text_eq k id)) [
  | inl e ↦ inl (text_eq→eq k id e)
  | inr e ↦ inr (is_recorded-In id jobs (rw (is_recorded-other id k status jobs e) at h))
]

-- A list without the first occurrence of a text.
without : Text → List Text → List Text
without x [] = []
without x (y ∷ ys) = let rest = without x ys in if text_eq y x then ys else y ∷ rest

length-without : (x : Text) (ys : List Text) → In x ys → length ys ≡ length (without x ys) + 1
unfolding without
length-without x [] m = absurd m
length-without x (y ∷ ys) m = elim (Bool-cases (text_eq y x)) [
  | inl e ↦ rw e (omega arith)
  | inr e ↦ elim m [
    | inl same ↦ let e' = rw same at e in ground (arith, text_eq_refl x)
    | inr later ↦ rw e (omega (arith, length-without x ys later))
  ]
]

In-without : (x z : Text) (ys : List Text) → In z ys → (x ≡ z → ⊥) → In z (without x ys)
unfolding without
In-without x z [] m n = absurd m
In-without x z (y ∷ ys) m n = elim (Bool-cases (text_eq y x)) [
  | inl e ↦
      rw e (elim m [ inl same ↦ absurd (n (sym (text_eq→eq y x e) ∙ same)) | inr later ↦ later ])
  | inr e ↦ rw e (elim m [ inl same ↦ inl same | inr later ↦ inr (In-without x z ys later n) ])
]

-- The ids differ for different ordinals below the bound.
abbrev pub DifferBelow : ℕ → (ℕ → Text) → Type 0
DifferBelow bound id = (b c : ℕ) → b < bound → c < bound → id b ≡ id c → b ≡ c

-- Texts that are distinct and all in a list are no more than that list is long: `n` of them, from
-- the ordinal `a` on.
pigeonhole :
    (id : ℕ → Text) (bound n a : ℕ) (ys : List Text)
    → DifferBelow bound id
    → a + n ≤ bound
    → ((b : ℕ) → a ≤ b → b < a + n → In (id b) ys)
    → n ≤ length ys
pigeonhole id bound zero a ys inj fits m = omega arith
pigeonhole id bound (suc n) a ys inj fits m =
    let rest = pigeonhole id bound n (suc a) (without (id a) ys) inj (omega arith) (λ b lo hi.
      In-without (id a) (id b) ys (m b (omega arith) (omega arith))
        (λ same. let eq = inj a b (omega arith) (omega arith) same in omega arith)) in
    omega (arith, rest, length-without (id a) ys (m a (omega arith) (omega arith)))

-- Where the search fails, each id that it tried is recorded.
find_ordinal-none :
    (id : ℕ → Text) (jobs : Jobs) (left from : ℕ)
    → find_ordinal id jobs left from ≡ none
    → (b : ℕ) → from ≤ b
    → b < from + suc left
    → is_recorded (id b) jobs ≡ true
unfolding find_ordinal
find_ordinal-none id jobs zero from h b lo hi =
    let same : from ≡ b = omega arith in rw (← same) (ground arith)
find_ordinal-none id jobs (suc left) from h b lo hi =
    elim (Bool-cases (is_recorded (id from) jobs)) [
      | inr e ↦ let never = rw e at h in cc
      | inl e ↦ elim (from-cases from b lo) [
        | inl same ↦ rw (← same) e
        | inr later ↦ find_ordinal-none id jobs left (suc from) (rw e at h) b later (omega arith)
      ]
    ]

length-keys : (jobs : Jobs) → length (keys jobs) ≡ length jobs
length-keys [] = refl
length-keys (j ∷ jobs) = ap suc (length-keys jobs)

-- Ids that differ for the ordinals that are tried are never all recorded: the search does not fail.
pub find_ordinal-finds :
    (id : ℕ → Text) (jobs : Jobs)
    → DifferBelow (suc (length jobs)) id
    → find_ordinal id jobs (length jobs) 0 ≡ none
    → ⊥
find_ordinal-finds id jobs inj h =
    let all_in : (b : ℕ) → 0 ≤ b → b < 0 + suc (length jobs) → In (id b) (keys jobs) = λ b lo hi.
      is_recorded-In (id b) jobs (find_ordinal-none id jobs (length jobs) 0 h b lo (omega arith)) in
    omega (
      arith,
      length-keys jobs,
      pigeonhole id (suc (length jobs)) (suc (length jobs)) 0 (keys jobs) inj (omega arith) all_in,
    )
