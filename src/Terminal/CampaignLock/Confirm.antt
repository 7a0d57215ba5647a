-- ===== src/Terminal/CampaignLock/Confirm.antt =====
-- Confirming the locks that have elapsed.
use mail_chad.Base.{
  ℕ, ◌+◌, ◌≡◌, ◌≢◌, refl, Bool, false, ◌&&◌, ◌||◌, List, [], ◌∷◌, map, Text, if◌then◌else◌, ◌==◌,
  ==_iff, keep, length, All, In, All-In, keep-keep, map_congr, arith, Bool-cases, inl, inr,
}
use mail_chad.Terminal.CampaignLock.{
  Campaign, is_elapsed, pulled_since, confirm, update_confirmed, confirm_rows,
  confirm_elapsed_locks,
}

-- The primary key: no two rows have one id.
abbrev pub Keyed : List Campaign → Type 0
Keyed [] = Unit
Keyed (c ∷ cs) = All (λ d. d.id ≢ c.id) cs × Keyed cs

-- What becomes of one row.
abbrev pub is_due : (now pull_ok_at : Text) → Campaign → Bool
is_due now pull_ok_at c = is_elapsed now c && pulled_since pull_ok_at c

abbrev pub settled : (now pull_ok_at : Text) → Campaign → Campaign
settled now pull_ok_at c = if is_due now pull_ok_at c then confirm now c else c

-- Whether one of the rows is updated under this id.
confirms : (pull_ok_at : Text) → ℕ → List Campaign → Bool
confirms p id [] = false
confirms p id (r ∷ rows) = (pulled_since p r && id == r.id) || confirms p id rows

marked : (now p : Text) → List Campaign → Campaign → Campaign
marked now p rows c = if confirms p c.id rows then confirm now c else c

marked-nil : (now p : Text) (cs : List Campaign) → map (marked now p []) cs ≡ cs
unfolding marked confirms
marked-nil now p [] = refl
marked-nil now p (c ∷ cs) = rw (marked-nil now p cs)

-- One row of the table, before and after the row `r` is handled.
marked_row :
    (now p : Text) (r c : Campaign) (rows : List Campaign)
    → marked now p rows (if pulled_since p r && c.id == r.id then confirm now c else c)
      ≡ marked now p (r ∷ rows) c
unfolding marked confirms
marked_row now p r c rows = ground arith

marked-cons :
    (now p : Text) (r : Campaign) (rows cs : List Campaign)
    → map (marked now p rows) (if pulled_since p r then update_confirmed now r.id cs else cs)
      ≡ map (marked now p (r ∷ rows)) cs
unfolding update_confirmed
marked-cons now p r rows [] = ground arith
marked-cons now p r rows (c ∷ cs) =
    ground (arith, marked_row now p r c rows, marked-cons now p r rows cs)

confirm_rows-marked :
    (now p : Text) (rows : List Campaign) (n : ℕ) (cs : List Campaign)
    → confirm_rows now p rows (n, cs)
      ≡ (n + length (keep (pulled_since p) rows), map (marked now p rows) cs)
unfolding confirm_rows
confirm_rows-marked now p [] n cs = ground (arith, marked-nil now p cs)
confirm_rows-marked now p (r ∷ rows) n cs = elim (Bool-cases (pulled_since p r)) [
  | inl e ↦
      rw
        (
          ← marked-cons now p r rows cs,
          e,
          confirm_rows-marked now p rows (n + 1) (update_confirmed now r.id cs),
        )
        (ground arith)
  | inr e ↦ rw (← marked-cons now p r rows cs, e, confirm_rows-marked now p rows n cs)
]

confirms-absent :
    (q : Campaign → Bool) (p : Text) (id : ℕ) (cs : List Campaign)
    → All (λ d. d.id ≢ id) cs
    → confirms p id (keep q cs) ≡ false
unfolding confirms
confirms-absent q p id [] h = refl
confirms-absent q p id (c ∷ cs) h = elim (Bool-cases (q c)) [
  | inl e ↦ rw e (ground (arith, confirms-absent q p id cs, h.0))
  | inr e ↦ rw e (confirms-absent q p id cs h.1)
]

confirms-Keyed :
    (q : Campaign → Bool) (p : Text) (c : Campaign) (cs : List Campaign)
    → Keyed cs
    → In c cs
    → confirms p c.id (keep q cs) ≡ (q c && pulled_since p c)
unfolding confirms
confirms-Keyed q p c [] k m = absurd m
confirms-Keyed q p c (d ∷ cs) k (inl same) = elim (Bool-cases (q d)) [
  | inl e ↦ rw (← same, e) (ground (arith, confirms-absent q p d.id cs k.0, ==_iff d.id d.id))
  | inr e ↦ rw (← same, e) (confirms-absent q p d.id cs k.0)
]
confirms-Keyed q p c (d ∷ cs) k (inr m) = elim (Bool-cases (q d)) [
  | inl e ↦
      rw e (ground (arith, confirms-Keyed q p c cs k.1 m, All-In (λ x. x.id ≢ d.id) c cs k.0 m))
  | inr e ↦ rw e (confirms-Keyed q p c cs k.1 m)
]

-- On a table with its key, confirming is one pass over the rows. Exactly the campaigns that are
-- dispatched and not confirmed, whose lock has run out, and after whose dispatch a pull was
-- completed are confirmed, now; every other row stays as it is, and the result counts the confirmed.
pub confirm_elapsed_locks-settled :
    (now pull_ok_at : Text) (cs : List Campaign)
    → Keyed cs
    → confirm_elapsed_locks now pull_ok_at cs
      ≡ (length (keep (is_due now pull_ok_at) cs), map (settled now pull_ok_at) cs)
unfolding confirm_elapsed_locks marked
confirm_elapsed_locks-settled now p cs k =
    rw
      (
        confirm_rows-marked now p (keep (is_elapsed now) cs) 0 cs,
        keep-keep (pulled_since p) (is_elapsed now) cs,
        map_congr (marked now p (keep (is_elapsed now) cs)) (settled now p) cs
            (λ c m. rw (confirms-Keyed (is_elapsed now) p c cs k m)),
      )
      (ground arith)
