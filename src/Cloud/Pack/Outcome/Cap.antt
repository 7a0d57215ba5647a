-- ===== src/Cloud/Pack/Outcome/Cap.antt =====
-- The bound on the work of one status partition in `list_resolved_packs`.
use mail_chad.Base.{
  ℕ, ◌+◌, ◌≤◌, ◌≡◌, refl, List, [], ◌∷◌, ◌++◌, Text, leb, arith, length, Bool-cases, inl, inr,
}
use mail_chad.Cloud.Pack.{Pack}
use mail_chad.Cloud.Pack.Outcome.{read_partition}

-- How many rows the pages hold, whether they pass the filter or not.
abbrev pub scanned_rows : List (List Pack) → ℕ
scanned_rows [] = 0
scanned_rows (page ∷ pages) = length page + scanned_rows pages

capped_from :
    (work_cap : ℕ) (since_t : Text) (page : List Pack) (before later : List (List Pack)) (n : ℕ)
    → work_cap ≤ n + scanned_rows (page ∷ before)
    → read_partition work_cap since_t (page ∷ before ++ later) n
      ≡ read_partition work_cap since_t (page ∷ before) n
unfolding read_partition
capped_from work_cap since_t page [] later n h = ground arith
capped_from work_cap since_t page (q ∷ before) later n h =
    elim (Bool-cases (leb work_cap (n + length page))) [
      | inl e ↦ rw e refl
      | inr e ↦
          rw e
            (rw (capped_from work_cap since_t q before later (n + length page) (omega arith)) refl)
    ]

-- Once the pages of a status partition that are read first hold `work_cap` rows, counted before the
-- filter, what stands in the pages behind them has no part in the answer, whatever the cursor.
pub read_partition-capped :
    (work_cap : ℕ) (since_t : Text) (page : List Pack) (before later : List (List Pack))
    → work_cap ≤ scanned_rows (page ∷ before)
    → read_partition work_cap since_t (page ∷ before ++ later) 0
      ≡ read_partition work_cap since_t (page ∷ before) 0
read_partition-capped work_cap since_t page before later h =
    capped_from work_cap since_t page before later 0 (omega arith)
