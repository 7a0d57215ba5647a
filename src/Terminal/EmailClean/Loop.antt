-- ===== src/Terminal/EmailClean/Loop.antt =====
-- What `clean_rows` makes of a list: nothing is lost, nothing comes twice, and the counts fit.
use mail_chad.Base.{
  In-snoc, ℕ, ◌+◌, ◌≡◌, ◌⊎◌, refl, sym, Bool, true, false, Option, List, [], ◌∷◌, ◌++◌, Text,
  text_eq, text_eq→eq, text_eq_refl, if◌then◌else◌, length, length-append, In, In-append_left,
  In-append_right, contains, arith, Bool-cases, inl, inr,
}
use mail_chad.Terminal.EmailClean.{
  Reason, duplicate, no_mx, Cleaned, accepted, rejected, clean_email, Dropped, Batch, same_reason,
  drop_row, shown, no_rows, is_dead, keep_row, clean_row, clean_all, clean_rows,
}

abbrev pub Distinct : List Text → Type 0
Distinct [] = Unit
Distinct (x ∷ xs) = (In x xs → ⊥) × Distinct xs

Distinct-snoc :
    (x : Text) (xs : List Text) → Distinct xs → (In x xs → ⊥) → Distinct (xs ++ (x ∷ []))
Distinct-snoc x [] d n = ((λ m. m), tt)
Distinct-snoc x (y ∷ xs) d n = (
  λ m. elim (In-snoc y x xs m) [ inl h ↦ d.0 h | inr e ↦ n (inl (sym e)) ],
  Distinct-snoc x xs d.1 (λ m. n (inr m)),
)

-- How many were dropped for the reason.
abbrev pub count : Reason → List Dropped → ℕ
count r [] = 0
count r (d ∷ ds) = (if same_reason d.reason r then 1 else 0) + count r ds

count-snoc :
    (r : Reason) (ds : List Dropped) (d : Dropped)
    → count r (ds ++ (d ∷ [])) ≡ count r ds + (if same_reason d.reason r then 1 else 0)
count-snoc r [] d = omega arith
count-snoc r (x ∷ ds) d = omega (arith, count-snoc r ds d)

module _ (mx : Text → Option Bool) where
  -- What holds of the loop's state, whatever rows it has gone through.
  record Tidy (b : Batch) : Type 0 where
    seen_kept : (e : Text) → contains e b.seen ≡ true → In e b.clean ⊎ (is_dead mx e ≡ true)
    clean_seen : (e : Text) → In e b.clean → contains e b.seen ≡ true
    distinct : Distinct b.clean
    counted : (r : Reason) → b.stats r ≡ count r b.dropped

  Tidy-drop_row :
      (email : Text) (reason : Reason) (b : Batch) → Tidy b → Tidy (drop_row email reason b)
  Tidy-drop_row email reason b g = record {
    seen_kept = g.seen_kept;
    clean_seen = g.clean_seen;
    distinct = g.distinct;
    counted = λ r.
        ground
          (arith, g.counted r, count-snoc r b.dropped (record { email = email; reason = reason }));
  }

  Tidy-see_dead :
      (email : Text) (b : Batch)
      → is_dead mx email ≡ true
      → Tidy b
      → Tidy (record b { seen = email ∷ b.seen })
  Tidy-see_dead email b dead g = record {
    seen_kept = λ e h. elim (Bool-cases (text_eq email e)) [
      | inl same ↦ inr (rw (← text_eq→eq email e same) dead)
      | inr other ↦ g.seen_kept e (rw other at h)
    ];
    clean_seen = λ e m. ground (arith, g.clean_seen e m);
    distinct = g.distinct;
    counted = g.counted;
  }

  Tidy-see_clean :
      (email : Text) (b : Batch)
      → contains email b.seen ≡ false
      → Tidy b
      → Tidy (record b { seen = email ∷ b.seen; clean = b.clean ++ (email ∷ []) })
  Tidy-see_clean email b new g = record {
    seen_kept = λ e h. elim (Bool-cases (text_eq email e)) [
      | inl same ↦
          inl (rw (text_eq→eq email e same) (In-append_right e b.clean (e ∷ []) (inl refl)))
      | inr other ↦ elim (g.seen_kept e (rw other at h)) [
        | inl m ↦ inl (In-append_left e b.clean (email ∷ []) m)
        | inr dead ↦ inr dead
      ]
    ];
    clean_seen = λ e m. elim (In-snoc e email b.clean m) [
      | inl h ↦ ground (arith, g.clean_seen e h)
      | inr same ↦ rw same (rw (text_eq_refl e) refl)
    ];
    distinct = Distinct-snoc email b.clean g.distinct (λ m. let seen = g.clean_seen email m in cc);
    counted = g.counted;
  }

  Tidy-keep_row : (email : Text) (b : Batch) → Tidy b → Tidy (keep_row mx email b)
  Tidy-keep_row email b g = elim (Bool-cases (contains email b.seen)) [
    | inl old ↦ rw old (Tidy-drop_row email duplicate b g)
    | inr new ↦ elim (Bool-cases (is_dead mx email)) [
      | inl dead ↦
          rw (new, dead)
            (Tidy-drop_row email no_mx (record b { seen = email ∷ b.seen })
              (Tidy-see_dead email b dead g))
      | inr live ↦ rw (new, live) (Tidy-see_clean email b new g)
    ]
  ]

  Tidy-clean_row : (raw : Text) (c : Cleaned) (b : Batch) → Tidy b → Tidy (clean_row mx raw c b)
  Tidy-clean_row raw (rejected reason) b g = Tidy-drop_row (shown raw) reason b g
  Tidy-clean_row raw (accepted email) b g = Tidy-keep_row email b g

  Tidy-clean_all : (raws : List Text) (b : Batch) → Tidy b → Tidy (clean_all mx raws b)
  unfolding clean_all
  Tidy-clean_all [] b g = g
  Tidy-clean_all (raw ∷ raws) b g =
      Tidy-clean_all raws (clean_row mx raw (clean_email raw) b)
        (Tidy-clean_row raw (clean_email raw) b g)

  -- What has been seen stays seen.
  clean_row-keeps :
      (e raw : Text) (c : Cleaned) (b : Batch)
      → contains e b.seen ≡ true
      → contains e (clean_row mx raw c b).seen ≡ true
  clean_row-keeps e raw (rejected reason) b h = h
  clean_row-keeps e raw (accepted email) b h = ground arith

  clean_all-keeps :
      (e : Text) (raws : List Text) (b : Batch)
      → contains e b.seen ≡ true
      → contains e (clean_all mx raws b).seen ≡ true
  unfolding clean_all
  clean_all-keeps e [] b h = h
  clean_all-keeps e (raw ∷ raws) b h =
      clean_all-keeps e raws (clean_row mx raw (clean_email raw) b)
        (clean_row-keeps e raw (clean_email raw) b h)

  clean_row-sees :
      (e raw : Text) (b : Batch) → contains e (clean_row mx raw (accepted e) b).seen ≡ true
  clean_row-sees e raw b = ground (arith, text_eq_refl e)

  clean_all-sees :
      (e raw : Text) (raws : List Text) (b : Batch)
      → In raw raws
      → clean_email raw ≡ accepted e
      → contains e (clean_all mx raws b).seen ≡ true
  unfolding clean_all
  clean_all-sees e raw [] b m h = absurd m
  clean_all-sees e raw (x ∷ raws) b (inl same) h =
      let step : clean_email x ≡ accepted e = rw same h in
      clean_all-keeps e raws (clean_row mx x (clean_email x) b) (rw step (clean_row-sees e x b))
  clean_all-sees e raw (x ∷ raws) b (inr m) h =
      clean_all-sees e raw raws (clean_row mx x (clean_email x) b) m h

  -- Where a clean address comes from.
  abbrev pub Origin : List Text → Text → Type 0
  Origin raws e =
      (raw : Text) × In raw raws × (clean_email raw ≡ accepted e) × (is_dead mx e ≡ false)

  keep_row-origin :
      (e email : Text) (b : Batch)
      → In e (keep_row mx email b).clean
      → In e b.clean ⊎ ((email ≡ e) × (is_dead mx email ≡ false))
  keep_row-origin e email b m = elim (Bool-cases (contains email b.seen)) [
    | inl old ↦ inl (rw old at m)
    | inr new ↦ elim (Bool-cases (is_dead mx email)) [
      | inl dead ↦ inl (rw (new, dead) at m)
      | inr live ↦ elim (In-snoc e email b.clean (rw (new, live) at m)) [
        | inl h ↦ inl h
        | inr same ↦ inr (same, live)
      ]
    ]
  ]

  clean_all-Origin :
      (e : Text) (raws : List Text) (b : Batch)
      → In e (clean_all mx raws b).clean
      → In e b.clean ⊎ Origin raws e
  unfolding clean_all
  clean_all-Origin e [] b m = inl m
  clean_all-Origin e (raw ∷ raws) b m =
      elim (clean_all-Origin e raws (clean_row mx raw (clean_email raw) b) m) [
        | inr (x, n, c, live) ↦ inr (x, inr n, c, live)
        | inl h ↦ by_row (clean_email raw) refl h
      ]
    where
      by_row :
          (c : Cleaned)
          → clean_email raw ≡ c
          → In e (clean_row mx raw c b).clean
          → In e b.clean ⊎ Origin (raw ∷ raws) e
      by_row (rejected reason) same h = inl h
      by_row (accepted email) same h = elim (keep_row-origin e email b h) [
        | inl n ↦ inl n
        | inr (eq, live) ↦ inr (raw, inl refl, rw (← eq) same, rw (← eq) live)
      ]

  clean_row-counts :
      (raw : Text) (c : Cleaned) (b : Batch)
      → let b' = clean_row mx raw c b in
        length b'.clean + length b'.dropped ≡ length b.clean + length b.dropped + 1
  clean_row-counts raw (rejected reason) b =
      omega (arith, length-append b.dropped (record { email = shown raw; reason = reason } ∷ []))
  clean_row-counts raw (accepted email) b = ground (
    arith,
    length-append b.clean (email ∷ []),
    length-append b.dropped (record { email = email; reason = duplicate } ∷ []),
    length-append b.dropped (record { email = email; reason = no_mx } ∷ []),
  )

  clean_all-counts :
      (raws : List Text) (b : Batch)
      → let b' = clean_all mx raws b in
        length b'.clean + length b'.dropped ≡ length b.clean + length b.dropped + length raws
  unfolding clean_all
  clean_all-counts [] b = omega arith
  clean_all-counts (raw ∷ raws) b = omega (
    arith,
    clean_row-counts raw (clean_email raw) b,
    clean_all-counts raws (clean_row mx raw (clean_email raw) b),
  )

  Tidy-no_rows : Tidy no_rows
  Tidy-no_rows = record {
    seen_kept = λ e h. ground arith;
    clean_seen = λ e m. absurd m;
    distinct = tt;
    counted = λ r. refl;
  }

  -- Cleaning a list loses nothing and repeats nothing. A row whose address passes the checks is in
  -- the clean list, unless its domain is known to take no mail; each clean address comes from such
  -- a row, and is in the list once; every row is clean or dropped, and each count of the
  -- statistics is the number of rows that were dropped for that reason.
  pub clean_rows-Tidy :
      (emails : List Text)
      → let b = clean_rows mx emails in
        ((raw e : Text)
          → In raw emails
          → clean_email raw ≡ accepted e
          → In e b.clean ⊎ (is_dead mx e ≡ true))
        × ((e : Text) → In e b.clean → Origin emails e)
        × Distinct b.clean
        × (length b.clean + length b.dropped ≡ length emails)
        × ((r : Reason) → b.stats r ≡ count r b.dropped)
  unfolding clean_rows
  clean_rows-Tidy emails =
      let tidy = Tidy-clean_all emails no_rows Tidy-no_rows in
      (
        λ raw e m h. tidy.seen_kept e (clean_all-sees e raw emails no_rows m h),
        λ e m. elim (clean_all-Origin e emails no_rows m) [ inl h ↦ absurd h | inr h ↦ h ],
        tidy.distinct,
        omega (arith, clean_all-counts emails no_rows),
        tidy.counted,
      )
