-- ===== src/Terminal/MergeUnsubs/Widen.antt =====
-- Merging pulled unsubscribes: nobody is forgotten, and no scope is narrowed.
use mail_chad.Base.{
  ℕ, ◌≡◌, ◌⊎◌, refl, sym, ◌∙◌, true, false, Option, none, some, List, [], ◌∷◌, Text, text_eq,
  text_eq→eq, text_eq_refl, is_empty, str, In, arith, Bool-cases, Option-cases, inl, inr,
}
use mail_chad.Base.Table.{Table, get_item, always}
use mail_chad.Terminal.MergeUnsubs.{
  Pulled, Suppressed, scope_of, is_all, merged, changes, merge_hash, merge_entry, merge_all,
  merge_unsubs,
}

-- A stored row stays, with its reason, its source and its time; its scope stays or becomes `all`.
abbrev pub Widens : Option Suppressed → Option Suppressed → Type 0
Widens none q = Unit
Widens (some r) none = ⊥
Widens (some r) (some q) =
    (q.reason ≡ r.reason)
    × (q.source ≡ r.source)
    × (q.added_at ≡ r.added_at)
    × ((q.scope ≡ r.scope) ⊎ (q.scope ≡ str "all"))

Widens-refl : (o : Option Suppressed) → Widens o o
Widens-refl none = tt
Widens-refl (some r) = (refl, refl, refl, inl refl)

Widens-trans : (o p q : Option Suppressed) → Widens o p → Widens p q → Widens o q
Widens-trans none p q h k = tt
Widens-trans (some o) none q h k = absurd h
Widens-trans (some o) (some p) none h k = k
Widens-trans (some o) (some p) (some q) (a, b, c, d) (a', b', c', d') = (
  a' ∙ a,
  b' ∙ b,
  c' ∙ c,
  elim d' [ inl e ↦ elim d [ inl e' ↦ inl (e ∙ e') | inr e' ↦ inr (e ∙ e') ] | inr e ↦ inr e ],
)

-- The entry has been taken up: its hash is stored, under `all` if the entry says so.
abbrev pub Covers : (scope : Text) → Option Suppressed → Type 0
Covers scope none = ⊥
Covers scope (some r) = (is_all scope ≡ true) → (r.scope ≡ str "all")

Covers-Widens :
    (scope : Text) (o q : Option Suppressed) → Covers scope o → Widens o q → Covers scope q
Covers-Widens scope none q c w = absurd c
Covers-Widens scope (some r) none c w = w
Covers-Widens scope (some r) (some q) c (a, b, t, d) = λ h. elim d [ inl e ↦ e ∙ c h | inr e ↦ e ]

merged-Widens : (now h : Text) (u : Pulled) (o : Option Suppressed) → Widens o (merged now h u o)
merged-Widens now h u none = tt
merged-Widens now h u (some r) = elim (Bool-cases (is_all (scope_of u.scope))) [
  | inl e ↦ rw e (refl, refl, refl, inr refl)
  | inr e ↦ rw e (refl, refl, refl, inl refl)
]

merged-Covers :
    (now h : Text) (u : Pulled) (o : Option Suppressed)
    → Covers (scope_of u.scope) (merged now h u o)
merged-Covers now h u none = λ e. text_eq→eq (scope_of u.scope) (str "all") e
merged-Covers now h u (some r) = elim (Bool-cases (is_all (scope_of u.scope))) [
  | inl e ↦ rw e (λ _. refl)
  | inr e ↦ rw e (λ k. absurd (apart (sym e ∙ k)))
]
  where
    apart : false ≡ true → ⊥
    apart k = cc

unchanged-Covers :
    (u : Pulled) (o : Option Suppressed) → changes u o ≡ false → Covers (scope_of u.scope) o
unchanged-Covers u none h = ground arith
unchanged-Covers u (some r) h = λ e. text_eq→eq r.scope (str "all") (ground arith)

module _ {Tab : Type 0} ⦃rows : Table Tab Suppressed⦄ (now : Text) where
  merge_hash-Widens :
      (j h : Text) (u : Pulled) (n : ℕ) (t : Tab)
      → Widens (get_item j t) (get_item j (merge_hash now h u (n, t)).1)
  merge_hash-Widens j h u n t = elim (Bool-cases (changes u (get_item h t))) [
    | inr e ↦ rw e (Widens-refl (get_item j t))
    | inl e ↦
        rw (e, rows.get-write j h always (merged now h u) t)
          (elim (Bool-cases (text_eq h j)) [
            | inl same ↦ rw same (rw (← text_eq→eq h j same) (merged-Widens now h u (get_item h t)))
            | inr other ↦ rw other (Widens-refl (get_item j t))
          ])
  ]

  merge_hash-Covers :
      (h : Text) (u : Pulled) (n : ℕ) (t : Tab)
      → Covers (scope_of u.scope) (get_item h (merge_hash now h u (n, t)).1)
  merge_hash-Covers h u n t = elim (Bool-cases (changes u (get_item h t))) [
    | inr e ↦ rw e (unchanged-Covers u (get_item h t) e)
    | inl e ↦
        rw (e, rows.get-write h h always (merged now h u) t, text_eq_refl h)
          (merged-Covers now h u (get_item h t))
  ]

  merge_entry-Widens :
      (j : Text) (u : Pulled) (s : ℕ × Tab)
      → Widens (get_item j s.1) (get_item j (merge_entry now u s).1)
  merge_entry-Widens j u (n, t) = elim (Option-cases u.email_hash) [
    | inl e ↦ rw e (Widens-refl (get_item j t))
    | inr (h, e) ↦ elim (Bool-cases (is_empty h)) [
      | inl b ↦ rw (e, b) (Widens-refl (get_item j t))
      | inr b ↦ rw (e, b) (merge_hash-Widens j h u n t)
    ]
  ]

  merge_entry-Covers :
      (h : Text) (u : Pulled) (s : ℕ × Tab)
      → u.email_hash ≡ some h
      → is_empty h ≡ false
      → Covers (scope_of u.scope) (get_item h (merge_entry now u s).1)
  merge_entry-Covers h u (n, t) e b = rw (e, b) (merge_hash-Covers h u n t)

  merge_all-Widens :
      (j : Text) (unsubs : List Pulled) (s : ℕ × Tab)
      → Widens (get_item j s.1) (get_item j (merge_all now unsubs s).1)
  unfolding merge_all
  merge_all-Widens j [] s = Widens-refl (get_item j s.1)
  merge_all-Widens j (u ∷ unsubs) s =
      Widens-trans (get_item j s.1) (get_item j (merge_entry now u s).1) _
        (merge_entry-Widens j u s) (merge_all-Widens j unsubs (merge_entry now u s))

  merge_all-Covers :
      (h : Text) (u : Pulled) (unsubs : List Pulled) (s : ℕ × Tab)
      → In u unsubs
      → u.email_hash ≡ some h
      → is_empty h ≡ false
      → Covers (scope_of u.scope) (get_item h (merge_all now unsubs s).1)
  unfolding merge_all
  merge_all-Covers h u [] s m e b = absurd m
  merge_all-Covers h u (x ∷ unsubs) s (inl same) e b =
      Covers-Widens (scope_of u.scope) (get_item h (merge_entry now x s).1) _
        (rw same (merge_entry-Covers h u s e b)) (merge_all-Widens h unsubs (merge_entry now x s))
  merge_all-Covers h u (x ∷ unsubs) s (inr m) e b =
      merge_all-Covers h u unsubs (merge_entry now x s) m e b

  -- Merging loses nobody and narrows nothing. Every row that is stored stays, with its reason, its
  -- source and its time, and with its scope, or with `all`. Each pulled entry with a hash is stored
  -- afterwards, under `all` if that is its scope, if it has none, or one that is not known.
  pub merge_unsubs-Widens :
      (unsubs : List Pulled) (t : Tab)
      → let t' = (merge_unsubs now unsubs t).1 in
        ((j : Text) → Widens (get_item {Item = Suppressed} j t) (get_item {Item = Suppressed} j t'))
        × ((u : Pulled) (h : Text)
            → In u unsubs
            → u.email_hash ≡ some h
            → is_empty h ≡ false
            → Covers (scope_of u.scope) (get_item {Item = Suppressed} h t'))
  unfolding merge_unsubs
  merge_unsubs-Widens unsubs t =
      (λ j. merge_all-Widens j unsubs (0, t), λ u h m e b. merge_all-Covers h u unsubs (0, t) m e b)
