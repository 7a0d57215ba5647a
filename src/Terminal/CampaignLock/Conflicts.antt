-- ===== src/Terminal/CampaignLock/Conflicts.antt =====
-- The conflicts that are found, against the rows of the two tables.
use mail_chad.Base.{
  ℕ, ◌≡◌, ◌≢◌, refl, sym, ap, ◌∙◌, true, false, not, ◌||◌, Option, none, some, List, [], ◌∷◌, map,
  Text, is_some, ◌==◌, keep, In, keep-In, In-keep, In-map, map-In, append-In, In-append_left,
  In-append_right, arith, Bool-cases, Option-cases, inl, inr, ◌⊎◌, subst,
}
use mail_chad.Terminal.CampaignLock.{
  Campaign, Recipient, Lock, is_locked_by, lock_of, ends_after, set_default, is_excluded, add_lock,
  add_locks, joined, locked_contacts, find_lock, conflicts_in, find_conflicts,
}

-- The contact is on another campaign that has been dispatched, whose window is open and not
-- confirmed, and has not clicked in it.
abbrev pub Holds : (campaign_id : ℕ) → (now : Text) → ℕ → Recipient → Campaign → Type 0
Holds campaign_id now contact r c =
    (r.contact_id ≡ contact)
    × (r.campaign_id ≡ c.id)
    × (c.id ≢ campaign_id)
    × (is_some c.dispatched_at ≡ true)
    × (c.unsubs_confirmed_at ≡ none)
    × (ends_after now c.lock_until ≡ true)
    × (r.clicked_at ≡ none)

none_of : {A : Type 0} (o : Option A) → not (is_some o) ≡ true → o ≡ none
none_of o h = ground arith

is_locked_by-Holds :
    (x : ℕ) (now : Text) (r : Recipient) (c : Campaign)
    → is_locked_by now r c ≡ true
    → c.id ≢ x
    → Holds x now r.contact_id r c
is_locked_by-Holds x now r c h n =
    (refl, ground arith, n, ground arith, ground arith, ground arith, ground arith)

Holds-is_locked_by :
    (x : ℕ) (now : Text) (id : ℕ) (r : Recipient) (c : Campaign)
    → Holds x now id r c
    → is_locked_by now r c ≡ true
Holds-is_locked_by x now id r c (a, b, n, d, u, l, k) = ground arith

is_excluded_ne : (x id : ℕ) → is_excluded (some x) id ≡ false → id ≢ x
is_excluded_ne x id h = ground arith

ne_is_excluded : (x id : ℕ) → id ≢ x → is_excluded (some x) id ≡ false
ne_is_excluded x id h = ground arith

module _ (now : Text) (cs : List Campaign) where
  joined-In :
      (k : Lock) (rs : List Recipient)
      → In k (joined now cs rs)
      → (r : Recipient) × (c : Campaign) × In r rs
        × In c cs
        × (is_locked_by now r c ≡ true)
        × (lock_of r c ≡ k)
  unfolding joined
  joined-In k [] m = absurd m
  joined-In k (r ∷ rs) m =
      elim (append-In k (map (lock_of r) (keep (is_locked_by now r) cs)) (joined now cs rs) m) [
        | inl h ↦
            let (c, g, e) = map-In (lock_of r) k (keep (is_locked_by now r) cs) h in
            let (g', t) = In-keep (is_locked_by now r) c cs g in (r, c, inl refl, g', t, e)
        | inr h ↦ let (q, c, a, b, t, e) = joined-In k rs h in (q, c, inr a, b, t, e)
      ]

  In-joined :
      (r : Recipient) (c : Campaign) (rs : List Recipient)
      → In r rs
      → In c cs
      → is_locked_by now r c ≡ true
      → In (lock_of r c) (joined now cs rs)
  unfolding joined
  In-joined r c [] m n t = absurd m
  In-joined r c (q ∷ rs) (inl e) n t = rw e (
      In-append_left (lock_of r c) _ (joined now cs rs)
        (In-map (lock_of r) c _ (keep-In (is_locked_by now r) c cs n t)))
  In-joined r c (q ∷ rs) (inr m) n t =
      In-append_right (lock_of r c) (map (lock_of q) (keep (is_locked_by now q) cs)) _
        (In-joined r c rs m n t)

set_default-In :
    (j k : Lock) (locks : List Lock) → In j (set_default k locks) → In j locks ⊎ (k ≡ j)
unfolding set_default
set_default-In j k [] (inl e) = inr e
set_default-In j k [] (inr m) = absurd m
set_default-In j k (l ∷ locks) m = elim (Bool-cases (l.contact_id == k.contact_id)) [
  | inl e ↦ inl (rw e at m)
  | inr e ↦ elim (rw e at m) [
    | inl a ↦ inl (inl a)
    | inr b ↦ elim (set_default-In j k locks b) [ inl c ↦ inl (inr c) | inr d ↦ inr d ]
  ]
]

find_lock-set_default :
    (id : ℕ) (k : Lock) (locks : List Lock)
    → is_some (find_lock id (set_default k locks))
      ≡ (is_some (find_lock id locks) || k.contact_id == id)
unfolding find_lock set_default
find_lock-set_default id k [] = ground arith
find_lock-set_default id k (l ∷ locks) = ground (arith, find_lock-set_default id k locks)

find_lock-In :
    (id : ℕ) (k : Lock) (locks : List Lock)
    → find_lock id locks ≡ some k
    → In k locks × (k.contact_id ≡ id)
unfolding find_lock
find_lock-In id k [] h = cc
find_lock-In id k (l ∷ locks) h = elim (Bool-cases (l.contact_id == id)) [
  | inl e ↦ let e' : l ≡ k = ground arith in (inl e', ground arith)
  | inr e ↦ let (a, b) = find_lock-In id k locks (rw e at h) in (inr a, b)
]

module _ (x : ℕ) where
  add_locks-In :
      (j : Lock) (ks locks : List Lock)
      → In j (add_locks (some x) ks locks)
      → In j locks ⊎ (In j ks × (j.campaign_id ≢ x))
  unfolding add_locks
  add_locks-In j [] locks m = inl m
  add_locks-In j (k ∷ ks) locks m = elim (add_locks-In j ks (add_lock (some x) k locks) m) [
    | inr (a, b) ↦ inr (inr a, b)
    | inl a ↦ elim (Bool-cases (is_excluded (some x) k.campaign_id)) [
      | inl e ↦ inl (rw e at a)
      | inr e ↦ elim (set_default-In j k locks (rw e at a)) [
        | inl b ↦ inl b
        | inr d ↦
            inr (
              inl d,
              λ q. is_excluded_ne x k.campaign_id e (ap (λ (l : Lock). l.campaign_id) d ∙ q),
            )
      ]
    ]
  ]

  find_lock-add_lock :
      (id : ℕ) (k : Lock) (locks : List Lock)
      → is_some (find_lock id locks) ≡ true
      → is_some (find_lock id (add_lock (some x) k locks)) ≡ true
  find_lock-add_lock id k locks h = elim (Bool-cases (is_excluded (some x) k.campaign_id)) [
    | inl e ↦ rw (e, h)
    | inr e ↦ rw (e, find_lock-set_default id k locks, h)
  ]

  find_lock-add_locks :
      (id : ℕ) (ks locks : List Lock)
      → is_some (find_lock id locks) ≡ true
      → is_some (find_lock id (add_locks (some x) ks locks)) ≡ true
  unfolding add_locks
  find_lock-add_locks id [] locks h = h
  find_lock-add_locks id (k ∷ ks) locks h =
      find_lock-add_locks id ks (add_lock (some x) k locks) (find_lock-add_lock id k locks h)

  find_lock-added :
      (k : Lock) (ks locks : List Lock)
      → In k ks
      → k.campaign_id ≢ x
      → is_some (find_lock k.contact_id (add_locks (some x) ks locks)) ≡ true
  unfolding add_locks
  find_lock-added k [] locks m n = absurd m
  find_lock-added k (l ∷ ks) locks (inl e) n =
      find_lock-add_locks k.contact_id ks (add_lock (some x) l locks) (
        rw (e, ne_is_excluded x k.campaign_id n, find_lock-set_default k.contact_id k locks)
          (ground arith))
  find_lock-added k (l ∷ ks) locks (inr m) n = find_lock-added k ks (add_lock (some x) l locks) m n

conflicts_in-In :
    (j : Lock) (locked : List Lock) (ids : List ℕ)
    → In j (conflicts_in locked ids)
    → In j locked × In j.contact_id ids
unfolding conflicts_in
conflicts_in-In j locked [] m = absurd m
conflicts_in-In j locked (id ∷ ids) m = elim (Option-cases (find_lock id locked)) [
  | inl e ↦ let (a, b) = conflicts_in-In j locked ids (rw e at m) in (a, inr b)
  | inr (k, e) ↦ elim (rw e at m) [
    | inl same ↦
        let (a, b) = find_lock-In id k locked e in
        (subst (λ l. In l locked) same a, inl (sym b ∙ ap (λ (l : Lock). l.contact_id) same))
    | inr m' ↦ let (a, b) = conflicts_in-In j locked ids m' in (a, inr b)
  ]
]

In-conflicts_in :
    (id : ℕ) (locked : List Lock) (ids : List ℕ)
    → In id ids
    → is_some (find_lock id locked) ≡ true
    → (k : Lock) × In k (conflicts_in locked ids) × (k.contact_id ≡ id)
unfolding conflicts_in
In-conflicts_in id locked [] m h = absurd m
In-conflicts_in id locked (i ∷ ids) (inl e) h = elim (Option-cases (find_lock id locked)) [
  | inl none_found ↦ absurd (apart (rw none_found at h))
  | inr (k, found) ↦ (k, rw (e, found) (inl refl), (find_lock-In id k locked found).1)
]
  where
    apart : false ≡ true → ⊥
    apart q = cc
In-conflicts_in id locked (i ∷ ids) (inr m) h =
    let (k, a, b) = In-conflicts_in id locked ids m h in
    elim (Option-cases (find_lock i locked)) [
      | inl e ↦ (k, rw e a, b)
      | inr (l, e) ↦ (k, rw e (inr a), b)
    ]

-- The list of conflicts is exact. Each entry names a contact that was asked for and a row of another
-- campaign that holds it: dispatched, its window open and not confirmed, with no click by the
-- contact. And each contact that was asked for and is so held has an entry.
pub find_conflicts-Holds :
    (campaign_id : ℕ) (now : Text) (cs : List Campaign) (rs : List Recipient) (ids : List ℕ)
    → let found = find_conflicts campaign_id now cs rs ids in
      ((k : Lock)
        → In k found
        → In k.contact_id ids
          × ((r : Recipient) × (c : Campaign) × In r rs
              × In c cs
              × (lock_of r c ≡ k)
              × Holds campaign_id now k.contact_id r c))
      × ((id : ℕ) (r : Recipient) (c : Campaign)
          → In id ids
          → In r rs
          → In c cs
          → Holds campaign_id now id r c
          → (k : Lock) × In k found × (k.contact_id ≡ id))
unfolding find_conflicts locked_contacts
find_conflicts-Holds x now cs rs [] = (λ k m. absurd m, λ id r c m _ _ _. absurd m)
find_conflicts-Holds x now cs rs (i ∷ ids) = (
  λ k m.
      let (a, b) = conflicts_in-In k _ (i ∷ ids) m in
      let (h, n) = from_rows k (add_locks-In x k (joined now cs rs) [] a) in
      let (r, c, p, q, t, e) = joined-In now cs k rs h in
      let held =
        is_locked_by-Holds x now r c t (λ y. n (sym (ap (λ (l : Lock). l.campaign_id) e) ∙ y)) in
      (b, (r, c, p, q, e, subst (λ (l : Lock). Holds x now l.contact_id r c) e held)),
  λ id r c m p q h. In-conflicts_in id _ (i ∷ ids) m (
      subst (λ y. is_some (find_lock y (add_locks (some x) (joined now cs rs) [])) ≡ true) h.0
        (find_lock-added x (lock_of r c) (joined now cs rs) []
          (In-joined now cs r c rs p q (Holds-is_locked_by x now id r c h)) h.2)),
)
  where
    from_rows :
        (k : Lock)
        → In k [] ⊎ (In k (joined now cs rs) × (k.campaign_id ≢ x))
        → In k (joined now cs rs) × (k.campaign_id ≢ x)
    from_rows k (inl m) = absurd m
    from_rows k (inr h) = h
