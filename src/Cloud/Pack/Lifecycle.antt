-- ===== src/Cloud/Pack/Lifecycle.antt =====
-- The life of a stored pack: the write operations in any order keep the job that it was stored
-- with and never take it back to an earlier stage.
use mathlib.Core.Option
use mail_chad.Base.{
  ℕ, ◌+◌, ◌≤◌, ◌≡◌, Bool, true, Option, none, some, List, [], ◌∷◌, Text, text_eq, arith, text_eq→eq,
  and_left, and_right, ◌&&◌, if◌then◌else◌, Bool-cases, inl, inr, text_eq_refl,
}
use mail_chad.Base.Table.{Table, get_item, write_item}
use mail_chad.Cloud.Pack.{
  Status, pending, claimed, is_resolved, is_pending, Pack, NewPack, Fields, get_pack, put_pack,
  claim_pack, update_pack, cancel_pack, expire_claim, claim as claim_at, stored_pending,
  stamp_resolved, set_fields, is_given,
}

-- Pending, claimed, resolved.
abbrev pub stage : Status → ℕ
stage pending = 0
stage claimed = 1
stage _ = 2

-- The columns that no operation changes.
pub record SameJob (p q : Pack) : Type 0 where
  pub same_id : q.pack_id ≡ p.pack_id
  pub same_campaign : q.campaign_id ≡ p.campaign_id
  pub same_recipient : q.recipient_hash ≡ p.recipient_hash
  pub same_content : q.content_hash ≡ p.content_hash
  pub same_send_at : q.send_at ≡ p.send_at
  pub same_key : q.key_id ≡ p.key_id
  pub same_enqueued_at : q.enqueued_at ≡ p.enqueued_at
  pub same_pushed_by : q.pushed_by ≡ p.pushed_by

-- What was stored stays stored, as the same job at the same stage or a later one.
abbrev pub Advances : Option Pack → Option Pack → Type 0
Advances none q = Unit
Advances (some p) none = ⊥
Advances (some p) (some q) = SameJob p q × (stage p.status ≤ stage q.status)

Advances-refl : (o : Option Pack) → Advances o o
Advances-refl none = tt
Advances-refl (some p) = ground arith

Advances-trans : (o p q : Option Pack) → Advances o p → Advances p q → Advances o q
Advances-trans none p q h k = tt
Advances-trans (some o) none q h k = absurd h
Advances-trans (some o) (some p) none h k = k
Advances-trans (some o) (some p) (some q) h k = ground arith

-- One call that writes to the packs; `resolve` is an update with a status that resolves.
pub data Call : Type 0 where
  push : NewPack → (pushed_by now : Text) → Call
  claim : (id now : Text) → Call
  resolve :
      (id : Text) (fields : Fields) (s : Status) (now : Text)
      → fields.status ≡ some s
      → is_resolved s ≡ true
      → Call
  cancel : (id now : Text) → Call
  expire : (row : Pack) (now : Text) → Call

-- Whether the pack has been claimed, or has resolved without.
abbrev pub spent : Option Pack → ℕ
spent none = 0
spent (some p) = if is_pending p.status then 0 else 1

pub spent-le_one : (o : Option Pack) → spent o ≤ 1
spent-le_one none = omega arith
spent-le_one (some p) = ground arith

pub Advances-spent : (o q : Option Pack) → Advances o q → spent o ≤ spent q
Advances-spent none q h = ground arith
Advances-spent (some p) none h = absurd h
Advances-spent (some p) (some q) h = ground arith

pub resolve-is_given :
    (fields : Fields) (s : Status) (now : Text)
    → fields.status ≡ some s
    → is_given (stamp_resolved now fields) ≡ true
unfolding stamp_resolved
resolve-is_given fields s now e = ground arith

update-Advances :
    (id : Text) (fields : Fields) (s : Status) (now : Text)
    → fields.status ≡ some s
    → is_resolved s ≡ true
    → (o : Option Pack) → Advances o (Option.map (set_fields (stamp_resolved now fields)) o)
unfolding stamp_resolved
update-Advances id fields s now e r none = tt
update-Advances id fields s now e r (some q) = ground arith

module _ {Tab : Type 0} ⦃store : Table Tab Pack⦄ where
  unfoldable pub apply : Call → Tab → Tab
  apply (push p by now) t = (put_pack p by now t).1
  apply (claim id now) t = (claim_pack id now t).1
  apply (resolve id fields s now e r) t = update_pack id fields now t
  apply (cancel id now) t = (cancel_pack id now t).1
  apply (expire row now) t = (expire_claim row now t).1

  unfoldable pub run : List Call → Tab → Tab
  run [] t = t
  run (c ∷ cs) t = run cs (apply c t)

  -- A conditional write whose effect advances what it meets.
  write-Advances :
      (j k : Text) (c : Option Pack → Bool) (f : Option Pack → Option Pack) (t : Tab)
      → ((o : Option Pack) → c o ≡ true → Advances o (f o))
      → Advances (get_item j t) (get_item j (write_item k c f t).1)
  write-Advances j k c f t h = elim (Bool-cases (text_eq k j && c (get_item k t))) [
    | inl e ↦
        rw (store.get-write j k c f t, e)
          (rw (← text_eq→eq k j (and_left _ _ e)) (h (store.get k t) (and_right _ _ e)))
    | inr e ↦ rw (store.get-write j k c f t, e) (Advances-refl _)
  ]

  pub apply-Advances :
      (c : Call) (j : Text) (t : Tab) → Advances (get_pack j t) (get_pack j (apply c t))
  unfolding apply get_pack put_pack claim_pack update_pack cancel_pack expire_claim
  apply-Advances (push p by now) j t =
      write-Advances j _ _ _ t (elim [ none ↦ λ _. tt | some q ↦ λ e. cc ])
  apply-Advances (claim id now) j t =
      write-Advances j id _ _ t (elim [ none ↦ λ _. tt | some q ↦ λ e. ground arith ])
  apply-Advances (resolve id fields s now e r) j t =
      rw (resolve-is_given fields s now e)
        (write-Advances j id _ _ t (λ o _. update-Advances id fields s now e r o))
  apply-Advances (cancel id now) j t =
      write-Advances j id _ _ t (elim [ none ↦ λ _. tt | some q ↦ λ e. ground arith ])
  apply-Advances (expire row now) j t =
      write-Advances j _ _ _ t (elim [ none ↦ λ _. tt | some q ↦ λ e. ground arith ])

  -- Whatever calls are made, in whatever order, a stored pack stays stored, keeps the columns of the
  -- job that was pushed, and its status never goes back from claimed to pending, nor from a resolved
  -- status to one that is not.
  pub run-Advances :
      (cs : List Call) (j : Text) (t : Tab) → Advances (get_pack j t) (get_pack j (run cs t))
  unfolding run
  run-Advances [] j t = Advances-refl _
  run-Advances (c ∷ cs) j t =
      Advances-trans _ _ _ (apply-Advances c j t) (run-Advances cs j (apply c t))

  -- One for a call that claims the pack, and succeeds.
  unfoldable pub wins : Text → Call → Tab → ℕ
  wins id (claim k now) t = if text_eq k id && (claim_pack k now t).0 then 1 else 0
  wins id _ t = 0

  -- How often the pack is claimed in the run.
  unfoldable pub claims : Text → List Call → Tab → ℕ
  unfolding wins
  claims id [] t = 0
  claims id (c ∷ cs) t = wins id c t + claims id cs (apply c t)

  pub apply-claimed :
      (id now : Text) (t : Tab)
      → (claim_pack id now t).0 ≡ true
      → (spent (get_pack id t) ≡ 0) × (spent (get_pack id (claim_pack id now t).1) ≡ 1)
  unfolding claim_pack get_pack
  apply-claimed id now t h = ground (
    arith,
    store.write_reports id stored_pending (Option.map (claim_at now)) t,
    store.get-write id id stored_pending (Option.map (claim_at now)) t,
    text_eq_refl id,
  )

  pub wins-spent :
      (c : Call) (id : Text) (t : Tab)
      → wins id c t + spent (get_pack id t) ≤ spent (get_pack id (apply c t))
  unfolding wins apply
  wins-spent (claim k now) id t = elim (Bool-cases (text_eq k id && (claim_pack k now t).0)) [
    | inl e ↦
        let kid = text_eq→eq k id (and_left _ _ e) in
        let won = and_right (text_eq k id) (claim_pack k now t).0 e in
        rw (e) (rw (← kid) (omega (arith, apply-claimed k now t won)))
    | inr e ↦ rw (e) (omega (arith, Advances-spent _ _ (apply-Advances (claim k now) id t)))
  ]
  wins-spent c id t = omega (arith, Advances-spent _ _ (apply-Advances c id t))

  claims-spent : (cs : List Call) (id : Text) (t : Tab) → claims id cs t + spent (get_pack id t) ≤ 1
  unfolding claims
  claims-spent [] id t = omega (arith, spent-le_one (get_pack id t))
  claims-spent (c ∷ cs) id t = omega (arith, wins-spent c id t, claims-spent cs id (apply c t))

  -- In any sequence of calls at most one claim of a pack succeeds.
  pub claims-le_one : (cs : List Call) (id : Text) (t : Tab) → claims id cs t ≤ 1
  claims-le_one cs id t = omega (arith, claims-spent cs id t)
