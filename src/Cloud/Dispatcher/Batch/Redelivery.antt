-- ===== src/Cloud/Dispatcher/Batch/Redelivery.antt =====
-- A batch whose messages come again sends nothing more, and leaves everything as it is.
use mail_chad.Base.{
  ℕ, suc, ◌+◌, ◌-◌, ◌≡◌, ◌⊎◌, refl, sym, subst, ap, ◌∙◌, false, Option, none, some, List, [], ◌∷◌,
  Text, text_eq, text_eq→eq, arith, length, All, Bool-cases, Option-cases, inl, inr,
}
use mail_chad.Base.Table.{Table}
use mail_chad.Cloud.Pack.{Pack, get_pack, stored_pending, is_pending}
use mail_chad.Cloud.Event.{Event}
use mail_chad.Cloud.KTemp.{KeyItem}
use mail_chad.Cloud.Envelope.{Message, Codec}
use mail_chad.Cloud.Dispatcher.{
  Reply, Cloud, Moment, Outcome, skipped, processed, outcome_unknown, key_error, process,
}
use mail_chad.Cloud.Dispatcher.Settle.{Settled, process-Settled}
use mail_chad.Cloud.Dispatcher.Frame.{get_pack-process}
use mail_chad.Cloud.Dispatcher.Batch.{
  Delivery, Counts, no_counts, Batch, batch_done, batch_raised, one_failed, count_outcome,
  still_in_group, drain, handler,
}

abbrev pub total : Counts → ℕ
total k = k.n_processed + k.n_skipped + k.n_failed

abbrev Accounts : Batch → ℕ → ℕ → Type 0
Accounts batch_raised n m = Unit
Accounts (batch_done k) n m = total k ≡ n + m

Accounts-suc : (b : Batch) (n n' m : ℕ) → n' ≡ n + 1 → Accounts b n' m → Accounts b n (suc m)
Accounts-suc batch_raised n n' m e h = tt
Accounts-suc (batch_done k) n n' m e h = omega arith

-- The same messages at other times.
abbrev pub again : (Delivery → Moment) → List Delivery → List Delivery
again later [] = []
again later (d ∷ ds) = record d { at = later d } ∷ again later ds

-- A pack that is settled is no longer pending.
Settled-idle :
    (at : Moment) (o : Outcome) (q : Option Pack) → Settled at o q → stored_pending q ≡ false
Settled-idle at o none h = refl
Settled-idle at skipped (some p) h = absurd h
Settled-idle at key_error (some p) h = ground arith
Settled-idle at outcome_unknown (some p) h = ground arith
Settled-idle at (processed g) (some p) h = ground arith

count_outcome-total :
    (o : Outcome) (k : Counts) {group : ℕ} {k' : Counts}
    → count_outcome o k ≡ some (group, k')
    → total k' ≡ total k + 1
count_outcome-total o k e = ground arith

module _ {P C E A K : Type 0} ⦃packs : Table P Pack⦄ ⦃ids : Table C ℕ⦄ ⦃events : Table E Event⦄
    ⦃pointers : Table A Text⦄ ⦃key_items : Table K KeyItem⦄ where
  -- Nothing is left to do for the message: it is bad, or its pack is not pending.
  abbrev pub Idle : Cloud P C E A K → Delivery → Type 0
  Idle c d = elim d.pack_id [ none ↦ Unit | some id ↦ stored_pending (get_pack id c.packs) ≡ false ]

  module _ (codec : Codec) (post : Message → Reply) where
    process-skips :
        (id : Text) (at : Moment) (c : Cloud P C E A K)
        → stored_pending (get_pack id c.packs) ≡ false
        → process codec post id at c ≡ (skipped, c)
    unfolding process
    process-skips id at c h = elim (Option-cases (get_pack id c.packs)) [
      | inl e ↦ rw e refl
      | inr (p, e) ↦ let idle : is_pending p.status ≡ false = rw e at h in rw (e, idle) refl
    ]

    process-idle :
        (id : Text) (at : Moment) (c : Cloud P C E A K)
        → stored_pending (get_pack id (process codec post id at c).1.packs) ≡ false
    process-idle id at c = elim (Bool-cases (stored_pending (get_pack id c.packs))) [
      | inr e ↦ rw (process-skips id at c e) e
      | inl e ↦ elim (Option-cases (get_pack id c.packs)) [
        | inl n ↦ ground arith
        | inr (p, h) ↦
            Settled-idle at _ _ (process-Settled id at codec post c {p = p} h (rw h at e))
      ]
    ]

    process-keeps_idle :
        (id j : Text) (at : Moment) (c : Cloud P C E A K)
        → stored_pending (get_pack j c.packs) ≡ false
        → stored_pending (get_pack j (process codec post id at c).1.packs) ≡ false
    process-keeps_idle id j at c h = elim (Bool-cases (text_eq id j)) [
      | inl e ↦ rw (← text_eq→eq id j e) (process-idle id at c)
      | inr e ↦ rw (get_pack-process id j e at codec post c) h
    ]

    process-keeps_Idle :
        (id : Text) (at : Moment) (c : Cloud P C E A K) (d : Delivery)
        → Idle c d
        → Idle (process codec post id at c).1 d
    process-keeps_Idle id at c d h = elim (Option-cases d.pack_id) [
      | inl n ↦ rw n tt
      | inr (j, n) ↦ rw n (process-keeps_idle id j at c (rw n at h))
    ]

    -- The loop goes on past one record: with other counts and another state, whatever is left of a
    -- sender group.
    record Goes (d : Delivery) (k k' : Counts) (c c' : Cloud P C E A K) (next : ℕ → ℕ)
        : Type 0 where
      same :
          (left : ℕ) (ds : List Delivery)
          → drain codec post left (d ∷ ds) (k, c) ≡ drain codec post (next left) ds (k', c')
      counted : total k' ≡ total k + 1
      idle : Idle c' d
      keeps : (e : Delivery) → Idle c e → Idle c' e

    -- Or the call ends with what `_process` raised.
    abbrev Ends : Delivery → Counts → Cloud P C E A K → Cloud P C E A K → Type 0
    Ends d k c c' =
        (left : ℕ) (ds : List Delivery) → drain codec post left (d ∷ ds) (k, c) ≡ (batch_raised, c')

    abbrev Step : Delivery → Counts → Cloud P C E A K → Type 0
    Step d k c =
        ((c' : Cloud P C E A K) × Ends d k c c' × ((e : Delivery) → Idle c e → Idle c' e))
        ⊎ ((k' : Counts) × (c' : Cloud P C E A K) × (next : ℕ → ℕ) × Goes d k k' c c' next)

    drain-Step : (d : Delivery) (k : Counts) (c : Cloud P C E A K) → Step d k c
    unfolding drain
    drain-Step d k c = elim (Option-cases d.pack_id) [
      | inl e ↦ inr (
        one_failed k,
        c,
        (λ left. left - 1),
        record {
          same = λ left ds. rw (e, drain) refl;
          counted = omega arith;
          idle = rw e tt;
          keeps = λ _ h. h;
        },
      )
      | inr (id, e) ↦
          let c' = (process codec post id d.at c).1 in
          elim (Option-cases (count_outcome (process codec post id d.at c).0 k)) [
            | inl n ↦
                inl
                  (c', (λ left ds. rw (e, n, drain) refl), λ x h. process-keeps_Idle id d.at c x h)
            | inr ((group, k'), n) ↦ inr (
              k',
              c',
              (λ left. still_in_group left group),
              record {
                same = λ left ds. rw (e, n, drain) refl;
                counted = count_outcome-total _ k n;
                idle = rw e (process-idle id d.at c);
                keeps = λ x h. process-keeps_Idle id d.at c x h;
              },
            )
          ]
    ]

    drain-grouping :
        (left left' : ℕ) (ds : List Delivery) (k : Counts) (c : Cloud P C E A K)
        → drain codec post left ds (k, c) ≡ drain codec post left' ds (k, c)
    drain-grouping left left' [] k c = unfold drain in refl
    drain-grouping left left' (d ∷ ds) k c = elim (drain-Step d k c) [
      | inl (c', ends, keeps) ↦ ends left ds ∙ sym (ends left' ds)
      | inr (k', c', next, g) ↦
          g.same left ds ∙ drain-grouping (next left) (next left') ds k' c' ∙ sym (g.same left' ds)
    ]

    drain-Accounts :
        (left : ℕ) (ds : List Delivery) (k : Counts) (c : Cloud P C E A K)
        → Accounts (drain codec post left ds (k, c)).0 (total k) (length ds)
    drain-Accounts left [] k c = unfold drain in omega arith
    drain-Accounts left (d ∷ ds) k c = elim (drain-Step d k c) [
      | inl (c', ends, keeps) ↦ rw (ends left ds) tt
      | inr (k', c', next, g) ↦
          subst (λ r. Accounts r.0 (total k) (length (d ∷ ds))) (sym (g.same left ds))
            (Accounts-suc _ (total k) (total k') (length ds) g.counted
              (drain-Accounts (next left) ds k' c'))
    ]

    drain-Idle :
        (left : ℕ) (ds : List Delivery) (k : Counts) (c : Cloud P C E A K) (e : Delivery)
        → Idle c e
        → Idle (drain codec post left ds (k, c)).1 e
    drain-Idle left [] k c e h = unfold drain in h
    drain-Idle left (d ∷ ds) k c e h = elim (drain-Step d k c) [
      | inl (c', ends, keeps) ↦ subst (λ r. Idle r.1 e) (sym (ends left ds)) (keeps e h)
      | inr (k', c', next, g) ↦
          subst (λ r. Idle r.1 e) (sym (g.same left ds))
            (drain-Idle (next left) ds k' c' e (g.keeps e h))
    ]

    drain-AllIdle :
        (left : ℕ) (ds : List Delivery) (k : Counts) (c : Cloud P C E A K) {k' : Counts}
        → (drain codec post left ds (k, c)).0 ≡ batch_done k'
        → All (Idle (drain codec post left ds (k, c)).1) ds
    drain-AllIdle left [] k c h = tt
    drain-AllIdle left (d ∷ ds) k c h = elim (drain-Step d k c) [
      | inl (c', ends, keeps) ↦ let stop = rw (ends left ds) at h in cc
      | inr (k', c', next, g) ↦
          subst (λ r. All (Idle r.1) (d ∷ ds)) (sym (g.same left ds))
            (
              drain-Idle (next left) ds k' c' d g.idle,
              drain-AllIdle (next left) ds k' c' (rw (g.same left ds) at h),
            )
    ]

    drain-bad :
        (left : ℕ) (d : Delivery) (ds : List Delivery) (k : Counts) (c : Cloud P C E A K)
        → d.pack_id ≡ none
        → drain codec post left (d ∷ ds) (k, c) ≡ drain codec post (left - 1) ds (one_failed k, c)
    unfolding drain
    drain-bad left d ds k c e = rw (e, drain) refl

    drain-skip :
        (left : ℕ) (d : Delivery) (ds : List Delivery) (k : Counts) (c : Cloud P C E A K)
        {id : Text}
        → d.pack_id ≡ some id
        → process codec post id d.at c ≡ (skipped, c)
        → drain codec post left (d ∷ ds) (k, c)
          ≡ drain codec post
              (still_in_group left 1)
              ds
              (record k { n_skipped = k.n_skipped + 1 }, c)
    unfolding drain
    drain-skip left d ds k c {id} e p =
        let outcome : (process codec post id d.at c).0 ≡ skipped = ap (λ r. r.0) p in
        let cloud : (process codec post id d.at c).1 ≡ c = ap (λ r. r.1) p in
        rw (e, outcome, drain) (rw cloud refl)

    -- A loop over messages with nothing left to do changes nothing, and processes none.
    Rests : ℕ → List Delivery → Counts → Cloud P C E A K → Type 0
    Rests left ds k c =
        (k' : Counts) × (drain codec post left ds (k, c) ≡ (batch_done k', c))
        × (k'.n_processed ≡ k.n_processed)

    drain-Rests :
        (left : ℕ) (later : Delivery → Moment) (ds : List Delivery) (k : Counts)
        (c : Cloud P C E A K)
        → All (Idle c) ds
        → Rests left (again later ds) k c
    unfolding Rests
    drain-Rests left later [] k c h = unfold drain in (k, refl, refl)
    drain-Rests left later (d ∷ ds) k c h = elim (Option-cases d.pack_id) [
      | inl n ↦
          let (k', e, p) = drain-Rests (left - 1) later ds (one_failed k) c h.1 in
          (k', drain-bad left (record d { at = later d }) (again later ds) k c n ∙ e, p)
      | inr (id, n) ↦
          let skips = process-skips id (later d) c (rw n at h.0) in
          let seen = record k { n_skipped = k.n_skipped + 1 } in
          let (k', e, p) = drain-Rests (still_in_group left 1) later ds seen c h.1 in
          (
            k',
            drain-skip left (record d { at = later d }) (again later ds) k c {id = id} n skips ∙ e,
            p,
          )
    ]

    -- When a batch has been worked off without an exception, the same messages may come again, at any
    -- times: the second call ends without an exception too, processes no pack, and leaves the cloud
    -- with all its packs, events, keys and requests as it was.
    pub handler-again :
        (ds : List Delivery) (later : Delivery → Moment) (c : Cloud P C E A K) {k : Counts}
        → (handler codec post ds c).0 ≡ batch_done k
        → let c' = (handler codec post ds c).1 in
          (k' : Counts) × (handler codec post (again later ds) c' ≡ (batch_done k', c'))
          × (k'.n_processed ≡ 0)
    unfolding handler Rests
    handler-again ds later c h =
        drain-Rests 0 later ds no_counts (drain codec post 0 ds (no_counts, c)).1
          (drain-AllIdle 0 ds no_counts c h)

    -- The counts of a call that ends without an exception add up to the number of its records, and
    -- whatever number of records a sender group is said to have, the result is the same.
    pub handler-counts :
        (ds : List Delivery) (left : ℕ) (c : Cloud P C E A K) {k : Counts}
        → (handler codec post ds c).0 ≡ batch_done k
        → (k.n_processed + k.n_skipped + k.n_failed ≡ length ds)
          × (drain codec post left ds (no_counts, c) ≡ handler codec post ds c)
    unfolding handler
    handler-counts ds left c h =
        let sums = rw h at (drain-Accounts 0 ds no_counts c) in
        (omega arith, drain-grouping left 0 ds no_counts c)
