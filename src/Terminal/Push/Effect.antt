-- ===== src/Terminal/Push/Effect.antt =====
-- What is recorded of a push, however it ends.
use mail_chad.Base.{
  ℕ, zero, suc, ◌<◌, ◌≡◌, refl, sym, ap, ◌∙◌, List, [], ◌∷◌, Text, length, take, arith,
}
use mail_chad.Cloud.PackApi.{PackIn, Held}
use mail_chad.Terminal.Outcomes.{Db}
use mail_chad.Terminal.Push.Chunks.{
  acknowledged, held_in, Ends, Ends-cast, push_chunks-Ends, held_in-nil,
}
use mail_chad.Terminal.Push.Record.{
  AreFresh, AreFresh-take, recorded, recorded-nil, record_dispatch-recorded,
}
use mail_chad.Terminal.Push.{
  NewJob, Reply, PushEnd, all_pushed, cut_off, no_acks, push_packs, apply_each, apply_held_outcomes,
  Pushed, returned, push_error, record_error, store_end, push_and_record,
}

-- All packs were acknowledged, or the chunk that was not raises its error.
abbrev pub Tells : (n total : ℕ) → Pushed → Type 0
Tells n total (returned agg) = n ≡ total
Tells n total (push_error i) = n < total
Tells n total record_error = ⊥

take_all : {A : Type 0} (xs : List A) → take (length xs) xs ≡ xs
take_all [] = refl
take_all (x ∷ xs) = rw (take_all xs)

module _ (s : ℕ) (reply : ℕ → Reply) (campaign_id : ℕ) (now : Text) where
  -- What the end of a push stores, for `n` packs that were acknowledged.
  abbrev pub Stores : (n total : ℕ) → List Held → List NewJob → Db → Pushed × Db → Type 0
  Stores n total held jobs d result =
      (result.1 ≡ apply_held_outcomes now held (recorded campaign_id now (take n jobs) d))
      × Tells n total result.0

  store_end-Stores :
      (n total : ℕ) (held : List Held) (jobs : List NewJob) (d : Db) (e : PushEnd)
      → length jobs ≡ total
      → AreFresh jobs d.jobs
      → (n ≡ 0 → held ≡ [])
      → Ends n total held e
      → Stores n total held jobs d (store_end (suc s) reply campaign_id now e jobs d)
  unfolding apply_held_outcomes apply_each
  store_end-Stores n total held jobs d (all_pushed pushed agg) k fresh empty (a, b, c) =
      let every : take n jobs ≡ jobs = ap (λ m. take m jobs) (b ∙ sym k) ∙ take_all jobs in
      rw (record_dispatch-recorded campaign_id now jobs d fresh, c, every) (refl, b)
  store_end-Stores n total held jobs d (cut_off i zero agg) k fresh empty (a, b, c) =
      let none_taken : take n jobs ≡ [] = ap (λ m. take m jobs) (sym a) in
      (rw (empty (sym a), none_taken, recorded-nil campaign_id now d) refl, b)
  store_end-Stores n total held jobs d (cut_off i (suc pushed) agg) k fresh empty (a, b, c) =
      rw
        (
          ← a,
          record_dispatch-recorded campaign_id now (take (suc pushed) jobs) d
              (AreFresh-take (suc pushed) jobs d.jobs fresh),
          c,
        )
        (refl, rw a b)

  -- However the cloud answers the chunks, the jobs of the packs that it acknowledged are recorded, no
  -- other ones: their rows are added and their recipients marked as sent, and then the outcomes that
  -- it already held are applied. The call returns if all packs were acknowledged, and raises the
  -- error of the failed chunk otherwise. The jobs match the packs one by one, and their ids are new
  -- and differ.
  pub push_and_record-Stores :
      (packs : List PackIn) (jobs : List NewJob) (d : Db)
      → length jobs ≡ length packs
      → AreFresh jobs d.jobs
      → Stores
          (acknowledged (suc s) reply (length packs) 0 packs)
          (length packs)
          (held_in (suc s) reply (length packs) 0 packs)
          jobs
          d
          (push_and_record (suc s) reply campaign_id now packs jobs d)
  unfolding push_and_record push_packs
  push_and_record-Stores packs jobs d k fresh =
      store_end-Stores (acknowledged (suc s) reply (length packs) 0 packs) (length packs)
        (held_in (suc s) reply (length packs) 0 packs) jobs d (push_packs (suc s) reply packs) k
        fresh (held_in-nil s reply (length packs) 0 packs)
        (Ends-cast _ _ _ _ _ _ (push_packs (suc s) reply packs) (omega arith) (omega arith) refl
          (push_chunks-Ends s reply (length packs) 0 packs 0 no_acks (omega arith)))
