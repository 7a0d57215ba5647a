-- ===== src/Cloud/Dispatcher/Interleave/Once.antt =====
-- At most one request to Resend for each pack, and none for a cancelled one, in every interleaving.
use mail_chad.Base.{
  ℕ, zero, suc, ◌+◌, ◌≤◌, ◌≡◌, refl, true, some, List, [], ◌∷◌, Text, arith, All, Option-cases, inl,
  inr, subst,
}
use mail_chad.Base.Table.{Table}
use mail_chad.Cloud.Pack.{Pack, get_pack, cancel_pack}
use mail_chad.Cloud.Pack.Lifecycle.{spent, spent-le_one}
use mail_chad.Cloud.Pack.Spent.{
  put_pack-spent, cancel_pack-spent, cancel_pack-wins, expire_claim-spent,
}
use mail_chad.Cloud.Event.{Event}
use mail_chad.Cloud.KTemp.{KeyItem}
use mail_chad.Cloud.Envelope.{Message, Codec}
use mail_chad.Cloud.Dispatcher.{Reply, Cloud}
use mail_chad.Cloud.Dispatcher.Worker.{Phase, Worker, advance}
use mail_chad.Cloud.Dispatcher.Interleave.{
  Turn, work, push, cancel, expire, rekey, Pool, worker_at, set_phase, take_turn, run_turns, posted,
  requests, begin, waiting,
}
use mail_chad.Cloud.Dispatcher.Interleave.Balance.{
  held, WillResolve, advance-Balanced, advance-WillResolve,
}

-- The workers that hold the claim of the pack.
abbrev pub holders : Text → List Worker → ℕ
holders id [] = 0
holders id (w ∷ ws) = held id w.id w.phase + holders id ws

abbrev AllWillResolve : List Worker → Type 0
AllWillResolve = All (λ w. WillResolve w.phase)

holders-set_phase :
    (id : Text) (ws : List Worker) (n : ℕ) (w : Worker) (p : Phase)
    → worker_at ws n ≡ some w
    → holders id (set_phase ws n p) + held id w.id w.phase ≡ holders id ws + held id w.id p
holders-set_phase id [] n w p e = ground arith
holders-set_phase id (v ∷ ws) zero w p e = ground arith
holders-set_phase id (v ∷ ws) (suc n) w p e = omega (arith, holders-set_phase id ws n w p e)

set_phase-AllWillResolve :
    (ws : List Worker) (n : ℕ) (p : Phase)
    → AllWillResolve ws
    → WillResolve p
    → AllWillResolve (set_phase ws n p)
set_phase-AllWillResolve [] n p a h = tt
set_phase-AllWillResolve (w ∷ ws) zero p a h = (h, a.1)
set_phase-AllWillResolve (w ∷ ws) (suc n) p a h = (a.0, set_phase-AllWillResolve ws n p a.1 h)

worker_at-WillResolve :
    (ws : List Worker) (n : ℕ) {w : Worker}
    → AllWillResolve ws
    → worker_at ws n ≡ some w
    → WillResolve w.phase
worker_at-WillResolve [] n a e = cc
worker_at-WillResolve (v ∷ ws) zero {w} a e =
    let same : v ≡ w = cc in subst (λ x. WillResolve x.phase) same a.0
worker_at-WillResolve (v ∷ ws) (suc n) a e = worker_at-WillResolve ws n a.1 e

waiting-holders : (id : Text) (starts : List Text) → holders id (waiting starts) ≡ 0
waiting-holders id [] = refl
waiting-holders id (k ∷ starts) = ground (arith, waiting-holders id starts)

waiting-AllWillResolve : (starts : List Text) → AllWillResolve (waiting starts)
waiting-AllWillResolve [] = tt
waiting-AllWillResolve (k ∷ starts) = (tt, waiting-AllWillResolve starts)

module _ {P C E A K : Type 0} ⦃packs : Table P Pack⦄ ⦃ids : Table C ℕ⦄ ⦃events : Table E Event⦄
    ⦃pointers : Table A Text⦄ ⦃key_items : Table K KeyItem⦄ (codec : Codec)
    (post : Message → Reply) where
  -- The claims held for the pack and the requests made for it.
  abbrev pub sends : Text → Pool P C E A K → ℕ
  sends id s = holders id s.workers + posted id s.cloud.posts

  abbrev stored_spent : Text → Pool P C E A K → ℕ
  stored_spent id s = spent (get_pack id s.cloud.packs)

  record Grows (id : Text) (s s' : Pool P C E A K) : Type 0 where
    still : AllWillResolve s'.workers
    balance : sends id s' + stored_spent id s ≤ sends id s + stored_spent id s'

  take_turn-Grows :
      (turn : Turn A K) (id : Text) (s : Pool P C E A K)
      → AllWillResolve s.workers
      → Grows id s (take_turn codec post turn s)
  unfolding take_turn
  take_turn-Grows (work n at) id s a = elim (Option-cases (worker_at s.workers n)) [
    | inl e ↦ rw e (record { still = a; balance = omega arith })
    | inr (w, e) ↦ rw e (record {
      still =
          set_phase-AllWillResolve s.workers n (advance codec post w.id w.phase at s.cloud).0 a (
            advance-WillResolve codec post w.id w.phase at s.cloud
              (worker_at-WillResolve s.workers n a e));
      balance = omega (
        arith,
        holders-set_phase id s.workers n w (advance codec post w.id w.phase at s.cloud).0 e,
        advance-Balanced codec post id w.id w.phase at s.cloud
            (worker_at-WillResolve s.workers n a e),
      );
    })
  ]
  take_turn-Grows (push p by now) id s a = record {
    still = a;
    balance = omega (arith, put_pack-spent id s.cloud.packs p by now);
  }
  take_turn-Grows (cancel k now) id s a = record {
    still = a;
    balance = omega (arith, cancel_pack-spent id s.cloud.packs k now);
  }
  take_turn-Grows (expire row now) id s a = record {
    still = a;
    balance = omega (arith, expire_claim-spent id s.cloud.packs row now);
  }
  take_turn-Grows (rekey k) id s a = record { still = a; balance = omega arith }

  run_turns-Grows :
      (turns : List (Turn A K)) (id : Text) (s : Pool P C E A K)
      → AllWillResolve s.workers
      → Grows id s (run_turns codec post turns s)
  unfolding run_turns
  run_turns-Grows [] id s a = record { still = a; balance = omega arith }
  run_turns-Grows (turn ∷ turns) id s a =
      let g = take_turn-Grows turn id s a in
      let h = run_turns-Grows turns id (take_turn codec post turn s) g.still in
      record { still = h.still; balance = omega arith }

  posted-le_spent :
      (starts : List Text) (turns : List (Turn A K)) (id : Text) (c : Cloud P C E A K)
      → posted id c.posts ≡ 0
      → sends id (run_turns codec post turns (begin starts c))
        ≤ stored_spent id (run_turns codec post turns (begin starts c))
  posted-le_spent starts turns id c h =
      let g = run_turns-Grows turns id (begin starts c) (waiting-AllWillResolve starts) in
      omega (arith, g.balance, waiting-holders id starts)

  -- Whatever messages the queue delivers, as often as it likes, and however the workers, the pushes,
  -- the cancellations, the expiries and the key changes interleave: at most one request to Resend is
  -- made for a pack, if none was made before.
  pub sent_once :
      (starts : List Text) (turns : List (Turn A K)) (id : Text) (c : Cloud P C E A K)
      → posted id c.posts ≡ 0
      → requests id (run_turns codec post turns (begin starts c)) ≤ 1
  sent_once starts turns id c h = omega (
    arith,
    posted-le_spent starts turns id c h,
    spent-le_one (get_pack id (run_turns codec post turns (begin starts c)).cloud.packs),
  )

  -- A pack whose cancellation has succeeded is never sent: no request was made for it before the
  -- cancellation, and none is made after it, however the turns before and after go.
  pub cancelled-never_sent :
      (starts : List Text) (before after : List (Turn A K)) (id now : Text) (c : Cloud P C E A K)
      → posted id c.posts ≡ 0
      → (cancel_pack id now (run_turns codec post before (begin starts c)).cloud.packs).0 ≡ true
      → requests id (
          run_turns codec post after
            (take_turn codec post (cancel id now) (run_turns codec post before (begin starts c))))
        ≡ 0
  unfolding take_turn
  cancelled-never_sent starts before after id now c h won =
      let s = run_turns codec post before (begin starts c) in
      let g = run_turns-Grows before id (begin starts c) (waiting-AllWillResolve starts) in
      let s' = take_turn codec post (cancel id now) s in
      let g' = run_turns-Grows after id s' g.still in
      omega (
        arith,
        posted-le_spent starts before id c h,
        cancel_pack-wins id s.cloud.packs now won,
        g'.balance,
        spent-le_one (get_pack id (run_turns codec post after s').cloud.packs),
      )
