-- ===== src/Cloud/Dispatcher/Interleave.antt =====
-- Any number of dispatcher workers, whose calls are interleaved with one another, with the packs
-- API (push and cancel), with the sweep's expiry of stale claims and with changes of the keys.
pub mod Balance
pub mod Once
use mail_chad.Base.{
  ℕ, zero, suc, ◌+◌, Bool, true, false, Option, none, some, List, [], ◌∷◌, Text, text_eq,
  if◌then◌else◌, ◌&&◌,
}
use mail_chad.Base.Table.{Table}
use mail_chad.Cloud.Pack.{Pack, NewPack, put_pack, cancel_pack, expire_claim}
use mail_chad.Cloud.Event.{Event}
use mail_chad.Cloud.KTemp.{KeyItem, Keys}
use mail_chad.Cloud.Envelope.{Message, Codec}
use mail_chad.Cloud.Dispatcher.{Reply, Cloud, Moment}
use mail_chad.Cloud.Dispatcher.Worker.{
  Phase, start, seen, holding, loaded, ready, storing, reporting, logging, done, Worker, at_phase,
  advance,
}

-- Who acts next: the n-th worker, or one of the other actors. A key may change in any way.
pub data Turn (A K : Type 0) : Type 0 where
  work : ℕ → Moment → Turn A K
  push : NewPack → (pushed_by now : Text) → Turn A K
  cancel : (id now : Text) → Turn A K
  expire : (row : Pack) (now : Text) → Turn A K
  rekey : Keys A K → Turn A K

pub record Pool (P C E A K : Type 0) : Type 0 where
  pub workers : List Worker
  pub cloud : Cloud P C E A K

abbrev pub worker_at : List Worker → ℕ → Option Worker
worker_at [] n = none
worker_at (w ∷ ws) zero = some w
worker_at (w ∷ ws) (suc n) = worker_at ws n

abbrev pub set_phase : List Worker → ℕ → Phase → List Worker
set_phase [] n p = []
set_phase (w ∷ ws) zero p = at_phase w.id p ∷ ws
set_phase (w ∷ ws) (suc n) p = w ∷ set_phase ws n p

module _ {P C E A K : Type 0} ⦃packs : Table P Pack⦄ ⦃ids : Table C ℕ⦄ ⦃events : Table E Event⦄
    ⦃pointers : Table A Text⦄ ⦃key_items : Table K KeyItem⦄ (codec : Codec)
    (post : Message → Reply) where
  abbrev pub work_on : ℕ → Moment → Option Worker → Pool P C E A K → Pool P C E A K
  work_on n at none s = s
  work_on n at (some w) s =
      let (phase', cloud') = advance codec post w.id w.phase at s.cloud in
      record { workers = set_phase s.workers n phase'; cloud = cloud' }

  abbrev pub with_packs : P → Pool P C E A K → Pool P C E A K
  with_packs t s = let c = s.cloud in record s { cloud = record c { packs = t } }

  unfoldable pub take_turn : Turn A K → Pool P C E A K → Pool P C E A K
  take_turn (work n at) s = work_on n at (worker_at s.workers n) s
  take_turn (push p by now) s = with_packs (put_pack p by now s.cloud.packs).1 s
  take_turn (cancel id now) s = with_packs (cancel_pack id now s.cloud.packs).1 s
  take_turn (expire row now) s = with_packs (expire_claim row now s.cloud.packs).1 s
  take_turn (rekey k) s = let c = s.cloud in record s { cloud = record c { keys = k } }

  unfoldable pub run_turns : List (Turn A K) → Pool P C E A K → Pool P C E A K
  run_turns [] s = s
  run_turns (turn ∷ turns) s = run_turns turns (take_turn turn s)

-- How many requests to Resend were made for the pack.
abbrev pub posted : Text → List (Text × Message) → ℕ
posted id [] = 0
posted id ((k, m) ∷ posts) = (if text_eq k id then 1 else 0) + posted id posts

-- The workers that have taken a message from the queue and not yet begun.
abbrev pub waiting : List Text → List Worker
waiting [] = []
waiting (id ∷ rest) = at_phase id start ∷ waiting rest

module _ {P C E A K : Type 0} where
  abbrev pub requests : Text → Pool P C E A K → ℕ
  requests id s = posted id s.cloud.posts

  abbrev pub begin : List Text → Cloud P C E A K → Pool P C E A K
  begin starts c = record { workers = waiting starts; cloud = c }
