-- ===== src/Cloud/Dispatcher/Refine.antt =====
-- A worker that is left alone does what `_process` does.
use mail_chad.Base.{ℕ, zero, suc, ◌≡◌, Text}
use mail_chad.Base.Table.{Table}
use mail_chad.Cloud.Pack.{Pack}
use mail_chad.Cloud.Event.{Event}
use mail_chad.Cloud.KTemp.{KeyItem}
use mail_chad.Cloud.Envelope.{Message, Codec}
use mail_chad.Cloud.Dispatcher.{Reply, Cloud, Moment, Outcome}
use mail_chad.Cloud.Dispatcher.Worker.{Phase, done, advance}

module _ {P C E A K : Type 0} ⦃packs : Table P Pack⦄ ⦃ids : Table C ℕ⦄ ⦃events : Table E Event⦄
    ⦃pointers : Table A Text⦄ ⦃key_items : Table K KeyItem⦄ (codec : Codec)
    (post : Message → Reply) where
  -- `n` calls in a row.
  pub advance_many : ℕ → Text → Moment → Phase × Cloud P C E A K → Phase × Cloud P C E A K
  advance_many zero id at s = s
  advance_many (suc n) id at (phase, c) = advance_many n id at (advance codec post id phase at c)

  -- From a given phase on, the worker ends as the code says from that point on.
  abbrev Ends : ℕ → Text → Moment → Phase → Cloud P C E A K → Outcome × Cloud P C E A K → Type 0
  Ends n id at phase c r = advance_many n id at (phase, c) ≡ (done r.0, r.1)
