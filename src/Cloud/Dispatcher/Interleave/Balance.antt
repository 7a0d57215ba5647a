-- ===== src/Cloud/Dispatcher/Interleave/Balance.antt =====
-- The count behind the theorems: the requests made for a pack and the workers that hold its claim
-- are together at most one, and none before the pack has left the pending state.
use mail_chad.Base.{
  ℕ, ◌+◌, ◌≤◌, ◌≡◌, refl, Bool, true, false, Option, none, some, Text, text_eq, arith,
  if◌then◌else◌, Bool-cases, inl, inr,
}
use mail_chad.Base.Table.{Table}
use mail_chad.Cloud.Pack.{
  Status, failed, stuck_no_key, is_resolved, is_pending, Pack, get_pack, claim_pack,
}
use mail_chad.Cloud.Pack.Lifecycle.{spent}
use mail_chad.Cloud.Pack.Spent.{update_pack-spent, claim_pack-spent}
use mail_chad.Cloud.Event.{Event}
use mail_chad.Cloud.KTemp.{KeyItem, get_active_k_temp}
use mail_chad.Cloud.Envelope.{Result, ok, err, Message, Plain, Codec, open_pack}
use mail_chad.Cloud.Dispatcher.{
  Reply, SendResult, result, missing_key, Cloud, Moment, send_sync, final_fields, usable,
}
use mail_chad.Cloud.Dispatcher.Settle.{resolves_or_raises, send_sync-resolves}
use mail_chad.Cloud.Dispatcher.Worker.{
  Phase, start, seen, holding, loaded, ready, storing, reporting, logging, done, after_read,
  after_claim, after_open, after_key, after_send, advance,
}
use mail_chad.Cloud.Dispatcher.Interleave.{posted}

-- The phases between a won claim and the request.
abbrev pub holds : Phase → Bool
holds holding = true
holds (loaded payload) = true
holds (ready plain) = true
holds _ = false

-- The fields that a worker still has to write resolve the pack.
abbrev pub WillResolve : Phase → Type 0
WillResolve (storing fields) = (s : Status) × (fields.status ≡ some s) × (is_resolved s ≡ true)
WillResolve (reporting s m f g) = is_resolved s ≡ true
WillResolve _ = Unit

abbrev pub held : Text → Text → Phase → ℕ
held id k phase = if text_eq k id then (if holds phase then 1 else 0) else 0

after_read-WillResolve : (o : Option Pack) → WillResolve (after_read o)
after_read-WillResolve none = tt
after_read-WillResolve (some p) = elim (Bool-cases (is_pending p.status)) [
  | inl e ↦ rw e tt
  | inr e ↦ rw e tt
]

after_claim-WillResolve : (won : Bool) → WillResolve (after_claim won)
after_claim-WillResolve true = tt
after_claim-WillResolve false = tt

after_open-WillResolve : (r : Result Plain) → WillResolve (after_open r)
after_open-WillResolve (ok plain) = tt
after_open-WillResolve (err why) = (failed, refl, refl)

after_key-WillResolve :
    (codec : Codec) (payload key : Option Text) → WillResolve (after_key codec payload key)
after_key-WillResolve codec payload none = (stuck_no_key, refl, refl)
after_key-WillResolve codec payload (some key) =
    after_open-WillResolve (open_pack codec payload key)

after_send-WillResolve :
    (g : ℕ) (r : SendResult) → resolves_or_raises r ≡ true → WillResolve (after_send g r)
after_send-WillResolve g missing_key h = tt
after_send-WillResolve g (result s m f) h = h

module _ {P C E A K : Type 0} ⦃packs : Table P Pack⦄ ⦃ids : Table C ℕ⦄ ⦃events : Table E Event⦄
    ⦃pointers : Table A Text⦄ ⦃key_items : Table K KeyItem⦄ (codec : Codec)
    (post : Message → Reply) where
  abbrev Balanced : Text → Text → Phase → Cloud P C E A K → Phase × Cloud P C E A K → Type 0
  Balanced id k phase c (phase', c') =
      held id k phase' + posted id c'.posts + spent (get_pack id c.packs)
      ≤ held id k phase + posted id c.posts + spent (get_pack id c'.packs)

  -- A call of a worker raises the count only by as much as it takes the pack out of the pending
  -- state.
  pub advance-Balanced :
      (id k : Text) (phase : Phase) (at : Moment) (c : Cloud P C E A K)
      → WillResolve phase
      → Balanced id k phase c (advance codec post k phase at c)
  unfolding advance
  advance-Balanced id k start at c h = ground arith
  advance-Balanced id k seen at c h = ground (arith, claim_pack-spent id c.packs k at.claim_at)
  advance-Balanced id k holding at c h = omega arith
  advance-Balanced id k (loaded payload) at c h = ground arith
  advance-Balanced id k (ready plain) at c h = ground arith
  advance-Balanced id k (storing fields) at c (s, e, r) =
      omega (arith, update_pack-spent id c.packs k fields s at.resolve_at e r)
  advance-Balanced id k (reporting s m f g) at c h =
      omega (
        arith,
        update_pack-spent id c.packs k (final_fields s m f at.sent_at) s at.resolve_at refl h,
      )
  advance-Balanced id k (logging s g) at c h = ground arith
  advance-Balanced id k (done o) at c h = omega arith

  -- A worker only ever sets out to write a status that resolves.
  pub advance-WillResolve :
      (k : Text) (phase : Phase) (at : Moment) (c : Cloud P C E A K)
      → WillResolve phase
      → WillResolve (advance codec post k phase at c).0
  unfolding advance
  advance-WillResolve k start at c h = after_read-WillResolve (get_pack k c.packs)
  advance-WillResolve k seen at c h = after_claim-WillResolve (claim_pack k at.claim_at c.packs).0
  advance-WillResolve k holding at c h = tt
  advance-WillResolve k (loaded payload) at c h =
      after_key-WillResolve codec payload (usable (get_active_k_temp at.unix c.keys).0)
  advance-WillResolve k (ready plain) at c h =
      after_send-WillResolve plain.group (send_sync post plain).0 (send_sync-resolves post plain)
  advance-WillResolve k (storing fields) at c h = tt
  advance-WillResolve k (reporting s m f g) at c h = tt
  advance-WillResolve k (logging s g) at c h = tt
  advance-WillResolve k (done o) at c h = tt
