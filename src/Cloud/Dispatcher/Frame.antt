-- ===== src/Cloud/Dispatcher/Frame.antt =====
-- `_process` on one pack writes to no other pack.
use mathlib.Core.Option
use mail_chad.Base.{
  ℕ, ◌≡◌, refl, ◌∙◌, Bool, true, false, Option, none, some, Text, text_eq, arith, Bool-cases, inl,
  inr,
}
use mail_chad.Base.Table.{Table, always}
use mail_chad.Cloud.Pack.{
  Pack, Fields, get_pack, claim_pack, update_pack, set_fields, stamp_resolved, is_pending,
}
use mail_chad.Cloud.Pack.Stored.{get_pack-claim_pack}
use mail_chad.Cloud.Event.{Event}
use mail_chad.Cloud.KTemp.{KeyItem, get_active_k_temp}
use mail_chad.Cloud.Envelope.{Result, ok, err, Message, Plain, Codec, open_pack}
use mail_chad.Cloud.Dispatcher.{
  Reply, SendResult, result, missing_key, Cloud, Moment, stuck_fields, undecryptable_fields,
  final_fields, send_sync, write_pack, finalize, record_post, finish, send_plain, with_key,
  payload_of, usable, process_claimed, on_claim, try_claim, on_read, process,
}
use mail_chad.Cloud.Dispatcher.Settle.{packs-log_sent, packs-record_post}

module _ {P C E A K : Type 0} ⦃packs : Table P Pack⦄ ⦃ids : Table C ℕ⦄ ⦃events : Table E Event⦄
    ⦃pointers : Table A Text⦄ ⦃key_items : Table K KeyItem⦄ where
  module _ (id j : Text) (other : text_eq id j ≡ false) (at : Moment) where
    same-write_pack :
        (fields : Fields) (c : Cloud P C E A K)
        → get_pack j (write_pack id fields at.resolve_at c).packs ≡ get_pack j c.packs
    unfolding update_pack get_pack
    same-write_pack fields c =
        let f = stamp_resolved at.resolve_at fields in
        ground (arith, packs.get-write j id always (Option.map (set_fields f)) c.packs)

    same-finish :
        (g : ℕ) (r : SendResult) (c : Cloud P C E A K)
        → get_pack j (finish id g at r c).1.packs ≡ get_pack j c.packs
    unfolding finalize
    same-finish g missing_key c = refl
    same-finish g (result s m f) c =
        let fields = final_fields s m f at.sent_at in
        rw (packs-log_sent id at s (write_pack id fields at.resolve_at c))
          (same-write_pack fields c)

    module _ (codec : Codec) (post : Message → Reply) where
      same-send_plain :
          (r : Result Plain) (c : Cloud P C E A K)
          → get_pack j (send_plain codec post id at r c).1.packs ≡ get_pack j c.packs
      same-send_plain (err why) c = same-write_pack (undecryptable_fields why) c
      same-send_plain (ok plain) c =
          same-finish plain.group (send_sync post plain).0
            (record_post id (send_sync post plain).1 c)
          ∙ rw (packs-record_post id at (send_sync post plain).1 c) refl

      same-with_key :
          (payload key : Option Text) (c : Cloud P C E A K)
          → get_pack j (with_key codec post id at payload key c).1.packs ≡ get_pack j c.packs
      same-with_key payload none c = same-write_pack stuck_fields c
      same-with_key payload (some key) c = same-send_plain (open_pack codec payload key) c

      same-on_claim :
          (won : Bool) (c : Cloud P C E A K)
          → get_pack j (on_claim codec post id at won c).1.packs ≡ get_pack j c.packs
      unfolding process_claimed
      same-on_claim true c =
          same-with_key (payload_of (get_pack id c.packs))
            (usable (get_active_k_temp at.unix c.keys).0)
            (record c { keys = (get_active_k_temp at.unix c.keys).1 })
      same-on_claim false c = refl

      same-try_claim :
          (c : Cloud P C E A K)
          → get_pack j (try_claim codec post id at c).1.packs ≡ get_pack j c.packs
      same-try_claim c =
          same-on_claim (claim_pack id at.claim_at c.packs).0
            (record c { packs = (claim_pack id at.claim_at c.packs).1 })
          ∙ get_pack-claim_pack j id at.claim_at c.packs
          ∙ rw other refl

      same-on_read :
          (o : Option Pack) (c : Cloud P C E A K)
          → get_pack j (on_read codec post id at o c).1.packs ≡ get_pack j c.packs
      same-on_read none c = refl
      same-on_read (some p) c = elim (Bool-cases (is_pending p.status)) [
        | inl e ↦ rw e (same-try_claim c)
        | inr e ↦ rw e refl
      ]

      pub get_pack-process :
          (c : Cloud P C E A K)
          → get_pack j (process codec post id at c).1.packs ≡ get_pack j c.packs
      unfolding process
      get_pack-process c = same-on_read (get_pack id c.packs) c
