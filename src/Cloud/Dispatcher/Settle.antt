-- ===== src/Cloud/Dispatcher/Settle.antt =====
-- How `_process` leaves the pack that it has worked on.
use mail_chad.Base.{
  ℕ, ◌≡◌, ◌⊎◌, refl, ◌∙◌, Bool, true, false, Option, none, some, Text, text_eq_refl, arith,
  if◌then◌else◌, inl, inr,
}
use mail_chad.Base.Table.{Table}
use mail_chad.Cloud.Pack.{
  Status, pending, claimed, sent, failed, cancelled, stuck_no_key, unknown, is_resolved, is_pending,
  Pack, Fields, claim, get_pack, claim_pack, set_fields, stamp_resolved,
}
use mail_chad.Cloud.Pack.Stored.{get_pack-update_pack, get_pack-claim_pack, claim_pack-reports}
use mail_chad.Cloud.Event.{Event}
use mail_chad.Cloud.KTemp.{KeyItem, get_active_k_temp}
use mail_chad.Cloud.Envelope.{Result, ok, err, Message, Plain, Codec, open_pack}
use mail_chad.Cloud.Dispatcher.{
  Reply, SendResult, result, missing_key, Cloud, Moment, Outcome, skipped, processed,
  outcome_unknown, key_error, send_sync, stuck_fields, undecryptable_fields, final_fields,
  write_pack, log_sent, finalize, record_post, finish, send_plain, with_key, payload_of, usable,
  process_claimed, on_claim, process,
}
use mail_chad.Cloud.Pack.{is_unknown}

-- The pack after a call that did not skip it. A KeyError leaves it claimed; otherwise it is resolved
-- and stamped, and its payload is gone unless no key was there to open it.
abbrev pub Settled : Moment → Outcome → Option Pack → Type 0
Settled at o none = ⊥
Settled at skipped (some p) = ⊥
Settled at key_error (some p) = p.status ≡ claimed
Settled at outcome_unknown (some p) =
    (p.status ≡ unknown) × (p.encrypted_payload ≡ none) × (p.resolved_at ≡ some at.resolve_at)
Settled at (processed group) (some p) =
    (is_resolved p.status ≡ true)
    × (is_unknown p.status ≡ false)
    × ((p.encrypted_payload ≡ none) ⊎ (p.status ≡ stuck_no_key))
    × (p.resolved_at ≡ some at.resolve_at)

abbrev pub resolves_or_raises : SendResult → Bool
resolves_or_raises missing_key = true
resolves_or_raises (result s m f) = is_resolved s

pub send_sync-resolves :
    (post : Message → Reply) (plain : Plain) → resolves_or_raises (send_sync post plain).0 ≡ true
unfolding send_sync
send_sync-resolves post plain = ground arith

Settled-final :
    (at : Moment) (s : Status) (m f : Option Text) (g : ℕ) (q : Pack)
    → is_resolved s ≡ true
    → Settled at
        (if is_unknown s then outcome_unknown else processed g)
        (some (set_fields (stamp_resolved at.resolve_at (final_fields s m f at.sent_at)) q))
unfolding stamp_resolved
Settled-final at pending m f g q r = ground arith
Settled-final at claimed m f g q r = ground arith
Settled-final at sent m f g q r = (refl, refl, inl refl, refl)
Settled-final at failed m f g q r = (refl, refl, inl refl, refl)
Settled-final at stuck_no_key m f g q r = (refl, refl, inl refl, refl)
Settled-final at cancelled m f g q r = (refl, refl, inl refl, refl)
Settled-final at unknown m f g q r = (refl, refl, refl)

Settled-stuck :
    (at : Moment) (g : ℕ) (q : Pack)
    → Settled at (processed g) (some (set_fields (stamp_resolved at.resolve_at stuck_fields) q))
unfolding stamp_resolved
Settled-stuck at g q = (refl, refl, inr refl, refl)

Settled-undecryptable :
    (at : Moment) (g : ℕ) (why : Text) (q : Pack)
    → Settled at
        (processed g)
        (some (set_fields (stamp_resolved at.resolve_at (undecryptable_fields why)) q))
unfolding stamp_resolved
Settled-undecryptable at g why q = (refl, refl, inl refl, refl)

module _ {P C E A K : Type 0} ⦃packs : Table P Pack⦄ ⦃ids : Table C ℕ⦄ ⦃events : Table E Event⦄
    ⦃pointers : Table A Text⦄ ⦃key_items : Table K KeyItem⦄ where
  module _ (id : Text) (at : Moment) where
    stored-write_pack :
        (fields : Fields) (s : Status) (c : Cloud P C E A K) {q : Pack}
        → fields.status ≡ some s
        → get_pack id c.packs ≡ some q
        → get_pack id (write_pack id fields at.resolve_at c).packs
          ≡ some (set_fields (stamp_resolved at.resolve_at fields) q)
    stored-write_pack fields s c e h =
        get_pack-update_pack id fields s at.resolve_at c.packs e ∙ (rw h refl)

    pub packs-log_sent : (s : Status) (c : Cloud P C E A K) → (log_sent s id at c).packs ≡ c.packs
    packs-log_sent s c = ground arith

    pub packs-record_post :
        (request : Option Message) (c : Cloud P C E A K)
        → (record_post id request c).packs ≡ c.packs
    packs-record_post none c = refl
    packs-record_post (some m) c = refl

    Settled-finish :
        (g : ℕ) (r : SendResult) (c : Cloud P C E A K) {q : Pack}
        → resolves_or_raises r ≡ true
        → q.status ≡ claimed
        → get_pack id c.packs ≡ some q
        → Settled at (finish id g at r c).0 (get_pack id (finish id g at r c).1.packs)
    unfolding finalize
    Settled-finish g missing_key c r k h = rw h k
    Settled-finish g (result s m f) c {q} r k h =
        let fields = final_fields s m f at.sent_at in
        rw (packs-log_sent s (write_pack id fields at.resolve_at c))
          (rw (stored-write_pack fields s c refl h) (Settled-final at s m f g q r))

    module _ (codec : Codec) (post : Message → Reply) where
      Settled-send_plain :
          (r : Result Plain) (c : Cloud P C E A K) {q : Pack}
          → q.status ≡ claimed
          → get_pack id c.packs ≡ some q
          → Settled at
              (send_plain codec post id at r c).0
              (get_pack id (send_plain codec post id at r c).1.packs)
      Settled-send_plain (err why) c {q} k h =
          rw (stored-write_pack (undecryptable_fields why) failed c refl h)
            (Settled-undecryptable at 1 why q)
      Settled-send_plain (ok plain) c {q} k h =
          Settled-finish plain.group (send_sync post plain).0
            (record_post id (send_sync post plain).1 c) {q = q} (send_sync-resolves post plain) k
            (rw (packs-record_post (send_sync post plain).1 c) h)

      Settled-with_key :
          (payload key : Option Text) (c : Cloud P C E A K) {q : Pack}
          → q.status ≡ claimed
          → get_pack id c.packs ≡ some q
          → Settled at
              (with_key codec post id at payload key c).0
              (get_pack id (with_key codec post id at payload key c).1.packs)
      Settled-with_key payload none c {q} k h =
          rw (stored-write_pack stuck_fields stuck_no_key c refl h) (Settled-stuck at 1 q)
      Settled-with_key payload (some key) c k h =
          Settled-send_plain (open_pack codec payload key) c k h

      Settled-process_claimed :
          (c : Cloud P C E A K) {q : Pack}
          → q.status ≡ claimed
          → get_pack id c.packs ≡ some q
          → Settled at
              (process_claimed codec post id at c).0
              (get_pack id (process_claimed codec post id at c).1.packs)
      unfolding process_claimed
      Settled-process_claimed c k h =
          Settled-with_key (payload_of (get_pack id c.packs))
            (usable (get_active_k_temp at.unix c.keys).0)
            (record c { keys = (get_active_k_temp at.unix c.keys).1 }) k h

      Settled-on_claim :
          (c : Cloud P C E A K) (won : Bool) {q : Pack}
          → won ≡ true
          → q.status ≡ claimed
          → get_pack id c.packs ≡ some q
          → Settled at
              (on_claim codec post id at won c).0
              (get_pack id (on_claim codec post id at won c).1.packs)
      Settled-on_claim c true e k h = Settled-process_claimed c k h
      Settled-on_claim c false e k h = ground arith

      -- A pack that is stored as pending is never skipped. When the call ends with a KeyError the
      -- pack is left claimed; when it stops the batch the pack is unknown; in every other case it
      -- is resolved and known. A resolved pack carries the time of the write that resolved it, and
      -- its payload is erased, except that it may be kept by a pack that no key could open.
      pub process-Settled :
          (c : Cloud P C E A K) {p : Pack}
          → get_pack id c.packs ≡ some p
          → is_pending p.status ≡ true
          → Settled at
              (process codec post id at c).0
              (get_pack id (process codec post id at c).1.packs)
      unfolding process
      process-Settled c {p} h k =
          rw (h, k)
            (Settled-on_claim (record c { packs = (claim_pack id at.claim_at c.packs).1 })
              (claim_pack id at.claim_at c.packs).0 {q = claim at.claim_at p}
              (claim_pack-reports id at.claim_at c.packs ∙ rw h k) refl
              (get_pack-claim_pack id id at.claim_at c.packs ∙ rw (text_eq_refl id, h, k) refl))
