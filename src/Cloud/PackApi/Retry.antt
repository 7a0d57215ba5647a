-- ===== src/Cloud/PackApi/Retry.antt =====
-- Pushing packs: the counts add up, every pack is then stored, and a second push of the same packs
-- changes nothing.
use mail_chad.Base.{
  ◌+◌, ◌≡◌, refl, sym, subst, Bool, true, Option, none, some, List, [], ◌∷◌, ◌++◌, Text, ◌∙◌,
  length, length-append, arith, Option-cases, inl, inr, is_some, All,
}
use mail_chad.Base.Table.{Table}
use mail_chad.Cloud.Pack.{Pack, get_pack, put_pack}
use mail_chad.Cloud.Pack.Stored.{put_pack-stores, put_pack-keeps, put_pack-taken}
use mail_chad.Cloud.PackApi.{
  PackIn, Push, Held, held_row, Clock, finished, bad_base64, push_decoded, push_all, packs_push,
  decoded, begin_push,
}

length-snoc : (xs : List Held) (x : Held) → length (xs ++ (x ∷ [])) ≡ length xs + 1
length-snoc xs x = length-append xs (x ∷ [])

module _ {P : Type 0} ⦃packs : Table P Pack⦄ (takes : Text → Bool) where
  -- One pack adds one to the accepted or to the held ones, and an accepted pack is enqueued or
  -- deferred.
  record Counts (s s' : Push P) : Type 0 where
    one_more : s'.accepted + length s'.held ≡ s.accepted + length s.held + 1
    split : s'.enqueued + s'.deferred + s.accepted ≡ s.enqueued + s.deferred + s'.accepted

  push_decoded-Counts :
      (actor : Text) (clock : Clock) (p : PackIn) (payload : Text) (s : Push P)
      → Counts s (push_decoded takes actor clock p payload s)
  unfolding push_decoded
  push_decoded-Counts actor clock p payload s =
      elim (Option-cases
        (get_pack p.pack_id (put_pack (decoded p payload) actor clock.store s.packs).1)) [
          | inl e ↦ ground (arith, e, put_pack-stores (decoded p payload) actor clock.store s.packs)
          | inr (cur, e) ↦ ground (arith, length-snoc s.held (held_row cur), e)
        ]

  -- After one pack: its id is stored, and what was stored stays.
  push_decoded-stores :
      (actor : Text) (clock : Clock) (p : PackIn) (payload : Text) (s : Push P)
      → is_some (get_pack p.pack_id (push_decoded takes actor clock p payload s).packs) ≡ true
  unfolding push_decoded
  push_decoded-stores actor clock p payload s =
      ground (arith, put_pack-stores (decoded p payload) actor clock.store s.packs)

  push_decoded-keeps :
      (actor : Text) (clock : Clock) (p : PackIn) (payload : Text) (s : Push P) (j : Text)
      → is_some (get_pack j s.packs) ≡ true
      → is_some (get_pack j (push_decoded takes actor clock p payload s).packs) ≡ true
  unfolding push_decoded
  push_decoded-keeps actor clock p payload s j h =
      ground (arith, put_pack-keeps (decoded p payload) actor clock.store s.packs j h)

  -- Nothing but the list of held packs may differ.
  record SameStore (s s' : Push P) : Type 0 where
    same_accepted : s'.accepted ≡ s.accepted
    same_queue : s'.queue ≡ s.queue
    same_packs : (j : Text) → get_pack j s'.packs ≡ get_pack j s.packs

  SameStore-trans : (s s' s'' : Push P) → SameStore s s' → SameStore s' s'' → SameStore s s''
  SameStore-trans s s' s'' f g = record {
    same_accepted = g.same_accepted ∙ f.same_accepted;
    same_queue = g.same_queue ∙ f.same_queue;
    same_packs = λ j. g.same_packs j ∙ f.same_packs j;
  }

  push_decoded-SameStore :
      (actor : Text) (clock : Clock) (p : PackIn) (payload : Text) (s : Push P)
      → is_some (get_pack p.pack_id s.packs) ≡ true
      → SameStore s (push_decoded takes actor clock p payload s)
  unfolding push_decoded
  push_decoded-SameStore actor clock p payload s h =
      let (failed, same) = put_pack-taken (decoded p payload) actor clock.store s.packs h in
      rw failed (record { same_accepted = refl; same_queue = refl; same_packs = same })

  module _ (b64decode : Text → Option Text) where
    push_all-cons :
        (actor : Text) (clock : Clock) (p : PackIn) (ps : List PackIn) (s : Push P) (payload : Text)
        → b64decode p.encrypted_blob ≡ some payload
        → push_all takes b64decode actor clock (p ∷ ps) s
          ≡ push_all takes b64decode actor clock ps (push_decoded takes actor clock p payload s)
    unfolding push_all
    push_all-cons actor clock p ps s payload e = rw (e, push_all)

    push_all-bad :
        (actor : Text) (clock : Clock) (p : PackIn) (ps : List PackIn) (s : Push P)
        → b64decode p.encrypted_blob ≡ none
        → push_all takes b64decode actor clock (p ∷ ps) s ≡ (bad_base64, s)
    unfolding push_all
    push_all-bad actor clock p ps s e = rw (e, push_all)

    push_all-Counts :
        (actor : Text) (clock : Clock) (ps : List PackIn) (s : Push P)
        → (push_all takes b64decode actor clock ps s).0 ≡ finished
        → let s' = (push_all takes b64decode actor clock ps s).1 in
          (s'.accepted + length s'.held ≡ s.accepted + length s.held + length ps)
          × (s'.enqueued + s'.deferred + s.accepted ≡ s.enqueued + s.deferred + s'.accepted)
    push_all-Counts actor clock [] s h = unfold push_all in omega arith
    push_all-Counts actor clock (p ∷ ps) s h = elim (Option-cases (b64decode p.encrypted_blob)) [
      | inl e ↦ ground (arith, push_all-bad actor clock p ps s e)
      | inr (payload, e) ↦
          let go = push_all-cons actor clock p ps s payload e in
          let s' = push_decoded takes actor clock p payload s in
          let step = push_decoded-Counts actor clock p payload s in
          let rest = push_all-Counts actor clock ps s' (rw go at h) in
          rw go (omega (arith, step.one_more, step.split, rest.0, rest.1))
    ]

    push_all-keeps :
        (actor : Text) (clock : Clock) (ps : List PackIn) (s : Push P) (j : Text)
        → is_some (get_pack j s.packs) ≡ true
        → is_some (get_pack j (push_all takes b64decode actor clock ps s).1.packs) ≡ true
    push_all-keeps actor clock [] s j h = unfold push_all in h
    push_all-keeps actor clock (p ∷ ps) s j h = elim (Option-cases (b64decode p.encrypted_blob)) [
      | inl e ↦ rw (push_all-bad actor clock p ps s e) h
      | inr (payload, e) ↦ rw (push_all-cons actor clock p ps s payload e) (
          push_all-keeps actor clock ps (push_decoded takes actor clock p payload s) j
            (push_decoded-keeps actor clock p payload s j h))
    ]

    abbrev StoredIn : P → List PackIn → Type 0
    StoredIn t = All (λ p. is_some (get_pack p.pack_id t) ≡ true)

    push_all-StoredIn :
        (actor : Text) (clock : Clock) (ps : List PackIn) (s : Push P)
        → (push_all takes b64decode actor clock ps s).0 ≡ finished
        → StoredIn (push_all takes b64decode actor clock ps s).1.packs ps
    push_all-StoredIn actor clock [] s h = tt
    push_all-StoredIn actor clock (p ∷ ps) s h = elim (Option-cases (b64decode p.encrypted_blob)) [
      | inl e ↦ ground (arith, push_all-bad actor clock p ps s e)
      | inr (payload, e) ↦
          let go = push_all-cons actor clock p ps s payload e in
          let s' = push_decoded takes actor clock p payload s in
          subst (λ r. StoredIn r.1.packs (p ∷ ps)) (sym go)
            (
              push_all-keeps actor clock ps s' p.pack_id
                  (push_decoded-stores actor clock p payload s),
              push_all-StoredIn actor clock ps s' (rw go at h),
            )
    ]

    StoredIn-SameStore :
        (ps : List PackIn) (s s' : Push P)
        → SameStore s s'
        → StoredIn s.packs ps
        → StoredIn s'.packs ps
    StoredIn-SameStore [] s s' same h = tt
    StoredIn-SameStore (p ∷ ps) s s' same h =
        (rw (same.same_packs p.pack_id) h.0, StoredIn-SameStore ps s s' same h.1)

    push_all-SameStore :
        (actor : Text) (clock : Clock) (ps : List PackIn) (s : Push P)
        → StoredIn s.packs ps
        → SameStore s (push_all takes b64decode actor clock ps s).1
    push_all-SameStore actor clock [] s h =
        unfold push_all in
        record { same_accepted = refl; same_queue = refl; same_packs = λ j. refl }
    push_all-SameStore actor clock (p ∷ ps) s h = elim (Option-cases (b64decode p.encrypted_blob)) [
      | inl e ↦
          rw (push_all-bad actor clock p ps s e)
            (record { same_accepted = refl; same_queue = refl; same_packs = λ j. refl })
      | inr (payload, e) ↦
          let s' = push_decoded takes actor clock p payload s in
          let same = push_decoded-SameStore actor clock p payload s h.0 in
          rw (push_all-cons actor clock p ps s payload e) (
            SameStore-trans s s' _ same
              (push_all-SameStore actor clock ps s' (StoredIn-SameStore ps s s' same h.1)))
    ]

    -- The answer to a push that ends accounts for every pack: it is accepted or held, and an
    -- accepted one is enqueued or deferred.
    pub packs_push-counts :
        (actor : Text) (clock : Clock) (ps : List PackIn) (t : P) (queue : List Text)
        → (packs_push takes b64decode actor clock ps t queue).0 ≡ finished
        → let s = (packs_push takes b64decode actor clock ps t queue).1 in
          (s.accepted + length s.held ≡ length ps) × (s.enqueued + s.deferred ≡ s.accepted)
    unfolding packs_push
    packs_push-counts actor clock ps t queue h =
        let c = push_all-Counts actor clock ps (begin_push t queue) h in omega (arith, c.0, c.1)

    -- A terminal may retry a push that has ended: pushing the same packs again, later and by whatever
    -- actor, accepts none of them, puts nothing on the queue and leaves every stored pack as it was.
    pub packs_push-retry :
        (actor actor' : Text) (clock clock' : Clock) (ps : List PackIn) (t : P) (queue : List Text)
        → (packs_push takes b64decode actor clock ps t queue).0 ≡ finished
        → let s = (packs_push takes b64decode actor clock ps t queue).1 in
          let s' = (packs_push takes b64decode actor' clock' ps s.packs s.queue).1 in
          (s'.accepted ≡ 0)
          × (s'.queue ≡ s.queue)
          × ((j : Text) → get_pack j s'.packs ≡ get_pack j s.packs)
    unfolding packs_push
    packs_push-retry actor actor' clock clock' ps t queue h =
        let s = (push_all takes b64decode actor clock ps (begin_push t queue)).1 in
        let same =
          push_all-SameStore actor' clock' ps (begin_push s.packs s.queue)
            (push_all-StoredIn actor clock ps (begin_push t queue) h) in
        (same.same_accepted, same.same_queue, same.same_packs)
