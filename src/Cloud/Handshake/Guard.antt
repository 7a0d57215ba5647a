-- ===== src/Cloud/Handshake/Guard.antt =====
-- Every live session belongs to a role whose key is registered, and each role has at most one.
use mathlib.Core.Option
use mail_chad.Base.{
  ℕ, ◌+◌, ◌≡◌, refl, sym, ap, ◌∙◌, subst, Bool, true, false, ◌&&◌, Option, none, some, List, [],
  ◌∷◌, Text, text_eq, text_eq→eq, text_eq_refl, is_some, if◌then◌else◌, In, keep-In, Bool-cases,
  Option-cases, inl, inr,
}
use mail_chad.Base.Table.{Table, get_item, write_item, always}
use mail_chad.Cloud.Handshake.{
  Session, Pubkey, State, is_live, touched, closed, to_revoke, touch_session, close_session,
  revoke_each,
}

-- What a table gives after a write without a condition.
pub get-write_always :
    {T A : Type 0} ⦃store : Table T A⦄ (j k : Text) (f : Option A → Option A) (t : T)
    → get_item j (write_item k always f t).1
      ≡ (if text_eq k j then f (get_item k t) else get_item j t)
get-write_always ⦃store⦄ j k f t = elim (Bool-cases (text_eq k j)) [
  | inl e ↦ rw (store.get-write j k always f t, e)
  | inr e ↦ rw (store.get-write j k always f t, e)
]

module _ {Sessions Pubkeys : Type 0} ⦃sessions : Table Sessions Session⦄
    ⦃pubkeys : Table Pubkeys Pubkey⦄ where
  -- The session is stored under the hash, and not revoked.
  abbrev pub IsLive : State Sessions Pubkeys → Text → Session → Type 0
  IsLive st h s = (get_item h st.sessions ≡ some s) × (is_live s ≡ true)

  pub record IsGuarded (st : State Sessions Pubkeys) : Type 0 where
    pub keyed : (h : Text) (s : Session) → IsLive st h s → s.bearer_hash ≡ h
    pub registered :
        (h : Text) (s : Session)
        → IsLive st h s
        → is_some (get_item {Item = Pubkey} s.actor st.pubkeys) ≡ true
    pub single :
        (h j : Text) (s u : Session) → IsLive st h s → IsLive st j u → s.actor ≡ u.actor → h ≡ j

  -- No session comes alive between the two states, and none changes its hash or its actor.
  abbrev pub Shrinks : State Sessions Pubkeys → State Sessions Pubkeys → Type 0
  Shrinks st st' =
      (h : Text) (u : Session)
      → IsLive st' h u
      → (s : Session) × IsLive st h s × (s.actor ≡ u.actor) × (s.bearer_hash ≡ u.bearer_hash)

  Shrinks-trans : (r s t : State Sessions Pubkeys) → Shrinks r s → Shrinks s t → Shrinks r t
  Shrinks-trans r s t a b = λ h u live.
      let (v, live', e, e') = b h u live in
      let (w, live'', g, g') = a h v live' in (w, live'', g ∙ e, g' ∙ e')

  pub Shrinks-IsGuarded :
      (st st' : State Sessions Pubkeys)
      → Shrinks st st'
      → ((h : Text) (u : Session)
          → IsLive st' h u
          → is_some (get_item {Item = Pubkey} u.actor st.pubkeys) ≡ true
          → is_some (get_item {Item = Pubkey} u.actor st'.pubkeys) ≡ true)
      → IsGuarded st
      → IsGuarded st'
  Shrinks-IsGuarded st st' less kept g = record {
    keyed = λ h u live. let (s, live', e, e') = less h u live in sym e' ∙ g.keyed h s live';
    registered = λ h u live.
        let (s, live', e, e') = less h u live in
        kept h u live (
          subst (λ a. is_some (get_item {Item = Pubkey} a st.pubkeys) ≡ true) e
            (g.registered h s live'));
    single = λ h j u v p q e.
        let (s, live, a, a') = less h u p in
        let (t, live', b, b') = less j v q in g.single h j s t live live' (a ∙ e ∙ sym b);
  }

  -- A write that changes one session, and neither its hash nor its actor, nor revives it.
  update-Shrinks :
      (f : Session → Session) (k : Text) (st : State Sessions Pubkeys)
      → ((s : Session)
          → is_live (f s) ≡ true
          → (is_live s ≡ true) × ((f s).actor ≡ s.actor) × ((f s).bearer_hash ≡ s.bearer_hash))
      → Shrinks st (record st { sessions = (write_item k always (Option.map f) st.sessions).1 })
  update-Shrinks f k st keeps h u live = elim (Bool-cases (text_eq k h)) [
    | inr e ↦
        let there : get_item {Item = Session} h st.sessions ≡ some u =
          sym (rw e at written) ∙ live.0 in
        (u, (there, live.1), refl, refl)
    | inl e ↦ elim (Option-cases (get_item {Item = Session} k st.sessions)) [
      | inl empty ↦ absurd (apart (sym (rw (e, empty) at written) ∙ live.0))
      | inr (s, stored) ↦
          let same : f s ≡ u = some_eq (f s) u (sym (rw (e, stored) at written) ∙ live.0) in
          let (a, b, c) = keeps s (subst (λ x. is_live x ≡ true) (sym same) live.1) in
          (
            s,
            (
              subst (λ x. get_item {Item = Session} x st.sessions ≡ some s) (text_eq→eq k h e)
                  stored,
              a,
            ),
            sym b ∙ ap (λ (x : Session). x.actor) same,
            sym c ∙ ap (λ (x : Session). x.bearer_hash) same,
          )
    ]
  ]
    where
      written :
          get_item {Item = Session} h (write_item k always (Option.map f) st.sessions).1
          ≡ (if text_eq k h then Option.map f (get_item k st.sessions) else get_item h st.sessions)
      written = get-write_always h k (Option.map f) st.sessions

      apart : none ≡ some u → ⊥
      apart q = cc

      some_eq : (a b : Session) → some a ≡ some b → a ≡ b
      some_eq a b q = cc

  pub touch_session-Shrinks :
      (lost : Bool) (now h : Text) (st : State Sessions Pubkeys)
      → Shrinks st (touch_session lost now h st)
  unfolding touch_session
  touch_session-Shrinks true now h st = λ j u live. (u, live, refl, refl)
  touch_session-Shrinks false now h st =
      update-Shrinks (touched now) h st (λ s live. (live, refl, refl))

  close-Shrinks : (now h : Text) (st : State Sessions Pubkeys) → Shrinks st (close_session now h st)
  close-Shrinks now h st = update-Shrinks (closed now) h st (λ s live. absurd (apart live))
    where
      apart : false ≡ true → ⊥
      apart q = cc

  pub revoke_each-Shrinks :
      (now : Text) (ps : List Session) (n : ℕ) (st : State Sessions Pubkeys)
      → Shrinks st (revoke_each now ps (n, st)).1
  unfolding revoke_each
  revoke_each-Shrinks now [] n st = λ j u live. (u, live, refl, refl)
  revoke_each-Shrinks now (p ∷ ps) n st =
      let st' = close_session now p.bearer_hash st in
      Shrinks-trans st st' (revoke_each now ps (n + 1, st')).1 (close-Shrinks now p.bearer_hash st)
        (revoke_each-Shrinks now ps (n + 1) st')

  pub revoke_each-pubkeys :
      (now : Text) (ps : List Session) (n : ℕ) (st : State Sessions Pubkeys)
      → (revoke_each now ps (n, st)).1.pubkeys ≡ st.pubkeys
  unfolding revoke_each
  revoke_each-pubkeys now [] n st = refl
  revoke_each-pubkeys now (p ∷ ps) n st =
      revoke_each-pubkeys now ps (n + 1) (close_session now p.bearer_hash st)

  -- Closing a session leaves nothing alive under its hash.
  close-not-IsLive :
      (now h : Text) (st : State Sessions Pubkeys) (u : Session)
      → ¬ IsLive (close_session now h st) h u
  close-not-IsLive now h st u live = elim (Option-cases (get_item {Item = Session} h st.sessions)) [
    | inl empty ↦ absurd (apart (sym (rw (text_eq_refl h, empty) at written) ∙ live.0))
    | inr (s, stored) ↦ dead s (sym (rw (text_eq_refl h, stored) at written) ∙ live.0)
  ]
    where
      written :
          get_item {Item = Session} h (write_item h always (Option.map (closed now)) st.sessions).1
          ≡ (if text_eq h h
              then Option.map (closed now) (get_item h st.sessions)
              else get_item h st.sessions)
      written = get-write_always h h (Option.map (closed now)) st.sessions

      apart : none ≡ some u → ⊥
      apart q = cc

      dead : (s : Session) → some (closed now s) ≡ some u → ⊥
      dead s q =
          let q' : closed now s ≡ u = cc in cc (subst (λ x. is_live x ≡ true) (sym q') live.1)

  revoke_each-not-IsLive :
      (now : Text) (ps : List Session) (n : ℕ) (st : State Sessions Pubkeys) (p u : Session)
      → In p ps
      → ¬ IsLive (revoke_each now ps (n, st)).1 p.bearer_hash u
  unfolding revoke_each
  revoke_each-not-IsLive now [] n st p u m live = absurd m
  revoke_each-not-IsLive now (q ∷ ps) n st p u (inl e) live =
      let st' = close_session now q.bearer_hash st in
      let (s, live', _, _) = revoke_each-Shrinks now ps (n + 1) st' p.bearer_hash u live in
      close-not-IsLive now p.bearer_hash st s (
        subst (λ (x : Session). IsLive (close_session now x.bearer_hash st) p.bearer_hash s) e
          live')
  revoke_each-not-IsLive now (q ∷ ps) n st p u (inr m) live =
      revoke_each-not-IsLive now ps (n + 1) (close_session now q.bearer_hash st) p u m live

  -- The scan's page holds every live session of the role, as it is stored.
  abbrev pub IsComplete : Text → List Session → State Sessions Pubkeys → Type 0
  IsComplete role page st = (h : Text) (s : Session) → IsLive st h s → s.actor ≡ role → In s page

  -- After the revocation nothing of the role is alive.
  pub revoke-none-IsLive :
      (now role : Text) (page : List Session) (n : ℕ) (st : State Sessions Pubkeys) (h : Text)
      (u : Session)
      → ((j : Text) (s : Session) → IsLive st j s → s.bearer_hash ≡ j)
      → IsComplete role page st
      → u.actor ≡ role
      → ¬ IsLive (revoke_each now (to_revoke role page) (n, st)).1 h u
  revoke-none-IsLive now role page n st h u keyed full same live =
      let (s, live', e, _) = revoke_each-Shrinks now (to_revoke role page) n st h u live in
      let listed =
        keep-In (λ x. text_eq x.actor role && is_live x) s page (full h s live' (e ∙ same))
          (passes s (e ∙ same) live'.1) in
      revoke_each-not-IsLive now (to_revoke role page) n st s u listed (
        subst (λ k. IsLive (revoke_each now (to_revoke role page) (n, st)).1 k u)
          (sym (keyed h s live')) live)
    where
      passes :
          (s : Session)
          → s.actor ≡ role
          → is_live s ≡ true
          → (text_eq s.actor role && is_live s) ≡ true
      passes s a b = rw (a, text_eq_refl role, b)
