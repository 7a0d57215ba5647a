-- ===== src/Cloud/Handshake/Keeps.antt =====
-- What the requests keep, one by one and in any order.
use mail_chad.Base.{
  ◌≡◌, ◌≢◌, refl, sym, ap, ◌∙◌, ◌⊎◌, subst, Bool, true, false, Option, none, some, List, Text,
  text_eq, text_eq→eq, text_eq_refl, is_some, if◌then◌else◌, Bool-cases, Option-cases, inl, inr,
}
use mail_chad.Base.Table.{Table, get_item}
use mail_chad.Cloud.Handshake.{
  Session, Pubkey, State, HandshakeIn, is_role, is_live, or_blank, new_session, new_pubkey,
  to_revoke, get_session_by_bearer, get_pubkey, put_session, put_pubkey, delete_pubkey,
  touch_session, revoke_each, revoke_sessions_for_actor, handshake_revoke, register, init_handshake,
  require_bearer, first_refusal, body_refusal, verify_bootstrap, has_bearer, bearer_of, bad_role,
}
use mail_chad.Cloud.Handshake.Guard.{
  get-write_always, IsLive, IsGuarded, Shrinks-IsGuarded, touch_session-Shrinks,
  revoke_each-Shrinks, revoke_each-pubkeys, IsComplete, revoke-none-IsLive,
}

module _ {Sessions Pubkeys : Type 0} ⦃sessions : Table Sessions Session⦄
    ⦃pubkeys : Table Pubkeys Pubkey⦄ where
  module _ (sha256 : Text → Text) (now bearer role key : Text) (st : State Sessions Pubkeys) where
    -- What stands under a hash after the two writes of a registration, and under a role.
    pub register-session :
        (j : Text)
        → get_item {Item = Session} j (register sha256 now bearer role key st).sessions ≡ (
            if text_eq (sha256 bearer) j
            then some (new_session now (sha256 bearer) role)
            else get_item j st.sessions)
    unfolding put_session put_pubkey
    register-session j =
        get-write_always j (sha256 bearer)
          (λ (_ : Option Session). some (new_session now (sha256 bearer) role)) st.sessions

    pub register-pubkey :
        (j : Text)
        → get_item {Item = Pubkey} j (register sha256 now bearer role key st).pubkeys
          ≡ (if text_eq role j then some (new_pubkey now role key) else get_item j st.pubkeys)
    unfolding put_session put_pubkey
    register-pubkey j =
        get-write_always j role (λ (_ : Option Pubkey). some (new_pubkey now role key)) st.pubkeys

    -- A live session afterwards is the new one, or was alive before.
    register-IsLive :
        (j : Text) (u : Session)
        → IsLive (register sha256 now bearer role key st) j u
        → ((sha256 bearer ≡ j) × (new_session now (sha256 bearer) role ≡ u)) ⊎ IsLive st j u
    register-IsLive j u (there, alive) = elim (Bool-cases (text_eq (sha256 bearer) j)) [
      | inl e ↦
          let written = rw e at (register-session j) in
          inl (text_eq→eq (sha256 bearer) j e, some_eq _ u (sym written ∙ there))
      | inr e ↦ let written = rw e at (register-session j) in inr (sym written ∙ there, alive)
    ]
      where
        some_eq : (a b : Session) → some a ≡ some b → a ≡ b
        some_eq a b q = cc

    register-kept :
        (a : Text)
        → is_some (get_item {Item = Pubkey} a st.pubkeys) ≡ true
        → is_some (get_item {Item = Pubkey} a (register sha256 now bearer role key st).pubkeys)
          ≡ true
    register-kept a h = elim (Bool-cases (text_eq role a)) [
      | inl e ↦ rw (register-pubkey a, e)
      | inr e ↦ rw (register-pubkey a, e) h
    ]

    register-IsGuarded :
        get_item {Item = Pubkey} role st.pubkeys ≡ none
        → IsGuarded st
        → IsGuarded (register sha256 now bearer role key st)
    register-IsGuarded free g = record {
      keyed = λ h u live. elim (register-IsLive h u live) [
        | inl (e, same) ↦ sym (ap (λ (x : Session). x.bearer_hash) same) ∙ e
        | inr old ↦ g.keyed h u old
      ];
      registered = λ h u live. elim (register-IsLive h u live) [
        | inl (e, same) ↦
            subst
              (λ (x : Session).
                is_some (
                  get_item {Item = Pubkey} x.actor (register sha256 now bearer role key st).pubkeys)
                ≡ true)
              same (rw (register-pubkey role, text_eq_refl role))
        | inr old ↦ register-kept u.actor (g.registered h u old)
      ];
      single = λ h j u v p q e. elim (register-IsLive h u p) [
        | inl (a, same) ↦ elim (register-IsLive j v q) [
          | inl (b, same') ↦ sym a ∙ b
          | inr old ↦ absurd (none_old j v old (sym e ∙ sym (ap (λ (x : Session). x.actor) same)))
        ]
        | inr old ↦ elim (register-IsLive j v q) [
          | inl (b, same') ↦
              absurd (none_old h u old (e ∙ sym (ap (λ (x : Session). x.actor) same')))
          | inr old' ↦ g.single h j u v old old' e
        ]
      ];
    }
      where
        none_old : (j : Text) (v : Session) → IsLive st j v → v.actor ≡ role → ⊥
        none_old j v old e =
            let there = g.registered j v old in
            let gone =
              ap (λ a. is_some (get_item {Item = Pubkey} a st.pubkeys)) e ∙ ap is_some free in
            cc

  -- A request is refused by the first check that fails; `asked` are the checks, `done` the rest.
  init_handshake-IsGuarded :
      (expected : Text) (sha256 : Text → Text) (b64decode : Text → Option Text) (now bearer : Text)
      (token : Option Text) (body : HandshakeIn) (st : State Sessions Pubkeys)
      → IsGuarded st
      → IsGuarded (init_handshake expected sha256 b64decode now bearer token body st).1
  unfolding init_handshake
  init_handshake-IsGuarded expected sha256 b64decode now bearer token body st g =
      elim (Option-cases (
        first_refusal (verify_bootstrap expected (or_blank token))
          (body_refusal body.role (b64decode body.kem_pub)))) [
            | inr (r, e) ↦ rw (e, init_handshake) g
            | inl e ↦ elim (Option-cases (get_item {Item = Pubkey} body.role st.pubkeys)) [
              | inr (k, e') ↦ rw (e, init_handshake, get_pubkey, e') g
              | inl e' ↦
                  rw (e, init_handshake, get_pubkey, e')
                    (register-IsGuarded sha256 now bearer body.role
                      (or_blank (b64decode body.kem_pub)) st e' g)
            ]
          ]

  -- Deleting a key leaves the sessions and the keys of other roles.
  pub delete_pubkey-other :
      (role a : Text) (st : State Sessions Pubkeys)
      → a ≢ role
      → get_item {Item = Pubkey} a (delete_pubkey role st).pubkeys ≡ get_item a st.pubkeys
  unfolding delete_pubkey
  delete_pubkey-other role a st n = elim (Bool-cases (text_eq role a)) [
    | inl e ↦ absurd (n (sym (text_eq→eq role a e)))
    | inr e ↦
        let written = get-write_always a role (λ (_ : Option Pubkey). none) st.pubkeys in
        rw e at written
  ]

  delete_pubkey-sessions :
      (role : Text) (st : State Sessions Pubkeys) → (delete_pubkey role st).sessions ≡ st.sessions
  unfolding delete_pubkey
  delete_pubkey-sessions role st = refl

  revoke-IsGuarded :
      (now role : Text) (page : List Session) (st : State Sessions Pubkeys)
      → IsComplete role page st
      → IsGuarded st
      → IsGuarded (revoke_each now (to_revoke role page) (0, delete_pubkey role st)).1
  unfolding delete_pubkey
  revoke-IsGuarded now role page st full g =
      Shrinks-IsGuarded st _
        (revoke_each-Shrinks now (to_revoke role page) 0 (delete_pubkey role st))
        (λ h u live there.
          let apart = λ (e : u.actor ≡ role).
            revoke-none-IsLive now role page 0 (delete_pubkey role st) h u g.keyed full e live in
          subst (λ k. is_some (get_item {Item = Pubkey} u.actor k) ≡ true)
            (sym (revoke_each-pubkeys now (to_revoke role page) 0 (delete_pubkey role st)))
            (rw (delete_pubkey-other role u.actor st apart) there))
        g

  handshake_revoke-IsGuarded :
      (expected now role : Text) (token : Option Text) (page : List Session)
      (st : State Sessions Pubkeys)
      → IsComplete role page st
      → IsGuarded st
      → IsGuarded (handshake_revoke expected now role token page st).1
  unfolding handshake_revoke revoke_sessions_for_actor
  handshake_revoke-IsGuarded expected now role token page st full g =
      elim (Option-cases (
        first_refusal (verify_bootstrap expected (or_blank token))
          (if is_role role then none else some bad_role))) [
            | inr (r, e) ↦ rw (e, handshake_revoke) g
            | inl e ↦ rw (e, handshake_revoke) (revoke-IsGuarded now role page st full g)
          ]

  touch_session-pubkeys :
      (lost : Bool) (now h : Text) (st : State Sessions Pubkeys)
      → (touch_session lost now h st).pubkeys ≡ st.pubkeys
  unfolding touch_session
  touch_session-pubkeys true now h st = refl
  touch_session-pubkeys false now h st = refl

  touch_session-IsGuarded :
      (lost : Bool) (now h : Text) (st : State Sessions Pubkeys)
      → IsGuarded st
      → IsGuarded (touch_session lost now h st)
  touch_session-IsGuarded lost now h st g =
      Shrinks-IsGuarded st (touch_session lost now h st) (touch_session-Shrinks lost now h st)
        (λ j u live there.
          subst (λ k. is_some (get_item {Item = Pubkey} u.actor k) ≡ true)
            (sym (touch_session-pubkeys lost now h st)) there)
        g

  -- The header is refused, or it names a live session.
  pub require_bearer-cases :
      (sha256 : Text → Text) (lost : Bool) (now : Text) (header : Option Text)
      (st : State Sessions Pubkeys)
      → (require_bearer sha256 lost now header st ≡ (none, st))
        ⊎ ((s : Session) × (has_bearer (or_blank header) ≡ true)
            × IsLive st (sha256 (bearer_of (or_blank header))) s
            × (require_bearer sha256 lost now header st
                ≡ (some s.actor, touch_session lost now (sha256 (bearer_of (or_blank header))) st)))
  unfolding require_bearer get_session_by_bearer
  require_bearer-cases sha256 lost now header st =
      let h = sha256 (bearer_of (or_blank header)) in
      elim (Bool-cases (has_bearer (or_blank header))) [
        | inr e ↦ inl (rw (e, require_bearer))
        | inl e ↦ elim (Option-cases (get_item {Item = Session} h st.sessions)) [
          | inl e' ↦ inl (rw (e, require_bearer, e'))
          | inr (s, e') ↦ elim (Bool-cases (is_live s)) [
            | inl live ↦ inr (s, e, (e', live), rw (e, require_bearer, e', live))
            | inr dead ↦ inl (rw (e, require_bearer, e', dead))
          ]
        ]
      ]

  require_bearer-IsGuarded :
      (sha256 : Text → Text) (lost : Bool) (now : Text) (header : Option Text)
      (st : State Sessions Pubkeys)
      → IsGuarded st
      → IsGuarded (require_bearer sha256 lost now header st).1
  require_bearer-IsGuarded sha256 lost now header st g =
      elim (require_bearer-cases sha256 lost now header st) [
        | inl e ↦ rw e g
        | inr (s, _, _, e) ↦
            rw e (touch_session-IsGuarded lost now (sha256 (bearer_of (or_blank header))) st g)
      ]

  module _ (expected : Text) (sha256 : Text → Text) (b64decode : Text → Option Text) where
    -- The requests, in any order. The page of a revocation's scan holds the live sessions of the role.
    pub data Step : State Sessions Pubkeys → State Sessions Pubkeys → Type 0 where
      shake :
          (now bearer : Text) (token : Option Text) (body : HandshakeIn)
          (st : State Sessions Pubkeys)
          → Step st (init_handshake expected sha256 b64decode now bearer token body st).1
      wipe :
          (now role : Text) (token : Option Text) (page : List Session)
          (st : State Sessions Pubkeys)
          → IsComplete role page st
          → Step st (handshake_revoke expected now role token page st).1
      ask :
          (lost : Bool) (now : Text) (header : Option Text) (st : State Sessions Pubkeys)
          → Step st (require_bearer sha256 lost now header st).1

    pub data Reach (st : State Sessions Pubkeys) : State Sessions Pubkeys → Type 0 where
      here : Reach st st
      next : {s t : State Sessions Pubkeys} → Reach st s → Step s t → Reach st t

    Step-IsGuarded : {s t : State Sessions Pubkeys} → Step s t → IsGuarded s → IsGuarded t
    Step-IsGuarded (shake now bearer token body st) g =
        init_handshake-IsGuarded expected sha256 b64decode now bearer token body st g
    Step-IsGuarded (wipe now role token page st full) g =
        handshake_revoke-IsGuarded expected now role token page st full g
    Step-IsGuarded (ask lost now header st) g = require_bearer-IsGuarded sha256 lost now header st g

    -- Handshakes, revocations and checks of a bearer, in any order, keep the sessions guarded: each
    -- session that is not revoked is stored under its hash, its role has a registered key, and no
    -- role has two such sessions. The scan of each revocation must return every live session of its
    -- role.
    pub Reach-IsGuarded : {st t : State Sessions Pubkeys} → IsGuarded st → Reach st t → IsGuarded t
    Reach-IsGuarded g here = g
    Reach-IsGuarded g (next r step) = Step-IsGuarded step (Reach-IsGuarded g r)
