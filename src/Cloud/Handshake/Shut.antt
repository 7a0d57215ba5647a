-- ===== src/Cloud/Handshake/Shut.antt =====
-- What a revocation shuts, and what it leaves open.
use mathlib.Core.Option
use mail_chad.Base.{
  ℕ, ◌+◌, ◌≡◌, ◌≢◌, refl, sym, ap, ◌∙◌, subst, Bool, true, Option, none, some, List, [], ◌∷◌, Text,
  text_eq, text_eq→eq, text_eq_refl, In, In-keep, Bool-cases, inl, inr, ◌&&◌, and_left,
}
use mail_chad.Base.Table.{Table, get_item}
use mail_chad.Cloud.Handshake.{
  Session, Pubkey, State, revoked, is_role, is_live, or_blank, to_revoke, get_session_by_bearer,
  delete_pubkey, close_session, closed, revoke_each, revoke_sessions_for_actor, handshake_revoke,
  require_bearer, verify_bootstrap, has_bearer, bearer_of,
}
use mail_chad.Cloud.Handshake.Guard.{
  get-write_always, IsLive, IsGuarded, revoke_each-pubkeys, IsComplete, revoke-none-IsLive,
}
use mail_chad.Cloud.Handshake.Keeps.{delete_pubkey-other, require_bearer-cases}

module _ {Sessions Pubkeys : Type 0} ⦃sessions : Table Sessions Session⦄
    ⦃pubkeys : Table Pubkeys Pubkey⦄ where
  -- The scan's page shows items as they are stored.
  abbrev pub IsStored : List Session → State Sessions Pubkeys → Type 0
  IsStored page st =
      (s : Session) → In s page → get_item {Item = Session} s.bearer_hash st.sessions ≡ some s

  close_session-other :
      (now h j : Text) (st : State Sessions Pubkeys)
      → h ≢ j
      → get_item {Item = Session} j (close_session now h st).sessions ≡ get_item j st.sessions
  close_session-other now h j st n = elim (Bool-cases (text_eq h j)) [
    | inl e ↦ absurd (n (text_eq→eq h j e))
    | inr e ↦
        let written = get-write_always j h (Option.map (closed now)) st.sessions in rw e at written
  ]

  revoke_each-other :
      (now j : Text) (ps : List Session) (n : ℕ) (st : State Sessions Pubkeys)
      → ((p : Session) → In p ps → p.bearer_hash ≢ j)
      → get_item {Item = Session} j (revoke_each now ps (n, st)).1.sessions ≡ get_item j st.sessions
  unfolding revoke_each
  revoke_each-other now j [] n st apart = refl
  revoke_each-other now j (p ∷ ps) n st apart =
      revoke_each-other now j ps (n + 1) (close_session now p.bearer_hash st)
        (λ q m. apart q (inr m))
      ∙ close_session-other now p.bearer_hash j st (apart p (inl refl))

  -- A session of another role is not on the list of those to revoke.
  to_revoke-apart :
      (role j : Text) (page : List Session) (st : State Sessions Pubkeys) (s : Session)
      → IsStored page st
      → get_item {Item = Session} j st.sessions ≡ some s
      → s.actor ≢ role
      → (p : Session) → In p (to_revoke role page)
      → p.bearer_hash ≢ j
  to_revoke-apart role j page st s stored there other p m same =
      let (listed, passes) = In-keep (λ x. text_eq x.actor role && is_live x) p page m in
      let here =
        subst (λ k. get_item {Item = Session} k st.sessions ≡ some p) same (stored p listed) in
      let equal = some_eq p s (sym here ∙ there) in
      other (
        sym (ap (λ (x : Session). x.actor) equal)
        ∙ text_eq→eq p.actor role (and_left (text_eq p.actor role) (is_live p) passes))
    where
      some_eq : (a b : Session) → some a ≡ some b → a ≡ b
      some_eq a b q = cc

  require_bearer-found :
      (sha256 : Text → Text) (lost : Bool) (now : Text) (header : Option Text)
      (st : State Sessions Pubkeys) (a : Text)
      → (require_bearer sha256 lost now header st).0 ≡ some a
      → (s : Session) × (has_bearer (or_blank header) ≡ true)
        × IsLive st (sha256 (bearer_of (or_blank header))) s
        × (s.actor ≡ a)
  require_bearer-found sha256 lost now header st a h =
      elim (require_bearer-cases sha256 lost now header st) [
        | inl e ↦
            absurd (apart (sym (ap (λ (r : Option Text × State Sessions Pubkeys). r.0) e) ∙ h))
        | inr (s, named, live, e) ↦ (
          s,
          named,
          live,
          some_eq s.actor (sym (ap (λ (r : Option Text × State Sessions Pubkeys). r.0) e) ∙ h),
        )
      ]
    where
      apart : none ≡ some a → ⊥
      apart q = cc

      some_eq : (b : Text) → some b ≡ some a → b ≡ a
      some_eq b q = cc

  require_bearer-accepts :
      (sha256 : Text → Text) (lost : Bool) (now : Text) (header : Option Text)
      (st : State Sessions Pubkeys) (s : Session)
      → has_bearer (or_blank header) ≡ true
      → IsLive st (sha256 (bearer_of (or_blank header))) s
      → (require_bearer sha256 lost now header st).0 ≡ some s.actor
  unfolding require_bearer get_session_by_bearer
  require_bearer-accepts sha256 lost now header st s named live =
      rw (named, require_bearer, live.0, live.1)

  module _ (expected : Text) (sha256 : Text → Text) (now role : Text) (token : Option Text)
      (page : List Session) (st : State Sessions Pubkeys) where
    -- A revocation with the bootstrap token, whose scan returns stored items, among them every live
    -- session of the role, deletes the role's key and shuts out its bearers: no header is accepted for
    -- the role. The keys of other roles stay, and whoever was accepted for another role still is.
    pub handshake_revoke-shuts :
        verify_bootstrap expected (or_blank token) ≡ none
        → is_role role ≡ true
        → IsGuarded st
        → IsStored page st
        → IsComplete role page st
        → let (answer, st') = handshake_revoke expected now role token page st in
          (answer ≡ revoked role)
          × (get_item {Item = Pubkey} role st'.pubkeys ≡ none)
          × ((lost : Bool) (later : Text) (header : Option Text)
              → (require_bearer sha256 lost later header st').0 ≢ some role)
          × ((a : Text)
              → a ≢ role
              → (get_item {Item = Pubkey} a st'.pubkeys ≡ get_item a st.pubkeys)
                × ((lost : Bool) (later : Text) (header : Option Text)
                    → (require_bearer sha256 lost later header st).0 ≡ some a
                    → (require_bearer sha256 lost later header st').0 ≡ some a))
    unfolding handshake_revoke revoke_sessions_for_actor
    handshake_revoke-shuts right named g stored full =
        rw (right, handshake_revoke, named)
          (
            refl,
            keys role ∙ gone,
            λ lost later header h.
                let (s, _, live, e) = require_bearer-found sha256 lost later header after role h in
                revoke-none-IsLive now role page 0 without _ s g.keyed full e live,
            λ a n. (
              keys a ∙ delete_pubkey-other role a st n,
              λ lost later header h.
                  let (s, there, live, e) = require_bearer-found sha256 lost later header st a h in
                  require_bearer-accepts sha256 lost later header after s there
                    (kept (sha256 (bearer_of (or_blank header))) s live (λ q. n (sym e ∙ q)))
                  ∙ ap some e,
            ),
          )
      where
        without : State Sessions Pubkeys
        without = delete_pubkey role st

        after : State Sessions Pubkeys
        after = (revoke_each now (to_revoke role page) (0, without)).1

        keys : (a : Text) → get_item {Item = Pubkey} a after.pubkeys ≡ get_item a without.pubkeys
        keys a =
            ap (λ k. get_item {Item = Pubkey} a k)
              (revoke_each-pubkeys now (to_revoke role page) 0 without)

        gone : get_item {Item = Pubkey} role without.pubkeys ≡ none
        gone =
            let written = get-write_always role role (λ (_ : Option Pubkey). none) st.pubkeys in
            rw (text_eq_refl role) at written

        kept : (h : Text) (s : Session) → IsLive st h s → s.actor ≢ role → IsLive after h s
        kept h s live n = (
          revoke_each-other now h (to_revoke role page) 0 without
                (to_revoke-apart role h page st s stored live.0 n)
              ∙ live.0,
          live.1,
        )
