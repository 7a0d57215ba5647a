-- ===== src/Cloud/Handshake/Answers.antt =====
-- What a handshake opens, and what a revocation shuts.
use mail_chad.Base.{
  ◌≡◌, ◌≢◌, refl, sym, ap, ◌⊎◌, Bool, true, false, Option, none, some, [], ◌∷◌, ◌++◌, Text, str,
  text_eq, text_eq→eq, text_eq_refl, is_some, All, arith, Bool-cases, Option-cases, inl, inr,
  is_blank, strip_clean, starts_with,
}
use mail_chad.Base.Table.{Table, get_item}
use mail_chad.Cloud.Handshake.{
  Session, Pubkey, State, HandshakeIn, Answer, registered, revoked, refused, Refusal, is_role,
  or_blank, new_session, get_session_by_bearer, get_pubkey, register, init_handshake,
  require_bearer, first_refusal, body_refusal, verify_bootstrap,
}
use mail_chad.Cloud.Handshake.Guard.{IsLive}
use mail_chad.Cloud.Handshake.Keeps.{register-pubkey, register-session}

-- The bootstrap token was the right one, and not empty.
verify_bootstrap-right :
    (expected : Text) (token : Option Text)
    → verify_bootstrap expected (or_blank token) ≡ none
    → token ≡ some expected
unfolding verify_bootstrap
verify_bootstrap-right [] token h = ground arith
verify_bootstrap-right (c ∷ e) none h = ground arith
verify_bootstrap-right (c ∷ e) (some []) h = ground arith
verify_bootstrap-right (c ∷ e) (some (d ∷ s)) h =
    ap some (sym (text_eq→eq (c ∷ e) (d ∷ s) (ground arith)))

first_refusal-none : (a b : Option Refusal) → first_refusal a b ≡ none → (a ≡ none) × (b ≡ none)
first_refusal-none none b h = (refl, h)
first_refusal-none (some r) b h = cc

body_refusal-role :
    (role : Text) (key : Option Text) → body_refusal role key ≡ none → is_role role ≡ true
body_refusal-role role key h = ground arith

module _ {Sessions Pubkeys : Type 0} ⦃sessions : Table Sessions Session⦄
    ⦃pubkeys : Table Pubkeys Pubkey⦄ where
  -- A live session is accepted under the header that names its bearer.
  require_bearer-IsLive :
      (sha256 : Text → Text) (lost : Bool) (now bearer : Text) (st : State Sessions Pubkeys)
      (s : Session)
      → All (λ c. is_blank c ≡ false) bearer
      → IsLive st (sha256 bearer) s
      → (require_bearer sha256 lost now (some (str "Bearer " ++ bearer)) st).0 ≡ some s.actor
  unfolding require_bearer get_session_by_bearer starts_with
  require_bearer-IsLive sha256 lost now bearer st s clean live =
      rw (strip_clean is_blank bearer clean, require_bearer, live.0, live.1)

  -- What an answer to a handshake says of the tables before and after it, and of the bearer.
  abbrev pub Answered :
      (expected : Text)
      → (sha256 : Text → Text) → (token : Option Text) → HandshakeIn
      → Answer
      → State Sessions Pubkeys
      → State Sessions Pubkeys
      → Type 0
  Answered expected sha256 token body (refused r) st st' = st' ≡ st
  Answered expected sha256 token body (revoked role) st st' = ⊥
  Answered expected sha256 token body (registered role bearer) st st' =
      (role ≡ body.role)
      × (token ≡ some expected)
      × (is_role role ≡ true)
      × (get_item {Item = Pubkey} role st.pubkeys ≡ none)
      × (is_some (get_item {Item = Pubkey} role st'.pubkeys) ≡ true)
      × ((a : Text) → a ≢ role → get_item {Item = Pubkey} a st'.pubkeys ≡ get_item a st.pubkeys)
      × ((lost : Bool) (later : Text)
          → (require_bearer sha256 lost later (some (str "Bearer " ++ bearer)) st').0 ≡ some role)

  register-Answered :
      (expected : Text) (sha256 : Text → Text) (now bearer : Text) (token : Option Text)
      (body : HandshakeIn) (key : Text) (st : State Sessions Pubkeys)
      → All (λ c. is_blank c ≡ false) bearer
      → token ≡ some expected
      → is_role body.role ≡ true
      → get_item {Item = Pubkey} body.role st.pubkeys ≡ none
      → Answered expected sha256 token body
          (registered body.role bearer)
          st
          (register sha256 now bearer body.role key st)
  register-Answered expected sha256 now bearer token body key st clean right role free = (
    refl,
    right,
    role,
    free,
    rw (register-pubkey sha256 now bearer body.role key st body.role, text_eq_refl body.role),
    λ a n. other a n (Bool-cases (text_eq body.role a)),
    λ lost later.
        require_bearer-IsLive sha256 lost later bearer (register sha256 now bearer body.role key st)
          (new_session now (sha256 bearer) body.role) clean (stored, refl),
  )
    where
      stored :
          get_item {Item = Session}
            (sha256 bearer)
            (register sha256 now bearer body.role key st).sessions
          ≡ some (new_session now (sha256 bearer) body.role)
      stored = rw (
        register-session sha256 now bearer body.role key st (sha256 bearer),
        text_eq_refl (sha256 bearer),
      )

      other :
          (a : Text)
          → a ≢ body.role
          → (text_eq body.role a ≡ true) ⊎ (text_eq body.role a ≡ false)
          → get_item {Item = Pubkey} a (register sha256 now bearer body.role key st).pubkeys
            ≡ get_item a st.pubkeys
      other a n (inl e) = absurd (n (sym (text_eq→eq body.role a e)))
      other a n (inr e) = rw (register-pubkey sha256 now bearer body.role key st a, e)

  -- A handshake that is refused changes nothing. One that is answered was asked for with the bootstrap
  -- token, for one of the two roles, which had no key; afterwards the role has a key, the keys of
  -- other roles are as before, and the issued bearer, which has no white space, is accepted for the
  -- role.
  pub init_handshake-Answered :
      (expected : Text) (sha256 : Text → Text) (b64decode : Text → Option Text) (now bearer : Text)
      (token : Option Text) (body : HandshakeIn) (st : State Sessions Pubkeys)
      → All (λ c. is_blank c ≡ false) bearer
      → let (answer, st') = init_handshake expected sha256 b64decode now bearer token body st in
        Answered expected sha256 token body answer st st'
  unfolding init_handshake
  init_handshake-Answered expected sha256 b64decode now bearer token body st clean =
      elim (Option-cases (
        first_refusal (verify_bootstrap expected (or_blank token))
          (body_refusal body.role (b64decode body.kem_pub)))) [
            | inr (r, e) ↦ rw (e, init_handshake) refl
            | inl e ↦ elim (Option-cases (get_item {Item = Pubkey} body.role st.pubkeys)) [
              | inr (k, e') ↦ rw (e, init_handshake, get_pubkey, e') refl
              | inl e' ↦
                  let (a, b) =
                    first_refusal-none (verify_bootstrap expected (or_blank token))
                      (body_refusal body.role (b64decode body.kem_pub)) e in
                  rw (e, init_handshake, get_pubkey, e')
                    (register-Answered expected sha256 now bearer token body
                      (or_blank (b64decode body.kem_pub)) st clean
                      (verify_bootstrap-right expected token a)
                      (body_refusal-role body.role (b64decode body.kem_pub) b) e')
            ]
          ]
