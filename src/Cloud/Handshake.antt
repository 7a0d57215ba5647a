-- ===== src/Cloud/Handshake.antt =====
-- mailman/cloud/handshake.py, `require_bearer` of mailman/cloud/sync.py, and the sections
-- terminal_session and pubkey of mailman/cloud/dynamo.py. SHA-256, base64, the bootstrap token of
-- the environment and the bearer that `secrets` draws are parameters. Sessions are never deleted.

pub mod Guard
pub mod Keeps
pub mod Answers
pub mod Shut
mod Tests
use mathlib.Core.Option
use mail_chad.Base.{
  ℕ, suc, ◌+◌, Bool, true, false, not, ◌&&◌, ◌||◌, Option, none, some, List, [], ◌∷◌, Text, str,
  text_eq, is_empty, is_some, if◌then◌else◌, ltb, ◌==◌, length, keep, strip, starts_with, drop,
  is_blank, lstrip, rstrip,
}
use mail_chad.Base.Table.{Table, get_item, write_item, always}

-- An item of terminal_session.
pub record Session : Type 0 where
  pub bearer_hash : Text
  pub actor : Text
  pub created_at : Text
  pub last_seen_at : Option Text
  pub revoked_at : Option Text

pub record Pubkey : Type 0 where
  pub actor : Text
  pub kem_pub : Text
  pub registered_at : Text

pub record State (Sessions Pubkeys : Type 0) : Type 0 where
  pub sessions : Sessions
  pub pubkeys : Pubkeys

-- `HandshakeIn`
pub record HandshakeIn : Type 0 where
  pub role : Text
  pub kem_pub : Text

-- What the caller gets; `not_ascii` is the TypeError of `hmac.compare_digest`.
pub data Refusal : Type 0 where
  not_ascii bad_token bad_role bad_base64 bad_length registered_before : Refusal

pub data Answer : Type 0 where
  registered : (role bearer : Text) → Answer
  revoked : (role : Text) → Answer
  refused : Refusal → Answer

abbrev pub is_role : Text → Bool
is_role role = text_eq role (str "operator") || text_eq role (str "client")

abbrev pub or_blank : Option Text → Text
or_blank none = []
or_blank (some t) = t

unfoldable pub is_ascii : Text → Bool
is_ascii [] = true
is_ascii (c ∷ s) = ltb c 128 && is_ascii s

-- `_verify_bootstrap`, for a token that is set or empty.
unfoldable pub verify_bootstrap : (expected supplied : Text) → Option Refusal
unfolding is_ascii
verify_bootstrap expected supplied =
    if is_empty expected || is_empty supplied
    then some bad_token
    else if not (is_ascii expected && is_ascii supplied)
    then some not_ascii
    else if text_eq expected supplied
    then none
    else some bad_token

-- Why `init_handshake` refuses a body before it looks at the table.
abbrev pub key_refusal : Option Text → Option Refusal
key_refusal none = some bad_base64
key_refusal (some key) = if length key == 32 then none else some bad_length

abbrev pub body_refusal : (role : Text) → (key : Option Text) → Option Refusal
body_refusal role key = if is_role role then key_refusal key else some bad_role

abbrev pub first_refusal : Option Refusal → Option Refusal → Option Refusal
first_refusal none next = next
first_refusal (some r) next = some r

-- `revoked_at` is not set. What `_now` writes there is never empty, so `require_bearer` tests the same.
abbrev pub is_live : Session → Bool
is_live s = not (is_some s.revoked_at)

abbrev pub touched : (now : Text) → Session → Session
touched now s = record s { last_seen_at = some now }

abbrev pub closed : (now : Text) → Session → Session
closed now s = record s { revoked_at = some now }

abbrev pub bearer_of : (header : Text) → Text
bearer_of header = strip is_blank (drop 7 header)

-- The header names a bearer.
abbrev pub has_bearer : (header : Text) → Bool
has_bearer header = not (is_empty header) && starts_with (str "Bearer ") header

abbrev pub new_session : (now h actor : Text) → Session
new_session now h actor = record {
  bearer_hash = h;
  actor = actor;
  created_at = now;
  last_seen_at = none;
  revoked_at = none;
}

abbrev pub new_pubkey : (now actor key : Text) → Pubkey
new_pubkey now actor key = record { actor = actor; kem_pub = key; registered_at = now }

-- The sessions that the filter passes, of the page that the one scan reads.
abbrev pub to_revoke : (actor : Text) → (page : List Session) → List Session
to_revoke actor page = keep (λ s. text_eq s.actor actor && is_live s) page

module _ {Sessions Pubkeys : Type 0} ⦃sessions : Table Sessions Session⦄
    ⦃pubkeys : Table Pubkeys Pubkey⦄ where
  unfoldable pub get_session_by_bearer : Text → State Sessions Pubkeys → Option Session
  get_session_by_bearer h st = get_item h st.sessions

  unfoldable pub get_pubkey : Text → State Sessions Pubkeys → Option Pubkey
  get_pubkey role st = get_item role st.pubkeys

  unfoldable pub put_session :
      (now h actor : Text) → State Sessions Pubkeys → State Sessions Pubkeys
  put_session now h actor st = record st {
    sessions =
        (write_item h always (λ (_ : Option Session). some (new_session now h actor))
          st.sessions).1;
  }

  unfoldable pub put_pubkey :
      (now actor key : Text) → State Sessions Pubkeys → State Sessions Pubkeys
  put_pubkey now actor key st = record st {
    pubkeys =
        (write_item actor always (λ (_ : Option Pubkey). some (new_pubkey now actor key))
          st.pubkeys).1;
  }

  unfoldable pub delete_pubkey : Text → State Sessions Pubkeys → State Sessions Pubkeys
  delete_pubkey actor st = record st {
    pubkeys = (write_item actor always (λ (_ : Option Pubkey). none) st.pubkeys).1;
  }

  -- `lost` says that the write fails, which is not reported.
  unfoldable pub touch_session :
      (lost : Bool) → (now h : Text) → State Sessions Pubkeys → State Sessions Pubkeys
  touch_session lost now h st =
      if lost
      then st
      else record st { sessions = (write_item h always (Option.map (touched now)) st.sessions).1 }

  abbrev pub close_session : (now h : Text) → State Sessions Pubkeys → State Sessions Pubkeys
  close_session now h st = record st {
    sessions = (write_item h always (Option.map (closed now)) st.sessions).1;
  }

  unfoldable pub revoke_each :
      (now : Text) → List Session → ℕ × State Sessions Pubkeys → ℕ × State Sessions Pubkeys
  revoke_each now [] r = r
  revoke_each now (s ∷ rest) (n, st) =
      revoke_each now rest (n + 1, close_session now s.bearer_hash st)

  unfoldable pub revoke_sessions_for_actor :
      (now actor : Text)
      → (page : List Session) → State Sessions Pubkeys
      → ℕ × State Sessions Pubkeys
  unfolding revoke_each
  revoke_sessions_for_actor now actor page st = revoke_each now (to_revoke actor page) (0, st)

  module _ (sha256 : Text → Text) where
    abbrev pub register :
        (now bearer role key : Text) → State Sessions Pubkeys → State Sessions Pubkeys
    register now bearer role key st =
        put_session now (sha256 bearer) role (put_pubkey now role key st)

    -- The check against the table, and the two writes.
    abbrev pub register_once :
        (now bearer role key : Text)
        → Option Pubkey
        → State Sessions Pubkeys
        → Answer × State Sessions Pubkeys
    register_once now bearer role key none st =
        (registered role bearer, register now bearer role key st)
    register_once now bearer role key (some _) st = (refused registered_before, st)

  module _ (expected : Text) where
    unfoldable pub handshake_revoke :
        (now role : Text)
        → (token : Option Text) → (page : List Session) → State Sessions Pubkeys
        → Answer × State Sessions Pubkeys
    unfolding verify_bootstrap delete_pubkey revoke_sessions_for_actor
    handshake_revoke now role token page st =
        elim (first_refusal (verify_bootstrap expected (or_blank token))
          (if is_role role then none else some bad_role)) [
            | some r ↦ (refused r, st)
            | none ↦
                (revoked role, (revoke_sessions_for_actor now role page (delete_pubkey role st)).1)
          ]

    module _ (sha256 : Text → Text) (b64decode : Text → Option Text) where
      unfoldable pub init_handshake :
          (now bearer : Text)
          → (token : Option Text) → HandshakeIn
          → State Sessions Pubkeys
          → Answer × State Sessions Pubkeys
      unfolding verify_bootstrap get_pubkey put_session put_pubkey
      init_handshake now bearer token body st =
          elim (first_refusal (verify_bootstrap expected (or_blank token))
            (body_refusal body.role (b64decode body.kem_pub))) [
              | some r ↦ (refused r, st)
              | none ↦
                  register_once sha256 now bearer body.role (or_blank (b64decode body.kem_pub))
                    (get_pubkey body.role st) st
            ]

  abbrev pub checked :
      (lost : Bool)
      → (now h : Text) → Option Session
      → State Sessions Pubkeys
      → Option Text × State Sessions Pubkeys
  checked lost now h none st = (none, st)
  checked lost now h (some s) st =
      if is_live s then (some s.actor, touch_session lost now h st) else (none, st)

  module _ (sha256 : Text → Text) where
    -- `none` is the answer 401.
    unfoldable pub require_bearer :
        (lost : Bool)
        → (now : Text) → (authorization : Option Text) → State Sessions Pubkeys
        → Option Text × State Sessions Pubkeys
    unfolding get_session_by_bearer touch_session lstrip rstrip starts_with
    require_bearer lost now authorization st =
        let h = sha256 (bearer_of (or_blank authorization)) in
        if has_bearer (or_blank authorization)
        then checked lost now h (get_session_by_bearer h st) st
        else (none, st)
