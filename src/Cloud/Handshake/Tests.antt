-- ===== src/Cloud/Handshake/Tests.antt =====
-- Two roles that register, the operator first; SHA-256 and base64 are the identity.
use mail_chad.Base.{
  ◌≡◌, ◌≢◌, refl, sym, ap, ◌∙◌, subst, Bool, true, false, Option, none, some, [], ◌∷◌, Text, str,
  text_eq, text_eq→eq, if◌then◌else◌, Bool-cases, is_some, inl, inr,
}
use mail_chad.Base.Table.{FunTable, fun_table, empty_table, get_item}
use mail_chad.Cloud.Handshake.{
  Session, Pubkey, State, HandshakeIn, revoked, is_role, or_blank, new_session, new_pubkey,
  init_handshake, handshake_revoke, require_bearer, verify_bootstrap,
}
use mail_chad.Cloud.Handshake.Guard.{IsLive, IsGuarded, IsComplete}
use mail_chad.Cloud.Handshake.Keeps.{Reach, here, next, shake, Reach-IsGuarded}
use mail_chad.Cloud.Handshake.Answers.{Answered, init_handshake-Answered}
use mail_chad.Cloud.Handshake.Shut.{IsStored, handshake_revoke-shuts}

abbrev Tables : Type 0
Tables = State (FunTable Session) (FunTable Pubkey)

abbrev fresh : Tables
fresh = record { sessions = empty_table; pubkeys = empty_table }

abbrev key : Text
key = str "0123456789abcdef0123456789abcdef"

abbrev operator : HandshakeIn
operator = record { role = str "operator"; kem_pub = key }

abbrev boot : Option Text
boot = some (str "boot")

abbrev after_one : Tables
after_one =
    (init_handshake (str "boot") (λ s. s) some (str "08:00") (str "tok") boot operator fresh).1

-- The bearer is accepted, with white space behind it too, and another one is not.
accepted :
    (require_bearer (λ s. s) false (str "09:00") (some (str "Bearer tok ")) after_one).0
    ≡ some (str "operator")
unfolding init_handshake require_bearer text_eq
accepted = refl

unknown : (require_bearer (λ s. s) false (str "09:00") (some (str "Bearer two")) after_one).0 ≡ none
unfolding init_handshake require_bearer text_eq
unknown = refl

fresh-IsGuarded : IsGuarded fresh
fresh-IsGuarded = record {
  keyed = λ h s live. absurd (nothing s live.0);
  registered = λ h s live. absurd (nothing s live.0);
  single = λ h j s u live _ _. absurd (nothing s live.0);
}
  where
    nothing : (s : Session) → none ≡ some s → ⊥
    nothing s q = cc

one_step : Reach (str "boot") (λ s. s) some fresh after_one
one_step = next here (shake (str "08:00") (str "tok") boot operator fresh)

Reach-IsGuarded_example : IsGuarded after_one
Reach-IsGuarded_example = Reach-IsGuarded (str "boot") (λ s. s) some fresh-IsGuarded one_step

init_handshake-Answered_example :
    let (answer, st') =
      init_handshake (str "boot") (λ s. s) some (str "08:00") (str "tok") boot operator fresh in
    Answered (str "boot") (λ s. s) boot operator answer fresh st'
init_handshake-Answered_example =
    init_handshake-Answered (str "boot") (λ s. s) some (str "08:00") (str "tok") boot operator fresh
      (refl, (refl, (refl, tt)))

-- The tables with the operator in them, written out.
abbrev session : Session
session = new_session (str "08:00") (str "tok") (str "operator")

abbrev one : Tables
one = record {
  sessions = λ j. if text_eq (str "tok") j then some session else none;
  pubkeys = λ a.
      if text_eq (str "operator") a
      then some (new_pubkey (str "08:00") (str "operator") key)
      else none;
}

only_session :
    (h : Text) (s : Session)
    → IsLive {Sessions = FunTable Session} {Pubkeys = FunTable Pubkey} one h s
    → (str "tok" ≡ h) × (session ≡ s)
only_session h s (there, alive) = elim (Bool-cases (text_eq (str "tok") h)) [
  | inl e ↦ (text_eq→eq (str "tok") h e, let there' = rw e at there in cc)
  | inr e ↦ let there' = rw e at there in absurd (apart there')
]
  where
    apart : none ≡ some s → ⊥
    apart q = cc

one-IsGuarded : IsGuarded {Sessions = FunTable Session} {Pubkeys = FunTable Pubkey} one
unfolding text_eq
one-IsGuarded = record {
  keyed = λ h s live.
      let (e, same) = only_session h s live in sym (ap (λ (x : Session). x.bearer_hash) same) ∙ e;
  registered = λ h s live.
      let (e, same) = only_session h s live in
      subst (λ (x : Session). is_some (one.pubkeys x.actor) ≡ true) same refl;
  single = λ h j s u p q _.
      let (e, _) = only_session h s p in let (e', _) = only_session j u q in sym e ∙ e';
}

boot_right : verify_bootstrap (str "boot") (or_blank boot) ≡ none
unfolding verify_bootstrap text_eq
boot_right = refl

operator_role : is_role (str "operator") ≡ true
unfolding text_eq
operator_role = refl

there : one.sessions (str "tok") ≡ some session
unfolding text_eq
there = refl

-- The other bearer is still refused, and the operator's is too.
handshake_revoke-shuts_example :
    let (answer, st') =
      handshake_revoke (str "boot") (str "10:00") (str "operator") boot (session ∷ []) one in
    (answer ≡ revoked (str "operator"))
    × (get_item {Item = Pubkey} (str "operator") st'.pubkeys ≡ none)
    × ((lost : Bool) (later : Text) (header : Option Text)
        → (require_bearer (λ s. s) lost later header st').0 ≢ some (str "operator"))
    × ((a : Text)
        → a ≢ str "operator"
        → (get_item {Item = Pubkey} a st'.pubkeys ≡ get_item a one.pubkeys)
          × ((lost : Bool) (later : Text) (header : Option Text)
              → (require_bearer (λ s. s) lost later header one).0 ≡ some a
              → (require_bearer (λ s. s) lost later header st').0 ≡ some a))
handshake_revoke-shuts_example =
    handshake_revoke-shuts (str "boot") (λ s. s) (str "10:00") (str "operator") boot (session ∷ [])
      one boot_right operator_role one-IsGuarded stored complete
  where
    stored : IsStored {Sessions = FunTable Session} {Pubkeys = FunTable Pubkey} (session ∷ []) one
    stored s (inl e) = subst (λ x. one.sessions x.bearer_hash ≡ some x) e there
    stored s (inr m) = absurd m

    complete :
        IsComplete {Sessions = FunTable Session} {Pubkeys = FunTable Pubkey}
          (str "operator")
          (session ∷ [])
          one
    complete h s live _ = let (_, same) = only_session h s live in inl same
