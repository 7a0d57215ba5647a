-- ===== src/Cloud/Pack.antt =====
-- The pack section of mailman/cloud/dynamo.py: a pack is one encrypted send job, stored under its
-- id. Times are the texts that `_now` writes, handed in by the caller; what a query of the
-- status index returned is handed in too, since that index may lag behind the table.
pub mod Lifecycle
pub mod Spent
pub mod Stored
pub mod Bulk
pub mod Expiry
pub mod Outcome
mod Tests
use mathlib.Core.Option
use mail_chad.Base.{
  ℕ, ◌+◌, Bool, true, false, not, ◌&&◌, ◌||◌, Option, none, some, List, [], ◌∷◌, ◌++◌, Text,
  text_eq, text_le, is_some, if◌then◌else◌, ◌==◌, ltb, String, str,
}
use mail_chad.Base.Table.{Table, get_item, write_item, always}

pub data Status : Type 0 where
  pending claimed sent failed stuck_no_key cancelled unknown : Status

-- `RESOLVED_PACK_STATUSES`
abbrev pub is_resolved : Status → Bool
is_resolved pending = false
is_resolved claimed = false
is_resolved _ = true

abbrev pub is_pending : Status → Bool
is_pending pending = true
is_pending _ = false

abbrev pub is_claimed : Status → Bool
is_claimed claimed = true
is_claimed _ = false

abbrev pub is_sent : Status → Bool
is_sent sent = true
is_sent _ = false

abbrev pub is_unknown : Status → Bool
is_unknown unknown = true
is_unknown _ = false

-- The row that `_coerce_pack` reads.
pub record Pack : Type 0 where
  pub pack_id : Text
  pub campaign_id : ℕ
  pub recipient_hash : Text
  pub content_hash : Text
  pub send_at : Text
  pub key_id : Text
  pub encrypted_payload : Option Text
  pub status : Status
  pub enqueued_at : Text
  pub pushed_by : Text
  pub claimed_at : Option Text
  pub sent_at : Option Text
  pub resend_message_id : Option Text
  pub failure_reason : Option Text
  pub resolved_at : Option Text

-- The arguments of `put_pack` that come from the wire.
pub record NewPack : Type 0 where
  pub pack_id : Text
  pub campaign_id : ℕ
  pub recipient_hash : Text
  pub content_hash : Text
  pub send_at : Text
  pub key_id : Text
  pub encrypted_payload : Text

-- The keyword arguments that the callers of `update_pack` give: `none` is one that is not given.
pub record Fields : Type 0 where
  pub status : Option Status
  pub sent_at : Option (Option Text)
  pub resend_message_id : Option (Option Text)
  pub failure_reason : Option (Option Text)
  pub encrypted_payload : Option (Option Text)
  pub resolved_at : Option (Option Text)

abbrev pub no_fields : Fields
no_fields = record {
  status = none;
  sent_at = none;
  resend_message_id = none;
  failure_reason = none;
  encrypted_payload = none;
  resolved_at = none;
}

abbrev pub is_given : Fields → Bool
is_given f =
    is_some f.status
    || is_some f.sent_at
    || is_some f.resend_message_id
    || is_some f.failure_reason
    || is_some f.encrypted_payload
    || is_some f.resolved_at

abbrev given_or {ℓ} : {A : Type ℓ} → Option A → A → A
given_or none old = old
given_or (some new) _ = new

abbrev pub resolves : Option Status → Bool
resolves none = false
resolves (some s) = is_resolved s

-- `_stamp_resolved`
unfoldable pub stamp_resolved : Text → Fields → Fields
stamp_resolved now f =
    if resolves f.status && (not (is_some f.resolved_at))
    then record f { resolved_at = some (some now) }
    else f

abbrev pub set_fields : Fields → Pack → Pack
set_fields f p = record p {
  status = given_or f.status p.status;
  sent_at = given_or f.sent_at p.sent_at;
  resend_message_id = given_or f.resend_message_id p.resend_message_id;
  failure_reason = given_or f.failure_reason p.failure_reason;
  encrypted_payload = given_or f.encrypted_payload p.encrypted_payload;
  resolved_at = given_or f.resolved_at p.resolved_at;
}

-- `Attr("pack_id").not_exists()`
abbrev pub is_absent : Option Pack → Bool
is_absent none = true
is_absent (some _) = false

-- `Attr("status").eq("pending")`
abbrev pub stored_pending : Option Pack → Bool
stored_pending none = false
stored_pending (some p) = is_pending p.status

abbrev pub time_eq : Option Text → Option Text → Bool
time_eq none none = true
time_eq none (some _) = false
time_eq (some _) none = false
time_eq (some s) (some t) = text_eq s t

-- `Attr("status").eq("claimed") & Attr("claimed_at").eq(t)`
abbrev pub stored_claim : Option Text → Option Pack → Bool
stored_claim t none = false
stored_claim t (some p) = is_claimed p.status && time_eq p.claimed_at t

abbrev pub fresh_pack : NewPack → (pushed_by now : Text) → Pack
fresh_pack p pushed_by now = record {
  pack_id = p.pack_id;
  campaign_id = p.campaign_id;
  recipient_hash = p.recipient_hash;
  content_hash = p.content_hash;
  send_at = p.send_at;
  key_id = p.key_id;
  encrypted_payload = some p.encrypted_payload;
  status = pending;
  enqueued_at = now;
  pushed_by = pushed_by;
  claimed_at = none;
  sent_at = none;
  resend_message_id = none;
  failure_reason = none;
  resolved_at = none;
}

abbrev pub claim : Text → Pack → Pack
claim now p = record p { status = claimed; claimed_at = some now }

abbrev pub cancel : Text → Pack → Pack
cancel now p = record p { status = cancelled; encrypted_payload = none; resolved_at = some now }

-- `STALE_CLAIM_REASON.format(claimed_at=…)`; Python prints a missing time as `None`.
abbrev pub stale_claim_reason : Option Text → Text
stale_claim_reason none = str "dispatcher stopped after claiming it at None"
stale_claim_reason (some t) = str "dispatcher stopped after claiming it at " ++ t

abbrev pub expire : Option Text → Text → Pack → Pack
expire claimed_at now p = record p {
  status = unknown;
  failure_reason = some (stale_claim_reason claimed_at);
  encrypted_payload = none;
  resolved_at = some now;
}

abbrev pub claimed_by : Text → Option Text → Bool
claimed_by cutoff none = false
claimed_by cutoff (some t) = text_le t cutoff

module _ {Tab : Type 0} ⦃store : Table Tab Pack⦄ where
  unfoldable pub get_pack : Text → Tab → Option Pack
  get_pack id t = get_item id t

  -- `false` is PackAlreadyExists.
  unfoldable pub put_pack : NewPack → (pushed_by now : Text) → Tab → Bool × Tab
  put_pack p pushed_by now t =
      write_item p.pack_id is_absent (λ _. some (fresh_pack p pushed_by now)) t

  unfoldable pub claim_pack : Text → (now : Text) → Tab → Bool × Tab
  claim_pack id now t = write_item id stored_pending (Option.map (claim now)) t

  -- An update of an id that is not stored would leave a fragment that `get_pack` cannot read. The
  -- callers update only what they have claimed, and packs are never deleted.
  unfoldable pub update_pack : Text → Fields → (now : Text) → Tab → Tab
  unfolding stamp_resolved
  update_pack id fields now t =
      let f = stamp_resolved now fields in
      if is_given f then (write_item id always (Option.map (set_fields f)) t).1 else t

  unfoldable pub cancel_pack : Text → (now : Text) → Tab → Bool × Tab
  cancel_pack id now t = write_item id stored_pending (Option.map (cancel now)) t

  -- One row that the query of pending packs listed. The filter on the campaign is the query's.
  abbrev pub cancel_row : ℕ → (now : Text) → Pack → ℕ × Tab → ℕ × Tab
  cancel_row campaign_id now row (n, t) =
      let (done, t') = cancel_pack row.pack_id now t in
      if row.campaign_id == campaign_id then (if done then n + 1 else n, t') else (n, t)

  -- The rows of all pages, in order.
  unfoldable pub cancel_listed : ℕ → (now : Text) → List Pack → ℕ × Tab → ℕ × Tab
  cancel_listed campaign_id now [] acc = acc
  cancel_listed campaign_id now (row ∷ rows) acc =
      cancel_listed campaign_id now rows (cancel_row campaign_id now row acc)

  unfoldable pub cancel_pending_for_campaign : ℕ → (now : Text) → List Pack → Tab → ℕ × Tab
  unfolding cancel_listed
  cancel_pending_for_campaign campaign_id now listed t = cancel_listed campaign_id now listed (0, t)

  -- The conditional write for one row that the query of claimed packs listed.
  unfoldable pub expire_claim : Pack → (now : Text) → Tab → Bool × Tab
  expire_claim row now t =
      write_item row.pack_id (stored_claim row.claimed_at) (Option.map (expire row.claimed_at now))
        t

  -- The filter is the query's: a claim at `cutoff`, which is `_iso_ago(older_than_s)`, or before.
  -- Both loops stop for good once `changed` has reached the limit.
  abbrev pub expire_row : (limit : ℕ) (cutoff now : Text) → Pack → ℕ × Tab → ℕ × Tab
  expire_row limit cutoff now row (changed, t) =
      let (done, t') = expire_claim row now t in
      if ltb changed limit && claimed_by cutoff row.claimed_at
      then (if done then changed + 1 else changed, t')
      else (changed, t)

  unfoldable pub expire_listed : (limit : ℕ) (cutoff now : Text) → List Pack → ℕ × Tab → ℕ × Tab
  expire_listed limit cutoff now [] acc = acc
  expire_listed limit cutoff now (row ∷ rows) acc =
      expire_listed limit cutoff now rows (expire_row limit cutoff now row acc)

  unfoldable pub expire_stale_claims : (limit : ℕ) (cutoff now : Text) → List Pack → Tab → ℕ × Tab
  unfolding expire_listed
  expire_stale_claims limit cutoff now listed t = expire_listed limit cutoff now listed (0, t)
