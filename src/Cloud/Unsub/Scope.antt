-- ===== src/Cloud/Unsub/Scope.antt =====
-- What `put_unsub` leaves: a scope that only widens, and a log entry for each change.
use mathlib.Core.Option
use mail_chad.Base.{
  ◌≡◌, refl, true, false, ◌||◌, Option, none, some, Text, text_eq, text_eq_refl, text_eq→eq, arith,
  if◌then◌else◌, str, Bool-cases, inl, inr,
}
use mail_chad.Base.Table.{Table, always}
use mail_chad.Base.Partition.{IsAscending, put_row-IsAscending, find_row, find_row-put_row}
use mail_chad.Cloud.Unsub.{
  UnsubRow, UnsubLog, Unsubs, is_all, log_key, no_row, widen, put_unsub, get_unsub, unsub_row,
  log_entry,
}

-- The scope under which a hash is stored.
abbrev pub scope_of : Option UnsubRow → Option Text
scope_of none = none
scope_of (some r) = some r.scope

-- The scope after a request: the first one counts, and `all` always does.
abbrev pub widened : (scope : Text) → Option Text → Text
widened scope none = scope
widened scope (some old) = if is_all scope then str "all" else old

abbrev pub Logged : Text → Text → Option UnsubLog → Type 0
Logged email_hash scope none = ⊥
Logged email_hash scope (some entry) = (entry.email_hash ≡ email_hash) × (entry.scope ≡ scope)

module _ {Cache : Type 0} ⦃rows : Table Cache UnsubRow⦄ where
  module _ (h source scope now : Text) (s : Unsubs Cache) where
    put_unsub-reports : (put_unsub h source scope now s).0 ≡ no_row (get_unsub h s.cache)
    unfolding put_unsub get_unsub
    put_unsub-reports =
        rows.write_reports h no_row (λ _. some (unsub_row h source scope now)) s.cache

    get_unsub-put_unsub :
        (j : Text)
        → get_unsub j (put_unsub h source scope now s).1.cache ≡ (
            if text_eq h j
            then (if no_row (get_unsub h s.cache)
                then some (unsub_row h source scope now)
                else if is_all scope
                then Option.map widen (get_unsub h s.cache)
                else get_unsub h s.cache)
            else get_unsub j s.cache)
    unfolding put_unsub get_unsub
    get_unsub-put_unsub j =
        let new : Option UnsubRow → Option UnsubRow = λ _. some (unsub_row h source scope now) in
        let t = (rows.write h no_row new s.cache).1 in
        elim (Bool-cases (text_eq h j)) [
          | inl e ↦ rw (← text_eq→eq h j e) (
              ground (
                arith,
                text_eq_refl h,
                rows.write_reports h no_row new s.cache,
                rows.get-write h h no_row new s.cache,
                rows.get-write h h always (Option.map widen) t,
              ))
          | inr e ↦ ground (
            arith,
            rows.get-write j h no_row new s.cache,
            rows.get-write j h always (Option.map widen) t,
          )
        ]

    put_unsub-logs :
        ((put_unsub h source scope now s).0 || is_all scope) ≡ true
        → Logged h scope (find_row (log_key now h) (put_unsub h source scope now s).1.log)
    unfolding put_unsub
    put_unsub-logs e =
        rw
          (
            e,
            find_row-put_row (log_key now h) (log_key now h) (log_entry h scope now) s.log,
            text_eq_refl (log_key now h),
          )
          (refl, refl)

    put_unsub-IsAscending : IsAscending s.log → IsAscending (put_unsub h source scope now s).1.log
    unfolding put_unsub
    put_unsub-IsAscending a =
        elim (Bool-cases ((put_unsub h source scope now s).0 || is_all scope)) [
          | inl e ↦ rw e (put_row-IsAscending (log_key now h) (log_entry h scope now) s.log a)
          | inr e ↦ rw e a
        ]

  -- Whatever was stored, the hash is stored after the request: under the scope of the first request,
  -- or `all` as soon as one request asked for `all`; a later promotional one does not narrow it.
  -- The answer says whether the hash was new, and no other hash is touched. A request that is new,
  -- or asks for `all`, is in the log under its time; the log stays in the order of its keys.
  pub put_unsub-widens :
      (h source scope now : Text) (s : Unsubs Cache)
      → IsAscending s.log
      → let (is_new, s') = put_unsub h source scope now s in
        (scope_of (get_unsub h s'.cache) ≡ some (widened scope (scope_of (get_unsub h s.cache))))
        × (is_new ≡ no_row (get_unsub h s.cache))
        × ((j : Text) → text_eq h j ≡ false → get_unsub j s'.cache ≡ get_unsub j s.cache)
        × ((is_new || is_all scope) ≡ true → Logged h scope (find_row (log_key now h) s'.log))
        × IsAscending s'.log
  put_unsub-widens h source scope now s a = (
    ground (arith, get_unsub-put_unsub h source scope now s h, text_eq_refl h),
    put_unsub-reports h source scope now s,
    λ j e. ground (arith, get_unsub-put_unsub h source scope now s j),
    put_unsub-logs h source scope now s,
    put_unsub-IsAscending h source scope now s a,
  )
