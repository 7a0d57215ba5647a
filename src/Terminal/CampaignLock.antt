-- ===== src/Terminal/CampaignLock.antt =====
-- mailman/terminal/campaign_lock.py: a contact is on one running campaign at a time. The rows are
-- those of the tables campaigns and campaign_recipients, in the order in which a query reads them;
-- `now` is SQLite's `datetime('now')`, and the times are texts in its form.
pub mod Confirm
pub mod Conflicts
mod Tests
use mail_chad.Base.{
  ℕ, ◌+◌, Bool, true, false, not, ◌&&◌, Option, none, some, List, [], ◌∷◌, ◌++◌, map, Text, text_lt,
  text_le, is_empty, is_some, if◌then◌else◌, ◌==◌, keep,
}

-- The columns of a campaign that the module reads.
pub record Campaign : Type 0 where
  pub id : ℕ
  pub name : Text
  pub dispatched_at : Option Text
  pub lock_until : Option Text
  pub unsubs_confirmed_at : Option Text

pub record Recipient : Type 0 where
  pub campaign_id : ℕ
  pub contact_id : ℕ
  pub clicked_at : Option Text

-- An entry of the dictionary of locked contacts, and of the list of conflicts.
pub record Lock : Type 0 where
  pub contact_id : ℕ
  pub campaign_id : ℕ
  pub campaign_name : Text
  pub free_at : Text

-- Dispatched, and not confirmed.
abbrev pub is_open : Campaign → Bool
is_open c = is_some c.dispatched_at && not (is_some c.unsubs_confirmed_at)

abbrev pub ends_after : (now : Text) → Option Text → Bool
ends_after now none = false
ends_after now (some u) = text_lt now u

abbrev pub has_ended : (now : Text) → Option Text → Bool
has_ended now none = false
has_ended now (some u) = text_le u now

abbrev pub is_locking : (now : Text) → Campaign → Bool
is_locking now c = is_open c && ends_after now c.lock_until

abbrev pub or_empty : Option Text → Text
or_empty none = []
or_empty (some t) = t

abbrev pub lock_of : Recipient → Campaign → Lock
lock_of r c = record {
  contact_id = r.contact_id;
  campaign_id = c.id;
  campaign_name = c.name;
  free_at = or_empty c.lock_until;
}

abbrev pub is_locked_by : (now : Text) → Recipient → Campaign → Bool
is_locked_by now r c = c.id == r.campaign_id && is_locking now c && not (is_some r.clicked_at)

-- `out.setdefault(contact_id, ...)`: the first lock wins.
unfoldable pub set_default : Lock → List Lock → List Lock
set_default k [] = k ∷ []
set_default k (l ∷ locks) =
    if l.contact_id == k.contact_id then l ∷ locks else l ∷ set_default k locks

abbrev pub is_excluded : (exclude : Option ℕ) → ℕ → Bool
is_excluded none id = false
is_excluded (some x) id = id == x

abbrev pub add_lock : (exclude : Option ℕ) → Lock → List Lock → List Lock
add_lock exclude k locks = if is_excluded exclude k.campaign_id then locks else set_default k locks

unfoldable pub add_locks : (exclude : Option ℕ) → List Lock → List Lock → List Lock
unfolding set_default
add_locks exclude [] locks = locks
add_locks exclude (k ∷ ks) locks = add_locks exclude ks (add_lock exclude k locks)

-- The rows of the join, a recipient at a time.
unfoldable pub joined : (now : Text) → List Campaign → List Recipient → List Lock
joined now campaigns [] = []
joined now campaigns (r ∷ rs) =
    map (lock_of r) (keep (is_locked_by now r) campaigns) ++ joined now campaigns rs

unfoldable pub locked_contacts :
    (exclude : Option ℕ) → (now : Text) → List Campaign → List Recipient → List Lock
unfolding joined add_locks
locked_contacts exclude now campaigns rs = add_locks exclude (joined now campaigns rs) []

unfoldable pub find_lock : ℕ → List Lock → Option Lock
find_lock id [] = none
find_lock id (k ∷ ks) = if k.contact_id == id then some k else find_lock id ks

abbrev pub add_conflict : Option Lock → List Lock → List Lock
add_conflict none rest = rest
add_conflict (some k) rest = k ∷ rest

unfoldable pub conflicts_in : List Lock → List ℕ → List Lock
unfolding find_lock
conflicts_in locked [] = []
conflicts_in locked (id ∷ ids) = add_conflict (find_lock id locked) (conflicts_in locked ids)

-- With no contacts the code returns at once, which is also what the loop gives.
unfoldable pub find_conflicts :
    (campaign_id : ℕ)
    → (now : Text) → List Campaign
    → List Recipient
    → (contact_ids : List ℕ) → List Lock
unfolding conflicts_in locked_contacts
find_conflicts campaign_id now campaigns rs [] = []
find_conflicts campaign_id now campaigns rs (id ∷ ids) =
    conflicts_in (locked_contacts (some campaign_id) now campaigns rs) (id ∷ ids)

-- The rows that `confirm_elapsed_locks` selects.
abbrev pub is_elapsed : (now : Text) → Campaign → Bool
is_elapsed now c = is_open c && has_ended now c.lock_until

-- A pull has been completed after the campaign was dispatched.
abbrev pub pulled_since : (pull_ok_at : Text) → Campaign → Bool
pulled_since pull_ok_at c =
    not (is_empty pull_ok_at) && not (text_le pull_ok_at (or_empty c.dispatched_at))

abbrev pub confirm : (now : Text) → Campaign → Campaign
confirm now c = record c { unsubs_confirmed_at = some now }

unfoldable pub update_confirmed : (now : Text) → ℕ → List Campaign → List Campaign
update_confirmed now id [] = []
update_confirmed now id (c ∷ cs) =
    (if c.id == id then confirm now c else c) ∷ update_confirmed now id cs

unfoldable pub confirm_rows :
    (now pull_ok_at : Text) → List Campaign → ℕ × List Campaign → ℕ × List Campaign
unfolding update_confirmed
confirm_rows now pull_ok_at [] s = s
confirm_rows now pull_ok_at (r ∷ rows) (n, cs) =
    confirm_rows now pull_ok_at rows
      (if pulled_since pull_ok_at r then (n + 1, update_confirmed now r.id cs) else (n, cs))

unfoldable pub confirm_elapsed_locks : (now pull_ok_at : Text) → List Campaign → ℕ × List Campaign
unfolding confirm_rows
confirm_elapsed_locks now pull_ok_at cs =
    confirm_rows now pull_ok_at (keep (is_elapsed now) cs) (0, cs)
