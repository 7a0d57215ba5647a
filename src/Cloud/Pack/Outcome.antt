-- ===== src/Cloud/Pack/Outcome.antt =====
-- The outcome cursor of mailman/cloud/dynamo.py: `_outcome_key`, `outcome_cursor`,
-- `_after_cursor` and `list_resolved_packs`, with `packs_status` of mailman/cloud/packs.py.
pub mod Order
pub mod Resume
pub mod Cap
mod Tests
use Prim.Native.Nat.{max}
use mail_chad.Base.{
  ℕ, ◌+◌, ◌*◌, Bool, true, false, not, ◌&&◌, ◌||◌, Option, none, some, List, [], ◌∷◌, ◌++◌, Text,
  text_eq, text_lt, text_le, is_empty, if◌then◌else◌, ◌==◌, leb, keep, take, length,
}
use mail_chad.Cloud.Pack.{Pack}

-- `a or b`, for a text that may be missing.
abbrev or_text : Option Text → Text → Text
or_text none b = b
or_text (some a) b = if is_empty a then b else a

-- `_outcome_key`
abbrev pub outcome_key : Pack → Text × Text
outcome_key row = (or_text row.resolved_at row.enqueued_at, row.pack_id)

-- `outcome_cursor`
abbrev pub outcome_cursor : Pack → Text
outcome_cursor row = let (time, pack_id) = outcome_key row in time ++ (b'#' ∷ pack_id)

-- `s.partition("#")`: what stands before the first `#`, and what behind it if there is one.
unfoldable pub partition : Text → Text × Option Text
partition [] = ([], none)
partition (c ∷ s) =
    let (before, behind) = partition s in if c == b'#' then ([], some s) else (c ∷ before, behind)

-- The order of tuples.
abbrev pub key_lt : Text × Text → Text × Text → Bool
key_lt (a, b) (c, d) = text_lt a c || text_eq a c && text_lt b d

abbrev held_back : Option Text → Text → Bool
held_back none time = false
held_back (some upper) time = text_lt upper time

abbrev past : Text × Text → Text → Option Text → Bool
past key since_t none = text_lt since_t key.0
past key since_t (some since_pid) = key_lt (since_t, since_pid) key

-- `_after_cursor`
abbrev pub after_cursor : Text × Text → (since_t : Text) (since_pid upper : Option Text) → Bool
after_cursor key since_t since_pid upper =
    if held_back upper key.0
    then false
    else if is_empty since_t
    then true
    else past key since_t since_pid

abbrev at_or_after : Text → Option Text → Bool
at_or_after since none = false
at_or_after since (some t) = text_le since t

-- The filter expression of the query, which the older rows pass by their enqueueing time.
abbrev pub passes_filter : Text → Pack → Bool
passes_filter since_t row =
    is_empty since_t || at_or_after since_t row.resolved_at || text_le since_t row.enqueued_at

-- The pages of one status partition, until there is none left or the cap is reached.
unfoldable pub read_partition : (cap : ℕ) → (since_t : Text) → List (List Pack) → ℕ → List Pack
read_partition cap since_t [] scanned = []
read_partition cap since_t (page ∷ pages) scanned =
    let rest = read_partition cap since_t pages (scanned + length page) in
    keep (passes_filter since_t) page ++ (if leb cap (scanned + length page) then [] else rest)

-- The partitions of the five resolved statuses, in turn.
unfoldable pub read_all : (cap : ℕ) → (since_t : Text) → List (List (List Pack)) → List Pack
unfolding read_partition
read_all cap since_t [] = []
read_all cap since_t (pages ∷ partitions) =
    read_partition cap since_t pages 0 ++ read_all cap since_t partitions

-- `rows.sort(key=_outcome_key)`, which is stable.
unfoldable pub insert_row : Pack → List Pack → List Pack
insert_row r [] = r ∷ []
insert_row r (q ∷ rows) =
    let rest = insert_row r rows in
    if key_lt (outcome_key q) (outcome_key r) then q ∷ rest else r ∷ q ∷ rows

unfoldable pub sort_rows : List Pack → List Pack
unfolding insert_row
sort_rows [] = []
sort_rows (r ∷ rows) = insert_row r (sort_rows rows)

-- The rows that count, before they are sorted.
abbrev pub eligible_rows : Text → ℕ → (upper : Option Text) → List (List (List Pack)) → List Pack
eligible_rows since limit upper partitions =
    let (since_t, since_pid) = partition since in
    keep (λ r. after_cursor (outcome_key r) since_t since_pid upper)
      (read_all (max (limit * 4) 2000) since_t partitions)

-- `list_resolved_packs`; `upper` is `_iso_ago(settle_s)` where `settle_s` is positive.
unfoldable pub list_resolved_packs :
    (since : Text) → (limit : ℕ) → (upper : Option Text) → List (List (List Pack)) → List Pack
unfolding sort_rows partition read_all
list_resolved_packs since limit upper partitions =
    take limit (sort_rows (eligible_rows since limit upper partitions))

abbrev pub last_row : List Pack → Option Pack
last_row [] = none
last_row (r ∷ []) = some r
last_row (r ∷ q ∷ rows) = last_row (q ∷ rows)

abbrev cursor_after : Text → Option Pack → Text
cursor_after since none = since
cursor_after since (some r) = outcome_cursor r

-- `packs_status`: the rows, and `max_id`. `settled` is `_iso_ago(RESOLVED_SETTLE_S)`.
unfoldable pub packs_status :
    (since : Text) → (limit : ℕ) → (settled : Text) → List (List (List Pack)) → List Pack × Text
unfolding list_resolved_packs
packs_status since limit settled partitions =
    let rows = list_resolved_packs since limit (some settled) partitions in
    (rows, cursor_after since (last_row rows))
