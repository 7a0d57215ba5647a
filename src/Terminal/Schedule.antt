-- ===== src/Terminal/Schedule.antt =====
-- mailman/terminal/send_schedule.py: the send times of a batch. An instant is a count of
-- microseconds of UTC, and a date the number of a day. The time zone, the random gaps, which are
-- floats, and the text of an instant are parameters; `none` is the RuntimeError.

pub mod Order
pub mod Window
pub mod Sound
pub mod Filled
mod Tests
use mail_chad.Base.{
  ℕ, zero, suc, ◌+◌, ◌-◌, ◌*◌, Bool, true, false, Option, none, some, List, [], ◌∷◌, ◌++◌, Text,
  text_lt, if◌then◌else◌, ◌==◌, ltb, leb,
}

-- `astimezone` on a wall time of the zone, and the local date of an instant.
pub record Zone : Type 0 where
  pub to_utc : ℕ → ℕ
  pub date_of : ℕ → ℕ

-- What is computed with floats: the offset of the i-th sender, and the gap after the i-th send,
-- inside the rush and before it.
pub record Floats : Type 0 where
  pub stagger : ℕ → ℕ
  pub rush_gap : ℕ → ℕ
  pub wide_gap : ℕ → ℕ

-- The keyword arguments that stay; a `daily_cap` of 0 counts as none, as the code's test has it.
pub record Settings : Type 0 where
  pub start_hour : ℕ
  pub window_hours : ℕ
  pub sender_count : ℕ
  pub rush_tail_minutes : ℕ
  pub daily_cap : Option ℕ

pub record Sender : Type 0 where
  pub opens : ℕ
  pub closes : ℕ
  pub at : ℕ

pub record Loop : Type 0 where
  pub senders : List Sender
  pub out : List Text
  pub day_counts : ℕ → ℕ
  pub emitted : ℕ

abbrev pub minute : ℕ
minute = 60_000_000

abbrev pub hour : ℕ
hour = 3_600_000_000

abbrev pub day : ℕ
day = 86_400_000_000

abbrev pub max : ℕ → ℕ → ℕ
max a b = if ltb a b then b else a

-- `min(senders, key=...)`: the first sender with the least time. `replace_first` writes to it, as
-- the first sender whose time that is.
unfoldable pub min_of : Sender → List Sender → Sender
min_of s [] = s
min_of s (x ∷ xs) = min_of (if ltb x.at s.at then x else s) xs

unfoldable pub replace_first : ℕ → Sender → List Sender → List Sender
replace_first t new [] = []
replace_first t new (x ∷ xs) = if x.at == t then new ∷ xs else x ∷ replace_first t new xs

abbrev pub is_full : (daily_cap : Option ℕ) → (count : ℕ) → Bool
is_full none count = false
is_full (some zero) count = false
is_full (some (suc c)) count = leb (suc c) count

abbrev pub count_day : ℕ → (ℕ → ℕ) → ℕ → ℕ
count_day d counts e = if e == d then counts e + 1 else counts e

-- `out.sort()`
unfoldable pub insert_text : Text → List Text → List Text
insert_text s [] = s ∷ []
insert_text s (t ∷ ts) = if text_lt t s then t ∷ insert_text s ts else s ∷ t ∷ ts

unfoldable pub sort_texts : List Text → List Text
unfolding insert_text
sort_texts [] = []
sort_texts (t ∷ ts) = insert_text t (sort_texts ts)

module _ (z : Zone) (c : Settings) where
  abbrev pub window_for : (date : ℕ) → ℕ × ℕ
  window_for date =
      let opens = date * day + c.start_hour * hour in
      (z.to_utc opens, z.to_utc (opens + c.window_hours * hour))

  -- The test of one day: its window is good if it closes after `after`.
  abbrev pub window_from : (after : ℕ) → ℕ × ℕ → Option Sender
  window_from after (o, k) =
      if ltb after k
      then (if ltb (max o after) k
          then some (record { opens = o; closes = k; at = max o after })
          else none)
      else none

  unfoldable pub search_window : (days after date : ℕ) → Option Sender
  search_window zero after date = none
  search_window (suc days) after date = elim (window_from after (window_for date)) [
    | some s ↦ some s
    | none ↦ search_window days after (date + 1)
  ]

  unfoldable pub next_window : (after : ℕ) → Option Sender
  unfolding search_window
  next_window after = search_window 400 after (z.date_of after)

  module _ (f : Floats) where
    -- One sender of the stagger, in the first window or in the next one.
    abbrev pub staggered : Sender → ℕ → Option Sender
    staggered s i =
        let t = s.at + f.stagger i in
        if leb s.closes t then next_window s.closes else some (record s { at = t })

    -- `count` senders, from the i-th on.
    unfoldable pub make_senders : (count i : ℕ) → Sender → Option (List Sender)
    make_senders zero i s = some []
    make_senders (suc count) i s = elim (staggered s i) [
      | none ↦ none
      | some x ↦ elim (make_senders count (i + 1) s) [ none ↦ none | some xs ↦ some (x ∷ xs) ]
    ]

    abbrev pub gap_after : Sender → ℕ → ℕ
    gap_after s i =
        if leb s.closes (s.at + c.rush_tail_minutes * minute) then f.rush_gap i else f.wide_gap i

    -- Where a sender goes after it has sent.
    abbrev pub moved : Sender → ℕ → Option Sender
    moved s i =
        let next = s.at + gap_after s i in
        if leb s.closes next then next_window s.closes else some (record s { at = next })

    module _ (fmt : ℕ → Text) where
      abbrev pub emit : Sender → Loop → Loop
      emit s l = record l {
        out = l.out ++ (fmt s.at ∷ []);
        day_counts = count_day (z.date_of s.at) l.day_counts;
        emitted = l.emitted + 1;
      }

      abbrev pub put_back : Sender → Option Sender → Loop → Option Loop
      put_back s none l = none
      put_back s (some s') l = some (record l { senders = replace_first s.at s' l.senders })

      -- The body of the loop for the sender that is next.
      unfoldable pub turn : Sender → Loop → Option Loop
      unfolding replace_first
      turn s l =
          if is_full c.daily_cap (l.day_counts (z.date_of s.at))
          then put_back s (next_window s.closes) l
          else put_back s (moved s l.emitted) (emit s l)

      abbrev pub turn_first : List Sender → Loop → Option Loop
      turn_first [] l = none
      turn_first (x ∷ xs) l = turn (min_of x xs) l

      -- `while emitted < n`, which the guard ends after `fuel` rounds.
      unfoldable pub run : (fuel n : ℕ) → Loop → Option Loop
      unfolding turn
      run zero n l = some l
      run (suc fuel) n l = elim (ltb l.emitted n) [
        | false ↦ some l
        | true ↦ elim (turn_first l.senders l) [ none ↦ none | some l' ↦ run fuel n l' ]
      ]

      abbrev pub begin : List Sender → Loop
      begin senders = record { senders = senders; out = []; day_counts = λ _. 0; emitted = 0 }

      abbrev pub sorted_out : Option Loop → Option (List Text)
      sorted_out none = none
      sorted_out (some l) = some (sort_texts l.out)

      abbrev pub run_senders : (n : ℕ) → Option (List Sender) → Option Loop
      run_senders n none = none
      run_senders n (some senders) = run (n * 8 + 2000) n (begin senders)

      abbrev pub start_all : (n : ℕ) → Option Sender → Option Loop
      start_all n none = none
      start_all n (some s) = run_senders n (make_senders (max c.sender_count 1) 0 s)

      unfoldable pub compute_send_ats : (n start_after : ℕ) → Option (List Text)
      unfolding make_senders run sort_texts
      compute_send_ats zero start_after = some []
      compute_send_ats (suc n) start_after =
          sorted_out (start_all (suc n) (next_window start_after))
