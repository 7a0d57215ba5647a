-- ===== src/Terminal/Push/Claims.antt =====
-- Presses of Re-launch that come at the same time.
use mail_chad.Base.{
  ℕ, ◌+◌, ◌≤◌, ◌<◌, ◌≡◌, refl, Bool, true, false, ◌==◌, ==_iff, Option, none, some, List, [], ◌∷◌,
  if◌then◌else◌, arith, Bool-cases, inl, inr,
}
use mail_chad.Terminal.Push.{
  Relaunch, Claim, claimed, stale, claim_relaunch, open_relaunch, close_relaunch,
}

-- The updates that presses make of a stored campaign, in the order in which the database makes them:
-- the claim of a press with the number its page showed, the opening, and the closing at the end.
pub data Move : Type 0 where
  claim : (expected : Option ℕ) → Move
  opening : Move
  closing : (gen : ℕ) → Move

abbrev row_of : Relaunch → Option Relaunch → Relaunch
row_of c none = c
row_of c (some d) = d

pub after_move : Move → Relaunch → Relaunch
after_move (claim expected) c = row_of c (claim_relaunch expected (some c)).1
after_move opening c = (open_relaunch c).1
after_move (closing gen) c = close_relaunch gen c

abbrev shows : (seq : ℕ) → Option ℕ → Bool
shows seq none = false
shows seq (some e) = e == seq

abbrev succeeds : Claim → Bool
succeeds claimed = true
succeeds stale = false

-- Whether a press whose page showed `seq` gets its claim.
abbrev wins : (seq : ℕ) → Move → Relaunch → Bool
wins seq (claim expected) c =
    if shows seq expected then succeeds (claim_relaunch expected (some c)).0 else false
wins seq opening c = false
wins seq (closing gen) c = false

-- Whether a generation is opened.
abbrev opens : Move → Relaunch → Bool
opens (claim expected) c = false
opens opening c = if (open_relaunch c).0.1 then false else true
opens (closing gen) c = false

abbrev closes : Move → Bool
closes (claim expected) = false
closes opening = false
closes (closing gen) = true

abbrev add_if : Bool → ℕ → ℕ
add_if true n = n + 1
add_if false n = n

pub wins_of : (seq : ℕ) → List Move → Relaunch → ℕ
wins_of seq [] c = 0
wins_of seq (m ∷ ms) c = add_if (wins seq m c) (wins_of seq ms (after_move m c))

pub openings_of : List Move → Relaunch → ℕ
openings_of [] c = 0
openings_of (m ∷ ms) c = add_if (opens m c) (openings_of ms (after_move m c))

pub closings_of : List Move → ℕ
closings_of [] = 0
closings_of (m ∷ ms) = add_if (closes m) (closings_of ms)

-- The number of a campaign never falls, and rises with a claim.
after_move-seq : (m : Move) (c : Relaunch) → c.seq ≤ (after_move m c).seq
unfolding after_move claim_relaunch open_relaunch close_relaunch
after_move-seq (claim none) c = ground arith
after_move-seq (claim (some e)) c = ground arith
after_move-seq opening c = ground arith
after_move-seq (closing gen) c = ground arith

wins-seq :
    (seq : ℕ) (m : Move) (c : Relaunch)
    → wins seq m c ≡ true
    → (c.seq ≡ seq) × ((after_move m c).seq ≡ seq + 1)
unfolding after_move claim_relaunch
wins-seq seq (claim none) c h = ground arith
wins-seq seq (claim (some e)) c h = elim (Bool-cases (e == seq)) [
  | inr n ↦ absurd (apart (rw n at h))
  | inl shown ↦ elim (Bool-cases (c.seq == e)) [
    | inr n ↦ absurd (apart (rw (shown, n, claim_relaunch) at h))
    | inl same ↦
        rw same (
          ground (arith, ==_iff c.seq e, ==_iff e seq),
          ground (arith, ==_iff c.seq e, ==_iff e seq),
        )
  ]
]
  where
    apart : false ≡ true → ⊥
    apart q = cc
wins-seq seq opening c h = ground arith
wins-seq seq (closing gen) c h = ground arith

wins_of-past : (seq : ℕ) (ms : List Move) (c : Relaunch) → seq < c.seq → wins_of seq ms c ≡ 0
unfolding wins_of
wins_of-past seq [] c h = refl
wins_of-past seq (m ∷ ms) c h = elim (Bool-cases (wins seq m c)) [
  | inl e ↦ absurd (omega (arith, (wins-seq seq m c e).0))
  | inr e ↦ rw e (wins_of-past seq ms (after_move m c) (omega (arith, after_move-seq m c)))
]

wins_of-le : (seq : ℕ) (ms : List Move) (c : Relaunch) → wins_of seq ms c ≤ 1
unfolding wins_of
wins_of-le seq [] c = omega arith
wins_of-le seq (m ∷ ms) c = elim (Bool-cases (wins seq m c)) [
  | inl e ↦
      rw e (
        omega (arith, wins_of-past seq ms (after_move m c) (omega (arith, (wins-seq seq m c e).1))))
  | inr e ↦ rw e (wins_of-le seq ms (after_move m c))
]

abbrev room : Relaunch → ℕ
room c = if c.is_open then 0 else 1

opens-room :
    (m : Move) (c : Relaunch)
    → add_if (opens m c) (room (after_move m c)) ≤ add_if (closes m) (room c)
unfolding after_move claim_relaunch open_relaunch close_relaunch
opens-room (claim none) c = ground arith
opens-room (claim (some e)) c = ground arith
opens-room opening c = ground arith
opens-room (closing gen) c = ground arith

add_if-le :
    (a b : Bool) (n m r r' : ℕ)
    → add_if a r' ≤ add_if b r
    → n ≤ m + r'
    → add_if a n ≤ add_if b m + r
add_if-le true true n m r r' h k = omega arith
add_if-le true false n m r r' h k = omega arith
add_if-le false true n m r r' h k = omega arith
add_if-le false false n m r r' h k = omega arith

openings_of-le : (ms : List Move) (c : Relaunch) → openings_of ms c ≤ closings_of ms + room c
unfolding openings_of closings_of
openings_of-le [] c = omega arith
openings_of-le (m ∷ ms) c =
    add_if-le (opens m c) (closes m) _ _ _ _ (opens-room m c) (openings_of-le ms (after_move m c))

-- Of the presses whose pages showed the same number, at most one gets its claim. And between two
-- openings of a generation there is a closing: a campaign that is not being sent is opened at most
-- once more than it is closed, and one that is open no more often.
pub presses-once :
    (seq : ℕ) (moves : List Move) (c : Relaunch)
    → (wins_of seq moves c ≤ 1)
      × (openings_of moves c ≤ closings_of moves + (if c.is_open then 0 else 1))
presses-once seq moves c = (wins_of-le seq moves c, openings_of-le moves c)
