-- ===== src/Terminal/CampaignLock/Tests.antt =====
-- Two campaigns with one contact: the first is in its window until ten, the second is being checked.
use mail_chad.Base.{ℕ, ◌≡◌, refl, none, some, List, [], ◌∷◌, str, In, text_lt, map}
use mail_chad.Terminal.CampaignLock.{
  Campaign, Recipient, Lock, lock_of, find_conflicts, confirm_elapsed_locks,
}
use mail_chad.Terminal.CampaignLock.Conflicts.{Holds, find_conflicts-Holds}

abbrev running : Campaign
running = record {
  id = 1;
  name = str "spring";
  dispatched_at = some (str "08:00");
  lock_until = some (str "10:00");
  unsubs_confirmed_at = none;
}

abbrev campaigns : List Campaign
campaigns = running ∷ record running { id = 2; lock_until = none; dispatched_at = none } ∷ []

abbrev recipients : List Recipient
recipients =
    record { campaign_id = 1; contact_id = 7; clicked_at = none }
    ∷ record { campaign_id = 1; contact_id = 8; clicked_at = some (str "08:30") }
    ∷ []

-- Contact 8 has clicked, and is free.
only_seven :
    map (λ k. k.contact_id) (find_conflicts 2 (str "09:00") campaigns recipients (8 ∷ 7 ∷ []))
    ≡ 7 ∷ []
unfolding find_conflicts text_lt
only_seven = refl

-- After the window nobody is locked, although no pull has been completed.
released_unconfirmed : find_conflicts 2 (str "11:00") campaigns recipients (8 ∷ 7 ∷ []) ≡ []
unfolding find_conflicts text_lt
released_unconfirmed = refl

confirms_one : (confirm_elapsed_locks (str "11:00") (str "09:30") campaigns).0 ≡ 1
unfolding confirm_elapsed_locks text_lt
confirms_one = refl

find_conflicts-Holds_example :
    let found = find_conflicts 2 (str "09:00") campaigns recipients (8 ∷ 7 ∷ []) in
    ((k : Lock)
      → In k found
      → In k.contact_id (8 ∷ 7 ∷ [])
        × ((r : Recipient) × (c : Campaign) × In r recipients
            × In c campaigns
            × (lock_of r c ≡ k)
            × Holds 2 (str "09:00") k.contact_id r c))
    × ((id : ℕ) (r : Recipient) (c : Campaign)
        → In id (8 ∷ 7 ∷ [])
        → In r recipients
        → In c campaigns
        → Holds 2 (str "09:00") id r c
        → (k : Lock) × In k found × (k.contact_id ≡ id))
find_conflicts-Holds_example =
    find_conflicts-Holds 2 (str "09:00") campaigns recipients (8 ∷ 7 ∷ [])
