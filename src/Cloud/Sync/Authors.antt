-- ===== src/Cloud/Sync/Authors.antt =====
-- What a push may add to the store: events of the terminal that pushes, and near conflicts that are
-- near and between two authors.
use mail_chad.Base.{
  ℕ, ◌+◌, ◌<◌, ◌≡◌, ◌⊎◌, refl, sym, subst, Bool, true, false, Option, none, some, List, [], ◌∷◌,
  ◌++◌, Text, text_eq, text_eq→eq, In, inl, inr, arith, Bool-cases, Option-cases, length,
  length-append,
}
use mail_chad.Base.Table.{Table}
use mail_chad.Base.Partition.{Rows, row_table, In-put_row, All-put_row, put_row-IsAscending}
use mail_chad.Cloud.Event.{Event, put_event, event_sk}
use mail_chad.Cloud.Sync.{
  Wire, Conflict, Store, Pushed, PushEnd, all_accepted, unreadable, near, is_near, note_conflict,
  check_event, read_event, store_event, push_events, sync_push, put_near_conflict,
  query_latest_event_for_row,
}
use mail_chad.Cloud.Sync.Pull.{Keyed, IsLog}

-- Less than 60 seconds apart, and by two authors, the later one the terminal that pushed.
abbrev pub IsNear : (bearer : Text) → Conflict → Type 0
IsNear bearer c =
    (c.delta < 60000000) × (c.actor_b ≡ bearer) × (text_eq c.actor_a c.actor_b ≡ false)

check_event-actor :
    (bearer : Text) (e : Event) → check_event bearer e ≡ none → text_eq e.actor bearer ≡ true
check_event-actor bearer e h = ground arith

abbrev pub is_accepted : PushEnd → Bool
is_accepted all_accepted = true
is_accepted _ = false

check_event-refuses :
    (bearer : Text) (e : Event) {why : PushEnd}
    → check_event bearer e ≡ some why
    → is_accepted why ≡ false
check_event-refuses bearer e h = ground arith

module _ {C : Type 0} ⦃ids : Table C ℕ⦄ where
  -- What a push by the terminal may do to the store: only its own events are added, and only genuine
  -- near conflicts, and the log stays in order.
  pub record Sound (bearer : Text) (s s' : Store C) : Type 0 where
    pub authors : (r : Text × Event) → In r s'.log.events → In r s.log.events ⊎ (r.1.actor ≡ bearer)
    pub conflicts : (r : Text × Conflict) → In r s'.conflicts → In r s.conflicts ⊎ IsNear bearer r.1
    pub in_order : IsLog s.log.events → IsLog s'.log.events

  Sound-refl : (bearer : Text) (s : Store C) → Sound bearer s s
  Sound-refl bearer s = record {
    authors = λ r m. inl m;
    conflicts = λ r m. inl m;
    in_order = λ h. h;
  }

  Sound-trans :
      (bearer : Text) (s s' s'' : Store C)
      → Sound bearer s s'
      → Sound bearer s' s''
      → Sound bearer s s''
  Sound-trans bearer s s' s'' f g = record {
    authors = λ r m. elim (g.authors r m) [ inl h ↦ f.authors r h | inr h ↦ inr h ];
    conflicts = λ r m. elim (g.conflicts r m) [ inl h ↦ f.conflicts r h | inr h ↦ inr h ];
    in_order = λ h. g.in_order (f.in_order h);
  }

  Sound-put_event :
      (bearer : Text) (e : Event) (s : Store C)
      → e.actor ≡ bearer
      → Sound bearer s (record s { log = (put_event e s.log).1 })
  unfolding put_event
  Sound-put_event bearer e s same =
      let event_id = (put_event e s.log).0 in
      let stored = record e { event_id = event_id } in
      record {
        authors = λ r m. elim (In-put_row (event_sk event_id) stored s.log.events r m) [
          | inl h ↦ inr (rw h same)
          | inr h ↦ inl h
        ];
        conflicts = λ r m. inl m;
        in_order = λ (a, k). (
          put_row-IsAscending (event_sk event_id) stored s.log.events a,
          All-put_row Keyed (event_sk event_id) stored s.log.events refl k,
        );
      }

  Sound-put_near_conflict :
      (bearer : Text) (c : Conflict) (s : Store C)
      → IsNear bearer c
      → Sound bearer s (put_near_conflict c s).1
  unfolding put_near_conflict
  Sound-put_near_conflict bearer c s h =
      let conflict_id = (put_near_conflict c s).0 in
      let stored = record c { conflict_id = conflict_id } in
      record {
        authors = λ r m. inl m;
        conflicts = λ r m. elim (In-put_row (event_sk conflict_id) stored s.conflicts r m) [
          | inl e ↦ inr (rw e h)
          | inr n ↦ inl n
        ];
        in_order = λ a. a;
      }

  module _ (between : Text → Text → Option ℕ) (index : Rows Event → Rows Event) (now : Text) where
    Sound-note_conflict :
        (bearer : Text) (o : Option Event) (table row_id : Text) (event_id : ℕ) (mod_at : Text)
        (s : Pushed C)
        → Sound bearer s.store
            (note_conflict between index now o table row_id event_id bearer mod_at s).store
    Sound-note_conflict bearer none table row_id event_id mod_at s = Sound-refl bearer s.store
    Sound-note_conflict bearer (some prior) table row_id event_id mod_at s =
        elim (Bool-cases (is_near between prior bearer mod_at)) [
          | inl e ↦ rw e (
              Sound-put_near_conflict bearer
                (near between now table row_id prior event_id bearer mod_at) s.store
                (ground arith, refl, ground arith))
          | inr e ↦ rw e (Sound-refl bearer s.store)
        ]

    note_conflict-ids :
        (o : Option Event) (table row_id : Text) (event_id : ℕ) (act mod_at : Text) (s : Pushed C)
        → (note_conflict between index now o table row_id event_id act mod_at s).accepted_ids
          ≡ s.accepted_ids
    note_conflict-ids none table row_id event_id act mod_at s = refl
    note_conflict-ids (some prior) table row_id event_id act mod_at s =
        elim (Bool-cases (is_near between prior act mod_at)) [
          | inl e ↦ rw e refl
          | inr e ↦ rw e refl
        ]

    -- The loop's state once the event is inserted, and what the index then shows of its row.
    abbrev inserted : Event → Pushed C → Pushed C
    inserted e s =
        let st = s.store in
        record s {
          store = record st { log = (put_event e st.log).1 };
          accepted_ids = s.accepted_ids ++ ((put_event e st.log).0 ∷ []);
        }

    abbrev prior_of : Event → Pushed C → Option Event
    prior_of e s =
        query_latest_event_for_row e.table_name e.row_id (put_event e s.store.log).0
          (index (put_event e s.store.log).1.events)

    Sound-store_event :
        (e : Event) (s : Pushed C) → Sound e.actor s.store (store_event between index now e s).store
    unfolding store_event
    Sound-store_event e s =
        Sound-trans e.actor s.store (inserted e s).store _ (Sound-put_event e.actor e s.store refl)
          (Sound-note_conflict e.actor (prior_of e s) e.table_name e.row_id
            (put_event e s.store.log).0 e.modified_at (inserted e s))

    store_event-ids :
        (e : Event) (s : Pushed C)
        → length (store_event between index now e s).accepted_ids ≡ length s.accepted_ids + 1
    unfolding store_event
    store_event-ids e s =
        rw
          (note_conflict-ids (prior_of e s) e.table_name e.row_id (put_event e s.store.log).0
            e.actor e.modified_at (inserted e s))
          (length-append s.accepted_ids ((put_event e s.store.log).0 ∷ []))

    -- The loop on one event: it ends there, with the state as it is, or goes on with the event
    -- inserted.
    abbrev Takes : Text → Wire → List Wire → Pushed C → Event → Type 0
    Takes bearer raw raws s e =
        (e.actor ≡ bearer)
        × (push_events between index now bearer (raw ∷ raws) s
            ≡ push_events between index now bearer raws (store_event between index now e s))

    abbrev Refuses : Text → Wire → List Wire → Pushed C → PushEnd → Type 0
    Refuses bearer raw raws s why =
        (push_events between index now bearer (raw ∷ raws) s ≡ (why, s)) × (is_accepted why ≡ false)

    push_events-step :
        (bearer : Text) (raw : Wire) (raws : List Wire) (s : Pushed C)
        → ((why : PushEnd) × Refuses bearer raw raws s why)
          ⊎ ((e : Event) × Takes bearer raw raws s e)
    unfolding push_events
    push_events-step bearer raw raws s = elim (Option-cases (read_event now bearer raw)) [
      | inl n ↦ inl (unreadable, (rw (n, push_events) refl, refl))
      | inr (e, n) ↦ elim (Option-cases (check_event bearer e)) [
        | inl c ↦ inr (
          e,
          (text_eq→eq e.actor bearer (check_event-actor bearer e c), rw (n, c, push_events) refl),
        )
        | inr (why, c) ↦ inl (why, (rw (n, c, push_events) refl, check_event-refuses bearer e c))
      ]
    ]

    push_events-Sound :
        (bearer : Text) (raws : List Wire) (s : Pushed C)
        → Sound bearer s.store (push_events between index now bearer raws s).1.store
    push_events-Sound bearer [] s = unfold push_events in Sound-refl bearer s.store
    push_events-Sound bearer (raw ∷ raws) s = elim (push_events-step bearer raw raws s) [
      | inl (why, (same, never)) ↦
          subst (λ r. Sound bearer s.store r.1.store) (sym same) (Sound-refl bearer s.store)
      | inr (e, (actor, same)) ↦
          subst (λ r. Sound bearer s.store r.1.store) (sym same)
            (Sound-trans bearer s.store (store_event between index now e s).store _
              (subst (λ a. Sound a s.store (store_event between index now e s).store) actor
                (Sound-store_event e s))
              (push_events-Sound bearer raws (store_event between index now e s)))
    ]

    push_events-ids :
        (bearer : Text) (raws : List Wire) (s : Pushed C)
        → is_accepted (push_events between index now bearer raws s).0 ≡ true
        → length (push_events between index now bearer raws s).1.accepted_ids
          ≡ length s.accepted_ids + length raws
    push_events-ids bearer [] s h = unfold push_events in omega arith
    push_events-ids bearer (raw ∷ raws) s h = elim (push_events-step bearer raw raws s) [
      | inl (why, (same, never)) ↦ let yes = rw same at h in ground arith
      | inr (e, (actor, same)) ↦
          let rest =
            push_events-ids bearer raws (store_event between index now e s) (rw same at h) in
          rw same (omega (arith, rest, store_event-ids e s))
    ]

    -- Whatever a terminal pushes, and whether the call is refused half-way or not, every event that
    -- it adds to the log carries the terminal's own name, every near conflict that it adds is less
    -- than 60 seconds wide and between two authors, and the log keeps its order. A call that is not
    -- refused assigns one id to each event.
    pub sync_push-Sound :
        (bearer : Text) (raws : List Wire) (s : Store C)
        → Sound bearer s (sync_push between index now bearer raws s).1.store
          × (is_accepted (sync_push between index now bearer raws s).0 ≡ true
              → length (sync_push between index now bearer raws s).1.accepted_ids ≡ length raws)
    unfolding sync_push
    sync_push-Sound bearer raws s =
        let begun : Pushed C = record { store = s; accepted_ids = []; near_conflicts = [] } in
        (
          push_events-Sound bearer raws begun,
          λ h. omega (arith, push_events-ids bearer raws begun h),
        )
