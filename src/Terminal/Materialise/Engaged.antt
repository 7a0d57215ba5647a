-- ===== src/Terminal/Materialise/Engaged.antt =====
-- What the materialiser never undoes.
use mail_chad.Base.{
  ◌≡◌, ◌≢◌, refl, sym, ap, ◌∙◌, ◌⊎◌, subst, Bool, true, false, some, List, [], ◌∷◌, Text, str,
  text_eq, text_eq→eq, All, All-In, In, Bool-cases, inl, inr,
}
use mail_chad.Terminal.Outcomes.{update_where}
use mail_chad.Terminal.Outcomes.Effect.{Each}
use mail_chad.Terminal.Inbox.{InboxRow}
use mail_chad.Terminal.Materialise.{
  Mail, find_mail, is_final, is_bounce, is_complaint, noted, is_guarded,
}

-- A mail keeps its place, and a bounce or a complaint is only followed by one.
abbrev pub MailMove : Mail → Mail → Type 0
MailMove m q =
    (q.id ≡ m.id)
    × (q.contact_id ≡ m.contact_id)
    × (q.message_id ≡ m.message_id)
    × (is_final m.status ≡ true → is_final q.status ≡ true)

-- An inbox row keeps its event, and is at most stamped.
abbrev pub RowMove : Text → InboxRow → InboxRow → Type 0
RowMove now r q =
    (q.event ≡ r.event)
    × (q.payload ≡ r.payload)
    × ((q.materialised_at ≡ r.materialised_at) ⊎ (q.materialised_at ≡ some now))

-- The primary key.
abbrev pub Keyed : List Mail → Type 0
Keyed [] = Unit
Keyed (m ∷ ms) = All (λ q. q.id ≢ m.id) ms × Keyed ms

pub Each-trans :
    {A : Type 0} (R : A → A → Type 0)
    → ((x y z : A) → R x y → R y z → R x z)
    → (xs ys zs : List A) → Each R xs ys
    → Each R ys zs
    → Each R xs zs
Each-trans R t [] [] [] h k = tt
Each-trans R t [] [] (z ∷ zs) h k = absurd k
Each-trans R t [] (y ∷ ys) zs h k = absurd h
Each-trans R t (x ∷ xs) [] zs h k = absurd h
Each-trans R t (x ∷ xs) (y ∷ ys) [] h k = absurd k
Each-trans R t (x ∷ xs) (y ∷ ys) (z ∷ zs) h k = (t x y z h.0 k.0, Each-trans R t xs ys zs h.1 k.1)

pub MailMove-trans : (a b c : Mail) → MailMove a b → MailMove b c → MailMove a c
MailMove-trans a b c (i, j, k, f) (i', j', k', f') = (i' ∙ i, j' ∙ j, k' ∙ k, λ h. f' (f h))

pub RowMove-trans :
    (now : Text) (a b c : InboxRow) → RowMove now a b → RowMove now b c → RowMove now a c
RowMove-trans now a b c (i, j, k) (i', j', k') = (
  i' ∙ i,
  j' ∙ j,
  elim k' [ inr e ↦ inr e | inl e ↦ elim k [ inl e' ↦ inl (e ∙ e') | inr e' ↦ inr (e ∙ e') ] ],
)

-- The ids decide whether a table keeps its key.
pub Keyed-Each : (ms qs : List Mail) → Each MailMove ms qs → Keyed ms → Keyed qs
Keyed-Each [] [] h k = tt
Keyed-Each [] (q ∷ qs) h k = absurd h
Keyed-Each (m ∷ ms) [] h k = absurd h
Keyed-Each (m ∷ ms) (q ∷ qs) h k = (apart ms qs h.1 k.0, Keyed-Each ms qs h.1 k.1)
  where
    apart :
        (xs ys : List Mail)
        → Each MailMove xs ys
        → All (λ x. x.id ≢ m.id) xs
        → All (λ x. x.id ≢ q.id) ys
    apart [] [] e a = tt
    apart [] (y ∷ ys) e a = absurd e
    apart (x ∷ xs) [] e a = absurd e
    apart (x ∷ xs) (y ∷ ys) e a = (λ s. a.0 (sym e.0.0 ∙ s ∙ h.0.0), apart xs ys e.1 a.1)

pub Keyed-same : (ms : List Mail) (m q : Mail) → Keyed ms → In m ms → In q ms → q.id ≡ m.id → q ≡ m
Keyed-same [] m q k a b e = absurd a
Keyed-same (x ∷ ms) m q k (inl a) (inl b) e = sym b ∙ a
Keyed-same (x ∷ ms) m q k (inl a) (inr b) e =
    absurd (All-In (λ y. y.id ≢ x.id) q ms k.0 b (e ∙ sym (ap (λ (y : Mail). y.id) a)))
Keyed-same (x ∷ ms) m q k (inr a) (inl b) e =
    absurd (All-In (λ y. y.id ≢ x.id) m ms k.0 a (sym e ∙ sym (ap (λ (y : Mail). y.id) b)))
Keyed-same (x ∷ ms) m q k (inr a) (inr b) e = Keyed-same ms m q k.1 a b e

pub Each-update_In :
    (p : Mail → Bool) (f : Mail → Mail) (ms : List Mail)
    → ((x : Mail) → In x ms → p x ≡ true → MailMove x (f x))
    → Each MailMove ms (update_where p f ms)
Each-update_In p f [] h = tt
Each-update_In p f (m ∷ ms) h = elim (Bool-cases (p m)) [
  | inl e ↦ rw e (h m (inl refl) e, Each-update_In p f ms (λ x i. h x (inr i)))
  | inr e ↦ rw e ((refl, refl, refl, λ q. q), Each-update_In p f ms (λ x i. h x (inr i)))
]

pub find_mail-In : (id : Text) (ms : List Mail) (m : Mail) → find_mail id ms ≡ some m → In m ms
unfolding find_mail
find_mail-In id [] m h = cc
find_mail-In id (x ∷ ms) m h = elim (Bool-cases (text_eq x.message_id id)) [
  | inl e ↦ let h' = rw e at h in inl (cc)
  | inr e ↦ inr (find_mail-In id ms m (rw e at h))
]

-- A click that is let through finds no bounce and no complaint.
click-open :
    (event_type : Text) (m : Mail)
    → text_eq event_type (str "email.clicked") ≡ true
    → is_guarded event_type m ≡ false
    → is_final m.status ≡ false
unfolding text_eq
click-open event_type m c h =
    let h' =
      subst (λ t. is_guarded t m ≡ false) (text_eq→eq event_type (str "email.clicked") c) h in
    elim (Bool-cases (is_final m.status)) [ inl e ↦ let k = rw e at h' in cc | inr e ↦ e ]

bounced-is_final : is_final (str "bounced") ≡ true
unfolding text_eq
bounced-is_final = refl

complained-is_final : is_final (str "complained") ≡ true
unfolding text_eq
complained-is_final = refl

pub noted-MailMove :
    (now event_type : Text) (m : Mail)
    → is_guarded event_type m ≡ false
    → MailMove m (noted now event_type m)
noted-MailMove now event_type m h = elim (Bool-cases (text_eq event_type (str "email.opened"))) [
  | inl o ↦ rw o (refl, refl, refl, λ q. q)
  | inr o ↦ elim (Bool-cases (text_eq event_type (str "email.clicked"))) [
    | inl c ↦ let f = click-open event_type m c h in rw (o, c) (refl, refl, refl, λ q. cc)
    | inr c ↦ elim (Bool-cases (is_bounce event_type)) [
      | inl b ↦ rw (o, c, b) (refl, refl, refl, λ q. bounced-is_final)
      | inr b ↦ elim (Bool-cases (is_complaint event_type)) [
        | inl d ↦ rw (o, c, b, d) (refl, refl, refl, λ q. complained-is_final)
        | inr d ↦ rw (o, c, b, d) (refl, refl, refl, λ q. q)
      ]
    ]
  ]
]
