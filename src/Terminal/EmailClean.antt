-- ===== src/Terminal/EmailClean.antt =====
-- mailman/terminal/email_clean.py: cleaning a list of addresses. Texts are taken as ASCII: `lower` and
-- `strip` keep what is not. The DNS lookup is a parameter; `_has_mx` asks it once for each domain.
pub mod Loop
mod Tests
use mail_chad.Base.{
  ℕ, zero, suc, ◌+◌, ◌-◌, ◌==◌, Bool, true, false, not, ◌&&◌, ◌||◌, Option, none, some, List, [],
  ◌∷◌, ◌++◌, Text, text_eq, is_empty, if◌then◌else◌, leb, ltb, length, drop, contains, str, lstrip,
  rstrip, strip, starts_with, removeprefix,
}

-- Why an address is dropped.
pub data Reason : Type 0 where
  empty bad_syntax role_account disposable_domain duplicate no_mx : Reason

pub data Cleaned : Type 0 where
  accepted : (email : Text) → Cleaned
  rejected : Reason → Cleaned

abbrev pub between : ℕ → ℕ → ℕ → Bool
between lo hi c = leb lo c && leb c hi

abbrev pub is_space : ℕ → Bool
is_space c = between 9 13 c || between 28 32 c

abbrev pub lower_char : ℕ → ℕ
lower_char c = if between b'A' b'Z' c then c + 32 else c

unfoldable pub lower : Text → Text
lower [] = []
lower (c ∷ s) = lower_char c ∷ lower s

-- `email.partition("@")`: what stands before the first `@`, and what behind it.
unfoldable pub split_at_sign : Text → Text × Option Text
split_at_sign [] = ([], none)
split_at_sign (c ∷ s) =
    let (before, behind) = split_at_sign s in
    if c == b'@' then ([], some s) else (c ∷ before, behind)

-- The pieces between the dots.
unfoldable pub pieces : Text → List Text
pieces [] = [] ∷ []
pieces (c ∷ s) = elim (pieces s) [
  | [] ↦ (c ∷ []) ∷ []
  | ◌∷◌ p ps ↦ if c == b'.' then [] ∷ p ∷ ps else (c ∷ p) ∷ ps
]

abbrev pub every : (ℕ → Bool) → Text → Bool
every p [] = true
every p (c ∷ s) = p c && every p s

abbrev pub is_lower_letter : ℕ → Bool
is_lower_letter c = between b'a' b'z' c

abbrev pub is_alnum : ℕ → Bool
is_alnum c = is_lower_letter c || between b'0' b'9' c

unfoldable pub one_of : Text → ℕ → Bool
one_of [] c = false
one_of (d ∷ s) c = c == d || one_of s c

-- The character class of `_EMAIL_RE` before the `@`.
unfoldable pub is_atom_char : ℕ → Bool
unfolding one_of
is_atom_char c = is_alnum c || one_of (str "!#$%&'*+/=?^_`{|}~-") c

abbrev last_char : ℕ → Text → ℕ
last_char c [] = c
last_char c (d ∷ s) = last_char d s

-- `[a-z0-9](?:[a-z0-9-]{0,61}[a-z0-9])?`
abbrev pub is_label : Text → Bool
is_label [] = false
is_label (c ∷ s) =
    is_alnum c
    && is_alnum (last_char c s)
    && every (λ d. is_alnum d || d == b'-') s
    && leb (length s) 62

abbrev pub is_top_level : Text → Bool
is_top_level s = every is_lower_letter s && leb 2 (length s)

abbrev pub is_atom : Text → Bool
is_atom s = not (is_empty s) && every is_atom_char s

abbrev all_atoms : List Text → Bool
all_atoms [] = true
all_atoms (p ∷ ps) = is_atom p && all_atoms ps

-- Labels with a dot behind each, at least one, and the top level.
abbrev is_domain : List Text → Bool
is_domain [] = false
is_domain (p ∷ []) = false
is_domain (p ∷ q ∷ []) = is_label p && is_top_level q
is_domain (p ∷ q ∷ r ∷ ps) = is_label p && is_domain (q ∷ r ∷ ps)

-- The `$` of the expression also matches before a line break at the end.
unfoldable pub without_break : Text → Text
without_break [] = []
without_break (c ∷ s) = elim s [
  | [] ↦ if c == 10 then [] else c ∷ []
  | ◌∷◌ d ds ↦ c ∷ without_break s
]

-- `_EMAIL_RE.match(email)`
unfoldable pub matches : Text → Bool
unfolding split_at_sign pieces is_atom_char without_break
matches email =
    let (local, domain) = split_at_sign (without_break email) in
    elim domain [ none ↦ false | some d ↦ all_atoms (pieces local) && is_domain (pieces d) ]

abbrev pub normalised : Text → Text
normalised raw =
    strip (λ c. one_of (str "<> \t") c) (removeprefix (str "mailto:") (lower (strip is_space raw)))

-- `_ROLE_LOCALPARTS`
abbrev pub role_localparts : List Text
role_localparts =
    str "info"
    ∷ str "admin"
    ∷ str "administrator"
    ∷ str "support"
    ∷ str "sales"
    ∷ str "contact"
    ∷ str "hello"
    ∷ str "help"
    ∷ str "office"
    ∷ str "enquiries"
    ∷ str "inquiries"
    ∷ str "noreply"
    ∷ str "no-reply"
    ∷ str "donotreply"
    ∷ str "postmaster"
    ∷ str "abuse"
    ∷ str "webmaster"
    ∷ str "hostmaster"
    ∷ str "marketing"
    ∷ str "team"
    ∷ str "mail"
    ∷ str "billing"
    ∷ str "accounts"
    ∷ str "careers"
    ∷ str "jobs"
    ∷ str "hr"
    ∷ str "press"
    ∷ str "media"
    ∷ str "legal"
    ∷ str "privacy"
    ∷ str "security"
    ∷ str "root"
    ∷ []

-- `_DISPOSABLE_DOMAINS`
abbrev pub disposable_domains : List Text
disposable_domains =
    str "mailinator.com"
    ∷ str "guerrillamail.com"
    ∷ str "10minutemail.com"
    ∷ str "tempmail.com"
    ∷ str "throwawaymail.com"
    ∷ str "yopmail.com"
    ∷ str "trashmail.com"
    ∷ str "getnada.com"
    ∷ str "sharklasers.com"
    ∷ str "maildrop.cc"
    ∷ str "dispostable.com"
    ∷ str "fakeinbox.com"
    ∷ str "temp-mail.org"
    ∷ []

abbrev pub domain_of : Option Text → Text
domain_of none = []
domain_of (some d) = d

unfoldable pub clean_email : Text → Cleaned
unfolding lower lstrip rstrip starts_with one_of matches split_at_sign
clean_email raw =
    let email = normalised raw in
    let (local, domain) = split_at_sign email in
    if is_empty raw
    then rejected empty
    else if not (matches email)
    then rejected bad_syntax
    else if contains local role_localparts
    then rejected role_account
    else if contains (domain_of domain) disposable_domains
    then rejected disposable_domain
    else accepted email

-- `email.split("@")[1]` of an address that has one `@`.
unfoldable pub mx_domain : Text → Text
unfolding split_at_sign
mx_domain email = domain_of (split_at_sign email).1

pub record Dropped : Type 0 where
  pub email : Text
  pub reason : Reason

pub record Batch : Type 0 where
  pub clean : List Text
  pub dropped : List Dropped
  pub seen : List Text
  pub stats : Reason → ℕ

abbrev pub same_reason : Reason → Reason → Bool
same_reason empty empty = true
same_reason bad_syntax bad_syntax = true
same_reason role_account role_account = true
same_reason disposable_domain disposable_domain = true
same_reason duplicate duplicate = true
same_reason no_mx no_mx = true
same_reason _ _ = false

-- `_drop`
abbrev pub drop_row : Text → Reason → Batch → Batch
drop_row email reason b = record b {
  dropped = b.dropped ++ (record { email = email; reason = reason } ∷ []);
  stats = λ r. if same_reason reason r then b.stats r + 1 else b.stats r;
}

-- `(raw or "").strip().lower()`
unfoldable pub shown : Text → Text
unfolding lower lstrip rstrip
shown raw = lower (strip is_space raw)

abbrev pub no_rows : Batch
no_rows = record { clean = []; dropped = []; seen = []; stats = λ r. 0 }

-- `mx` is none where `check_mx` is off or the lookup cannot tell.
module _ (mx : Text → Option Bool) where
  abbrev pub is_dead : Text → Bool
  is_dead email = elim (mx (mx_domain email)) [ none ↦ false | some found ↦ not found ]

  abbrev pub keep_row : Text → Batch → Batch
  keep_row email b =
      if contains email b.seen
      then drop_row email duplicate b
      else let b' = record b { seen = email ∷ b.seen } in
        if is_dead email
        then drop_row email no_mx b'
        else record b' { clean = b.clean ++ (email ∷ []) }

  abbrev pub clean_row : Text → Cleaned → Batch → Batch
  clean_row raw (rejected reason) b = drop_row (shown raw) reason b
  clean_row raw (accepted email) b = keep_row email b

  -- The loop of `clean_rows`.
  unfoldable pub clean_all : List Text → Batch → Batch
  clean_all [] b = b
  clean_all (raw ∷ raws) b = clean_all raws (clean_row raw (clean_email raw) b)

  unfoldable pub clean_rows : List Text → Batch
  unfolding clean_all
  clean_rows emails = clean_all emails no_rows
