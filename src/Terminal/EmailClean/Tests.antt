-- ===== src/Terminal/EmailClean/Tests.antt =====
-- Cleaning a short list.
use mail_chad.Base.{lstrip, rstrip, starts_with}
use mail_chad.Base.{
  ◌+◌, ◌≡◌, ◌⊎◌, refl, Bool, true, Option, none, List, [], ◌∷◌, ◌++◌, Text, str, text_eq, length,
  In,
}
use mail_chad.Terminal.EmailClean.{
  Reason, role_account, bad_syntax, accepted, rejected, clean_email, clean_rows, is_dead, lower,
  one_of, matches, split_at_sign, pieces, is_atom_char, without_break,
}
use mail_chad.Terminal.EmailClean.Loop.{Origin, Distinct, count, clean_rows-Tidy}

accepts :
    clean_email (str " <Ann.Lee@Mail.Example.org> ") ≡ accepted (str "ann.lee@mail.example.org")
unfolding clean_email lower lstrip rstrip starts_with one_of matches split_at_sign pieces
    is_atom_char without_break text_eq
accepts = refl

refuses_role : clean_email (str "mailto:info@example.org") ≡ rejected role_account
unfolding clean_email lower lstrip rstrip starts_with one_of matches split_at_sign pieces
    is_atom_char without_break text_eq
refuses_role = refl

refuses_syntax : clean_email (str "ann@localhost") ≡ rejected bad_syntax
unfolding clean_email lower lstrip rstrip starts_with one_of matches split_at_sign pieces
    is_atom_char without_break text_eq
refuses_syntax = refl

-- A line break inside the brackets gets past the list of disposable domains.
keeps_break :
    clean_email (str "ann@yopmail.com" ++ (10 ∷ str ">"))
    ≡ accepted (str "ann@yopmail.com" ++ (10 ∷ []))
unfolding clean_email lower lstrip rstrip starts_with one_of matches split_at_sign pieces
    is_atom_char without_break text_eq
keeps_break = refl

abbrev no_lookup : Text → Option Bool
no_lookup domain = none

abbrev rows : List Text
rows = str "Ann@example.org" ∷ str "info@example.org" ∷ str "ann@example.org" ∷ []

clean_rows-Tidy_example :
    let b = clean_rows no_lookup rows in
    ((raw e : Text)
      → In raw rows
      → clean_email raw ≡ accepted e
      → In e b.clean ⊎ (is_dead no_lookup e ≡ true))
    × ((e : Text) → In e b.clean → Origin no_lookup rows e)
    × Distinct b.clean
    × (length b.clean + length b.dropped ≡ length rows)
    × ((r : Reason) → b.stats r ≡ count r b.dropped)
clean_rows-Tidy_example = clean_rows-Tidy no_lookup rows
