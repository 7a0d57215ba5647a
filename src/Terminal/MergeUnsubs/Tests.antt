-- ===== src/Terminal/MergeUnsubs/Tests.antt =====
-- A promotional entry, and one without a scope for the same hash.
use mail_chad.Base.{◌≡◌, refl, false, none, some, List, [], ◌∷◌, Text, str, In, is_empty, text_eq}
use mail_chad.Base.Table.{FunTable, fun_table, empty_table, get_item}
use mail_chad.Terminal.MergeUnsubs.{Pulled, Suppressed, scope_of, merge_unsubs, merge_all}
use mail_chad.Terminal.MergeUnsubs.Widen.{Widens, Covers, merge_unsubs-Widens}

abbrev nobody : FunTable Suppressed
nobody = empty_table

abbrev unsubs : List Pulled
unsubs =
    record { email_hash = some (str "ab"); scope = some (str "promotional"); added_at = none }
    ∷ record { email_hash = some (str "ab"); scope = none; added_at = none }
    ∷ []

both_applied : (merge_unsubs (str "08:00") unsubs nobody).0 ≡ 2
unfolding merge_unsubs merge_all text_eq
both_applied = refl

merge_unsubs-Widens_example :
    let t' = (merge_unsubs (str "08:00") unsubs nobody).1 in
    ((j : Text)
      → Widens (get_item {Item = Suppressed} j nobody) (get_item {Item = Suppressed} j t'))
    × ((u : Pulled) (h : Text)
        → In u unsubs
        → u.email_hash ≡ some h
        → is_empty h ≡ false
        → Covers (scope_of u.scope) (get_item {Item = Suppressed} h t'))
merge_unsubs-Widens_example = merge_unsubs-Widens (str "08:00") unsubs nobody
