-- ===== src/Cloud/Unsub/Tests.antt =====
-- A promotional request that is followed by one for all mail.
use mail_chad.Base.{◌≡◌, true, false, ◌||◌, some, [], Text, str, text_eq}
use mail_chad.Base.Table.{FunTable, fun_table, empty_table}
use mail_chad.Base.Partition.{IsAscending, find_row, put_row}
use mail_chad.Cloud.Unsub.{UnsubRow, Unsubs, is_all, log_key, no_row, put_unsub, get_unsub}
use mail_chad.Cloud.Unsub.Scope.{scope_of, widened, Logged, put_unsub-widens}

abbrev before : Unsubs (FunTable UnsubRow)
before =
    (put_unsub (str "ab") (str "t") (str "promotional") (str "08:00")
      (record { cache = empty_table; log = [] })).1

put_unsub-widens_example :
    let (is_new, s') = put_unsub (str "ab") (str "t") (str "all") (str "08:01") before in
    (scope_of (get_unsub (str "ab") s'.cache)
      ≡ some (widened (str "all") (scope_of (get_unsub (str "ab") before.cache))))
    × (is_new ≡ no_row (get_unsub (str "ab") before.cache))
    × ((j : Text) → text_eq (str "ab") j ≡ false → get_unsub j s'.cache ≡ get_unsub j before.cache)
    × ((is_new || is_all (str "all")) ≡ true
        → Logged (str "ab") (str "all") (find_row (log_key (str "08:01") (str "ab")) s'.log))
    × IsAscending s'.log
unfolding put_unsub put_row
put_unsub-widens_example =
    put_unsub-widens (str "ab") (str "t") (str "all") (str "08:01") before (tt, tt)
