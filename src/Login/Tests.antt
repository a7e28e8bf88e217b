-- ===== src/Login/Tests.antt =====
-- The theorems of this tree at concrete logins.
use freeipa_admin_dashboard.Base.{
  false-ne-true, ◌+◌, ◌<◌, ◌≡◌, ◌≢◌, true, none, some, arith, eq_iff,
}
use freeipa_admin_dashboard.Login.Limit.{
  client, username, RateRow, Table, unlimited, limit_of, login_cooldown_ms, jittered_cooldown_ms,
  check_subject, count_failure, count_statement, block_statement, store, window_ms, cooldown_of,
  rows_of, record_subject_failure, record_login_success,
}
use freeipa_admin_dashboard.Login.Cooldown.{
  record_login_success-clears, record_subject_failure-blocks,
}

abbrev seven : RateRow
seven = record { failures = 7; window_started_at = 1000; blocked_until = 0; updated_at = 2000 }

abbrev table : Table
table = record { clients = λ key. none; usernames = λ key. some seven }

record_login_success-clears_example :
    (check_subject (record_login_success table "ann") username "ann" 3000 ≡ unlimited)
    × (check_subject (record_login_success table "ann") username "bob" 3000
        ≡ check_subject table username "bob" 3000)
    × (check_subject (record_login_success table "ann") client "home" 3000
        ≡ check_subject table client "home" 3000)
record_login_success-clears_example =
    record_login_success-clears table "ann" "bob" "home" 3000
      (λ h. false-ne-true ((eq_iff "bob" "ann").1 h))

eighth :
    3500
    < 3000 + cooldown_of username 0 (count_failure username 3000 (rows_of username table "ann"))
unfolding cooldown_of count_failure rows_of window_ms limit_of login_cooldown_ms
    jittered_cooldown_ms
eighth = omega arith

-- While the eighth failure is recorded, another worker records the ninth.
abbrev ninth : Table → Table
ninth t = (record_subject_failure (λ u. u) t username "ann" 0 3000).1

row_ne_none : {r : RateRow} → some r ≢ none
row_ne_none h = cc

still_there : rows_of username (ninth (count_statement username "ann" 3000 table)) "ann" ≢ none
unfolding rows_of count_statement count_failure record_subject_failure block_statement store
    cooldown_of window_ms limit_of login_cooldown_ms jittered_cooldown_ms
still_there = row_ne_none

record_subject_failure-blocks_example :
    (check_subject
      (record_subject_failure ninth table username "ann" 0 3000).1
      username
      "ann"
      3500).limited
    ≡ true
record_subject_failure-blocks_example =
    record_subject_failure-blocks ninth table username "ann" 0 3000 3500 eighth (omega arith)
      still_there
