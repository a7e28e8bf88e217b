-- ===== src/Login/Cooldown.antt =====
-- How long failed logins block, and what a success clears.
use freeipa_admin_dashboard.Base.{
  ℕ, ◌+◌, ◌-◌, ◌*◌, ◌/◌, ◌^◌, ◌≤◌, ◌<◌, min, max, ==_iff, String, ◌≡◌, ◌≢◌, refl, ◌⊎◌, inl, inr,
  Bool, true, false, ◌||◌, Option, none, some, str_eq, eq_refl, eq_iff, if◌then◌else◌, ltb, leb,
  ◌==◌, arith, Bool-cases,
}
use freeipa_admin_dashboard.Login.Limit.{
  Scope, client, username, RateRow, Table, Decision, unlimited, login_cooldown_ms,
  jittered_cooldown_ms, check_subject, count_failure, count_statement, block_statement, blocked,
  blocked_until_of, cooldown_of, rows_of, store, record_subject_failure, record_login_success,
  retry_after_seconds_of,
}

jitter_bounds :
    (base x : ℕ)
    → base ≤ 60000
    → (base ≤ (if base == 0 || leb 60000 base then base else min 60000 (base + x)))
      × ((if base == 0 || leb 60000 base then base else min 60000 (base + x)) ≤ 60000)
jitter_bounds base x h = (ground arith, ground arith)

cooldown_bound : (failures limit : ℕ) → login_cooldown_ms failures limit ≤ 60000
unfolding login_cooldown_ms
cooldown_bound failures limit = bound (ltb failures limit) (1000 * 2 ^ min 6 (failures - limit))
  where
    bound : (b : Bool) (x : ℕ) → (if b then 0 else min 60000 x) ≤ 60000
    bound true x = omega arith
    bound false x = omega arith

-- The time that a count of failures blocks is at most a minute, jitter included, and the jitter
-- only adds to it.
pub jittered_cooldown_ms_bounded :
    (entropy failures limit : ℕ)
    → (login_cooldown_ms failures limit
        ≤ jittered_cooldown_ms entropy (login_cooldown_ms failures limit))
      × (jittered_cooldown_ms entropy (login_cooldown_ms failures limit) ≤ 60000)
unfolding jittered_cooldown_ms
jittered_cooldown_ms_bounded entropy failures limit =
    jitter_bounds (login_cooldown_ms failures limit)
      (entropy * min 250 (max 1 (login_cooldown_ms failures limit / 4)) / 65535)
      (cooldown_bound failures limit)

foreign : (a b : String) → a ≢ b → str_eq a b ≡ false
foreign a b h = by_test (Bool-cases (str_eq a b))
  where
    by_test : (str_eq a b ≡ true) ⊎ (str_eq a b ≡ false) → str_eq a b ≡ false
    by_test (inl e) = absurd (h ((eq_iff a b).0 e))
    by_test (inr e) = e

stored_row :
    (scope : Scope) (t : Table) (hash : String) (r : Option RateRow)
    → rows_of scope (store scope t hash r) hash ≡ r
unfolding rows_of store
stored_row client t hash r = rw (eq_refl hash) refl
stored_row username t hash r = rw (eq_refl hash) refl

other_row :
    (scope : Scope) (t : Table) (hash other : String) (r : Option RateRow)
    → other ≢ hash
    → rows_of scope (store scope t hash r) other ≡ rows_of scope t other
unfolding rows_of store
other_row client t hash other r h = rw (foreign other hash h) refl
other_row username t hash other r h = rw (foreign other hash h) refl

zero-leb : (n : ℕ) → leb 0 n ≡ true
zero-leb n = ground arith

clients_kept :
    (t : Table) (hash address : String) (now : ℕ)
    → check_subject (store username t hash none) client address now
      ≡ check_subject t client address now
unfolding check_subject store rows_of
clients_kept t hash address now = refl

-- After a success the name is not limited, whatever had been counted, and every client and every
-- other name is judged as before.
pub record_login_success-clears :
    (t : Table) (hash other address : String) (now : ℕ)
    → other ≢ hash
    → (check_subject (record_login_success t hash) username hash now ≡ unlimited)
      × (check_subject (record_login_success t hash) username other now
          ≡ check_subject t username other now)
      × (check_subject (record_login_success t hash) client address now
          ≡ check_subject t client address now)
unfolding check_subject record_login_success
record_login_success-clears t hash other address now h = (
  rw (stored_row username t hash none) (cleared now),
  rw (other_row username t hash other none h) refl,
  clients_kept t hash address now,
)
  where
    cleared :
        (n : ℕ)
        → (if leb 0 n then unlimited else record {
          limited = true;
          retry_after_seconds = retry_after_seconds_of 0 n;
          scope = some username;
        })
          ≡ unlimited
    cleared n = rw (zero-leb n) refl

beyond : (b until later : ℕ) → later < until → leb (max b until) later ≡ false
beyond b until later l = ground arith

block_statement-blocks :
    (scope : Scope) (hash : String) (until now later : ℕ) (t : Table)
    → later < until
    → rows_of scope t hash ≢ none
    → (check_subject (block_statement scope hash until now t) scope hash later).limited ≡ true
unfolding check_subject block_statement
block_statement-blocks scope hash until now later t h k =
    rw (stored_row scope t hash (blocked until now (rows_of scope t hash)))
      (by_row (rows_of scope t hash) k)
  where
    limits :
        (b : Bool) (d : Decision)
        → b ≡ false
        → d.limited ≡ true
        → (if b then unlimited else d).limited ≡ true
    limits true d e f = cc
    limits false d e f = f

    by_row :
        (o : Option RateRow)
        → o ≢ none
        → (if leb (blocked_until_of (blocked until now o)) later then unlimited else record {
          limited = true;
          retry_after_seconds =
              retry_after_seconds_of (blocked_until_of (blocked until now o)) later;
          scope = some scope;
        }).limited
          ≡ true
    by_row none e = absurd (e refl)
    by_row (some r) e = limits _ _ (beyond r.blocked_until until later h) refl

-- A failure whose count has a cooldown blocks its subject until the cooldown is over, whatever
-- other workers do between the two statements, if they leave the subject a row.
pub record_subject_failure-blocks :
    (others : Table → Table) (t : Table) (scope : Scope) (hash : String) (entropy now later : ℕ)
    → later < now + cooldown_of scope entropy (count_failure scope now (rows_of scope t hash))
    → now ≤ later
    → rows_of scope (others (count_statement scope hash now t)) hash ≢ none
    → (check_subject
        (record_subject_failure others t scope hash entropy now).1
        scope
        hash
        later).limited
      ≡ true
unfolding record_subject_failure
record_subject_failure-blocks others t scope hash entropy now later h k kept =
    by_test (cooldown_of scope entropy (count_failure scope now (rows_of scope t hash))) _ refl h
  where
    outcome : ℕ → Bool → Decision × Table
    outcome c b = if b then (unlimited, count_statement scope hash now t) else (
      record {
        limited = true;
        retry_after_seconds = retry_after_seconds_of (now + c) now;
        scope = some scope;
      },
      block_statement scope hash (now + c) now (others (count_statement scope hash now t)),
    )

    by_test :
        (c : ℕ) (b : Bool)
        → c == 0 ≡ b
        → later < now + c
        → (check_subject (outcome c b).1 scope hash later).limited ≡ true
    by_test c true e l = absurd (omega (arith, l, k, (==_iff c 0).0 e))
    by_test c false e l =
        block_statement-blocks scope hash (now + c) now later
          (others (count_statement scope hash now t)) l kept
