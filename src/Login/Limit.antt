-- ===== src/Login/Limit.antt =====
-- src/login-rate-limit.ts: failed logins counted by client and by name, and how long they block.
use freeipa_admin_dashboard.Base.{
  ℕ, ◌+◌, ◌-◌, ◌*◌, ◌/◌, ◌^◌, min, max, String, Bool, true, false, ◌||◌, not, Option, none, some,
  str_eq, if◌then◌else◌, ltb, leb, ◌==◌,
}

pub data Scope : Type 0 where
  client username : Scope

-- `LoginRateLimitDecision`.
pub record Decision : Type 0 where
  pub limited : Bool
  pub retry_after_seconds : ℕ
  pub scope : Option Scope

-- `RateRow`.
pub record RateRow : Type 0 where
  pub failures : ℕ
  pub window_started_at : ℕ
  pub blocked_until : ℕ
  pub updated_at : ℕ

-- The rows of one table, by the hash of a subject in its scope.
pub record Table : Type 0 where
  pub clients : String → Option RateRow
  pub usernames : String → Option RateRow

unfoldable pub window_ms : Scope → ℕ
window_ms client = 60000
window_ms username = 300000

unfoldable pub limit_of : Scope → ℕ
limit_of client = 20
limit_of username = 8

unfoldable pub login_cooldown_ms : ℕ → ℕ → ℕ
login_cooldown_ms failures limit =
    if ltb failures limit then 0 else min 60000 (1000 * 2 ^ min 6 (failures - limit))

-- `entropy` is a random number below 65,536, divided by 65,535.
unfoldable pub jittered_cooldown_ms : ℕ → ℕ → ℕ
jittered_cooldown_ms entropy base =
    if base == 0 || leb 60000 base
    then base
    else min 60000 (base + entropy * min 250 (max 1 (base / 4)) / 65535)

-- `Math.max(1, Math.ceil((blockedUntil - now) / 1000))`.
unfoldable pub retry_after_seconds_of : ℕ → ℕ → ℕ
retry_after_seconds_of blocked_until now = max 1 ((blocked_until - now + 999) / 1000)

abbrev pub unlimited : Decision
unlimited = record { limited = false; retry_after_seconds = 0; scope = none }

unfoldable pub rows_of : Scope → Table → String → Option RateRow
rows_of client t = t.clients
rows_of username t = t.usernames

abbrev pub blocked_until_of : Option RateRow → ℕ
blocked_until_of none = 0
blocked_until_of (some r) = r.blocked_until

unfoldable pub check_subject : Table → Scope → String → ℕ → Decision
unfolding retry_after_seconds_of rows_of
check_subject t scope hash now =
    let until = blocked_until_of (rows_of scope t hash) in
    if leb until now then unlimited else record {
      limited = true;
      retry_after_seconds = retry_after_seconds_of until now;
      scope = some scope;
    }

-- The decision that both callers make of the two subjects'.
unfoldable pub combined : Decision → Decision → Decision
combined c u =
    if not c.limited
    then u
    else if not u.limited || leb u.retry_after_seconds c.retry_after_seconds
    then c
    else u

-- What other workers make of the table before each statement of a call but the first, by the
-- number of the statement.
abbrev pub Others : Type 0
Others = ℕ → Table → Table

-- The hashes of the two subjects are arguments: SHA-256 is the platform's.
unfoldable pub check_login_rate_limit : Others → Table → String → String → ℕ → Decision
unfolding check_subject combined
check_login_rate_limit others t client_hash username_hash now =
    combined (check_subject t client client_hash now)
      (check_subject (others 0 t) username username_hash now)

-- `INSERT … ON CONFLICT DO UPDATE … RETURNING`: a window that has ended starts anew. The bound
-- `now - windowMs` may lie below 0, where no window has ended.
unfoldable pub count_failure : Scope → ℕ → Option RateRow → RateRow
unfolding window_ms
count_failure scope now none = record {
  failures = 1;
  window_started_at = now;
  blocked_until = 0;
  updated_at = now;
}
count_failure scope now (some r) =
    if leb (r.window_started_at + window_ms scope) now
    then record r { failures = 1; window_started_at = now; updated_at = now }
    else record r { failures = r.failures + 1; updated_at = now }

abbrev put : (String → Option RateRow) → String → Option RateRow → String → Option RateRow
put rows hash r key = if str_eq key hash then r else rows key

unfoldable pub store : Scope → Table → String → Option RateRow → Table
store client t hash r = record t { clients = put t.clients hash r }
store username t hash r = record t { usernames = put t.usernames hash r }

unfoldable pub cooldown_of : Scope → ℕ → RateRow → ℕ
unfolding login_cooldown_ms jittered_cooldown_ms limit_of
cooldown_of scope entropy r =
    jittered_cooldown_ms entropy (login_cooldown_ms r.failures (limit_of scope))

unfoldable pub count_statement : Scope → String → ℕ → Table → Table
unfolding count_failure rows_of store
count_statement scope hash now t =
    store scope t hash (some (count_failure scope now (rows_of scope t hash)))

-- `UPDATE … SET blocked_until = MAX(blocked_until, ?)`: without a row it changes nothing.
abbrev pub blocked : ℕ → ℕ → Option RateRow → Option RateRow
blocked until now none = none
blocked until now (some r) =
    some (record r { blocked_until = max r.blocked_until until; updated_at = now })

unfoldable pub block_statement : Scope → String → ℕ → ℕ → Table → Table
unfolding rows_of store
block_statement scope hash until now t =
    store scope t hash (blocked until now (rows_of scope t hash))

-- The first statement returns the row that it leaves; the second comes only with a cooldown.
unfoldable pub record_subject_failure :
    (Table → Table) → Table → Scope → String → ℕ → ℕ → Decision × Table
unfolding count_statement block_statement cooldown_of retry_after_seconds_of
record_subject_failure others t scope hash entropy now =
    let cooldown = cooldown_of scope entropy (count_failure scope now (rows_of scope t hash)) in
    let counted = count_statement scope hash now t in
    if cooldown == 0 then (unlimited, counted) else (
      record {
        limited = true;
        retry_after_seconds = retry_after_seconds_of (now + cooldown) now;
        scope = some scope;
      },
      block_statement scope hash (now + cooldown) now (others counted),
    )

-- `DELETE … WHERE updated_at < now - RETENTION_MS`.
abbrev kept : ℕ → Option RateRow → Option RateRow
kept now none = none
kept now (some r) = if ltb (r.updated_at + 86400000) now then none else some r

unfoldable pub forget_old : ℕ → Table → Table
forget_old now t = record {
  clients = λ key. kept now (t.clients key);
  usernames = λ key. kept now (t.usernames key);
}

-- The two random numbers are drawn where the source draws them.
unfoldable pub record_login_failure :
    Others → Table → String → String → ℕ → ℕ → ℕ → Decision × Table
unfolding forget_old record_subject_failure combined
record_login_failure others t client_hash username_hash entropy entropy_two now =
    let recent = others 0 (forget_old now t) in
    let c = record_subject_failure (others 1) recent client client_hash entropy now in
    let u =
      record_subject_failure (others 3) (others 2 c.1) username username_hash entropy_two now in
    (combined c.0 u.0, u.1)

unfoldable pub record_login_success : Table → String → Table
unfolding store
record_login_success t username_hash = store username t username_hash none
