-- ===== src/Migration/Lock.antt =====
-- src/db/portal-migration-lock.ts: the lock in portal_schema_lock that lets one migration run.
use freeipa_admin_dashboard.Base.{
  ℕ, suc, zero, ◌+◌, ◌-◌, ◌≤◌, ◌<◌, min, max, String, ◌≡◌, ◌↔◌, refl, sym, Bool, true, false, ◌||◌,
  not, Option, none, some, str_eq, ltb, if◌then◌else◌, arith,
}

-- A number of the language: `Math.trunc` of one that is not negative, one below 0, or one that is
-- not finite.
pub data Number : Type 0 where
  natural : ℕ → Number
  negative not_finite : Number

abbrev pub default_migration_lock_ttl_ms : ℕ
default_migration_lock_ttl_ms = 60000

-- `none` is the `undefined` of an option that is left out.
unfoldable pub bounded_migration_lock_ttl : Option Number → ℕ
bounded_migration_lock_ttl (some (natural n)) = max 1000 (min n 600000)
bounded_migration_lock_ttl (some negative) = 1000
bounded_migration_lock_ttl (some not_finite) = default_migration_lock_ttl_ms
bounded_migration_lock_ttl none = default_migration_lock_ttl_ms

-- The row with the key 'main'.
pub record LockRow : Type 0 where
  pub owner : String
  pub acquired_at : ℕ

-- `PortalMigrationLockOptions`; `now` is read anew at each attempt.
pub record Options : Type 0 where
  pub max_lock_attempts : Option ℕ
  pub ttl_ms : Option Number
  pub lock_ttl_ms : Option Number

abbrev or_else : Option Number → Option Number → Option Number
or_else (some n) o = some n
or_else none o = o

unfoldable pub lock_ttl : Options → ℕ
unfolding bounded_migration_lock_ttl
lock_ttl options = bounded_migration_lock_ttl (or_else options.ttl_ms options.lock_ttl_ms)

pub data LockState : Type 0 where
  available held stale unavailable : LockState

-- `PortalMigrationLockInspection`.
pub record Inspection : Type 0 where
  pub state : LockState
  pub blocking : Bool
  pub age_ms : Option ℕ
  pub ttl_ms : ℕ

abbrev pub max_safe : ℕ
max_safe = 9007199254740991

unfoldable pub inspect_row : ℕ → ℕ → Option LockRow → Inspection
inspect_row ttl now none = record {
  state = available;
  blocking = false;
  age_ms = none;
  ttl_ms = ttl;
}
inspect_row ttl now (some row) =
    if ltb max_safe row.acquired_at || ltb now row.acquired_at
    then record { state = unavailable; blocking = true; age_ms = none; ttl_ms = ttl }
    else if ltb ttl (min (now - row.acquired_at) max_safe)
    then record {
      state = stale;
      blocking = false;
      age_ms = some (min (now - row.acquired_at) max_safe);
      ttl_ms = ttl;
    }
    else record {
      state = held;
      blocking = true;
      age_ms = some (min (now - row.acquired_at) max_safe);
      ttl_ms = ttl;
    }

-- The query's answer is `none` where the database throws.
unfoldable pub inspect_portal_migration_lock : Options → ℕ → Option (Option LockRow) → Inspection
unfolding inspect_row lock_ttl
inspect_portal_migration_lock options now none = record {
  state = unavailable;
  blocking = true;
  age_ms = none;
  ttl_ms = lock_ttl options;
}
inspect_portal_migration_lock options now (some row) = inspect_row (lock_ttl options) now row

-- `DELETE … WHERE acquired_at < now - ttl`: a bound below 0 holds for no row.
unfoldable pub delete_stale : ℕ → ℕ → Option LockRow → Option LockRow
delete_stale ttl now none = none
delete_stale ttl now (some row) = if ltb row.acquired_at (now - ttl) then none else some row

-- The other workers: what they make of the row between the two statements of an attempt and while
-- it sleeps.
pub record Others : Type 0 where
  pub between : ℕ → Option LockRow → Option LockRow
  pub asleep : ℕ → Option LockRow → Option LockRow

abbrev pub quiet : Others
quiet = record { between = λ _ row. row; asleep = λ _ row. row }

-- `INSERT OR IGNORE`: where a row stands, it stays and the attempt goes on as told.
unfoldable pub insert_or :
    LockRow → (Option LockRow → Bool × Option LockRow) → Option LockRow → Bool × Option LockRow
insert_or new next none = (true, some new)
insert_or new next (some other) = next (some other)

-- The attempts that are left, and the number of the next one; `clock` gives its time.
unfoldable pub acquire_from :
    ℕ → ℕ → ℕ → (ℕ → ℕ) → Others → String → Option LockRow → Bool × Option LockRow
unfolding delete_stale insert_or
acquire_from zero attempt ttl clock others owner row = (false, row)
acquire_from (suc left) attempt ttl clock others owner row =
    insert_or (record { owner = owner; acquired_at = clock attempt })
      (λ r. acquire_from left (suc attempt) ttl clock others owner (others.asleep attempt r))
      (others.between attempt (delete_stale ttl (clock attempt) row))

abbrev attempts_of : Option ℕ → ℕ
attempts_of none = 5
attempts_of (some n) = max 1 (min n 20)

unfoldable pub acquire_portal_migration_lock :
    Options → (ℕ → ℕ) → Others → String → Option LockRow → Bool × Option LockRow
unfolding acquire_from lock_ttl
acquire_portal_migration_lock options clock others owner row =
    acquire_from (attempts_of options.max_lock_attempts) 0 (lock_ttl options) clock others owner row

unfoldable pub renew_portal_migration_lock : String → ℕ → Option LockRow → Bool × Option LockRow
renew_portal_migration_lock owner now none = (false, none)
renew_portal_migration_lock owner now (some row) =
    if str_eq row.owner owner
    then (true, some (record row { acquired_at = now }))
    else (false, some row)

unfoldable pub release_portal_migration_lock : String → Option LockRow → Option LockRow
release_portal_migration_lock owner none = none
release_portal_migration_lock owner (some row) = if str_eq row.owner owner then none else some row

-- The time that a lock lives stays between a second and ten minutes, whatever the options say.
pub lock_ttl_bounded : (options : Options) → (1000 ≤ lock_ttl options) × (lock_ttl options ≤ 600000)
unfolding lock_ttl bounded_migration_lock_ttl
lock_ttl_bounded options = bounded (or_else options.ttl_ms options.lock_ttl_ms)
  where
    bounded :
        (o : Option Number)
        → (1000 ≤ bounded_migration_lock_ttl o) × (bounded_migration_lock_ttl o ≤ 600000)
    bounded none = (omega arith, omega arith)
    bounded (some negative) = (omega arith, omega arith)
    bounded (some not_finite) = (omega arith, omega arith)
    bounded (some (natural n)) = (omega arith, omega arith)

insert_or-elim {ℓ} :
    {P : Type ℓ} (new out : LockRow) (next : Option LockRow → Bool × Option LockRow)
    (o : Option LockRow)
    → insert_or new next o ≡ (true, some out)
    → (o ≡ none → new ≡ out → P)
    → ((other : LockRow) → next (some other) ≡ (true, some out) → P)
    → P
unfolding insert_or
insert_or-elim new out next none h j k = j refl (same h)
  where
    same : {a b : LockRow} → ◌≡◌ {A = Bool × Option LockRow} (true, some a) (true, some b) → a ≡ b
    same e = cc
insert_or-elim new out next (some other) h j k = k other h

acquire_from-owns :
    (left attempt ttl : ℕ) (clock : ℕ → ℕ) (others : Others) (owner : String) (row : Option LockRow)
    (out : LockRow)
    → acquire_from left attempt ttl clock others owner row ≡ (true, some out)
    → (k : ℕ) × (k < attempt + left) × (out ≡ record { owner = owner; acquired_at = clock k })
unfolding acquire_from
acquire_from-owns zero attempt ttl clock others owner row out h = absurd cc
acquire_from-owns (suc left) attempt ttl clock others owner row out h =
    insert_or-elim (record { owner = owner; acquired_at = clock attempt }) out
      (λ r. acquire_from left (suc attempt) ttl clock others owner (others.asleep attempt r))
      (others.between attempt (delete_stale ttl (clock attempt) row)) h
      (λ _ e. (attempt, omega arith, sym e))
      λ other e.
        let (k, short, same) =
          acquire_from-owns left (suc attempt) ttl clock others owner
            (others.asleep attempt (some other)) out e in
        (k, omega (arith, short), same)

-- An attempt that took the lock, whatever other workers did meanwhile, leaves the row with its own
-- name and the time of one of its attempts, of which there are 20 at most.
pub acquire_portal_migration_lock-owns :
    (options : Options) (clock : ℕ → ℕ) (others : Others) (owner : String) (row : Option LockRow)
    (out : LockRow)
    → acquire_portal_migration_lock options clock others owner row ≡ (true, some out)
    → (k : ℕ) × (k < 20) × (out ≡ record { owner = owner; acquired_at = clock k })
unfolding acquire_portal_migration_lock
acquire_portal_migration_lock-owns options clock others owner row out h =
    let (k, short, same) =
      acquire_from-owns (attempts_of options.max_lock_attempts) 0 (lock_ttl options) clock others
        owner row out h in
    (k, omega (arith, short, few options.max_lock_attempts), same)
  where
    few : (o : Option ℕ) → attempts_of o ≤ 20
    few none = omega arith
    few (some n) = omega arith

delete_stale-fresh :
    (ttl now : ℕ) (row : LockRow)
    → now ≤ row.acquired_at + ttl
    → delete_stale ttl now (some row) ≡ some row
unfolding delete_stale
delete_stale-fresh ttl now row h = rw (fresh row.acquired_at ttl now h) refl
  where
    fresh : (a t n : ℕ) → n ≤ a + t → ltb a (n - t) ≡ false
    fresh a t n h = ground arith

acquire_from-held :
    (left attempt ttl : ℕ) (clock : ℕ → ℕ) (owner : String) (row : LockRow)
    → ((k : ℕ) → clock k ≤ row.acquired_at + ttl)
    → acquire_from left attempt ttl clock quiet owner (some row) ≡ (false, some row)
unfolding acquire_from insert_or
acquire_from-held zero attempt ttl clock owner row h = refl
acquire_from-held (suc left) attempt ttl clock owner row h =
    rw (delete_stale-fresh ttl (clock attempt) row (h attempt))
      (acquire_from-held left (suc attempt) ttl clock owner row h)

-- A lock that stays within its time and that nobody gives up is not taken over, not even by a
-- worker of the same name, and its row stays.
pub acquire_portal_migration_lock-held :
    (options : Options) (clock : ℕ → ℕ) (owner : String) (row : LockRow)
    → ((k : ℕ) → clock k ≤ row.acquired_at + lock_ttl options)
    → acquire_portal_migration_lock options clock quiet owner (some row) ≡ (false, some row)
unfolding acquire_portal_migration_lock
acquire_portal_migration_lock-held options clock owner row h =
    acquire_from-held (attempts_of options.max_lock_attempts) 0 (lock_ttl options) clock owner row h

abbrev blocks : Inspection → Bool
blocks i = i.blocking

inspect_row-blocking :
    (ttl now : ℕ) (row : LockRow)
    → row.acquired_at ≤ now
    → now ≤ max_safe
    → (inspect_row ttl now (some row)).blocking ≡ not (ltb row.acquired_at (now - ttl))
unfolding inspect_row
inspect_row-blocking ttl now row past safe =
    rw
      (
        small row.acquired_at now past safe,
        early row.acquired_at now past,
        same row.acquired_at ttl now past safe,
      )
      (by_test (ltb row.acquired_at (now - ttl)))
  where
    small : (a n : ℕ) → a ≤ n → n ≤ max_safe → ltb max_safe a ≡ false
    small a n h k = ground arith

    early : (a n : ℕ) → a ≤ n → ltb n a ≡ false
    early a n h = ground arith

    same : (a t n : ℕ) → a ≤ n → n ≤ max_safe → ltb t (min (n - a) max_safe) ≡ ltb a (n - t)
    same a t n h k = ground arith

    by_test :
        (b : Bool)
        → blocks (
            if b
            then record {
              state = stale;
              blocking = false;
              age_ms = some (min (now - row.acquired_at) max_safe);
              ttl_ms = ttl;
            }
            else record {
              state = held;
              blocking = true;
              age_ms = some (min (now - row.acquired_at) max_safe);
              ttl_ms = ttl;
            })
          ≡ not b
    by_test true = refl
    by_test false = refl

once-taken :
    (ttl now : ℕ) (owner : String) (row : LockRow)
    → (acquire_from 1 0 ttl (λ _. now) quiet owner (some row)).0 ≡ ltb row.acquired_at (now - ttl)
unfolding acquire_from delete_stale insert_or
once-taken ttl now owner row = by_test (ltb row.acquired_at (now - ttl))
  where
    by_test :
        (b : Bool)
        → (insert_or
            (record { owner = owner; acquired_at = now })
            (λ r. (false, r))
            (if b then none else some row)).0
          ≡ b
    by_test true = refl
    by_test false = refl

-- For a row of the past the inspection says that the lock does not block exactly when one attempt
-- at the same time, with no other worker around, takes it.
pub inspect-acquire_iff :
    (options : Options) (now : ℕ) (owner : String) (row : LockRow)
    → row.acquired_at ≤ now
    → now ≤ max_safe
    → ((inspect_portal_migration_lock options now (some (some row))).blocking ≡ false) ↔ (
        (acquire_portal_migration_lock
          (record options { max_lock_attempts = some 1 })
          (λ _. now)
          quiet
          owner
          (some row)).0
        ≡ true)
unfolding inspect_portal_migration_lock acquire_portal_migration_lock
inspect-acquire_iff options now owner row past safe =
    rw
      (
        inspect_row-blocking (lock_ttl options) now row past safe,
        once-taken (lock_ttl options) now owner row,
      )
      (not-iff (ltb row.acquired_at (now - lock_ttl options)))
  where
    not-iff : (b : Bool) → (not b ≡ false) ↔ (b ≡ true)
    not-iff true = (λ _. refl, λ _. refl)
    not-iff false = (λ h. absurd cc, λ h. absurd cc)
