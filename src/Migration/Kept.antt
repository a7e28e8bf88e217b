-- ===== src/Migration/Kept.antt =====
-- The commands of storage-migration-operation-repository.ts against the check of
-- storage-migration-operation.ts.
use freeipa_admin_dashboard.Base.{
  ℕ, ◌≤◌, ◌≡◌, refl, sym, ap, ◌∙◌, subst, inl, inr, true, ◌&&◌, Option, some, Result, ok, err,
  guard, ◌>>◌, >>=-elim, guard-elim, if-elim, leb, ◌==◌, ==_iff, includes, arith,
}
use freeipa_admin_dashboard.Migration.Operation.{
  MigrationState, running, succeeded, reconciled, failed, interrupted, request_invalid, Row,
  max_safe, failure_codes, state_of, is_consistent,
}
use freeipa_admin_dashboard.Migration.Repository.{
  Failure, refused, require_db, Db, Audit, Outcome, after, request_integer, checked_count,
  checked_code, record_migration_progress, complete_migration_operation, fail_migration_operation,
  mark_migration_interrupted, mark_migration_reconciled,
}
use freeipa_admin_dashboard.Migration.Progress.{
  Command, progress, complete, fail, interrupt, reconcile, perform, IsMove, perform-IsMove,
}
use freeipa_admin_dashboard.Migration.Readable.{IsReadable, FitsTime, FitsCode}

-- What the code checks of a command before its batch.
unfoldable IsChecked : Command → Type 0
IsChecked (progress id n now) = now ≤ max_safe
IsChecked (complete id n now) = now ≤ max_safe
IsChecked (fail id code now) = (includes failure_codes code ≡ true) × (now ≤ max_safe)
IsChecked (interrupt id now) = now ≤ max_safe
IsChecked (reconcile id n now) = now ≤ max_safe

request_integer-safe : (n low high : ℕ) {m : ℕ} → request_integer n low high ≡ ok m → n ≤ max_safe
unfolding request_integer
request_integer-safe n low high h =
    if-elim (leb low n && leb n high && leb n max_safe) h (λ t _. last low high n t)
      (λ _ e. absurd (clash e))
  where
    clash : {e : Failure} {m : ℕ} → err e ≡ ok m → ⊥
    clash e = cc

    last : (a b n : ℕ) → (leb a n && leb n b && leb n max_safe) ≡ true → n ≤ max_safe
    last a b n t = ground arith

module _ {Trail : Type 0} where
  after-eq-ok {ℓ} :
      {A : Type ℓ} (m : Result Failure A) (next : A → Outcome Trail) (db : Db Trail)
      → (after m next db).0 ≡ ok tt
      → (a : A) × (m ≡ ok a)
  after-eq-ok (ok a) next db h = (a, refl)
  after-eq-ok (err e) next db h = absurd (clash h)
    where
      clash : {e : Failure} → ◌≡◌ {A = Result Failure (Unit {0})} (err e) (ok tt) → ⊥
      clash k = cc

  checked_count-safe :
      (n now : ℕ) (db : Db Trail) {m : ℕ} → checked_count n now db ≡ ok m → now ≤ max_safe
  unfolding checked_count
  checked_count-safe n now db h = >>=-elim _ _ h λ _ _ k.
      >>=-elim (request_integer n 1 1000) _ k λ _ _ l. request_integer-safe now 0 max_safe l

  perform-IsChecked :
      (c : Command) (audit : Audit Trail) (db : Db Trail)
      → (perform c audit db).0 ≡ ok tt
      → IsChecked c
  unfolding perform IsChecked record_migration_progress complete_migration_operation
      fail_migration_operation mark_migration_interrupted mark_migration_reconciled checked_code
  perform-IsChecked (progress id n now) audit db h =
      let (m, e) = after-eq-ok _ _ db h in
      >>=-elim _ _ e λ _ _ k.
        >>=-elim (request_integer n 1 1000) _ k λ _ _ l. request_integer-safe now 0 max_safe l
  perform-IsChecked (complete id n now) audit db h =
      let (m, e) = after-eq-ok (checked_count n now db) _ db h in checked_count-safe n now db e
  perform-IsChecked (fail id code now) audit db h =
      let (m, e) = after-eq-ok (checked_code code now db) _ db h in
      guard-elim (includes failure_codes code) (refused request_invalid)
        (request_integer now 0 max_safe) (known_code (require_db db) e)
        λ known l. (known, request_integer-safe now 0 max_safe l)
    where
      known_code :
          {m : ℕ} (up : Result Failure (Unit {0}))
          → (up
              >> (guard (includes failure_codes code) (refused request_invalid)
                  >> request_integer now 0 max_safe))
            ≡ ok m
          → (guard (includes failure_codes code) (refused request_invalid)
              >> request_integer now 0 max_safe)
            ≡ ok m
      known_code (ok u) k = k
      known_code (err x) k = cc
  perform-IsChecked (interrupt id now) audit db h =
      let (m, e) = after-eq-ok _ _ db h in
      >>=-elim _ _ e λ _ _ k. request_integer-safe now 0 max_safe k
  perform-IsChecked (reconcile id n now) audit db h =
      let (m, e) = after-eq-ok (checked_count n now db) _ db h in checked_count-safe n now db e

all_applied : (n total : ℕ) → total ≡ n → (n == total) ≡ true
all_applied n total h = (==_iff n total).1 (sym h)

still_running :
    {st : MigrationState} (r : Row) (n : ℕ)
    → r.state ≡ "running"
    → state_of r.state ≡ some st
    → is_consistent st r.total_count r.applied_count r.completed_at r.failure_code ≡ true
    → is_consistent running r.total_count n r.completed_at r.failure_code ≡ true
unfolding state_of is_consistent
still_running r n h named consistent =
    subst
      (λ st. is_consistent st r.total_count r.applied_count r.completed_at r.failure_code ≡ true)
      (some_injective (sym named ∙ ap state_of h)) consistent
  where
    some_injective :
        {x y : MigrationState} → ◌≡◌ {A = Option MigrationState} (some x) (some y) → x ≡ y
    some_injective e = cc

IsMove-IsReadable :
    (c : Command) (r s : Row) → IsMove c r s → IsChecked c → IsReadable r → IsReadable s
unfolding IsMove IsChecked IsReadable FitsTime FitsCode state_of is_consistent
IsMove-IsReadable (progress id n now) r s (at, own, less, most, same) now_safe
      (o, m, f, fw, t, tot, app, cr, st, up, time, code, was, named, cons) =
    subst IsReadable (sym same) (
      o,
      m,
      f,
      fw,
      t,
      tot,
      most,
      cr,
      st,
      now_safe,
      time,
      code,
      running,
      ap state_of at,
      still_running r n at named cons,
    )
IsMove-IsReadable (complete id n now) r s (at, own, whole, same) now_safe
      (o, m, f, fw, t, tot, app, cr, st, up, time, code, was, named, cons) =
    subst IsReadable (sym same) (
      o,
      m,
      f,
      fw,
      t,
      tot,
      omega (arith, whole),
      cr,
      st,
      now_safe,
      now_safe,
      tt,
      succeeded,
      refl,
      all_applied n r.total_count whole,
    )
IsMove-IsReadable (fail id code' now) r s (at, own, same) (known, now_safe)
      (o, m, f, fw, t, tot, app, cr, st, up, time, code, was, named, cons) =
    subst IsReadable (sym same)
      (o, m, f, fw, t, tot, app, cr, st, now_safe, now_safe, known, failed, refl, refl)
IsMove-IsReadable (interrupt id now) r s (at, own, same) now_safe
      (o, m, f, fw, t, tot, app, cr, st, up, time, code, was, named, cons) =
    subst IsReadable (sym same)
      (o, m, f, fw, t, tot, app, cr, st, now_safe, now_safe, tt, interrupted, refl, refl)
IsMove-IsReadable (reconcile id n now) r s (at, own, whole, same) now_safe
      (o, m, f, fw, t, tot, app, cr, st, up, time, code, was, named, cons) =
    subst IsReadable (sym same) (
      o,
      m,
      f,
      fw,
      t,
      tot,
      omega (arith, whole),
      cr,
      st,
      now_safe,
      now_safe,
      tt,
      reconciled,
      refl,
      all_applied n r.total_count whole,
    )

-- A stored row that passes every check of reading it still does after progress is recorded, and
-- after the migration is completed, failed, interrupted or reconciled, whether the call moves the
-- row or fails.
pub perform-IsReadable :
    {Trail : Type 0} (c : Command) (audit : Audit Trail) (db : Db Trail) (r : Row)
    → db.row ≡ some r
    → IsReadable r
    → (s : Row) × ((perform c audit db).1.row ≡ some s) × IsReadable s
perform-IsReadable c audit db r found readable = elim (perform-IsMove c audit db) [
  | inl (e, h, k) ↦ (r, k ∙ found, readable)
  | inr (q, s, o, l, k, move) ↦ (
    s,
    k,
    IsMove-IsReadable c q s move (perform-IsChecked c audit db o)
        (subst IsReadable (some_injective (sym found ∙ l)) readable),
  )
]
  where
    some_injective : {x y : Row} → ◌≡◌ {A = Option Row} (some x) (some y) → x ≡ y
    some_injective h = cc
