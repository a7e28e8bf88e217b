-- ===== src/Migration/Progress.antt =====
-- The commands of storage-migration-operation-repository.ts on the row of a migration, and the steps
-- that they take.
use freeipa_admin_dashboard.Base.{
  ℕ, ◌≤◌, ◌<◌, String, ◌≡◌, ◌≢◌, refl, sym, ◌∙◌, subst, ◌⊎◌, inl, inr, Bool, true, false, ◌&&◌,
  ◌||◌, Option, none, some, [], ◌∷◌, str_eq, eq_iff, Result, ok, err, ltb, leb, ==_iff, includes,
  Bool-cases, if-elim, arith, &&-eq-true_iff,
}
use freeipa_admin_dashboard.Migration.Operation.{Row, unavailable}
use freeipa_admin_dashboard.Migration.Repository.{
  Connection, missing, unreachable, reachable, Failure, refused, database_threw, conflict, Db,
  Audit, Outcome, Change, no_row, one_row, update_where, progress_statement, finish_statement,
  fail_statement, interrupt_statement, commit, over, run_batch, after, checked_count, checked_code,
  record_migration_progress, complete_migration_operation, fail_migration_operation,
  mark_migration_interrupted, mark_migration_reconciled,
}

-- The commands on the row of a migration that has begun.
pub data Command : Type 0 where
  progress : String → ℕ → ℕ → Command
  complete : String → ℕ → ℕ → Command
  fail : String → String → ℕ → Command
  interrupt : String → ℕ → Command
  reconcile : String → ℕ → ℕ → Command

unfoldable pub perform : {Trail : Type 0} → Command → Audit Trail → Db Trail → Outcome Trail
perform (progress id n now) = record_migration_progress id n now
perform (complete id n now) = complete_migration_operation id n now
perform (fail id code now) = fail_migration_operation id code now
perform (interrupt id now) = mark_migration_interrupted id now
perform (reconcile id n now) = mark_migration_reconciled id n now

unfoldable pub statement : Command → Option Row → Change
statement (progress id n now) = progress_statement id n now
statement (complete id n now) = finish_statement "succeeded" ("running" ∷ []) id n now
statement (fail id code now) = fail_statement id code now
statement (interrupt id now) = interrupt_statement id now
statement (reconcile id n now) = finish_statement "reconciled" ("running" ∷ "failed" ∷ []) id n now

-- The step that a command takes from a row to a row.
unfoldable pub IsMove : Command → Row → Row → Type 0
IsMove (progress id n now) r s =
    (r.state ≡ "running")
    × (r.operation_id ≡ id)
    × (r.applied_count < n)
    × (n ≤ r.total_count)
    × (s ≡ record r { applied_count = n; updated_at = now })
IsMove (complete id n now) r s =
    (r.state ≡ "running")
    × (r.operation_id ≡ id)
    × (r.total_count ≡ n)
    × (s ≡ record r {
      state = "succeeded";
      applied_count = n;
      updated_at = now;
      completed_at = some now;
      failure_code = none;
    })
IsMove (fail id code now) r s =
    (r.state ≡ "running")
    × (r.operation_id ≡ id)
    × (s ≡ record r {
      state = "failed";
      updated_at = now;
      completed_at = some now;
      failure_code = some code;
    })
IsMove (interrupt id now) r s =
    ((r.state ≡ "running") ⊎ (r.state ≡ "failed"))
    × (r.operation_id ≡ id)
    × (s ≡ record r {
      state = "interrupted";
      updated_at = now;
      completed_at = some now;
      failure_code = none;
    })
IsMove (reconcile id n now) r s =
    ((r.state ≡ "running") ⊎ (r.state ≡ "failed"))
    × (r.operation_id ≡ id)
    × (r.total_count ≡ n)
    × (s ≡ record r {
      state = "reconciled";
      applied_count = n;
      updated_at = now;
      completed_at = some now;
      failure_code = none;
    })

ltb-lt : (a b : ℕ) → ltb a b ≡ true → a < b
ltb-lt a b h = ground arith

leb-le : (a b : ℕ) → leb a b ≡ true → a ≤ b
leb-le a b h = ground arith

is_one : (a s : String) → includes (a ∷ []) s ≡ true → s ≡ a
is_one a s h = sym ((eq_iff a s).0 (or-false (str_eq a s) h))
  where
    or-false : (b : Bool) → (b || false) ≡ true → b ≡ true
    or-false b h = ground arith

is_either : (a b s : String) → includes (a ∷ b ∷ []) s ≡ true → (s ≡ a) ⊎ (s ≡ b)
is_either a b s h = elim (Bool-cases (str_eq a s)) [
  | inl e ↦ inl (sym ((eq_iff a s).0 e))
  | inr e ↦ inr (is_one b s (or-right (str_eq a s) (includes (b ∷ []) s) e h))
]
  where
    or-right : (c d : Bool) → c ≡ false → (c || d) ≡ true → d ≡ true
    or-right c d h k = ground arith

pub update_where-elim {ℓ} :
    {P : Type ℓ} (test : Row → Bool) (change : Row → Row) (o : Option Row) (s : Row)
    → update_where test change o ≡ one_row s
    → ((r : Row) → o ≡ some r → test r ≡ true → s ≡ change r → P)
    → P
unfolding update_where
update_where-elim test change none s h k = absurd cc
update_where-elim test change (some r) s h k =
    if-elim (test r) h (λ t e. k r refl t (one_row_injective e)) (λ t e. absurd (clash e))
  where
    one_row_injective : {a b : Row} → one_row a ≡ one_row b → b ≡ a
    one_row_injective e = cc

    clash : no_row ≡ one_row s → ⊥
    clash e = cc

two : (a b : Bool) → (a && b) ≡ true → (a ≡ true) × (b ≡ true)
two a b = (&&-eq-true_iff a b).0

statement-IsMove :
    (c : Command) (o : Option Row) (s : Row)
    → statement c o ≡ one_row s
    → (r : Row) × (o ≡ some r) × IsMove c r s
unfolding statement IsMove progress_statement finish_statement fail_statement interrupt_statement
statement-IsMove (progress id n now) o s h = update_where-elim _ _ o s h λ r e t k.
    let (t3, most) = two _ _ t in
    let (t2, less) = two _ _ t3 in
    let (running, own) = two _ _ t2 in
    (
      r,
      e,
      (
        is_one "running" r.state running,
        (eq_iff r.operation_id id).0 own,
        ltb-lt r.applied_count n less,
        leb-le n r.total_count most,
        k,
      ),
    )
statement-IsMove (complete id n now) o s h = update_where-elim _ _ o s h λ r e t k.
    let (t2, whole) = two _ _ t in
    let (running, own) = two _ _ t2 in
    (
      r,
      e,
      (
        is_one "running" r.state running,
        (eq_iff r.operation_id id).0 own,
        (==_iff r.total_count n).0 whole,
        k,
      ),
    )
statement-IsMove (fail id code now) o s h = update_where-elim _ _ o s h λ r e t k.
    let (running, own) = two _ _ t in
    (r, e, (is_one "running" r.state running, (eq_iff r.operation_id id).0 own, k))
statement-IsMove (interrupt id now) o s h = update_where-elim _ _ o s h λ r e t k.
    let (unfinished, own) = two _ _ t in
    (r, e, (is_either "running" "failed" r.state unfinished, (eq_iff r.operation_id id).0 own, k))
statement-IsMove (reconcile id n now) o s h = update_where-elim _ _ o s h λ r e t k.
    let (t2, whole) = two _ _ t in
    let (unfinished, own) = two _ _ t2 in
    (
      r,
      e,
      (
        is_either "running" "failed" r.state unfinished,
        (eq_iff r.operation_id id).0 own,
        (==_iff r.total_count n).0 whole,
        k,
      ),
    )

IsMove-unfinished :
    (c : Command) (r s : Row) → IsMove c r s → (r.state ≡ "running") ⊎ (r.state ≡ "failed")
unfolding IsMove
IsMove-unfinished (progress id n now) r s h = inl h.0
IsMove-unfinished (complete id n now) r s h = inl h.0
IsMove-unfinished (fail id code now) r s h = inl h.0
IsMove-unfinished (interrupt id now) r s h = h.0
IsMove-unfinished (reconcile id n now) r s h = h.0

module _ {Trail : Type 0} where
  -- What a batch comes to: an error that leaves the row, or the row that the statement gives.
  unfoldable pub Settled : (Option Row → Change) → Db Trail → Outcome Trail → Type 0
  Settled st db o =
      ((e : Failure) × (o.0 ≡ err e) × (o.1.row ≡ db.row))
      ⊎ ((s : Row) × (o.0 ≡ ok tt) × (st db.row ≡ one_row s) × (o.1.row ≡ some s))

  commit-Settled :
      (st : Option Row → Change) (change : Change) (t : Option Trail) (db : Db Trail)
      → st db.row ≡ change
      → Settled st db (commit change t db)
  unfolding commit Settled
  commit-Settled st no_row none db h = inl (database_threw, refl, refl)
  commit-Settled st (one_row r) none db h = inl (database_threw, refl, refl)
  commit-Settled st no_row (some t) db h = inl (conflict, refl, refl)
  commit-Settled st (one_row r) (some t) db h = inr (r, refl, h, refl)

  run_batch-Settled :
      (st : Option Row → Change) (audit : Audit Trail) (db : Db Trail)
      → Settled st db (run_batch st audit db)
  unfolding run_batch Settled
  run_batch-Settled st audit db =
      over-Settled db.connection (commit (st db.row) (audit db.trail) db)
        (commit-Settled st (st db.row) (audit db.trail) db refl)
    where
      over-Settled :
          (k : Connection) (o : Outcome Trail) → Settled st db o → Settled st db (over k db o)
      over-Settled missing o h = inl (refused unavailable, refl, refl)
      over-Settled unreachable o h = inl (database_threw, refl, refl)
      over-Settled reachable o h = h

  pub after-Settled {ℓ} :
      {A : Type ℓ} (st : Option Row → Change) (audit : Audit Trail) (db : Db Trail)
      (m : Result Failure A)
      → Settled st db (after m (λ _. run_batch st audit db) db)
  unfolding Settled
  after-Settled st audit db (ok a) = run_batch-Settled st audit db
  after-Settled st audit db (err e) = inl (e, refl, refl)

  perform-Settled :
      (c : Command) (audit : Audit Trail) (db : Db Trail)
      → Settled (statement c) db (perform c audit db)
  unfolding perform statement record_migration_progress complete_migration_operation
      fail_migration_operation mark_migration_interrupted mark_migration_reconciled
  perform-Settled (progress id n now) audit db =
      after-Settled (progress_statement id n now) audit db _
  perform-Settled (complete id n now) audit db =
      after-Settled (finish_statement "succeeded" ("running" ∷ []) id n now) audit db
        (checked_count n now db)
  perform-Settled (fail id code now) audit db =
      after-Settled (fail_statement id code now) audit db (checked_code code now db)
  perform-Settled (interrupt id now) audit db =
      after-Settled (interrupt_statement id now) audit db _
  perform-Settled (reconcile id n now) audit db =
      after-Settled (finish_statement "reconciled" ("running" ∷ "failed" ∷ []) id n now) audit db
        (checked_count n now db)

  -- A command that succeeds has found the row in the state, under the operation and with the
  -- counts that it asks for, and moved that row; one that fails has left the row.
  pub perform-IsMove :
      (c : Command) (audit : Audit Trail) (db : Db Trail)
      → ((e : Failure) × ((perform c audit db).0 ≡ err e) × ((perform c audit db).1.row ≡ db.row))
        ⊎ ((r : Row) × (s : Row) × ((perform c audit db).0 ≡ ok tt)
            × (db.row ≡ some r)
            × ((perform c audit db).1.row ≡ some s)
            × IsMove c r s)
  unfolding Settled
  perform-IsMove c audit db = elim (perform-Settled c audit db) [
    | inl h ↦ inl h
    | inr (s, o, h, k) ↦
        let (r, e, move) = statement-IsMove c db.row s h in inr (r, s, o, e, k, move)
  ]

  -- No command changes a row whose migration is neither running nor failed.
  pub perform_final :
      (c : Command) (audit : Audit Trail) (db : Db Trail) (r : Row)
      → db.row ≡ some r
      → r.state ≢ "running"
      → r.state ≢ "failed"
      → (perform c audit db).1.row ≡ some r
  perform_final c audit db r e running failed = elim (perform-IsMove c audit db) [
    | inl (f, h, k) ↦ k ∙ e
    | inr (q, s, o, l, k, move) ↦ absurd (
        unfinished (
          subst (λ (x : Row). (x.state ≡ "running") ⊎ (x.state ≡ "failed"))
            (some_injective (sym l ∙ e)) (IsMove-unfinished c q s move)))
  ]
    where
      unfinished : (r.state ≡ "running") ⊎ (r.state ≡ "failed") → ⊥
      unfinished (inl h) = running h
      unfinished (inr h) = failed h

      some_injective : {x y : Row} → ◌≡◌ {A = Option Row} (some x) (some y) → x ≡ y
      some_injective h = cc
