-- ===== src/Migration/Readable.antt =====
-- What `normalizeMigrationOperationRow` of storage-migration-operation.ts accepts, against
-- `beginMigrationOperation`.
use freeipa_admin_dashboard.Base.{
  ℕ, ◌≤◌, String, ◌≡◌, refl, sym, ap, ◌∙◌, subst, inl, inr, Bool, true, false, ◌&&◌, Option, none,
  some, [], ◌∷◌, Result, ok, err, given, ◌>>=◌, >>=-elim, guard-elim, ok_injective, if◌then◌else◌,
  leb, includes, arith,
}
use freeipa_admin_dashboard.Migration.Operation.{
  MigrationState, Operation, Row, Error, unavailable, max_safe, is_operation_id, is_maintenance_id,
  safe_operation_id, safe_maintenance_id, safe_integer, nullable_integer, failure_code_of,
  failure_codes, state_of, is_consistent, normalize_migration_operation_row,
}
use freeipa_admin_dashboard.Migration.Repository.{
  Db, Audit, Failure, one_row, has_state, BeginInput, begun_row, begin_statement, checked_begin,
  returned, begin_migration_operation,
}
use freeipa_admin_dashboard.Migration.Progress.{Settled, after-Settled, update_where-elim}

unfoldable pub FitsTime : Option ℕ → Type 0
FitsTime none = Unit
FitsTime (some n) = n ≤ max_safe

unfoldable pub FitsCode : Option String → Type 0
FitsCode none = Unit
FitsCode (some s) = includes failure_codes s ≡ true

-- What the check asks of the columns.
unfoldable pub IsReadable : Row → Type 0
unfolding FitsTime FitsCode
IsReadable r =
    (is_operation_id r.operation_id ≡ true)
    × (is_maintenance_id r.maintenance_operation_id ≡ true)
    × (r.from_version ≤ 1000)
    × (r.from_version ≤ r.target_version)
    × (r.target_version ≤ 1000)
    × (r.total_count ≤ 1000)
    × (r.applied_count ≤ r.total_count)
    × (r.created_at ≤ max_safe)
    × (r.started_at ≤ max_safe)
    × (r.updated_at ≤ max_safe)
    × FitsTime r.completed_at
    × FitsCode r.failure_code
    × (st : MigrationState) × (state_of r.state ≡ some st)
    × (is_consistent st r.total_count r.applied_count r.completed_at r.failure_code ≡ true)

err-ne-ok {ℓ κ} : {E : Type ℓ} {A : Type κ} {e : E} {a : A} → err e ≡ ok a → ⊥
err-ne-ok h = cc

range :
    (n low high : ℕ)
    → (leb low n && leb n high && leb n max_safe) ≡ true
    → (low ≤ n) × (n ≤ high) × (n ≤ max_safe)
range n low high h = (ground arith, ground arith, ground arith)

in_range :
    (n low high : ℕ)
    → low ≤ n
    → n ≤ high
    → n ≤ max_safe
    → (leb low n && leb n high && leb n max_safe) ≡ true
in_range n low high h k l = ground arith

module _ {ℓ κ} {B : Type ℓ} {P : Type κ} where
  if-ok-elim {ν} :
      {A : Type ν} (t : Bool) (a : A) (e : Error) (f : A → Result Error B) {b : B}
      → ((if t then ok a else err e) >>= f) ≡ ok b
      → (t ≡ true → f a ≡ ok b → P)
      → P
  if-ok-elim true a e f h k = k refl h
  if-ok-elim false a e f h k = absurd (err-ne-ok h)

  safe_integer-elim :
      (n low high : ℕ) (f : ℕ → Result Error B) {b : B}
      → (safe_integer n low high >>= f) ≡ ok b
      → (low ≤ n → n ≤ high → n ≤ max_safe → f n ≡ ok b → P)
      → P
  unfolding safe_integer
  safe_integer-elim n low high f h k =
      if-ok-elim (leb low n && leb n high && leb n max_safe) n unavailable f h
        λ t e. let (a, b, c) = range n low high t in k a b c e

  nullable_integer-elim :
      (o : Option ℕ) (f : Option ℕ → Result Error B) {b : B}
      → (nullable_integer o >>= f) ≡ ok b
      → (FitsTime o → f o ≡ ok b → P)
      → P
  unfolding nullable_integer safe_integer FitsTime
  nullable_integer-elim none f h k = k tt h
  nullable_integer-elim (some n) f {b} h k =
      by_test (leb 0 n && leb n max_safe && leb n max_safe) (λ t. (range n 0 max_safe t).1) h
    where
      by_test :
          (t : Bool)
          → (t ≡ true → n ≤ max_safe)
          → (((if t then ok n else err unavailable) >>= λ m. ok (some m)) >>= f) ≡ ok b
          → P
      by_test true low e = k (low refl) e
      by_test false low e = absurd (err-ne-ok e)

  failure_code_of-elim :
      (o : Option String) (f : Option String → Result Error B) {b : B}
      → (failure_code_of o >>= f) ≡ ok b
      → (FitsCode o → f o ≡ ok b → P)
      → P
  unfolding failure_code_of FitsCode
  failure_code_of-elim none f h k = k tt h
  failure_code_of-elim (some s) f h k =
      if-ok-elim (includes failure_codes s) (some s) unavailable f h k

normalize-IsReadable :
    (r : Row) (o : Operation) → normalize_migration_operation_row r ≡ ok o → IsReadable r
unfolding normalize_migration_operation_row safe_operation_id safe_maintenance_id IsReadable
normalize-IsReadable r o h =
    if-ok-elim (is_operation_id r.operation_id) r.operation_id unavailable _ h λ own h1.
      if-ok-elim (is_maintenance_id r.maintenance_operation_id) r.maintenance_operation_id
        unavailable _ h1
        λ maintained h2. safe_integer-elim r.from_version 0 1000 _ h2 λ _ from _ h3.
          safe_integer-elim r.target_version r.from_version 1000 _ h3 λ forward target _ h4.
            safe_integer-elim r.total_count 0 1000 _ h4 λ _ total _ h5.
              safe_integer-elim r.applied_count 0 r.total_count _ h5 λ _ applied _ h6.
                >>=-elim (given (state_of r.state) unavailable) _ h6 λ st named h7.
                  safe_integer-elim r.created_at 0 max_safe _ h7 λ _ created _ h8.
                    safe_integer-elim r.started_at 0 max_safe _ h8 λ _ started _ h9.
                      safe_integer-elim r.updated_at 0 max_safe _ h9 λ _ updated _ h10.
                        nullable_integer-elim r.completed_at _ h10 λ time h11.
                          failure_code_of-elim r.failure_code _ h11 λ code h12.
                            guard-elim
                              (is_consistent st r.total_count r.applied_count r.completed_at
                                r.failure_code)
                              unavailable _ h12
                              λ consistent _. (
                                own,
                                maintained,
                                from,
                                forward,
                                target,
                                total,
                                applied,
                                created,
                                started,
                                updated,
                                time,
                                code,
                                st,
                                given-some (state_of r.state) named,
                                consistent,
                              )
  where
    given-some :
        (s : Option MigrationState) {st : MigrationState}
        → given s unavailable ≡ ok st
        → s ≡ some st
    given-some (some x) e = ap some (ok_injective e)
    given-some none e = absurd (err-ne-ok e)

-- A new migration is started over no row, or over one of a finished migration.
unfoldable pub IsVacant : Option Row → Type 0
IsVacant none = Unit
IsVacant (some r) = includes ("succeeded" ∷ "reconciled" ∷ "interrupted" ∷ []) r.state ≡ true

begin_statement-IsVacant :
    (input : BeginInput) (o : Option Row) (s : Row)
    → begin_statement input o ≡ one_row s
    → IsVacant o × (s ≡ begun_row input)
unfolding begin_statement IsVacant
begin_statement-IsVacant input none s h = (tt, same h)
  where
    same : {a b : Row} → one_row a ≡ one_row b → b ≡ a
    same e = cc
begin_statement-IsVacant input (some r) s h =
    update_where-elim (λ r. has_state r ("succeeded" ∷ "reconciled" ∷ "interrupted" ∷ []))
      (λ _. begun_row input) (some r) s h
      λ q e t k. (
        subst
            (λ (x : Row). includes ("succeeded" ∷ "reconciled" ∷ "interrupted" ∷ []) x.state ≡ true)
            (sym (some_injective e)) t,
        k,
      )
  where
    some_injective : {a b : Row} → ◌≡◌ {A = Option Row} (some a) (some b) → a ≡ b
    some_injective e = cc

returned-elim :
    (m : Result Failure (Unit {0})) (n : Result Error Operation) (o : Operation)
    → returned m n ≡ ok o
    → (m ≡ ok tt) × (n ≡ ok o)
returned-elim (ok u) (ok p) o h = (refl, ap ok (ok_injective h))
returned-elim (ok u) (err e) o h = absurd (err-ne-ok h)
returned-elim (err e) n o h = absurd (err-ne-ok h)

-- A migration that begins found no row or that of a finished migration, has left its own row at
-- the start, and that row passes every check that reading it makes.
pub begin_migration_operation-IsReadable :
    {Trail : Type 0} (input : BeginInput) (audit : Audit Trail) (db : Db Trail) (o : Operation)
    → (begin_migration_operation input audit db).0 ≡ ok o
    → IsVacant db.row
      × ((begin_migration_operation input audit db).1.row ≡ some (begun_row input))
      × IsReadable (begun_row input)
unfolding begin_migration_operation Settled
begin_migration_operation-IsReadable input audit db o h =
    let (done, read) = returned-elim _ (normalize_migration_operation_row (begun_row input)) o h in
    elim (after-Settled (begin_statement input) audit db (checked_begin input db)) [
      | inl (e, failed, same) ↦ absurd (err-ne-ok (sym failed ∙ done))
      | inr (s, k, stated, row) ↦
          let (vacant, begun) = begin_statement-IsVacant input db.row s stated in
          (vacant, row ∙ ap some begun, normalize-IsReadable (begun_row input) o read)
    ]
