-- ===== src/Restore/Cancelled.antt =====
-- `cancelRestoreStage` of src/backup/restore/backup-restore-stage-repository.ts: the row before it and
-- after it.
use freeipa_admin_dashboard.Base.{
  ℕ, ◌<◌, ltb, String, ◌≡◌, refl, sym, ap, subst, ◌∙◌, Bool, true, false, ◌&&◌, Option, none, some,
  Result, ok, err, >>=-elim, guard-elim, leb, ok_injective, if◌then◌else◌, str_eq, eq_iff,
  &&-eq-true_iff, arith,
}
use freeipa_admin_dashboard.Base.Language.{Language}
use freeipa_admin_dashboard.Restore.Stage.{
  StageRow, CancelInput, StageFailure, Stage, stage_invalid, max_safe, integer, hash, stage_id,
  actor,
}
use freeipa_admin_dashboard.Restore.Repository.{
  is_cancellable, refused, load_restore_stage, cancel_checked, cancel_arguments, cancel_with,
  cancel_restore_stage,
}

-- The row that a call cancels, and the row that it leaves.
unfoldable pub IsCancelled : String → String → ℕ → Option StageRow → Option StageRow → Type 0
IsCancelled who secret now before after =
    (row : StageRow) × (before ≡ some row)
    × (row.actor_identity ≡ who)
    × (row.stage_secret_hash ≡ secret)
    × (row.status ≡ "prepared")
    × (now < row.expires_at)
    × (after ≡ some (record row { status = "cancelled"; completed_at = some now }))

module _ (js : Language) (others : Option StageRow → Option StageRow) where
  refused-ne-ok :
      (who secret : String) (now : ℕ) (m : Result StageFailure (Option Stage))
      → refused js who secret now m ≡ ok tt
      → ⊥
  refused-ne-ok who secret now (err e) h = cc
  refused-ne-ok who secret now (ok stage) h = cc

  cancellable-facts :
      (who secret : String) (now : ℕ) (row : StageRow)
      → is_cancellable js who secret now row ≡ true
      → (row.actor_identity ≡ who)
        × (row.stage_secret_hash ≡ secret)
        × (row.status ≡ "prepared")
        × (now < row.expires_at)
  unfolding is_cancellable
  cancellable-facts who secret now row h =
      let a_b = str_eq row.actor_identity who && str_eq row.stage_secret_hash secret in
      let (r, d) =
        (&&-eq-true_iff (a_b && str_eq row.status "prepared") (ltb now row.expires_at)).0 h in
      let (q, c) = (&&-eq-true_iff a_b (str_eq row.status "prepared")).0 r in
      let (a, b) =
        (&&-eq-true_iff (str_eq row.actor_identity who) (str_eq row.stage_secret_hash secret)).0
          q in
      (
        (eq_iff row.actor_identity who).0 a,
        (eq_iff row.stage_secret_hash secret).0 b,
        (eq_iff row.status "prepared").0 c,
        ground arith,
      )

  err-ne-ok : (e : StageFailure) → ◌≡◌ {0} {A = Result StageFailure (Unit {0})} (err e) (ok tt) → ⊥
  err-ne-ok e h = cc

  hash-same : (s t : String) → hash s ≡ ok t → t ≡ s
  unfolding hash
  hash-same s t h = guard-elim _ stage_invalid (ok s) h λ _ k. sym (ok_injective k)

  integer-same : (low n m : ℕ) → integer low n ≡ ok m → m ≡ n
  unfolding integer
  integer-same low n m h =
      guard-elim (leb n max_safe && leb low n) stage_invalid (ok n) h λ _ k. sym (ok_injective k)

  cancel_arguments-same :
      (input : CancelInput) (id who secret : String) (now : ℕ)
      → cancel_arguments js input ≡ ok (id, who, secret, now)
      → (actor js input.actor_identity ≡ ok who)
        × (secret ≡ input.stage_secret_hash)
        × (now ≡ input.now)
  unfolding cancel_arguments
  cancel_arguments-same input id who secret now h = >>=-elim (stage_id input.id) _ h λ a _ h1.
      >>=-elim (actor js input.actor_identity) _ h1 λ b e2 h2.
        >>=-elim (hash input.stage_secret_hash) _ h2 λ c e3 h3.
          >>=-elim (integer 1 input.now) _ h3 λ d e4 h4. (
            e2 ∙ ap (λ x. ok x.1) (ok_injective h4),
            sym (ap (λ x. x.2) (ok_injective h4)) ∙ hash-same input.stage_secret_hash c e3,
            sym (ap (λ x. x.3) (ok_injective h4)) ∙ integer-same 1 input.now d e4,
          )

  cancel_checked-IsCancelled :
      (id who secret : String) (now : ℕ) (db : Option StageRow)
      → (cancel_checked js others id who secret now db).0 ≡ ok tt
      → IsCancelled who secret now db (cancel_checked js others id who secret now db).1
  unfolding cancel_checked IsCancelled
  cancel_checked-IsCancelled id who secret now none h =
      absurd (refused-ne-ok who secret now (load_restore_stage js id (others none)) h)
  cancel_checked-IsCancelled id who secret now (some row) h =
      by_test (is_cancellable js who secret now row) (cancellable-facts who secret now row) h
    where
      end : Bool → Result StageFailure (Unit {0}) × Option StageRow
      end t =
          if t
          then (ok tt, some (record row { status = "cancelled"; completed_at = some now }))
          else (
            refused js who secret now (load_restore_stage js id (others (some row))),
            others (some row),
          )

      by_test :
          (t : Bool)
          → (t ≡ true
              → (row.actor_identity ≡ who)
                × (row.stage_secret_hash ≡ secret)
                × (row.status ≡ "prepared")
                × (now < row.expires_at))
          → (end t).0 ≡ ok tt
          → (r : StageRow) × (some row ≡ some r)
            × (r.actor_identity ≡ who)
            × (r.stage_secret_hash ≡ secret)
            × (r.status ≡ "prepared")
            × (now < r.expires_at)
            × ((end t).1 ≡ some (record r { status = "cancelled"; completed_at = some now }))
      by_test true k g = let (a, b, c, d) = k refl in (row, refl, a, b, c, d, refl)
      by_test false k g =
          absurd (refused-ne-ok who secret now (load_restore_stage js id (others (some row))) g)

  -- A call that cancels a stage found it prepared and in time, was made by the actor that prepared
  -- it and with its secret, and leaves it cancelled at the time of the call, and nothing else
  -- changed.
  pub cancel_restore_stage-IsCancelled :
      (input : CancelInput) (db : Option StageRow)
      → (cancel_restore_stage js others input db).0 ≡ ok tt
      → (who : String) × (actor js input.actor_identity ≡ ok who)
        × IsCancelled who input.stage_secret_hash input.now db
            (cancel_restore_stage js others input db).1
  unfolding cancel_restore_stage cancel_arguments
  cancel_restore_stage-IsCancelled input db h = by_arguments (cancel_arguments js input) refl h
    where
      by_arguments :
          (m : Result StageFailure (String × String × String × ℕ))
          → cancel_arguments js input ≡ m
          → (cancel_with js others m db).0 ≡ ok tt
          → (who : String) × (actor js input.actor_identity ≡ ok who)
            × IsCancelled who input.stage_secret_hash input.now db (cancel_with js others m db).1
      by_arguments (err e) k g = absurd (err-ne-ok e g)
      by_arguments (ok (id, who, secret, now)) k g =
          let (a, b, c) = cancel_arguments-same input id who secret now k in
          (
            who,
            a,
            subst
                (λ (x : String × ℕ).
                  IsCancelled who x.0 x.1 db (cancel_checked js others id who secret now db).1)
                (λ i. (b i, c i)) (cancel_checked-IsCancelled id who secret now db g),
          )
