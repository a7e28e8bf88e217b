-- ===== src/Restore/Kept.antt =====
-- `createRestoreStage` against `loadRestoreStage` of
-- src/backup/restore/backup-restore-stage-repository.ts.
use freeipa_admin_dashboard.Base.{
  ℕ, leb, ltb, String, ◌≡◌, refl, ap, subst, ◌∙◌, Bool, ◌&&◌, not, none, some, List, ◌++◌, Result,
  ok, err, guard, given, ◌>>=◌, ◌>>◌, >>=-elim, guard-elim, ok_injective, is_blank, js_length,
  matches, times, any_case, uuid_classes, is_hex,
}
use freeipa_admin_dashboard.Base.Json.{Value, array}
use freeipa_admin_dashboard.Base.Language.{Language}
use freeipa_admin_dashboard.Restore.Domains.{
  Domain, PolicyFailure, RestorePolicy, domain_texts, validate_selective_restore_domains,
}
use freeipa_admin_dashboard.Restore.Stage.{
  StageOperation, restore, rollback, StageStatus, prepared, committing, cancelled, committed,
  expired, Stage, StageInput, StageFailure, stage_invalid, policy, max_safe, integer, hash,
  stage_id, operation_text, operation_of, status_text, status_value, with_policy, or_invalid,
  completed, text_items, actor, selected_domains_of, normalize_row, validate_create_input,
}
use freeipa_admin_dashboard.Restore.Repository.{
  row_of, create_with, create_restore_stage, load_restore_stage,
}
use freeipa_admin_dashboard.Restore.Policy.{validate_selective_restore_domains-again}

-- A check that returns its argument passes again what it returned.
checked-again :
    (test : String → Bool) (s t : String)
    → (guard (test s) stage_invalid >> ok s) ≡ ok t
    → (guard (test t) stage_invalid >> ok t) ≡ ok t
checked-again test s t h = guard-elim (test s) stage_invalid (ok s) h λ e k.
    subst (λ u. (guard (test u) stage_invalid >> ok u) ≡ ok u) (ok_injective k)
      (λ i. guard (e i) stage_invalid >> ok s)

clash :
    (e : StageFailure) (st : Stage) → ◌≡◌ {0} {A = Result StageFailure Stage} (err e) (ok st) → ⊥
clash e st h = cc

stage_id-again : (s t : String) → stage_id s ≡ ok t → stage_id t ≡ ok t
unfolding stage_id
stage_id-again s t h = checked-again (λ u. matches (any_case "restore_" ++ uuid_classes) u) s t h

hash-again : (s t : String) → hash s ≡ ok t → hash t ≡ ok t
unfolding hash
hash-again s t h = checked-again (λ u. matches (times 64 is_hex) u) s t h

integer-again : (low n m : ℕ) → integer low n ≡ ok m → integer low m ≡ ok m
unfolding integer
integer-again low n m h = guard-elim (leb n max_safe && leb low n) stage_invalid (ok n) h λ e k.
    subst (λ u. (guard (leb u max_safe && leb low u) stage_invalid >> ok u) ≡ ok u) (ok_injective k)
      (λ i. guard (e i) stage_invalid >> ok n)

operation-again : (o : StageOperation) → operation_of (operation_text o) ≡ ok o
unfolding operation_of
operation-again restore = refl
operation-again rollback = refl

status-again : (s : StageStatus) → status_value (status_text s) ≡ ok s
unfolding status_value
status-again prepared = refl
status-again committing = refl
status-again cancelled = refl
status-again committed = refl
status-again expired = refl

module _ (js : Language) (trim_twice : (s : String) → js.trim (js.trim s) ≡ js.trim s)
    (parse-stringify : (l : List String)
      → js.parse (js.stringify (array (text_items l))) ≡ some (array (text_items l))) where
  actor-again : (s t : String) → actor js s ≡ ok t → actor js t ≡ ok t
  unfolding actor
  actor-again s t h =
      guard-elim (not (is_blank (js.trim s)) && leb (js_length (js.trim s)) 320) stage_invalid
        (ok (js.trim s)) h
        λ e k.
          subst
            (λ u.
              (guard (not (is_blank (js.trim u)) && leb (js_length (js.trim u)) 320) stage_invalid
                >> ok (js.trim u))
              ≡ ok u)
            (ok_injective k)
            (ap (λ u. guard (not (is_blank u) && leb (js_length u) 320) stage_invalid >> ok u)
                (trim_twice s)
              ∙ λ i. guard (e i) stage_invalid >> ok (js.trim s))

  domains-again :
      (m : Result PolicyFailure RestorePolicy) (v : Value) (ds : List Domain)
      → validate_selective_restore_domains (some v) ≡ m
      → with_policy m ≡ ok ds
      → selected_domains_of js (js.stringify (array (text_items (domain_texts ds)))) ≡ ok ds
  unfolding selected_domains_of
  domains-again (err e) v ds g h = absurd (unlisted h)
    where
      unlisted : ◌≡◌ {0} {A = Result StageFailure (List Domain)} (err (policy e)) (ok ds) → ⊥
      unlisted k = cc
  domains-again (ok p) v ds g h =
      subst
        (λ es.
          (given (js.parse (js.stringify (array (text_items (domain_texts es))))) stage_invalid
            >>= λ parsed. or_invalid (validate_selective_restore_domains (some parsed)))
          ≡ ok es)
        (ok_injective h)
        (ap
            (λ o. given o stage_invalid >>= λ parsed.
              or_invalid (validate_selective_restore_domains (some parsed)))
            (parse-stringify (domain_texts p.selected_domains))
          ∙ ap or_invalid (validate_selective_restore_domains-again (some v) p g))

  row-read :
      (st : Stage)
      → completed st.completed_at ≡ ok st.completed_at
      → stage_id st.id ≡ ok st.id
      → actor js st.actor_identity ≡ ok st.actor_identity
      → selected_domains_of js
          (js.stringify (array (text_items (domain_texts st.selected_domains))))
        ≡ ok st.selected_domains
      → hash st.stage_secret_hash ≡ ok st.stage_secret_hash
      → hash st.source_binding_hash ≡ ok st.source_binding_hash
      → hash st.recovery_binding_hash ≡ ok st.recovery_binding_hash
      → integer 1 st.source_schema_version ≡ ok st.source_schema_version
      → integer 1 st.current_schema_version ≡ ok st.current_schema_version
      → integer 1 st.created_at ≡ ok st.created_at
      → integer 1 st.expires_at ≡ ok st.expires_at
      → normalize_row js (row_of js st) ≡ ok st
  unfolding normalize_row row_of
  row-read st done identifier who domains secret source recovery older newer begun ends = λ i.
      done i >>= λ completed_at. identifier i >>= λ id.
      operation-again st.operation i >>= λ operation. who i >>= λ actor_identity.
      domains i >>= λ selected. secret i >>= λ stage_secret_hash.
      source i >>= λ source_binding_hash. recovery i >>= λ recovery_binding_hash.
      older i >>= λ source_version. newer i >>= λ current_version.
      status-again st.status i >>= λ status. begun i >>= λ created_at. ends i >>= λ expires_at.
      ok (record {
        id = id;
        operation = operation;
        actor_identity = actor_identity;
        selected_domains = selected;
        stage_secret_hash = stage_secret_hash;
        source_binding_hash = source_binding_hash;
        recovery_binding_hash = recovery_binding_hash;
        source_schema_version = source_version;
        current_schema_version = current_version;
        status = status;
        created_at = created_at;
        expires_at = expires_at;
        completed_at = completed_at;
      })

  created-read :
      (input : StageInput) (stage : Stage)
      → validate_create_input js input ≡ ok stage
      → (stage_id stage.id ≡ ok stage.id) × (normalize_row js (row_of js stage) ≡ ok stage)
  unfolding validate_create_input
  created-read input stage h = >>=-elim (stage_id input.id) _ h λ id e1 h1.
      >>=-elim (operation_of input.operation) _ h1 λ operation e2 h2.
        >>=-elim (actor js input.actor_identity) _ h2 λ who e3 h3.
          >>=-elim (with_policy (validate_selective_restore_domains (some input.selected_domains)))
            _ h3
            λ domains e4 h4. >>=-elim (hash input.stage_secret_hash) _ h4 λ secret e5 h5.
              >>=-elim (hash input.source_binding_hash) _ h5 λ source e6 h6.
                >>=-elim (hash input.recovery_binding_hash) _ h6 λ recovery e7 h7.
                  >>=-elim (integer 1 input.source_schema_version) _ h7 λ older e8 h8.
                    >>=-elim (integer 1 input.current_schema_version) _ h8 λ newer e9 h9.
                      >>=-elim (integer 1 input.created_at) _ h9 λ begun e10 h10.
                        >>=-elim (integer 1 input.expires_at) _ h10 λ ends e11 h11.
                          guard-elim (ltb begun ends) stage_invalid _ h11 λ _ h12.
                            subst
                              (λ st.
                                (stage_id st.id ≡ ok st.id)
                                × (normalize_row js (row_of js st) ≡ ok st))
                              (ok_injective h12)
                              (
                                stage_id-again input.id id e1,
                                row-read _ refl (stage_id-again input.id id e1)
                                    (actor-again input.actor_identity who e3)
                                    (domains-again _ input.selected_domains domains refl e4)
                                    (hash-again input.stage_secret_hash secret e5)
                                    (hash-again input.source_binding_hash source e6)
                                    (hash-again input.recovery_binding_hash recovery e7)
                                    (integer-again 1 input.source_schema_version older e8)
                                    (integer-again 1 input.current_schema_version newer e9)
                                    (integer-again 1 input.created_at begun e10)
                                    (integer-again 1 input.expires_at ends e11),
                              )

  -- A stage that is created is the stage that is loaded by its identifier, where trimming twice is
  -- trimming once and a list of texts survives JSON.
  pub load_restore_stage-create :
      (input : StageInput) (stage : Stage)
      → (create_restore_stage js input none).0 ≡ ok stage
      → load_restore_stage js stage.id (create_restore_stage js input none).1 ≡ ok (some stage)
  unfolding create_restore_stage load_restore_stage
  load_restore_stage-create input stage h =
      by_input (validate_create_input js input) (created-read input) h
    where
      by_input :
          (m : Result StageFailure Stage)
          → ((st : Stage)
              → m ≡ ok st
              → (stage_id st.id ≡ ok st.id) × (normalize_row js (row_of js st) ≡ ok st))
          → (create_with js m none).0 ≡ ok stage
          → load_restore_stage js stage.id (create_with js m none).1 ≡ ok (some stage)
      by_input (err e) k g = absurd (clash e stage g)
      by_input (ok st) k g =
          subst (λ t. load_restore_stage js t.id (some (row_of js st)) ≡ ok (some t))
            (ok_injective g) (loaded (k st refl))
        where
          loaded :
              (stage_id st.id ≡ ok st.id) × (normalize_row js (row_of js st) ≡ ok st)
              → load_restore_stage js st.id (some (row_of js st)) ≡ ok (some st)
          loaded (u, v) = λ i. u i >>= λ _. v i >>= λ t. ok (some t)
