-- ===== src/Restore/Tests.antt =====
-- Runs of a selective restore at concrete calls.
use Prim.Native.Char.{Char, code, char}
use Prim.Native.String.{String, [] as nil, ◌∷◌ as ◌⋮◌}
use freeipa_admin_dashboard.Base.{
  ◌==◌, ◌≡◌, refl, ap, ◌∙◌, Bool, true, false, none, some, List, [], ◌∷◌, ok, if◌then◌else◌,
  matches, times, any_case, uuid_classes, is_hex, js_length,
}
use freeipa_admin_dashboard.Base.Json.{Value, str, array, items, Items, end, item}
use freeipa_admin_dashboard.Base.Language.{Language, not_finite}
use freeipa_admin_dashboard.Restore.Domains.{
  settings, local_auth, rbac, RestorePolicy, policy_from, policy_of,
  validate_selective_restore_domains,
}
use freeipa_admin_dashboard.Restore.Policy.{IsClosed, validate_selective_restore_domains-IsClosed}
use freeipa_admin_dashboard.Restore.Stage.{
  restore, prepared, Stage, StageInput, StageRow, CancelInput, text_items, actor, integer, hash,
  stage_id, operation_of, validate_create_input,
}
use freeipa_admin_dashboard.Restore.Repository.{
  create_restore_stage, load_restore_stage, cancel_restore_stage, cancel_arguments, cancel_with,
  cancel_checked, is_cancellable,
}
use freeipa_admin_dashboard.Restore.Kept.{load_restore_stage-create}
use freeipa_admin_dashboard.Restore.Cancelled.{IsCancelled, cancel_restore_stage-IsCancelled}

-- A text for a list of texts: each character behind an x, and an n behind each text.
encode_text : String → String → String
encode_text nil after = char 110 tt ⋮ after
encode_text (c ⋮ s) after = char 120 tt ⋮ (c ⋮ encode_text s after)

encode_items : Items → String
unfolding encode_text
encode_items end = nil
encode_items (item (str s) r) = encode_text s (encode_items r)
encode_items (item v r) = encode_items r

push : Char → List String → List String
push c [] = []
push c (s ∷ r) = (c ⋮ s) ∷ r

decode : Bool → String → List String
unfolding push
decode marked nil = []
decode true (c ⋮ s) = push c (decode false s)
decode false (c ⋮ s) = if code c == 110 then nil ∷ decode false s else decode true s

decode-encode_text :
    (s after : String) → decode false (encode_text s after) ≡ s ∷ decode false after
unfolding decode encode_text push
decode-encode_text nil after = refl
decode-encode_text (c ⋮ s) after = ap (push c) (decode-encode_text s after)

decode-encode_items : (l : List String) → decode false (encode_items (text_items l)) ≡ l
unfolding encode_items decode
decode-encode_items [] = refl
decode-encode_items (s ∷ l) =
    decode-encode_text s (encode_items (text_items l)) ∙ ap (λ r. s ∷ r) (decode-encode_items l)

plain : Language
plain = record {
  show = λ v. "";
  decimal = λ n. "0";
  trim = λ s. s;
  lower = λ s. s;
  slice = λ n s. s;
  number = λ v. not_finite;
  parse = λ s. some (array (text_items (decode false s)));
  stringify = λ v. elim v [ array vs ↦ encode_items vs | _ ↦ "" ];
}

trim_twice : (s : String) → plain.trim (plain.trim s) ≡ plain.trim s
unfolding plain
trim_twice s = refl

parse-stringify :
    (l : List String)
    → plain.parse (plain.stringify (array (text_items l))) ≡ some (array (text_items l))
unfolding plain
parse-stringify l = ap (λ r. some (array (text_items r))) (decode-encode_items l)

abbrev asked : Value
asked = array (item (str "rbac") (item (str "local-auth") (item (str "settings") end)))

abbrev agreed : RestorePolicy
agreed = policy_of (settings ∷ local_auth ∷ rbac ∷ []) false

asked_run : validate_selective_restore_domains (some asked) ≡ ok agreed
unfolding validate_selective_restore_domains items policy_from
asked_run = refl

validate_selective_restore_domains-IsClosed_example : IsClosed agreed
validate_selective_restore_domains-IsClosed_example =
    validate_selective_restore_domains-IsClosed (some asked) agreed asked_run

abbrev digest : String
digest = "0123456789abcdef0123456789abcdef0123456789abcdef0123456789abcdef"

abbrev stage_name : String
stage_name = "restore_00000000-0000-4000-8000-000000000000"

abbrev input : StageInput
input = record {
  id = stage_name;
  operation = "restore";
  actor_identity = "ann";
  selected_domains = asked;
  stage_secret_hash = digest;
  source_binding_hash = digest;
  recovery_binding_hash = digest;
  source_schema_version = 3;
  current_schema_version = 4;
  created_at = 100;
  expires_at = 900;
}

abbrev stage : Stage
stage = record {
  id = stage_name;
  operation = restore;
  actor_identity = "ann";
  selected_domains = settings ∷ local_auth ∷ rbac ∷ [];
  stage_secret_hash = digest;
  source_binding_hash = digest;
  recovery_binding_hash = digest;
  source_schema_version = 3;
  current_schema_version = 4;
  status = prepared;
  created_at = 100;
  expires_at = 900;
  completed_at = none;
}

created : (create_restore_stage plain input none).0 ≡ ok stage
unfolding create_restore_stage validate_create_input validate_selective_restore_domains policy_from
    items actor integer hash stage_id operation_of matches times any_case uuid_classes is_hex
    js_length plain
created = refl

load_restore_stage-create_example :
    load_restore_stage plain stage_name (create_restore_stage plain input none).1 ≡ ok (some stage)
load_restore_stage-create_example =
    load_restore_stage-create plain trim_twice parse-stringify input stage created

abbrev row : StageRow
row = record {
  id = stage_name;
  operation = "restore";
  actor_identity = "ann";
  selected_domains_json = "";
  stage_secret_hash = digest;
  source_binding_hash = digest;
  recovery_binding_hash = digest;
  source_schema_version = 3;
  current_schema_version = 4;
  status = "prepared";
  created_at = 100;
  expires_at = 900;
  completed_at = none;
}

abbrev call : CancelInput
call = record { id = stage_name; actor_identity = "ann"; stage_secret_hash = digest; now = 500 }

call_run : (cancel_restore_stage plain (λ db. db) call (some row)).0 ≡ ok tt
unfolding cancel_restore_stage cancel_arguments cancel_with cancel_checked is_cancellable actor
    integer hash stage_id matches times any_case uuid_classes is_hex js_length plain
call_run = refl

cancel_restore_stage-IsCancelled_example :
    (who : String) × (actor plain "ann" ≡ ok who)
    × IsCancelled who digest 500
        (some row)
        (cancel_restore_stage plain (λ db. db) call (some row)).1
cancel_restore_stage-IsCancelled_example =
    cancel_restore_stage-IsCancelled plain (λ db. db) call (some row) call_run
