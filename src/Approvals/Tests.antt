-- ===== src/Approvals/Tests.antt =====
-- Runs of the approvals at concrete requests.
use freeipa_admin_dashboard.Base.{
  ℕ, ◌≤◌, ◌<◌, String, ◌≡◌, ◌↔◌, refl, true, false, Option, none, some, All, List, [], ◌∷◌, ok, err,
  arith, is_blank,
}
use freeipa_admin_dashboard.Base.Json.{
  Value, str, array, object, end, item, done, field, items, get, entries,
}
use freeipa_admin_dashboard.Base.Language.{Language, not_finite}
use freeipa_admin_dashboard.Approvals.Policy.{
  Subject, Event, default_policy, default_dangerous_requirement, clean_text,
  sanitize_approval_policy_set, approval_requirement, dangerous_defaults_of, raw_rules,
  sanitize_rules, requirement_from,
}
use freeipa_admin_dashboard.Approvals.Requirement.{IsDecided, approval_requirement-IsDecided}
use freeipa_admin_dashboard.Approvals.Sound.{IsSound, approval_requirement-IsSound}
use freeipa_admin_dashboard.Approvals.Spec.{Spec, CatalogEvent, is_given_secret, approval_spec}
use freeipa_admin_dashboard.Approvals.Table.{
  approve, reject, Row, DecisionRow, Db, approved, executing, pending, change_if, changed, claims,
  claims_row, is_claimable, claim_statement, is_approved, not_eligible, expire_approvals,
  was_executed,
}
use freeipa_admin_dashboard.Approvals.Gates.{
  World, PublicApproval, read_row, may_decide, decide_approval, cancel_approval,
  claim_approval_execution, read_executing_approval, finish_approval_execution, is_requester,
  public_from_row, claimed, is_same_identity, is_eligible_approver, parse_json_array,
  checked_cancel, checked_claim,
}
use freeipa_admin_dashboard.Approvals.Backing.{
  Evolves, Evolves-refl, IsBacked, BackedBy, approvals_of,
}
use freeipa_admin_dashboard.Approvals.Handlers.{operations-Evolves}
use freeipa_admin_dashboard.Approvals.Claimed.{claim_approval_execution-backed}
use freeipa_admin_dashboard.Approvals.Secrets.{AgreeOn, approval_spec-secret}
use freeipa_admin_dashboard.Approvals.Actions.{public_from_row-actions, decide_approval-requester}

abbrev plain : Language
plain = record {
  show = λ v. elim v [ str s ↦ s | _ ↦ "" ];
  decimal = λ n. "0";
  trim = λ s. s;
  lower = λ s. s;
  slice = λ n s. s;
  number = λ v. not_finite;
  parse = λ s. some (array (item (str s) end));
  stringify = λ v. "";
}

abbrev alone : World (Unit {0})
alone = record { clock = λ n. 100; others = λ n db. db }

abbrev quiet : (k : ℕ) (db : Db (Unit {0})) → Evolves db (alone.others k db)
quiet k db = Evolves-refl db

abbrev alice : Subject
alice = record { identity = "alice"; role = "admin"; groups = [] }

abbrev bob : Subject
bob = record { identity = "bob"; role = "admin"; groups = [] }

abbrev asked : Row (Unit {0})
asked = record {
  requester_identity = "alice";
  status = pending;
  required_approvals = 1;
  approver_roles_json = "admin";
  approver_groups_json = "";
  requester_cannot_approve = true;
  encrypted_spec = "x";
  expires_at = 500;
  updated_at = 0;
  approved_at = none;
  executed_at = none;
  run_id = none;
  error = none;
  rest = tt;
}

abbrev yes : DecisionRow
yes = record {
  approver_identity = "bob";
  approver_role = "admin";
  decision = approve;
  comment = none;
  decided_at = 50;
}

abbrev waiting : Db (Unit {0})
waiting = record { row = some asked; decisions = [] }

abbrev ready : Db (Unit {0})
ready = record { row = some (record asked { status = approved }); decisions = yes ∷ [] }

abbrev a_spec : Spec
a_spec = record {
  event_id = "e1";
  schema_version = "1";
  values = [];
  targets = [];
  secret_fields = [];
  parent_run_id = "";
}

abbrev decrypted : String → Option Spec
decrypted s = some a_spec

operations-Evolves_example :
    Evolves ready (decide_approval plain alone bob approve "" ready).1
    × Evolves ready (cancel_approval plain alone bob ready).1
    × Evolves ready (claim_approval_execution plain alone decrypted bob ready).1
    × Evolves ready (read_executing_approval plain alone decrypted bob ready).1
    × Evolves ready (finish_approval_execution plain alone was_executed "r" "" ready)
operations-Evolves_example =
    operations-Evolves plain alone quiet bob approve "" decrypted was_executed "r" "" ready

abbrev claimed_view : PublicApproval (Unit {0})
claimed_view = record {
  row = record asked { status = executing; updated_at = 100 };
  approvals = 1;
  rejections = 0;
  my_decision = none;
  can_approve = false;
  can_reject = false;
  can_cancel = false;
  can_execute = false;
}

ready-IsBacked : IsBacked ready
unfolding IsBacked BackedBy approvals_of
ready-IsBacked e = omega arith

claim_run :
    (claim_approval_execution plain alone decrypted alice ready).0 ≡ ok (claimed_view, a_spec)
unfolding claim_approval_execution read_row expire_approvals change_if changed checked_claim
    is_requester is_same_identity claims claims_row is_claimable claim_statement claimed
    public_from_row is_eligible_approver parse_json_array items
claim_run = refl

claim_approval_execution-backed_example :
    (r : Row (Unit {0})) × ((read_row plain alone 0 0 ready).row ≡ some r)
    × (is_approved r.status ≡ true)
    × (100 < r.expires_at)
    × (r.required_approvals ≤ approvals_of (read_row plain alone 0 0 ready))
claim_approval_execution-backed_example =
    claim_approval_execution-backed plain alone quiet decrypted alice ready (claimed_view, a_spec)
      ready-IsBacked claim_run

abbrev offered : PublicApproval (Unit {0})
offered = record {
  row = asked;
  approvals = 0;
  rejections = 0;
  my_decision = none;
  can_approve = true;
  can_reject = true;
  can_cancel = false;
  can_execute = false;
}

offered_run : public_from_row plain [] asked bob ≡ ok offered
unfolding public_from_row is_requester is_same_identity is_eligible_approver parse_json_array items
offered_run = refl

long_enough : is_blank (clean_text plain (some (str "no")) 500) ≡ false
unfolding clean_text
long_enough = refl

public_from_row-actions_example :
    ((true ≡ true) ↔ ((may_decide plain alone bob approve "no" asked ≡ ok tt) × (false ≡ false)))
    × ((true ≡ true) ↔ ((may_decide plain alone bob reject "no" asked ≡ ok tt) × (false ≡ false)))
    × ((false ≡ true) ↔ (checked_cancel plain alone bob (some asked) ≡ ok asked))
    × ((false ≡ true) ↔ (checked_claim plain alone bob (some asked) ≡ ok asked))
public_from_row-actions_example =
    public_from_row-actions plain alone [] asked bob "no" offered long_enough offered_run

waiting_row : (read_row plain alone 0 0 waiting).row ≡ some asked
unfolding read_row expire_approvals change_if changed
waiting_row = refl

own : is_requester plain asked alice ≡ true
unfolding is_requester is_same_identity
own = refl

decide_approval-requester_example :
    decide_approval plain alone alice approve "" waiting
    ≡ (err not_eligible, read_row plain alone 0 0 waiting)
decide_approval-requester_example =
    decide_approval-requester plain alone alice approve "" waiting asked waiting_row refl own

abbrev danger : Event
danger = record { id = "e1"; category = none; dangerous = true }

approval_requirement-IsDecided_example :
    IsDecided plain bob danger default_policy.dangerous_defaults default_policy.rules
      (approval_requirement plain default_policy bob danger)
approval_requirement-IsDecided_example =
    approval_requirement-IsDecided plain bob danger default_policy

abbrev no_rules : Value
no_rules = object (field "version" (str "1") done)

no_rules_run : sanitize_approval_policy_set plain no_rules ≡ ok default_policy
unfolding sanitize_approval_policy_set get entries dangerous_defaults_of raw_rules sanitize_rules
    default_policy
no_rules_run = refl

default_run :
    approval_requirement plain default_policy bob danger ≡ some default_dangerous_requirement
unfolding approval_requirement requirement_from default_policy
default_run = refl

approval_requirement-IsSound_example : IsSound plain default_dangerous_requirement
approval_requirement-IsSound_example =
    approval_requirement-IsSound plain no_rules default_policy bob danger
      default_dangerous_requirement no_rules_run default_run

abbrev process : CatalogEvent
process = record {
  id = "e1";
  schema_version = none;
  fields =
      record { key = "user"; label = "User"; is_password = false }
      ∷ record { key = "word"; label = "Password"; is_password = true }
      ∷ [];
}

abbrev first_values : List (String × Value)
first_values = ("user", str "ann") ∷ ("word", str "one") ∷ []

abbrev second_values : List (String × Value)
second_values = ("word", str "two") ∷ ("user", str "ann") ∷ []

values_agree : All (AgreeOn plain first_values second_values) process.fields
unfolding AgreeOn is_given_secret get
values_agree = (refl, (refl, tt))

approval_spec-secret_example :
    approval_spec plain process first_values [] "" ≡ approval_spec plain process second_values [] ""
approval_spec-secret_example =
    approval_spec-secret plain first_values second_values process [] "" values_agree
