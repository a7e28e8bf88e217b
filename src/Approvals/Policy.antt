-- ===== src/Approvals/Policy.antt =====
-- The policy of src/operations/approvals/approval-gates.ts: its check, and what it requires of an
-- operation.
use Prim.Native.String.{[] as nil, ◌∷◌ as ◌⋮◌}
use freeipa_admin_dashboard.Base.{
  ℕ, suc, String, Bool, true, false, ◌&&◌, ◌||◌, not, Option, none, some, List, [], ◌∷◌, map,
  str_eq, Result, ok, err, guard, given, ◌>>=◌, ◌>>◌, if◌then◌else◌, ◌==◌, any, keep, take,
  includes, unique, is_empty, is_blank,
}
use freeipa_admin_dashboard.Base.Json.{Value, null, bool, str, array, object, items, entries, get}
use freeipa_admin_dashboard.Base.Language.{
  Language, shown, some_character, is_space, blank_control, collapse_from, number_between,
}

-- `ApprovalRequirement`; roles are their texts.
pub record Requirement : Type 0 where
  pub required_approvals : ℕ
  pub approver_roles : List String
  pub approver_groups : List String
  pub requester_cannot_approve : Bool
  pub expires_minutes : ℕ
  pub rule_id : String

pub data RuleEffect : Type 0 where
  require no_approval : RuleEffect

-- `ApprovalPolicyRule`; the requirement's `rule_id` is the rule's `id`.
pub record PolicyRule : Type 0 where
  pub id : String
  pub effect : RuleEffect
  pub requester_users : List String
  pub requester_roles : List String
  pub requester_groups : List String
  pub categories : List String
  pub processes : List String
  pub dangerous : Option Bool
  pub requirement : Requirement

pub record PolicySet : Type 0 where
  pub dangerous_defaults : Option Requirement
  pub rules : List PolicyRule

-- `ApprovalSubject`.
pub record Subject : Type 0 where
  pub identity : String
  pub role : String
  pub groups : List String

-- `Pick<CatalogEvent, "id" | "category" | "dangerous">`.
pub record Event : Type 0 where
  pub id : String
  pub category : Option String
  pub dangerous : Bool

pub data PolicyError : Type 0 where
  not_an_object rules_not_an_array : PolicyError
  requirement_not_an_object approvers_missing duplicate_id effect_invalid : String → PolicyError
  rule_not_an_object : ℕ → PolicyError

unfoldable pub default_dangerous_requirement : Requirement
default_dangerous_requirement = record {
  required_approvals = 1;
  approver_roles = "admin" ∷ [];
  approver_groups = [];
  requester_cannot_approve = true;
  expires_minutes = 60;
  rule_id = "dangerous-default";
}

unfoldable pub default_policy : PolicySet
unfolding default_dangerous_requirement
default_policy = record { dangerous_defaults = some default_dangerous_requirement; rules = [] }

abbrev is_role_text : String → Bool
is_role_text s = str_eq s "viewer" || str_eq s "operator" || str_eq s "admin"

abbrev pub role_texts : List Value → List String
role_texts [] = []
role_texts (str s ∷ r) = let rest = role_texts r in if is_role_text s then s ∷ rest else rest
role_texts (_ ∷ r) = role_texts r

unfoldable pub role_array : Option Value → List String
unfolding items
role_array (some (array vs)) = take 3 (unique (role_texts (items vs)))
role_array _ = []

abbrev is_false : Option Value → Bool
is_false (some (bool b)) = not b
is_false _ = false

abbrev as_bool : Option Value → Option Bool
as_bool (some (bool b)) = some b
as_bool _ = none

-- The effect, which may be left out.
unfoldable pub effect_of : Option Value → Option RuleEffect
effect_of none = some require
effect_of (some (str s)) =
    if str_eq s "none" then some no_approval else if str_eq s "require" then some require else none
effect_of (some _) = none

-- `source.rules`, of which 200 are read.
unfoldable pub raw_rules : Option Value → Result PolicyError (List Value)
unfolding items
raw_rules none = ok []
raw_rules (some (array vs)) = ok (take 200 (items vs))
raw_rules (some _) = err rules_not_an_array

module _ (js : Language) where
  unfoldable pub clean_text : Option Value → ℕ → String
  clean_text v limit = js.slice limit (js.trim (collapse_from false (blank_control (shown js v))))

  unfoldable pub clean_identity : Value → String
  unfolding clean_text
  clean_identity v =
      let n = js.lower (clean_text (some v) 160) in
      if not (is_blank n)
        && some_character (λ c. c == 64) n
        && not (some_character (λ c. is_space c || c == 44) n)
      then n
      else ""

  unfoldable pub clean_group : Value → String
  unfolding clean_text
  clean_group v =
      let n = js.lower (clean_text (some v) 120) in
      if not (is_blank n) && not (some_character (λ c. c == 44 || c == 13 || c == 10) n)
      then n
      else ""

  unfoldable pub string_array : Option Value → (Value → String) → List String
  unfolding items
  string_array (some (array vs)) normalize =
      take 100 (unique (keep (λ s. not (is_blank s)) (map normalize (items vs))))
  string_array _ normalize = []

  abbrev or_id : String → String → String
  or_id s fallback = if is_blank s then fallback else s

  abbrev rule_id_of : List (String × Value) → String → String
  rule_id_of source fallback = elim (get "ruleId" source) [
    | none ↦ or_id (clean_text (some (str fallback)) 120) fallback
    | some v ↦ or_id (clean_text (some (or_null v fallback)) 120) fallback
  ]
    where
      or_null : Value → String → Value
      or_null null f = str f
      or_null v f = v

  -- A requirement read from the fields of an object.
  unfoldable pub requirement_of : List (String × Value) → String → Requirement
  unfolding get role_array string_array clean_group clean_text
  requirement_of source fallback = record {
    required_approvals = number_between (js.number (get "requiredApprovals" source)) 1 1 10;
    approver_roles = role_array (get "approverRoles" source);
    approver_groups = string_array (get "approverGroups" source) clean_group;
    requester_cannot_approve = not (is_false (get "requesterCannotApprove" source));
    expires_minutes = number_between (js.number (get "expiresMinutes" source)) 60 5 10080;
    rule_id = rule_id_of source fallback;
  }

  unfoldable pub has_approvers : Requirement → Bool
  has_approvers r = not (is_empty r.approver_roles && is_empty r.approver_groups)

  unfoldable pub sanitize_fields : List (String × Value) → String → Result PolicyError Requirement
  unfolding requirement_of has_approvers
  sanitize_fields source fallback = do
    guard (has_approvers (requirement_of source fallback)) (approvers_missing fallback)
    ok (requirement_of source fallback)

  unfoldable pub sanitize_requirement : Value → String → Result PolicyError Requirement
  unfolding sanitize_fields entries
  sanitize_requirement (object fs) fallback = sanitize_fields (entries fs) fallback
  sanitize_requirement _ fallback = err (requirement_not_an_object fallback)

  -- `source.dangerousDefaults ?? defaultDangerousRequirement`, or `null` where it is null.
  unfoldable pub dangerous_defaults_of : Option Value → Result PolicyError (Option Requirement)
  unfolding sanitize_requirement default_dangerous_requirement
  dangerous_defaults_of none = ok (some default_dangerous_requirement)
  dangerous_defaults_of (some null) = ok none
  dangerous_defaults_of (some v) = do r ← sanitize_requirement v "dangerous-default"; ok (some r)

  -- The requirement of a rule; a rule without effect keeps the default one.
  unfoldable pub base_of :
      RuleEffect → List (String × Value) → String → Result PolicyError Requirement
  unfolding sanitize_fields default_dangerous_requirement
  base_of require rule id = do
    r ← sanitize_fields (("ruleId", str id) ∷ rule) id
    ok (record r { rule_id = id })
  base_of no_approval rule id = ok (record default_dangerous_requirement { rule_id = id })

  abbrev append : String → String → String
  append nil t = t
  append (c ⋮ s) t = c ⋮ append s t

  abbrev pub id_of : List (String × Value) → ℕ → String
  id_of rule index =
      or_id (clean_text (get "id" rule) 120) (append "rule-" (js.decimal (suc index)))

  unfoldable pub rule_of : List (String × Value) → String → RuleEffect → Requirement → PolicyRule
  unfolding get string_array clean_identity clean_group clean_text role_array
  rule_of rule id effect base = record {
    id = id;
    effect = effect;
    requester_users = string_array (get "requesterUsers" rule) clean_identity;
    requester_roles = role_array (get "requesterRoles" rule);
    requester_groups = string_array (get "requesterGroups" rule) clean_group;
    categories =
        string_array (get "categories" rule) (λ item. js.lower (clean_text (some item) 160));
    processes = string_array (get "processes" rule) (λ item. clean_text (some item) 160);
    dangerous = as_bool (get "dangerous" rule);
    requirement = base;
  }

  -- One rule of the list, with the identifiers of those before it.
  unfoldable pub sanitize_rule : List String → ℕ → Value → Result PolicyError PolicyRule
  unfolding get entries clean_text effect_of base_of rule_of
  sanitize_rule ids index (object fs) = do
    guard (not (includes ids (id_of (entries fs) index))) (duplicate_id (id_of (entries fs) index))
    effect ←
        given (effect_of (get "effect" (entries fs))) (effect_invalid (id_of (entries fs) index))
    base ← base_of effect (entries fs) (id_of (entries fs) index)
    ok (rule_of (entries fs) (id_of (entries fs) index) effect base)
  sanitize_rule ids index _ = err (rule_not_an_object (suc index))

  unfoldable pub sanitize_rules :
      List String → ℕ → List Value → Result PolicyError (List PolicyRule)
  unfolding sanitize_rule
  sanitize_rules ids index [] = ok []
  sanitize_rules ids index (v ∷ vs) = do
    r ← sanitize_rule ids index v
    rs ← sanitize_rules (r.id ∷ ids) (suc index) vs
    ok (r ∷ rs)

  unfoldable pub sanitize_approval_policy_set : Value → Result PolicyError PolicySet
  unfolding get entries dangerous_defaults_of raw_rules sanitize_rules
  sanitize_approval_policy_set (object fs) = do
    defaults ← dangerous_defaults_of (get "dangerousDefaults" (entries fs))
    raw ← raw_rules (get "rules" (entries fs))
    rules ← sanitize_rules [] 0 raw
    ok (record { dangerous_defaults = defaults; rules = rules })
  sanitize_approval_policy_set _ = err not_an_object

  unfoldable pub subject_matches : PolicyRule → Subject → Bool
  subject_matches r s =
      (is_empty r.requester_users && is_empty r.requester_roles && is_empty r.requester_groups)
      || includes r.requester_users (js.lower s.identity)
      || includes r.requester_roles s.role
      || any (λ g. includes (map js.lower s.groups) g) r.requester_groups

  abbrev same_danger : Option Bool → Bool → Bool
  same_danger none d = true
  same_danger (some true) d = d
  same_danger (some false) d = not d

  abbrev category_of : Event → String
  category_of e = elim e.category [ none ↦ js.lower (js.trim "") | some c ↦ js.lower (js.trim c) ]

  unfoldable pub event_matches : PolicyRule → Event → Bool
  event_matches r e =
      same_danger r.dangerous e.dangerous
      && ((is_empty r.categories && is_empty r.processes)
          || includes r.processes e.id
          || includes r.categories (category_of e))

  unfoldable pub applies : Subject → Event → PolicyRule → Bool
  unfolding subject_matches event_matches
  applies s e r = subject_matches r s && event_matches r e

  abbrev pub requirement_by : PolicyRule → Option Requirement
  requirement_by r = elim r.effect [ require ↦ some r.requirement | no_approval ↦ none ]

  -- The loop over the rules, with the requirement as its state.
  unfoldable pub requirement_from :
      Subject → Event → Option Requirement → List PolicyRule → Option Requirement
  unfolding applies
  requirement_from s e current [] = current
  requirement_from s e current (r ∷ rs) =
      requirement_from s e (if applies s e r then requirement_by r else current) rs

  unfoldable pub approval_requirement : PolicySet → Subject → Event → Option Requirement
  unfolding requirement_from
  approval_requirement p s e =
      requirement_from s e (if e.dangerous then p.dangerous_defaults else none) p.rules
