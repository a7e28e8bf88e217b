-- ===== src/Catalog/Tests.antt =====
-- The theorems of this tree at concrete policies.
use mathlib.Core.List.{Memᴰ}
use mathlib.Core.List.Memᴰ.{head, tail}
use freeipa_admin_dashboard.Base.{String, ◌≡◌, refl, ◌↔◌, true, false, none, some, [], ◌∷◌, ok}
use freeipa_admin_dashboard.Base.Json.{Value, str, array, object, field, done, item, end}
use freeipa_admin_dashboard.Auth.Permissions.{operator}
use freeipa_admin_dashboard.Catalog.Policies.{
  allow, deny, Rule, PolicySet, Subject, Event, Runtime, sanitize_catalog_policy_set,
  catalog_event_allowed, sanitize_rules, default_effect_of, raw_rules, check_ids, applies,
  sanitize_rule, effect_of, rule_of, is_addressed,
}
use freeipa_admin_dashboard.Catalog.Store.{
  PolicyEnv, PolicyRead, database, read_catalog_policy_set, read_stored, read_from,
}
use freeipa_admin_dashboard.Catalog.Decision.{
  IsAllowed, catalog_event_allowed_iff, catalog_event_allowed_unordered,
}
use freeipa_admin_dashboard.Catalog.Checked.{IsWellFormed}
use freeipa_admin_dashboard.Catalog.Sources.{IsFrom, read_catalog_policy_set-IsFrom}

abbrev text_of : Value → String
text_of (str s) = s
text_of _ = ""

abbrev request : Value
request = object (
    field "defaultEffect" (str "allow") (
      field "rules"
        (array (
          item
            (object (
              field "effect" (str "deny") (
                field "id" (str "night") (
                  field "roles" (array (item (str "operator") end))
                    (field "processes" (array (item (str "p1") end)) done)))))
            end))
        done))

abbrev runtime : Runtime
runtime = record {
  show = text_of;
  decimal = λ n. "1";
  trim = λ s. s;
  lower = λ s. s;
  slice = λ n s. s;
  parse = λ s. some request;
  stringify = λ p. "{}";
}

abbrev night : Rule
night = record {
  id = "night";
  effect = deny;
  users = [];
  groups = [];
  roles = "operator" ∷ [];
  categories = [];
  processes = "p1" ∷ [];
}

abbrev checked : PolicySet
checked = record { default_effect = allow; admin_bypass = true; rules = night ∷ [] }

all_of : Unit {0}
unfolding sanitize_catalog_policy_set catalog_event_allowed read_catalog_policy_set read_from
    read_stored sanitize_rules default_effect_of raw_rules check_ids applies sanitize_rule effect_of
    rule_of is_addressed
all_of = tt

accepted : sanitize_catalog_policy_set runtime request ≡ ok checked
unfolding all_of
accepted = refl

abbrev env : PolicyEnv
env = record {
  db = some (some (record { policy_json = "{}"; updated_at = 7 }));
  portal_catalog_policies_json = none;
}

abbrev stored : PolicyRead
stored = record { policy = checked; source = database; updated_at = some 7 }

env_read : read_catalog_policy_set runtime env ≡ ok stored
unfolding all_of
env_read = refl

read_catalog_policy_set-IsFrom_example :
    IsWellFormed checked × IsFrom runtime env.db env.portal_catalog_policies_json stored
read_catalog_policy_set-IsFrom_example = read_catalog_policy_set-IsFrom runtime env stored env_read

abbrev ann : Subject
ann = record { identity = "ann@example"; role = operator; groups = [] }

abbrev process : Event
process = record { id = "p1"; category = none }

denied : catalog_event_allowed runtime checked ann process ≡ false
unfolding all_of
denied = refl

catalog_event_allowed_iff_example :
    (catalog_event_allowed runtime checked ann process ≡ true)
    ↔ IsAllowed runtime checked ann process
catalog_event_allowed_iff_example = catalog_event_allowed_iff runtime checked ann process

same_rules : (r : Rule) → Memᴰ r checked.rules ↔ Memᴰ r (night ∷ night ∷ [])
same_rules r = (λ t. tail t, λ t. once t)
  where
    once : Memᴰ r (night ∷ night ∷ []) → Memᴰ r (night ∷ [])
    once (head e) = head e
    once (tail t) = t

catalog_event_allowed_unordered_example :
    catalog_event_allowed runtime (record checked { rules = night ∷ night ∷ [] }) ann process
    ≡ catalog_event_allowed runtime checked ann process
catalog_event_allowed_unordered_example =
    catalog_event_allowed_unordered runtime checked ann process (night ∷ night ∷ []) same_rules
