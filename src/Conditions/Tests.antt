-- ===== src/Conditions/Tests.antt =====
-- Runs of the conditions at concrete values.
use freeipa_admin_dashboard.Base.{
  ◌≤◌, ◌≡◌, refl, arith, String, true, none, some, All, List, [], ◌∷◌,
}
use freeipa_admin_dashboard.Base.Json.{
  Value, str, bool, array, object, item, end, field, done, get, items, entries,
}
use freeipa_admin_dashboard.Base.Language.{Language, natural}
use freeipa_admin_dashboard.Conditions.Condition.{
  equals, truthy, one_value, Condition, predicate, all_of, not_of, no_more, more,
  field_condition_matches, condition_field_names, field_names,
}
use freeipa_admin_dashboard.Conditions.Normalize.{
  normalize_field_condition, normalize_levels, shape_of, children_of, not_source, all_source,
  any_source, nested_source, predicate_of, combinator_of, clean_operator, normalized_operator,
  normalized_value,
}
use freeipa_admin_dashboard.Conditions.Bounds.{IsWithin, IfSome, normalize_field_condition-IsWithin}
use freeipa_admin_dashboard.Conditions.Locality.{predicates, Agree, field_condition_matches-local}

abbrev plain : Language
plain = record {
  show = λ v. elim v [ str s ↦ s | bool true ↦ "true" | _ ↦ "" ];
  decimal = λ n. "0";
  trim = λ s. s;
  lower = λ s. s;
  slice = λ n s. s;
  number = λ v. natural 0;
  parse = λ s. none;
  stringify = λ v. "";
}

-- {"and": [{"field": "kind", "equals": "full"}, {"not": {"field": "dry"}}]}
abbrev request : Value
request = object (
    field "and"
      (array (
        item (object (field "field" (str "kind") (field "equals" (str "full") done)))
          (item (object (field "not" (object (field "field" (str "dry") done)) done)) end)))
      done)

abbrev expected : Condition
expected = all_of (
    more (predicate "kind" equals (some (one_value (str "full"))))
      (more (not_of (predicate "dry" truthy none)) no_more))

request_read : normalize_field_condition plain request ≡ some expected
unfolding normalize_field_condition normalize_levels shape_of children_of items entries get
    not_source all_source any_source nested_source predicate_of combinator_of clean_operator
    normalized_operator normalized_value
request_read = refl

normalize_field_condition-IsWithin_example :
    IfSome (IsWithin 8) (normalize_field_condition plain request)
normalize_field_condition-IsWithin_example = normalize_field_condition-IsWithin plain request

abbrev one_request : List (String × Value)
one_request = ("kind", str "full") ∷ ("name", str "a") ∷ []

abbrev other_request : List (String × Value)
other_request = ("name", str "b") ∷ ("kind", str "full") ∷ []

few : predicates expected ≤ 50
unfolding predicates
few = omega arith

agreed : All (Agree plain one_request other_request) (condition_field_names (some expected))
unfolding condition_field_names field_names get
agreed = (refl, (refl, tt))

field_condition_matches-local_example :
    field_condition_matches plain (some expected) one_request
    ≡ field_condition_matches plain (some expected) other_request
field_condition_matches-local_example =
    field_condition_matches-local plain one_request other_request expected few agreed
