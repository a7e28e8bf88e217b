-- ===== src/Catalog/Policies.antt =====
-- src/operations/catalog/catalog-policies.ts: the rules that say which processes of the catalog a
-- subject sees.
use Prim.Native.String.{[] as nil, ◌∷◌ as ◌⋮◌}
use freeipa_admin_dashboard.Base.{
  ℕ, suc, String, Bool, true, false, ◌&&◌, ◌||◌, not, Option, none, some, List, [], ◌∷◌, map,
  str_eq, Result, ok, err, guard, ◌>>=◌, ◌>>◌, given, if◌then◌else◌, ◌==◌, any, keep, take,
  includes, unique, is_empty, is_blank,
}
use freeipa_admin_dashboard.Base.Json.{
  Value, null, bool, str, array, object, items, entries, get, is_text,
}
use freeipa_admin_dashboard.Base.Language.{strip_control, some_character, is_space}
use freeipa_admin_dashboard.Auth.Permissions.{Role, admin, role_text}

pub data Effect : Type 0 where
  allow deny : Effect

-- `CatalogVisibilityRule`; `roles` are the texts of roles.
pub record Rule : Type 0 where
  pub id : String
  pub effect : Effect
  pub users : List String
  pub groups : List String
  pub roles : List String
  pub categories : List String
  pub processes : List String

pub record PolicySet : Type 0 where
  pub default_effect : Effect
  pub admin_bypass : Bool
  pub rules : List Rule

pub record Subject : Type 0 where
  pub identity : String
  pub role : Role
  pub groups : List String

-- `Pick<CatalogEvent, "id" | "category">`.
pub record Event : Type 0 where
  pub id : String
  pub category : Option String

pub data PolicyError : Type 0 where
  not_an_object default_effect_invalid rules_not_an_array storage_unavailable : PolicyError
  rule_not_an_object effect_invalid : ℕ → PolicyError
  subjects_invalid duplicate_id : String → PolicyError
  stored_invalid environment_unparsed : PolicyError
  environment_refused : PolicyError → PolicyError

-- The functions of the language: `String` of a value and of a number, `trim`, `toLowerCase`,
-- `slice(0, n)`, `JSON.parse` (`none`: it throws) and `JSON.stringify` of a policy.
pub record Runtime : Type 0 where
  pub show : Value → String
  pub decimal : ℕ → String
  pub trim : String → String
  pub lower : String → String
  pub slice : ℕ → String → String
  pub parse : String → Option Value
  pub stringify : PolicySet → String

unfoldable pub default_policy : PolicySet
default_policy = record { default_effect = allow; admin_bypass = true; rules = [] }

abbrev effect_text : Option Value → Option Effect
effect_text v =
    if is_text v "deny" then some deny else if is_text v "allow" then some allow else none

-- `defaultEffect`, which may be left out.
unfoldable pub default_effect_of : Option Value → Option Effect
unfolding is_text
default_effect_of none = some allow
default_effect_of v = effect_text v

unfoldable pub effect_of : Option Value → Option Effect
unfolding is_text
effect_of v = effect_text v

unfoldable pub is_role_text : String → Bool
is_role_text s = str_eq s "viewer" || str_eq s "operator" || str_eq s "admin"

-- The values that are texts of roles.
abbrev pub role_texts : List Value → List String
role_texts [] = []
role_texts (str s ∷ r) = let rest = role_texts r in if is_role_text s then s ∷ rest else rest
role_texts (_ ∷ r) = role_texts r

unfoldable pub role_array : Option Value → List String
unfolding items is_role_text
role_array (some (array vs)) = take 3 (unique (role_texts (items vs)))
role_array _ = []

abbrev pub is_present : Option Value → Bool
is_present none = false
is_present (some v) = true

abbrev is_false : Option Value → Bool
is_false (some (bool b)) = not b
is_false _ = false

abbrev append : String → String → String
append nil t = t
append (c ⋮ s) t = c ⋮ append s t

-- `source.rules`, of which 200 are read.
unfoldable pub raw_rules : Option Value → Result PolicyError (List Value)
unfolding items
raw_rules none = ok []
raw_rules (some (array vs)) = ok (take 200 (items vs))
raw_rules (some _) = err rules_not_an_array

-- The loop over the rules with the set of identifiers seen.
unfoldable pub check_ids : List String → List Rule → Result PolicyError (Unit {0})
check_ids seen [] = ok tt
check_ids seen (r ∷ rs) = do
  guard (not (includes seen r.id)) (duplicate_id r.id)
  check_ids (r.id ∷ seen) rs

abbrev pub is_deny : Effect → Bool
is_deny deny = true
is_deny allow = false

abbrev pub is_allow : Effect → Bool
is_allow allow = true
is_allow deny = false

unfoldable pub is_admin : Role → Bool
is_admin admin = true
is_admin _ = false

module _ (rt : Runtime) where
  unfoldable pub clean_text : Option Value → ℕ → String
  clean_text none limit = rt.slice limit (rt.trim "")
  clean_text (some null) limit = rt.slice limit (rt.trim "")
  clean_text (some v) limit = rt.slice limit (rt.trim (strip_control (rt.show v)))

  unfoldable pub normalized_identity : Value → String
  unfolding clean_text
  normalized_identity v =
      let n = rt.lower (clean_text (some v) 160) in
      if not (is_blank n)
        && some_character (λ c. c == 64) n
        && not (some_character (λ c. is_space c || c == 44) n)
      then n
      else ""

  unfoldable pub normalized_group : Value → String
  unfolding clean_text
  normalized_group v =
      let n = rt.lower (clean_text (some v) 120) in
      if not (is_blank n) && not (some_character (λ c. c == 44 || c == 13 || c == 10) n)
      then n
      else ""

  unfoldable pub normalized_category : Value → String
  unfolding clean_text
  normalized_category v = rt.lower (clean_text (some v) 160)

  unfoldable pub normalized_process : Value → String
  unfolding clean_text
  normalized_process v = clean_text (some v) 160

  unfoldable pub string_array : Option Value → (Value → String) → List String
  unfolding items
  string_array (some (array vs)) normalize =
      take 100 (unique (keep (λ s. not (is_blank s)) (map normalize (items vs))))
  string_array _ normalize = []

  -- `cleanText(rule.id, 120) || "rule-" + (index + 1)`.
  abbrev pub or_numbered : String → ℕ → String
  or_numbered s index = if is_blank s then append "rule-" (rt.decimal (suc index)) else s

  -- `users`, `groups` or `roles` are given, or `subjects` is left out.
  unfoldable pub is_addressed : List (String × Value) → Bool
  unfolding get string_array normalized_identity normalized_group role_array
  is_addressed rule = not (
      is_empty (string_array (get "users" rule) normalized_identity)
      && is_empty (string_array (get "groups" rule) normalized_group)
      && is_empty (role_array (get "roles" rule))
      && is_present (get "subjects" rule))

  unfoldable pub rule_of : ℕ → List (String × Value) → Effect → Rule
  unfolding get clean_text string_array normalized_identity normalized_group normalized_category
      normalized_process role_array
  rule_of index rule effect = record {
    id = or_numbered (clean_text (get "id" rule) 120) index;
    effect = effect;
    users = string_array (get "users" rule) normalized_identity;
    groups = string_array (get "groups" rule) normalized_group;
    roles = role_array (get "roles" rule);
    categories = string_array (get "categories" rule) normalized_category;
    processes = string_array (get "processes" rule) normalized_process;
  }

  -- One rule of the request, at its place in the list.
  unfoldable pub sanitize_rule : ℕ → Value → Result PolicyError Rule
  unfolding get entries effect_of is_addressed rule_of clean_text
  sanitize_rule index (object fs) = do
    effect ← given (effect_of (get "effect" (entries fs))) (effect_invalid (suc index))
    guard (is_addressed (entries fs))
        (subjects_invalid (or_numbered (clean_text (get "id" (entries fs)) 120) index))
    ok (rule_of index (entries fs) effect)
  sanitize_rule index _ = err (rule_not_an_object (suc index))

  unfoldable pub sanitize_rules : ℕ → List Value → Result PolicyError (List Rule)
  unfolding sanitize_rule
  sanitize_rules index [] = ok []
  sanitize_rules index (v ∷ vs) = do
    r ← sanitize_rule index v
    rs ← sanitize_rules (suc index) vs
    ok (r ∷ rs)

  unfoldable pub sanitize_catalog_policy_set : Value → Result PolicyError PolicySet
  unfolding get entries default_effect_of raw_rules sanitize_rules check_ids
  sanitize_catalog_policy_set (object fs) = do
    effect ← given (default_effect_of (get "defaultEffect" (entries fs))) default_effect_invalid
    raw ← raw_rules (get "rules" (entries fs))
    rules ← sanitize_rules 0 raw
    check_ids [] rules
    ok (record {
      default_effect = effect;
      admin_bypass = not (is_false (get "adminBypass" (entries fs)));
      rules = rules;
    })
  sanitize_catalog_policy_set _ = err not_an_object

  unfoldable pub subject_matches : Rule → Subject → Bool
  unfolding role_text
  subject_matches r s =
      (is_empty r.users && is_empty r.groups && is_empty r.roles)
      || includes r.users (rt.lower s.identity)
      || includes r.roles (role_text s.role)
      || any (λ g. includes (map rt.lower s.groups) g) r.groups

  abbrev category_of : Event → String
  category_of e = elim e.category [ none ↦ rt.lower (rt.trim "") | some c ↦ rt.lower (rt.trim c) ]

  unfoldable pub resource_matches : Rule → Event → Bool
  resource_matches r e =
      (is_empty r.categories && is_empty r.processes)
      || includes r.processes e.id
      || includes r.categories (category_of e)

  unfoldable pub applies : Subject → Event → Rule → Bool
  unfolding subject_matches resource_matches
  applies s e r = subject_matches r s && resource_matches r e

  unfoldable pub catalog_event_allowed : PolicySet → Subject → Event → Bool
  unfolding applies is_admin
  catalog_event_allowed p s e =
      let matching = keep (applies s e) p.rules in
      if p.admin_bypass && is_admin s.role
      then true
      else if any (λ r. is_deny r.effect) matching
      then false
      else if any (λ r. is_allow r.effect) matching
      then true
      else is_allow p.default_effect
