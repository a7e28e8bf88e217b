-- ===== src/Restore/Domains.antt =====
-- Which domains of a backup are restored: src/backup/restore/backup-selective-restore-policy.ts and
-- backup-restore-selection.ts, over the domains of src/backup/backup-manifest.ts.
use freeipa_admin_dashboard.Base.{
  String, Bool, true, false, ◌&&◌, ◌||◌, not, ◌==◌, Option, none, some, List, [], ◌∷◌, map, str_eq,
  Result, ok, err, guard, given, ◌>>=◌, ◌>>◌, if◌then◌else◌, all, keep, length, includes, unique,
  is_empty,
}
use freeipa_admin_dashboard.Base.Json.{Value, str, array, items}

-- `PORTAL_BACKUP_DOMAINS`.
pub data Domain : Type 0 where
  settings local_auth rbac policies catalog operations approvals audit : Domain

abbrev pub domain_text : Domain → String
domain_text settings = "settings"
domain_text local_auth = "local-auth"
domain_text rbac = "rbac"
domain_text policies = "policies"
domain_text catalog = "catalog"
domain_text operations = "operations"
domain_text approvals = "approvals"
domain_text audit = "audit"

abbrev pub portal_backup_domains : List Domain
portal_backup_domains =
    settings ∷ local_auth ∷ rbac ∷ policies ∷ catalog ∷ operations ∷ approvals ∷ audit ∷ []

abbrev pub domain_texts : List Domain → List String
domain_texts ds = map domain_text ds

-- `PORTAL_BACKUP_DOMAINS.filter((domain) => requested.includes(domain))`
abbrev pub canonical_domains : List String → List Domain
canonical_domains requested = keep (λ d. includes requested (domain_text d)) portal_backup_domains

abbrev pub has_duplicates : List String → Bool
has_duplicates texts = not (length (unique texts) == length texts)

abbrev pub is_supported : String → Bool
is_supported s = includes (domain_texts portal_backup_domains) s

pub data PolicyFailure : Type 0 where
  dependency_invalid domain_unsupported : PolicyFailure

-- `SelectiveRestorePolicyResult`; its `sessionPolicy` is always "revoke".
pub record RestorePolicy : Type 0 where
  pub selected_domains : List Domain
  pub physical_domains : List Domain
  pub operation_approval_bundle : Bool

abbrev pub is_rbac : Domain → Bool
is_rbac rbac = true
is_rbac _ = false

-- `value.map(...)`, which throws at an item that is no supported text.
abbrev pub requested_texts : List Value → Result PolicyFailure (List String)
requested_texts [] = ok []
requested_texts (str s ∷ vs) = do
  guard (is_supported s) dependency_invalid
  rest ← requested_texts vs
  ok (s ∷ rest)
requested_texts (v ∷ vs) = err dependency_invalid

abbrev pub policy_of : List Domain → Bool → RestorePolicy
policy_of selected bundle = record {
  selected_domains = selected;
  physical_domains = keep (λ d. not (is_rbac d)) selected;
  operation_approval_bundle = bundle;
}

-- A domain of the selection; `hasLocalAuth` and its kin.
abbrev pub has : List String → Domain → Bool
has requested d = includes (domain_texts (canonical_domains requested)) (domain_text d)

abbrev pub same_bool : Bool → Bool → Bool
same_bool true b = b
same_bool false b = not b

-- What follows the check of the items.
unfoldable pub policy_from : List String → Result PolicyFailure RestorePolicy
policy_from requested = do
  guard (not (has_duplicates requested)) dependency_invalid
  guard (not (includes requested "audit")) domain_unsupported
  guard (not (has requested rbac) || has requested local_auth) dependency_invalid
  guard (same_bool (has requested operations) (has requested approvals)) dependency_invalid
  ok (policy_of (canonical_domains requested) (has requested operations && has requested approvals))

unfoldable pub validate_selective_restore_domains :
    Option Value → Result PolicyFailure RestorePolicy
unfolding items policy_from
validate_selective_restore_domains (some (array vs)) = do
  guard (not (is_empty (items vs))) dependency_invalid
  requested ← requested_texts (items vs)
  policy_from requested
validate_selective_restore_domains _ = err dependency_invalid

pub data SelectionFailure : Type 0 where
  manifest_invalid manifest_not_canonical request_invalid request_duplicates domain_unavailable :
      SelectionFailure

abbrev pub all_texts : List Value → Option (List String)
all_texts [] = some []
all_texts (str s ∷ vs) = elim (all_texts vs) [ none ↦ none | some r ↦ some (s ∷ r) ]
all_texts (v ∷ vs) = none

-- A list of texts that is not empty.
unfoldable pub given_texts : Option Value → Option (List String)
unfolding items
given_texts (some (array vs)) = if is_empty (items vs) then none else all_texts (items vs)
given_texts _ = none

abbrev pub same_array : List String → List String → Bool
same_array [] [] = true
same_array [] (y ∷ ys) = false
same_array (x ∷ xs) [] = false
same_array (x ∷ xs) (y ∷ ys) = str_eq x y && same_array xs ys

unfoldable pub manifest_domains : Option Value → Result SelectionFailure (List String)
unfolding given_texts
manifest_domains v = do
  texts ← given (given_texts v) manifest_invalid
  guard (not (has_duplicates texts) && all is_supported texts) manifest_invalid
  guard (same_array texts (domain_texts (canonical_domains texts))) manifest_not_canonical
  ok texts

unfoldable pub requested_domains :
    List String → Option Value → Result SelectionFailure (List Domain)
unfolding given_texts
requested_domains manifest none = ok (canonical_domains manifest)
requested_domains manifest (some v) = do
  texts ← given (given_texts (some v)) request_invalid
  guard (not (has_duplicates texts)) request_duplicates
  guard (all (λ s. is_supported s && includes manifest s) texts) domain_unavailable
  ok (canonical_domains texts)

-- `selectBackupRestoreDomains`; the domains of a canonical manifest are themselves.
unfoldable pub select_backup_restore_domains :
    Option Value → Option Value → Result SelectionFailure (List Domain)
unfolding manifest_domains requested_domains
select_backup_restore_domains manifest requested = do
  texts ← manifest_domains manifest
  requested_domains texts requested
