-- ===== src/Restore/Closed.antt =====
-- The domains that src/backup/restore/backup-selective-restore-policy.ts lets pass.
use freeipa_admin_dashboard.Base.{
  ℕ, zero, suc, &&-eq-true_iff, String, ◌≡◌, refl, sym, ap, subst, ◌∙◌, Bool, true, false, ◌&&◌,
  ◌||◌, not, Option, some, List, [], ◌∷◌, map, str_eq, eq_iff, Result, ok, err, guard, ◌>>◌,
  guard-elim, ok_injective, if◌then◌else◌, keep, includes, find, length, false-ne-true,
}
use freeipa_admin_dashboard.Restore.Domains.{
  Domain, settings, local_auth, rbac, policies, catalog, operations, approvals, audit, domain_text,
  portal_backup_domains, domain_texts, canonical_domains, has_duplicates, PolicyFailure,
  dependency_invalid, domain_unsupported, RestorePolicy, policy_of, has, same_bool, policy_from,
}

domain_of : String → Option Domain
domain_of s = find (λ d. str_eq (domain_text d) s) portal_backup_domains

domain_of-text : (d : Domain) → domain_of (domain_text d) ≡ some d
unfolding domain_of
domain_of-text settings = refl
domain_of-text local_auth = refl
domain_of-text rbac = refl
domain_of-text policies = refl
domain_of-text catalog = refl
domain_of-text operations = refl
domain_of-text approvals = refl
domain_of-text audit = refl

domain_text-injective : (d e : Domain) → domain_text d ≡ domain_text e → d ≡ e
domain_text-injective d e h =
    some_same (sym (domain_of-text d) ∙ (ap domain_of h ∙ domain_of-text e))
  where
    some_same : ◌≡◌ {0} {A = Option Domain} (some d) (some e) → d ≡ e
    some_same k = cc

pub supported : (d : Domain) → includes (domain_texts portal_backup_domains) (domain_text d) ≡ true
supported settings = refl
supported local_auth = refl
supported rbac = refl
supported policies = refl
supported catalog = refl
supported operations = refl
supported approvals = refl
supported audit = refl

pub err-ne-ok :
    (e : PolicyFailure) (p : RestorePolicy)
    → ◌≡◌ {0} {A = Result PolicyFailure RestorePolicy} (err e) (ok p)
    → ⊥
err-ne-ok e p h = cc

or_of_kept : (t q i : Bool) → (t ≡ true → true ≡ q) → (t || (q && i)) ≡ (q && (t || i))
or_of_kept true true i h = refl
or_of_kept true false i h = absurd (false-ne-true (sym (h refl)))
or_of_kept false q i h = refl

or_of_dropped : (t q i : Bool) → (t ≡ true → false ≡ q) → (q && i) ≡ (q && (t || i))
or_of_dropped true true i h = absurd (false-ne-true (h refl))
or_of_dropped true false i h = refl
or_of_dropped false q i h = refl

-- Of a filtered list a domain is an element where it is one of the list and passes.
includes-keep :
    (p : Domain → Bool) (ds : List Domain) (e : Domain)
    → includes (domain_texts (keep p ds)) (domain_text e)
      ≡ (p e && includes (domain_texts ds) (domain_text e))
includes-keep p [] e = last (p e)
  where
    last : (b : Bool) → false ≡ (b && false)
    last true = refl
    last false = refl
includes-keep p (d ∷ ds) e =
    by_test (p d)
      (λ h. ap p (domain_text-injective d e ((eq_iff (domain_text d) (domain_text e)).0 h)))
      (includes-keep p ds e)
  where
    by_test :
        (b : Bool)
        → (str_eq (domain_text d) (domain_text e) ≡ true → b ≡ p e)
        → includes (domain_texts (keep p ds)) (domain_text e)
          ≡ (p e && includes (domain_texts ds) (domain_text e))
        → includes (domain_texts (if b then d ∷ keep p ds else keep p ds)) (domain_text e) ≡ (
            p e
            && (str_eq (domain_text d) (domain_text e)
                || includes (domain_texts ds) (domain_text e)))
    by_test true k r =
        ap (λ x. str_eq (domain_text d) (domain_text e) || x) r
        ∙ or_of_kept (str_eq (domain_text d) (domain_text e)) (p e)
            (includes (domain_texts ds) (domain_text e)) k
    by_test false k r =
        r
        ∙ or_of_dropped (str_eq (domain_text d) (domain_text e)) (p e)
            (includes (domain_texts ds) (domain_text e)) k

-- The selection holds a domain where the request names it.
pub has-includes :
    (requested : List String) (d : Domain) → has requested d ≡ includes requested (domain_text d)
has-includes requested d =
    includes-keep (λ e. includes requested (domain_text e)) portal_backup_domains d
    ∙ (ap (λ b. includes requested (domain_text d) && b) (supported d)
        ∙ and_true (includes requested (domain_text d)))
  where
    and_true : (b : Bool) → (b && true) ≡ b
    and_true true = refl
    and_true false = refl

keep-same :
    (p q : Domain → Bool) (ds : List Domain) → ((d : Domain) → p d ≡ q d) → keep p ds ≡ keep q ds
keep-same p q [] h = refl
keep-same p q (d ∷ ds) h = λ i. if h d i then d ∷ keep-same p q ds h i else keep-same p q ds h i

pub canonical_domains-twice :
    (requested : List String)
    → canonical_domains (domain_texts (canonical_domains requested)) ≡ canonical_domains requested
canonical_domains-twice requested =
    keep-same (λ d. has requested d) (λ d. includes requested (domain_text d)) portal_backup_domains
      (has-includes requested)

-- A list of as many choices as there are domains, and a test of all such lists.
choose : List Bool → List Domain → List Domain
choose (b ∷ bs) (d ∷ ds) = if b then d ∷ choose bs ds else choose bs ds
choose bs ds = []

every : ℕ → (List Bool → Bool) → Bool
every zero f = f []
every (suc n) f = every n (λ l. f (true ∷ l)) && every n (λ l. f (false ∷ l))

every-elim : (f : List Bool → Bool) (l : List Bool) → every (length l) f ≡ true → f l ≡ true
unfolding every
every-elim f [] h = h
every-elim f (true ∷ l) h =
    every-elim (λ r. f (true ∷ r)) l
      ((&&-eq-true_iff (every (length l) (λ r. f (true ∷ r)))
          (every (length l) (λ r. f (false ∷ r)))).0
        h).0
every-elim f (false ∷ l) h =
    every-elim (λ r. f (false ∷ r)) l
      ((&&-eq-true_iff (every (length l) (λ r. f (true ∷ r)))
          (every (length l) (λ r. f (false ∷ r)))).0
        h).1

choose-keep : (p : Domain → Bool) (ds : List Domain) → choose (map p ds) ds ≡ keep p ds
unfolding choose
choose-keep p [] = refl
choose-keep p (d ∷ ds) = ap (λ r. if p d then d ∷ r else r) (choose-keep p ds)

abbrev single_each : List Bool → Bool
single_each l = not (has_duplicates (domain_texts (choose l portal_backup_domains)))

all_single : every 8 single_each ≡ true
unfolding every choose
all_single = refl

pub canonical_domains-single :
    (requested : List String)
    → not (has_duplicates (domain_texts (canonical_domains requested))) ≡ true
canonical_domains-single requested =
    subst (λ ds. not (has_duplicates (domain_texts ds)) ≡ true)
      (choose-keep (λ d. includes requested (domain_text d)) portal_backup_domains)
      (every-elim single_each (map (λ d. includes requested (domain_text d)) portal_backup_domains)
        all_single)

-- The check with its tests as arguments: no duplicate, no audit, and the four domains.
abbrev pub decided :
    Bool → Bool → Bool → Bool → Bool → Bool → List Domain → Result PolicyFailure RestorePolicy
decided single unaudited rb loc op app ds = do
  guard single dependency_invalid
  guard unaudited domain_unsupported
  guard (not rb || loc) dependency_invalid
  guard (same_bool op app) dependency_invalid
  ok (policy_of ds (op && app))

pub policy_from-decided :
    (requested : List String)
    → policy_from requested
      ≡ decided
          (not (has_duplicates requested))
          (not (includes requested "audit"))
          (has requested rbac)
          (has requested local_auth)
          (has requested operations)
          (has requested approvals)
          (canonical_domains requested)
unfolding policy_from
policy_from-decided requested = refl

pub decided-single :
    (single unaudited rb loc op app : Bool) (ds : List Domain) (p : RestorePolicy)
    → decided single unaudited rb loc op app ds ≡ ok p
    → decided true unaudited rb loc op app ds ≡ ok p
decided-single true unaudited rb loc op app ds p h = h
decided-single false unaudited rb loc op app ds p h = absurd (err-ne-ok dependency_invalid p h)

pub decided-selected :
    (single unaudited rb loc op app : Bool) (ds : List Domain) (p : RestorePolicy)
    → decided single unaudited rb loc op app ds ≡ ok p
    → p.selected_domains ≡ ds
decided-selected single unaudited rb loc op app ds p h =
    guard-elim single dependency_invalid _ h λ _ h2.
      guard-elim unaudited domain_unsupported _ h2 λ _ h3.
        guard-elim (not rb || loc) dependency_invalid _ h3 λ _ h4.
          guard-elim (same_bool op app) dependency_invalid _ h4
            λ _ h5. ap (λ q. q.selected_domains) (sym (ok_injective h5))
