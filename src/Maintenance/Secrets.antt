-- ===== src/Maintenance/Secrets.antt =====
-- The comparison of hashes in constant time, of maintenance-mode.ts and of
-- maintenance-repository.ts.
use Prim.Native.String.{[] as nil, ◌∷◌ as ◌⋮◌}
use freeipa_admin_dashboard.Base.{
  suc, String, true, some, List, [], ◌∷◌, length, ◌≡◌, refl, ◌↔◌, arith, Class, matches, times,
  is_hex, ==_iff, ap, sym, subst, ◌∙◌,
}
use freeipa_admin_dashboard.Base.Json.{str}
use freeipa_admin_dashboard.Base.Compare.{codes, difference_from-eq-zero_iff, codes_injective}
use freeipa_admin_dashboard.Maintenance.Mode.{
  is_hash, is_controller_secret, same_hash, verify_maintenance_controller_secret,
}
use freeipa_admin_dashboard.Maintenance.Rows.{fixed_hash_equal}

matches-length : (ps : List Class) (s : String) → matches ps s ≡ true → length (codes s) ≡ length ps
unfolding matches
matches-length [] nil h = refl
matches-length [] (c ⋮ s) h = cc
matches-length (p ∷ ps) nil h = cc
matches-length (p ∷ ps) (c ⋮ s) h = ap suc (matches-length ps s (ground arith))

is_hash-length : (s : String) → is_hash s ≡ true → length (codes s) ≡ 64
unfolding is_hash
is_hash-length s h = matches-length (times 64 is_hex) s h

same_hash-eq-true_iff :
    (s t : String) → is_hash s ≡ true → is_hash t ≡ true → (same_hash s t ≡ true) ↔ (s ≡ t)
unfolding same_hash
same_hash-eq-true_iff s t hs ht =
    let zero_iff =
      difference_from-eq-zero_iff 0 (codes s) (codes t)
        (is_hash-length s hs ∙ sym (is_hash-length t ht)) in
    (
      λ e. codes_injective s t (zero_iff.0 ((==_iff _ 0).0 e)).1,
      λ e. (==_iff _ 0).1 (zero_iff.1 (refl, ap codes e)),
    )

-- The repository's comparison of two hashes holds exactly when they are one text of 64
-- hexadecimal digits: the loop that adds up differences decides equality.
pub fixed_hash_equal-eq-true_iff :
    (expected actual : String)
    → (fixed_hash_equal expected actual ≡ true) ↔ ((is_hash expected ≡ true) × (expected ≡ actual))
unfolding fixed_hash_equal
fixed_hash_equal-eq-true_iff expected actual = (
  λ e.
      let parts : (is_hash expected ≡ true)
          × (is_hash actual ≡ true)
          × (same_hash expected actual ≡ true) =
        ground arith in
      (parts.0, (same_hash-eq-true_iff expected actual parts.0 parts.1).0 parts.2),
  λ (h, same).
      let actual_hash = subst (λ t. is_hash t ≡ true) same h in
      let equal = (same_hash-eq-true_iff expected actual h actual_hash).1 same in
      rw (h, actual_hash, equal),
)

-- A stored hash and a secret are accepted exactly when the secret has its form and the hash is
-- its digest, where the digest of every text is one of 64 hexadecimal digits.
pub verify_maintenance_controller_secret_iff :
    (sha256 : String → String)
    → ((s : String) → is_hash (sha256 s) ≡ true)
    → (expected secret : String)
    → (verify_maintenance_controller_secret sha256 (some (str expected)) (some (str secret)) ≡ true)
      ↔ ((is_controller_secret secret ≡ true) × (expected ≡ sha256 secret))
unfolding verify_maintenance_controller_secret
verify_maintenance_controller_secret_iff sha256 hashes expected secret = (
  λ e.
      let parts : (is_hash expected ≡ true)
          × (is_controller_secret secret ≡ true)
          × (same_hash expected (sha256 secret) ≡ true) =
        ground arith in
      (parts.1, (same_hash-eq-true_iff expected (sha256 secret) parts.0 (hashes secret)).0 parts.2),
  λ (form, same).
      let h = subst (λ t. is_hash t ≡ true) (sym same) (hashes secret) in
      rw (h, form, (same_hash-eq-true_iff expected (sha256 secret) h (hashes secret)).1 same),
)
