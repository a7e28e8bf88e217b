-- ===== src/Base/Compare.antt =====
-- The comparison in constant time that the sources write as
-- `difference |= left.charCodeAt(i) ^ right.charCodeAt(i)`.
use Prim.Native.Nat.{ℕ, bit_or, bit_xor}
use Prim.Native.Char.{code}
use Prim.Native.String.{String, [] as nil, ◌∷◌ as ◌⋮◌}
use mathlib.Core.Path.{◌≡◌, refl, ap₂}
use mathlib.Core.Logic.{◌↔◌}
use mathlib.Core.List.{List, [], ◌∷◌}
use native.Mathlib.Omega.{arith}
use text.Mathlib.TextEquality.{Char-path}
use freeipa_admin_dashboard.Base.Lists.{length}
use freeipa_admin_dashboard.Base.Bits.{bit_or-eq-zero_iff, bit_xor-eq-zero_iff}

abbrev pub codes : String → List ℕ
codes nil = []
codes (c ⋮ s) = code c ∷ codes s

-- The loop, with `difference` as its state; a missing character counts as 0.
unfoldable pub difference_from : ℕ → List ℕ → List ℕ → ℕ
difference_from d [] [] = d
difference_from d (x ∷ xs) [] = difference_from (bit_or d (bit_xor x 0)) xs []
difference_from d [] (y ∷ ys) = difference_from (bit_or d (bit_xor 0 y)) [] ys
difference_from d (x ∷ xs) (y ∷ ys) = difference_from (bit_or d (bit_xor x y)) xs ys

-- Over lists of one length the loop ends at 0 exactly when it began at 0 and they are equal.
pub difference_from-eq-zero_iff :
    (d : ℕ) (xs ys : List ℕ)
    → length xs ≡ length ys
    → (difference_from d xs ys ≡ 0) ↔ ((d ≡ 0) × (xs ≡ ys))
unfolding difference_from
difference_from-eq-zero_iff d [] [] h = (λ e. (e, refl), λ e. e.0)
difference_from-eq-zero_iff d (x ∷ xs) [] h = absurd (omega arith)
difference_from-eq-zero_iff d [] (y ∷ ys) h = absurd (omega arith)
difference_from-eq-zero_iff d (x ∷ xs) (y ∷ ys) h =
    let ih = difference_from-eq-zero_iff (bit_or d (bit_xor x y)) xs ys (omega arith) in
    let either = bit_or-eq-zero_iff d (bit_xor x y) in
    let same = bit_xor-eq-zero_iff x y in
    (
      λ e.
          let (z, tails) = ih.0 e in
          let (d0, x0) = either.0 z in (d0, ap₂ (λ a r. a ∷ r) (same.0 x0) tails),
      λ e. ih.1 (either.1 (e.0, same.1 (head-eq e.1)), tail-eq e.1),
    )
  where
    head-eq : {a b : ℕ} {r s : List ℕ} → (a ∷ r) ≡ (b ∷ s) → a ≡ b
    head-eq e = cc

    tail-eq : {a b : ℕ} {r s : List ℕ} → (a ∷ r) ≡ (b ∷ s) → r ≡ s
    tail-eq e = cc

pub codes_injective : (s t : String) → codes s ≡ codes t → s ≡ t
codes_injective nil nil h = refl
codes_injective nil (c ⋮ t) h = cc
codes_injective (c ⋮ s) nil h = cc
codes_injective (c ⋮ s) (d ⋮ t) h =
    ap₂ (λ a r. a ⋮ r) (Char-path c d (head-eq h)) (codes_injective s t (tail-eq h))
  where
    head-eq : {a b : ℕ} {r u : List ℕ} → (a ∷ r) ≡ (b ∷ u) → a ≡ b
    head-eq e = cc

    tail-eq : {a b : ℕ} {r u : List ℕ} → (a ∷ r) ≡ (b ∷ u) → r ≡ u
    tail-eq e = cc
