-- ===== src/Base/Order.antt =====
-- Comparisons as `Array.prototype.sort` takes them: their signs, their combination, and the stable
-- sort by one.
use Prim.Native.Nat.{ℕ, compare, Ordering}
use mathlib.Core.Path.{◌≡◌, refl, sym, ap, ◌∙◌}
use mathlib.Core.Bool.{Bool, true, false}
use mathlib.Core.List.{List, [], ◌∷◌, Perm}
use mathlib.Core.List.Perm
use freeipa_admin_dashboard.Base.Tests.{if◌then◌else◌, false-ne-true}
use freeipa_admin_dashboard.Base.Lists.{All}

-- The sign of the number that a comparison returns.
pub data Sign : Type 0 where
  less same greater : Sign

abbrev pub opposite : Sign → Sign
opposite less = greater
opposite same = same
opposite greater = less

abbrev pub is_at_most : Sign → Bool
is_at_most greater = false
is_at_most _ = true

-- `if (primary !== 0) return primary; return secondary`
abbrev pub or_then : Sign → Sign → Sign
or_then same s = s
or_then less s = less
or_then greater s = greater

-- `left - right`
abbrev pub number_sign : ℕ → ℕ → Sign
number_sign a b = elim (compare a b) [
  | Ordering.lt ↦ less
  | Ordering.eq ↦ same
  | Ordering.gt ↦ greater
]

module _ {A : Type 0} (cmp : A → A → Sign) where
  -- `sort(cmp)`, which is stable.
  unfoldable pub insert_by : A → List A → List A
  insert_by x [] = x ∷ []
  insert_by x (y ∷ ys) =
      let rest = insert_by x ys in if is_at_most (cmp x y) then x ∷ y ∷ ys else y ∷ rest

  unfoldable pub sort_by : List A → List A
  unfolding insert_by
  sort_by [] = []
  sort_by (x ∷ xs) = insert_by x (sort_by xs)

  -- What the language asks of a comparison.
  pub record IsComparison : Type 0 where
    pub flips : (a b : A) → cmp b a ≡ opposite (cmp a b)
    pub chains :
        (a b c : A)
        → is_at_most (cmp a b) ≡ true
        → is_at_most (cmp b c) ≡ true
        → is_at_most (cmp a c) ≡ true

  -- Each element is at most those behind it.
  abbrev pub IsSorted : List A → Type 0
  IsSorted [] = Unit
  IsSorted (x ∷ xs) = All (λ y. is_at_most (cmp x y) ≡ true) xs × IsSorted xs

  insert_by-perm : (x : A) (l : List A) → Perm (insert_by x l) (x ∷ l)
  unfolding insert_by
  insert_by-perm x [] = Perm.rfl
  insert_by-perm x (y ∷ ys) = by_test (is_at_most (cmp x y)) (insert_by-perm x ys)
    where
      by_test :
          (t : Bool)
          → Perm (insert_by x ys) (x ∷ ys)
          → Perm (if t then x ∷ y ∷ ys else y ∷ insert_by x ys) (x ∷ y ∷ ys)
      by_test true h = Perm.rfl
      by_test false h = Perm.trans (Perm.cons y h) (Perm.swap x y ys)

  pub sort_by-perm : (l : List A) → Perm (sort_by l) l
  unfolding sort_by
  sort_by-perm [] = Perm.rfl
  sort_by-perm (x ∷ xs) = Perm.trans (insert_by-perm x (sort_by xs)) (Perm.cons x (sort_by-perm xs))

  module _ (order : IsComparison) where
    at_most_flip : (a b : A) → is_at_most (cmp a b) ≡ false → is_at_most (cmp b a) ≡ true
    at_most_flip a b h = ap is_at_most (order.flips a b) ∙ turned (cmp a b) h
      where
        turned : (s : Sign) → is_at_most s ≡ false → is_at_most (opposite s) ≡ true
        turned greater h = refl
        turned less h = absurd (false-ne-true (sym h))
        turned same h = absurd (false-ne-true (sym h))

    insert_by-All : (P : A → Type 0) (x : A) (l : List A) → P x → All P l → All P (insert_by x l)
    unfolding insert_by
    insert_by-All P x [] p h = (p, tt)
    insert_by-All P x (y ∷ ys) p h = by_test (is_at_most (cmp x y)) (insert_by-All P x ys p h.1)
      where
        by_test :
            (t : Bool)
            → All P (insert_by x ys)
            → All P (if t then x ∷ y ∷ ys else y ∷ insert_by x ys)
        by_test true k = (p, h)
        by_test false k = (h.0, k)

    below_head :
        (x y : A) (ys : List A)
        → is_at_most (cmp x y) ≡ true
        → All (λ z. is_at_most (cmp y z) ≡ true) ys
        → All (λ z. is_at_most (cmp x z) ≡ true) ys
    below_head x y [] h k = tt
    below_head x y (z ∷ zs) h (k, l) = (order.chains x y z h k, below_head x y zs h l)

    insert_by-IsSorted : (x : A) (l : List A) → IsSorted l → IsSorted (insert_by x l)
    unfolding insert_by
    insert_by-IsSorted x [] h = (tt, tt)
    insert_by-IsSorted x (y ∷ ys) h =
        by_test (is_at_most (cmp x y)) refl (insert_by-IsSorted x ys h.1)
      where
        by_test :
            (t : Bool)
            → is_at_most (cmp x y) ≡ t
            → IsSorted (insert_by x ys)
            → IsSorted (if t then x ∷ y ∷ ys else y ∷ insert_by x ys)
        by_test true e k = ((e, below_head x y ys e h.0), h)
        by_test false e k =
            (insert_by-All (λ z. is_at_most (cmp y z) ≡ true) x ys (at_most_flip x y e) h.0, k)

    pub sort_by-IsSorted : (l : List A) → IsSorted (sort_by l)
    unfolding sort_by
    sort_by-IsSorted [] = tt
    sort_by-IsSorted (x ∷ xs) = insert_by-IsSorted x (sort_by xs) (sort_by-IsSorted xs)
