-- ===== src/Base/Comparison.antt =====
-- Comparisons made of others: of a part, turned round, and one where the other finds no difference.
use Prim.Native.Nat.{ℕ, ◌≤◌}
use mathlib.Core.Path.{◌≡◌, refl, sym, ap, ◌∙◌, subst}
use mathlib.Core.Bool.{true}
use native.Mathlib.Omega.{arith}
use freeipa_admin_dashboard.Base.Tests.{false-ne-true}
use freeipa_admin_dashboard.Base.Order.{
  Sign, less, same, greater, opposite, is_at_most, or_then, number_sign, IsComparison,
}

abbrev AtMost : Sign → Type 0
AtMost s = is_at_most s ≡ true

opposite_twice : (s : Sign) → opposite (opposite s) ≡ s
opposite_twice less = refl
opposite_twice same = refl
opposite_twice greater = refl

opposite-or_then : (s t : Sign) → or_then (opposite s) (opposite t) ≡ opposite (or_then s t)
opposite-or_then less t = refl
opposite-or_then same t = refl
opposite-or_then greater t = refl

-- The six signs of three elements under two comparisons.
chain-or_then :
    (s1 s2 s3 t1 t2 t3 : Sign)
    → (AtMost s1 → AtMost s2 → AtMost s3)
    → (AtMost (opposite s3) → AtMost s1 → AtMost (opposite s2))
    → (AtMost s2 → AtMost (opposite s3) → AtMost (opposite s1))
    → (AtMost t1 → AtMost t2 → AtMost t3)
    → AtMost (or_then s1 t1)
    → AtMost (or_then s2 t2)
    → AtMost (or_then s3 t3)
chain-or_then greater s2 s3 t1 t2 t3 i j k q g h = absurd (false-ne-true g)
chain-or_then less greater s3 t1 t2 t3 i j k q g h = absurd (false-ne-true h)
chain-or_then same greater s3 t1 t2 t3 i j k q g h = absurd (false-ne-true h)
chain-or_then less less less t1 t2 t3 i j k q g h = refl
chain-or_then less same less t1 t2 t3 i j k q g h = refl
chain-or_then same less less t1 t2 t3 i j k q g h = refl
chain-or_then same same less t1 t2 t3 i j k q g h = refl
chain-or_then less less same t1 t2 t3 i j k q g h = absurd (false-ne-true (k refl refl))
chain-or_then less same same t1 t2 t3 i j k q g h = absurd (false-ne-true (k refl refl))
chain-or_then same less same t1 t2 t3 i j k q g h = absurd (false-ne-true (j refl refl))
chain-or_then same same same t1 t2 t3 i j k q g h = q g h
chain-or_then less less greater t1 t2 t3 i j k q g h = absurd (false-ne-true (i refl refl))
chain-or_then less same greater t1 t2 t3 i j k q g h = absurd (false-ne-true (i refl refl))
chain-or_then same less greater t1 t2 t3 i j k q g h = absurd (false-ne-true (i refl refl))
chain-or_then same same greater t1 t2 t3 i j k q g h = absurd (false-ne-true (i refl refl))

module _ {A : Type 0} where
  pub or_then-IsComparison :
      (p q : A → A → Sign)
      → IsComparison p
      → IsComparison q
      → IsComparison (λ a b. or_then (p a b) (q a b))
  or_then-IsComparison p q op oq = record {
    flips =
        λ a b. (λ i. or_then (op.flips a b i) (oq.flips a b i)) ∙ opposite-or_then (p a b) (q a b);
    chains = λ a b c g h.
        chain-or_then (p a b) (p b c) (p a c) (q a b) (q b c) (q a c) (op.chains a b c)
          (λ u v.
            subst AtMost (op.flips b c) (op.chains c a b (subst AtMost (sym (op.flips a c)) u) v))
          (λ u v.
            subst AtMost (op.flips a b) (op.chains b c a u (subst AtMost (sym (op.flips a c)) v)))
          (oq.chains a b c) g h;
  }

  pub opposite-IsComparison :
      (p : A → A → Sign) → IsComparison p → IsComparison (λ a b. opposite (p a b))
  opposite-IsComparison p op = record {
    flips = λ a b. ap opposite (op.flips a b);
    chains = λ a b c g h. subst AtMost (op.flips a c) (
        op.chains c b a (subst AtMost (sym (op.flips b c)) h)
          (subst AtMost (sym (op.flips a b)) g));
  }

  pub part-IsComparison :
      {B : Type 0} (part : A → B) (p : B → B → Sign)
      → IsComparison p
      → IsComparison (λ a b. p (part a) (part b))
  part-IsComparison part p op = record {
    flips = λ a b. op.flips (part a) (part b);
    chains = λ a b c. op.chains (part a) (part b) (part c);
  }

  pub swapped-IsComparison : (p : A → A → Sign) → IsComparison p → IsComparison (λ a b. p b a)
  swapped-IsComparison p op = record {
    flips = λ a b. op.flips b a;
    chains = λ a b c g h. op.chains c b a h g;
  }

number_sign-AtMost : (a b : ℕ) → AtMost (number_sign a b) → a ≤ b
number_sign-AtMost a b h = ground arith

AtMost-number_sign : (a b : ℕ) → a ≤ b → AtMost (number_sign a b)
AtMost-number_sign a b h = ground arith

pub number_sign-IsComparison : IsComparison number_sign
number_sign-IsComparison = record {
  flips = λ a b. ground arith;
  chains = λ a b c g h.
      AtMost-number_sign a c (omega (arith, number_sign-AtMost a b g, number_sign-AtMost b c h));
}
