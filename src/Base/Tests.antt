-- ===== src/Base/Tests.antt =====
-- Boolean tests on the native numbers, the conditional, and results that carry an error.
use Prim.Native.Nat.{ℕ, compare, Ordering}
use mathlib.Core.Path.{◌≡◌, refl, sym}
use mathlib.Core.Logic.{◌↔◌, ◌⊎◌, inl, inr}
use mathlib.Core.Bool.{Bool, true, false, ◌&&◌}
use mathlib.Core.Option.{Option, none, some}
use native.Mathlib.Omega.{arith}

abbrev pub ltb : ℕ → ℕ → Bool
ltb a b = elim (compare a b) [ Ordering.lt ↦ true | _ ↦ false ]

abbrev pub leb : ℕ → ℕ → Bool
leb a b = elim (compare a b) [ Ordering.gt ↦ false | _ ↦ true ]

infix 50 ◌==◌
abbrev pub ◌==◌ : ℕ → ℕ → Bool
a == b = elim (compare a b) [ Ordering.eq ↦ true | _ ↦ false ]

infix 1 if◌then◌else◌
abbrev pub if◌then◌else◌ {ℓ} : {A : Type ℓ} → Bool → A → A → A
if true then x else y = x
if false then x else y = y

pub ==_iff : (a b : ℕ) → ((a == b) ≡ true) ↔ (a ≡ b)
==_iff a b = ground arith

-- To split on a computed value and keep the equation.
pub Bool-cases : (b : Bool) → (b ≡ true) ⊎ (b ≡ false)
Bool-cases true = inl refl
Bool-cases false = inr refl

pub Option-cases {ℓ} : {A : Type ℓ} (o : Option A) → (o ≡ none) ⊎ ((a : A) × (o ≡ some a))
Option-cases none = inl refl
Option-cases (some a) = inr (a, refl)

pub &&-eq-true_iff : (a b : Bool) → ((a && b) ≡ true) ↔ ((a ≡ true) × (b ≡ true))
&&-eq-true_iff a b = ground arith

-- `if (!test) fail(e)` goes on with the value of the second result; what throws ends the chain.
pub data Result {ℓ κ} (E : Type ℓ) (A : Type κ) : Type (ℓ ⊔ κ) where
  err : E → Result E A
  ok : A → Result E A

abbrev pub guard {ℓ} : {E : Type ℓ} → Bool → E → Result E (Unit {0})
guard b problem = if b then ok tt else err problem

infixl 5 ◌>>=◌ ◌>>◌
abbrev pub ◌>>=◌ {ℓ κ ν} :
    {E : Type ℓ} {A : Type κ} {B : Type ν} → Result E A → (A → Result E B) → Result E B
err problem >>= next = err problem
ok value >>= next = next value

abbrev pub ◌>>◌ {ℓ κ} : {E : Type ℓ} {B : Type κ} → Result E (Unit {0}) → Result E B → Result E B
first >> second = first >>= λ _. second

-- The value of a step of a chain that did not throw, for a proof that goes on with it.
pub >>=-elim {ℓ κ ν ο} :
    {E : Type ℓ} {A : Type κ} {B : Type ν} {P : Type ο} (m : Result E A) (f : A → Result E B)
    {b : B}
    → (m >>= f) ≡ ok b
    → ((a : A) → m ≡ ok a → f a ≡ ok b → P)
    → P
>>=-elim (ok a) f h k = k a refl h
>>=-elim (err e) f {b} h k = absurd (clash h)
  where
    clash : err e ≡ ok b → ⊥
    clash p = cc

pub guard-elim {ℓ ν ο} :
    {E : Type ℓ} {B : Type ν} {P : Type ο} (t : Bool) (e : E) (m : Result E B) {b : B}
    → (guard t e >> m) ≡ ok b
    → (t ≡ true → m ≡ ok b → P)
    → P
guard-elim true e m h k = k refl h
guard-elim false e m {b} h k = absurd (clash h)
  where
    clash : err e ≡ ok b → ⊥
    clash p = cc

pub ok_injective {ℓ κ} :
    {E : Type ℓ} {A : Type κ} {a b : A} → ◌≡◌ {A = Result E A} (ok a) (ok b) → a ≡ b
ok_injective h = cc

-- The branch that gave a value, for a proof that goes on with it.
pub if-elim {ℓ κ} :
    {A : Type ℓ} {P : Type κ} (t : Bool) {x y a : A}
    → (if t then x else y) ≡ a
    → (t ≡ true → x ≡ a → P)
    → (t ≡ false → y ≡ a → P)
    → P
if-elim true h j k = j refl h
if-elim false h j k = k refl h

-- `null` or `undefined` as an error, and an error caught and thrown as another.
abbrev pub given {ℓ κ} : {E : Type ℓ} {A : Type κ} → Option A → E → Result E A
given (some a) problem = ok a
given none problem = err problem

abbrev pub rethrow {ℓ κ} : {E : Type ℓ} {A : Type κ} → (E → E) → Result E A → Result E A
rethrow f (ok a) = ok a
rethrow f (err problem) = err (f problem)

pub rethrow-ok {ℓ κ} :
    {E : Type ℓ} {A : Type κ} (f : E → E) (m : Result E A) {a : A} → rethrow f m ≡ ok a → m ≡ ok a
rethrow-ok f (ok b) h = h
rethrow-ok f (err problem) {a} h = absurd (clash h)
  where
    clash : err (f problem) ≡ ok a → ⊥
    clash h = cc

pub false-ne-true : false ≡ true → ⊥
false-ne-true h = cc

pub if-true {ℓ} : {A : Type ℓ} (t : Bool) {x : A} (y : A) → t ≡ true → (if t then x else y) ≡ x
if-true true y h = refl
if-true false y h = absurd (false-ne-true h)

pub if-false {ℓ} : {A : Type ℓ} (t : Bool) (x : A) {y : A} → t ≡ false → (if t then x else y) ≡ y
if-false false x h = refl
if-false true x h = absurd (false-ne-true (sym h))
