-- ===== src/Auth/Order.antt =====
-- The order of the compiled routes, and which patterns fit a path.
use mathlib.Core.List.{Memᴰ}
use mathlib.Core.List.Memᴰ
use freeipa_admin_dashboard.Base.{
  ℕ, ◌≤◌, suc, String, ◌≡◌, refl, ap, sym, subst, ◌⊎◌, inl, inr, Bool, true, false, Option, none,
  some, List, [], ◌∷◌, str_eq, eq_iff, ◌==◌, ==_iff, length, All, is_blank, arith, Bool-cases,
  if◌then◌else◌,
}
use freeipa_admin_dashboard.Auth.Router.{
  CompiledRoute, comes_before, insert, sort, is_parameter, read_segment, put_parameter, from_second,
  and_then, match_from, match_segments,
}

-- A pattern's segment fits a segment of the path: a parameter takes anything but a blank.
unfoldable pub FitsSegment : String → String → Type 0
FitsSegment e v =
    ((is_parameter e ≡ true) × (is_blank v ≡ false)) ⊎ ((is_parameter e ≡ false) × (e ≡ v))

unfoldable pub Fits : List String → List String → Type 0
unfolding FitsSegment
Fits [] [] = Unit
Fits (e ∷ es) (v ∷ vs) = FitsSegment e v × Fits es vs
Fits _ _ = ⊥

unfoldable pub IsSorted : List CompiledRoute → Type 0
IsSorted [] = Unit
IsSorted (x ∷ xs) = All (λ y. y.static_segments ≤ x.static_segments) xs × IsSorted xs

module _ {ℓ κ} {A : Type ℓ} (P : A → Type κ) where
  pub All-Memᴰ : {a : A} (xs : List A) → Memᴰ a xs → All P xs → P a
  All-Memᴰ [] m h = absurd (Memᴰ.not-nil m)
  All-Memᴰ (x ∷ xs) (Memᴰ.head e) h = subst P (sym e) h.0
  All-Memᴰ (x ∷ xs) (Memᴰ.tail t) h = All-Memᴰ xs t h.1

  pub All-of_Memᴰ : (xs : List A) → ((a : A) → Memᴰ a xs → P a) → All P xs
  All-of_Memᴰ [] h = tt
  All-of_Memᴰ (x ∷ xs) h = (h x (Memᴰ.head refl), All-of_Memᴰ xs (λ a t. h a (Memᴰ.tail t)))

All-if {ℓ κ} :
    {A : Type ℓ} (P : A → Type κ) (b : Bool) (xs ys : List A)
    → All P xs
    → All P ys
    → All P (if b then xs else ys)
All-if P true xs ys h k = h
All-if P false xs ys h k = k

module _ {κ} (P : CompiledRoute → Type κ) where
  All-insert : (x : CompiledRoute) (ys : List CompiledRoute) → P x → All P ys → All P (insert x ys)
  unfolding insert
  All-insert x [] p h = (p, tt)
  All-insert x (y ∷ ys) p h =
      All-if P (comes_before y x) (y ∷ insert x ys) (x ∷ y ∷ ys) (h.0, All-insert x ys p h.1) (p, h)

  pub All-sort : (xs : List CompiledRoute) → All P xs → All P (sort xs)
  unfolding sort
  All-sort [] h = tt
  All-sort (x ∷ xs) h = All-insert x (sort xs) h.0 (All-sort xs h.1)

comes_before-le :
    (y x : CompiledRoute) → comes_before y x ≡ true → x.static_segments ≤ y.static_segments
unfolding comes_before
comes_before-le y x h = ground arith

not-comes_before-le :
    (y x : CompiledRoute) → comes_before y x ≡ false → y.static_segments ≤ x.static_segments
unfolding comes_before
not-comes_before-le y x h = ground arith

All-le_trans :
    (a b : ℕ) (ys : List CompiledRoute)
    → a ≤ b
    → All (λ y. y.static_segments ≤ a) ys
    → All (λ y. y.static_segments ≤ b) ys
All-le_trans a b [] h k = tt
All-le_trans a b (y ∷ ys) h k = (omega (arith, h, k.0), All-le_trans a b ys h k.1)

insert-IsSorted :
    (x : CompiledRoute) (ys : List CompiledRoute) → IsSorted ys → IsSorted (insert x ys)
unfolding insert IsSorted
insert-IsSorted x [] h = (tt, tt)
insert-IsSorted x (y ∷ ys) h =
    IsSorted-if (y ∷ insert x ys) (x ∷ y ∷ ys) (comes_before y x)
      (λ e. (
        All-insert (λ z. z.static_segments ≤ y.static_segments) x ys (comes_before-le y x e) h.0,
        insert-IsSorted x ys h.1,
      ))
      (λ e. (
        (
          not-comes_before-le y x e,
          All-le_trans y.static_segments x.static_segments ys (not-comes_before-le y x e) h.0,
        ),
        h,
      ))
  where
    IsSorted-if :
        (xs zs : List CompiledRoute) (b : Bool)
        → (b ≡ true → IsSorted xs)
        → (b ≡ false → IsSorted zs)
        → IsSorted (if b then xs else zs)
    IsSorted-if xs zs true h k = h refl
    IsSorted-if xs zs false h k = k refl

pub sort-IsSorted : (xs : List CompiledRoute) → IsSorted (sort xs)
unfolding sort IsSorted
sort-IsSorted [] = tt
sort-IsSorted (x ∷ xs) = insert-IsSorted x (sort xs) (sort-IsSorted xs)

pub none-ne-some {ℓ} : {A : Type ℓ} {o : Option A} {a : A} → o ≡ none → o ≡ some a → ⊥
none-ne-some h k = cc

read_segment_cases :
    (e v : String) (ps qs : List (String × String))
    → read_segment e v ps ≡ some qs
    → FitsSegment e v
unfolding read_segment FitsSegment
read_segment_cases e v ps qs h = elim (Bool-cases (is_parameter e)) [
  | inl p ↦ elim (Bool-cases (is_blank v)) [
    | inl b ↦ absurd (none-ne-some (rw (p, b) refl) h)
    | inr b ↦ inl (p, b)
  ]
  | inr p ↦ elim (Bool-cases (str_eq e v)) [
    | inl q ↦ inr (p, (eq_iff e v).0 q)
    | inr q ↦ absurd (none-ne-some (rw (p, q) refl) h)
  ]
]

FitsSegment-read_segment :
    (e v : String) (ps : List (String × String))
    → FitsSegment e v
    → (qs : List (String × String)) × (read_segment e v ps ≡ some qs)
unfolding read_segment FitsSegment
FitsSegment-read_segment e v ps (inl (p, b)) = (put_parameter (from_second e) v ps, rw (p, b) refl)
FitsSegment-read_segment e v ps (inr (p, q)) = (ps, rw (p, (eq_iff e v).1 q) refl)

-- The value of a step of a search that found something.
pub and_then-elim {ℓ κ ν} :
    {A : Type ℓ} {B : Type κ} {P : Type ν} (o : Option A) (f : A → Option B) {b : B}
    → and_then o f ≡ some b
    → ((a : A) → o ≡ some a → f a ≡ some b → P)
    → P
and_then-elim (some a) f h k = k a refl h
and_then-elim none f h k = absurd cc

match_from-Fits :
    (es vs : List String) (ps qs : List (String × String))
    → length es ≡ length vs
    → match_from es vs ps ≡ some qs
    → Fits es vs
unfolding match_from Fits
match_from-Fits [] [] ps qs l h = tt
match_from-Fits [] (v ∷ vs) ps qs l h = absurd (omega arith)
match_from-Fits (e ∷ es) [] ps qs l h = absurd (omega arith)
match_from-Fits (e ∷ es) (v ∷ vs) ps qs l h =
    and_then-elim (read_segment e v ps) (match_from es vs) h
      λ rs r t. (read_segment_cases e v ps rs r, match_from-Fits es vs rs qs (omega arith) t)

Fits-match_from :
    (es vs : List String) (ps : List (String × String))
    → Fits es vs
    → (qs : List (String × String)) × (match_from es vs ps ≡ some qs)
unfolding match_from Fits
Fits-match_from [] [] ps h = (ps, refl)
Fits-match_from [] (v ∷ vs) ps h = absurd h
Fits-match_from (e ∷ es) [] ps h = absurd h
Fits-match_from (e ∷ es) (v ∷ vs) ps h =
    let (rs, r) = FitsSegment-read_segment e v ps h.0 in
    let (qs, t) = Fits-match_from es vs rs h.1 in (qs, rw (r) t)

Fits-length : (es vs : List String) → Fits es vs → length es ≡ length vs
unfolding Fits
Fits-length [] [] h = refl
Fits-length [] (v ∷ vs) h = absurd h
Fits-length (e ∷ es) [] h = absurd h
Fits-length (e ∷ es) (v ∷ vs) h = ap suc (Fits-length es vs h.1)

pub if-some {ℓ} :
    {A : Type ℓ} (b : Bool) {o : Option A} {a : A}
    → (if b then o else none) ≡ some a
    → (b ≡ true) × (o ≡ some a)
if-some true h = (refl, h)
if-some false h = absurd (none-ne-some refl h)

pub match_segments-Fits :
    (es vs : List String) (qs : List (String × String))
    → match_segments es vs ≡ some qs
    → Fits es vs
unfolding match_segments
match_segments-Fits es vs qs h =
    let (l, t) = if-some (length es == length vs) h in
    match_from-Fits es vs [] qs ((==_iff (length es) (length vs)).0 l) t

pub Fits-match_segments :
    (es vs : List String)
    → Fits es vs
    → (qs : List (String × String)) × (match_segments es vs ≡ some qs)
unfolding match_segments
Fits-match_segments es vs h =
    rw ((==_iff (length es) (length vs)).1 (Fits-length es vs h)) (Fits-match_from es vs [] h)
