-- ===== src/Directory/Joined.antt =====
-- The pages of a list, joined.
use native.Mathlib.Omega.{div_fact, mod_fact}
use freeipa_admin_dashboard.Base.{
  take-all, ℕ, zero, suc, ◌+◌, ◌-◌, ◌*◌, ◌/◌, ◌≤◌, max, ◌≡◌, refl, sym, subst, ap, ◌∙◌, List, [],
  ◌∷◌, ◌++◌, length, take, drop, arith,
}
use freeipa_admin_dashboard.Directory.Pages.{total_pages_of, page_of}

suc_pred : (k : ℕ) → suc k - 1 ≡ k
suc_pred k = omega arith

zero_times : (n : ℕ) → 0 ≡ 0 * n
zero_times n = omega arith

suc_mul : (k size : ℕ) → k * size + size ≡ suc k * size
suc_mul k size = omega arith

at_least_one : (k total pages : ℕ) → total ≤ pages * suc k → total ≤ max 1 pages * suc k
at_least_one k total zero h = omega (arith, h)
at_least_one k total (suc pages) h = subst (λ m. total ≤ m * suc k) (sym (max_one pages)) h
  where
    max_one : (n : ℕ) → max 1 (suc n) ≡ suc n
    max_one n = omega arith

suc_add : (m n : ℕ) → suc m + n ≡ suc (m + n)
suc_add m n = omega arith

total-covered : (k total : ℕ) → total ≤ ((total + k) / suc k) * suc k
total-covered k total = omega (arith, div_fact (total + k) k, mod_fact (total + k) k)

total-pages-covered : (k total : ℕ) → total ≤ total_pages_of total (suc k) * suc k
unfolding total_pages_of
total-pages-covered k total =
    at_least_one k total ((total + (suc k - 1)) / suc k) (
      subst (λ m. total ≤ ((total + m) / suc k) * suc k) (sym (suc_pred k)) (total-covered k total))

module _ {A : Type 0} where
  -- The lists of the numbers 1 to `count`, one after the other.
  unfoldable pub joined_pages : (ℕ → List A) → ℕ → List A
  joined_pages f zero = []
  joined_pages f (suc k) = joined_pages f k ++ f (suc k)

  take-nothing : (n : ℕ) (l : List A) → l ≡ [] → take n l ≡ []
  take-nothing zero l h = refl
  take-nothing (suc n) [] h = refl
  take-nothing (suc n) (x ∷ l) h = absurd cc

  take-add : (m n : ℕ) (l : List A) → take (m + n) l ≡ take m l ++ take n (drop m l)
  take-add zero n l = ap (λ k. take k l) (omega arith)
  take-add (suc m) n [] = take-nothing (suc m + n) [] refl ∙ sym (take-nothing n [] refl)
  take-add (suc m) n (x ∷ l) =
      ap (λ k. take k (x ∷ l)) (suc_add m n) ∙ ap (λ r. x ∷ r) (take-add m n l)

  joined_pages-take :
      (size k : ℕ) (l : List A) → joined_pages (λ n. page_of n size l) k ≡ take (k * size) l
  unfolding joined_pages page_of
  joined_pages-take size zero l = ap (λ k. take k l) (zero_times size)
  joined_pages-take size (suc k) l =
      ap (λ r. r ++ take size (drop ((suc k - 1) * size) l)) (joined_pages-take size k l)
      ∙ (ap (λ m. take (k * size) l ++ take size (drop (m * size) l)) (suc_pred k)
          ∙ (sym (take-add (k * size) size l) ∙ ap (λ m. take m l) (suc_mul k size)))

  pub joined_pages-same :
      (f g : ℕ → List A) (k : ℕ)
      → ((n : ℕ) → n ≤ k → f n ≡ g n)
      → joined_pages f k ≡ joined_pages g k
  unfolding joined_pages
  joined_pages-same f g zero h = refl
  joined_pages-same f g (suc k) h =
      (λ i. joined_pages-same f g k (λ n u. h n (omega (arith, u))) i ++ h (suc k) (omega arith) i)

  pub joined_pages-all :
      (size : ℕ) (l : List A)
      → 1 ≤ size
      → joined_pages (λ n. page_of n size l) (total_pages_of (length l) size) ≡ l
  unfolding total_pages_of
  joined_pages-all zero l h = absurd (omega (arith, h))
  joined_pages-all (suc size) l h =
      joined_pages-take (suc size) (total_pages_of (length l) (suc size)) l
      ∙ take-all _ l (total-pages-covered size (length l))
