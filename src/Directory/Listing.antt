-- ===== src/Directory/Listing.antt =====
-- The pages of src/freeipa/freeipa-user-query.ts and freeipa-group-member-query.ts, joined, against what
-- matches the query.
use mathlib.Core.List.{Perm}
use freeipa_admin_dashboard.Base.{
  ℕ, ◌≤◌, min, String, ◌≡◌, sym, ap, subst, ◌∙◌, Option, none, some, List, [], ◌∷◌, length, keep,
  arith, if◌then◌else◌, any, ◌==◌,
}
use freeipa_admin_dashboard.Base.Json.{Value}
use freeipa_admin_dashboard.Base.Language.{Language}
use freeipa_admin_dashboard.Base.Order.{
  Sign, or_then, number_sign, IsComparison, IsSorted, sort_by-perm, sort_by-IsSorted,
}
use freeipa_admin_dashboard.Base.Comparison.{
  or_then-IsComparison, opposite-IsComparison, part-IsComparison, number_sign-IsComparison,
  swapped-IsComparison,
}
use freeipa_admin_dashboard.Directory.Pages.{
  Locale, text_or_empty, allowed_page_sizes, allowed_page_size, Direction, asc, desc,
  total_pages_of, page_of, pagination_of,
}
use freeipa_admin_dashboard.Directory.Joined.{joined_pages, joined_pages-same, joined_pages-all}
use freeipa_admin_dashboard.Directory.Users.{
  User, UserSort, by_uid, by_name, by_email, by_groups, by_status, UserQuery, directed,
  active_number, normalize_user_query, normalized_users, user_matches, compare_user_primary,
  compare_users, matching_users, query_freeipa_users,
}
use freeipa_admin_dashboard.Directory.Members.{
  Member, MemberSort, members_by_uid, members_by_name, members_by_email, members_by_status,
  MemberQuery, status_rank, normalize_member_query, normalize_group, normalized_members,
  member_matches, compare_member_primary, compare_members, matching_members,
  query_freeipa_group_members,
}

-- A list of the same elements as another, in an order.
unfoldable pub IsListing : {A : Type 0} → (A → A → Sign) → List A → List A → Type 0
IsListing cmp expected shown = Perm shown expected × IsSorted cmp shown

module _ {A : Type 0} where
  pages-joined :
      (size : ℕ) (l : List A)
      → 1 ≤ size
      → joined_pages
          (λ n. page_of (min n (total_pages_of (length l) size)) size l)
          (total_pages_of (length l) size)
        ≡ l
  pages-joined size l h =
      joined_pages-same (λ n. page_of (min n (total_pages_of (length l) size)) size l)
        (λ n. page_of n size l) (total_pages_of (length l) size)
        (λ n u. ap (λ m. page_of m size l) (omega (arith, u)))
      ∙ joined_pages-all size l h

  directed-IsComparison :
      (d : Direction) (p : A → A → Sign) → IsComparison p → IsComparison (λ a b. directed d (p a b))
  directed-IsComparison asc p h = h
  directed-IsComparison desc p h = opposite-IsComparison p h

  directed-or_then-IsComparison :
      (d : Direction) (p q : A → A → Sign)
      → IsComparison p
      → IsComparison q
      → IsComparison (λ a b. or_then (directed d (p a b)) (q a b))
  directed-or_then-IsComparison d p q hp hq =
      or_then-IsComparison (λ a b. directed d (p a b)) q (directed-IsComparison d p hp) hq

page_size-positive : (at : Locale) (v : Option String) → 1 ≤ allowed_page_size at v
unfolding allowed_page_size allowed_page_sizes
page_size-positive at v = by_number (at.parse_int (text_or_empty v))
  where
    by_number :
        (o : Option ℕ)
        → 1 ≤ elim o [
          | none ↦ 25
          | some n ↦ if any (λ m. m == n) (10 ∷ 25 ∷ 50 ∷ 100 ∷ []) then n else 25
        ]
    by_number none = omega arith
    by_number (some n) = ground arith

module _ (js : Language) (at : Locale) (collator : IsComparison at.compare) where
  user_primary-IsComparison : (s : UserSort) → IsComparison (compare_user_primary js at s)
  unfolding compare_user_primary
  user_primary-IsComparison by_uid = part-IsComparison (λ u. u.uid) at.compare collator
  user_primary-IsComparison by_name = part-IsComparison (λ u. u.name) at.compare collator
  user_primary-IsComparison by_email = part-IsComparison (λ u. u.email) at.compare collator
  user_primary-IsComparison by_groups =
      part-IsComparison (λ u. u.groups) number_sign number_sign-IsComparison
  user_primary-IsComparison by_status =
      part-IsComparison (λ (u : User). active_number u.active) (λ a b. number_sign b a)
        (swapped-IsComparison number_sign number_sign-IsComparison)

  compare_users-IsComparison : (query : UserQuery) → IsComparison (compare_users js at query)
  unfolding compare_users
  compare_users-IsComparison query =
      directed-or_then-IsComparison query.direction (compare_user_primary js at query.sort)
        (λ l r. at.compare l.uid r.uid) (user_primary-IsComparison query.sort)
        (part-IsComparison (λ (u : User). u.uid) at.compare collator)

  member_primary-IsComparison : (s : MemberSort) → IsComparison (compare_member_primary js at s)
  unfolding compare_member_primary
  member_primary-IsComparison members_by_uid = part-IsComparison (λ m. m.uid) at.compare collator
  member_primary-IsComparison members_by_name = part-IsComparison (λ m. m.name) at.compare collator
  member_primary-IsComparison members_by_email =
      part-IsComparison (λ m. m.email) at.compare collator
  member_primary-IsComparison members_by_status =
      part-IsComparison (λ (m : Member). status_rank m.active) number_sign number_sign-IsComparison

  compare_members-IsComparison : (query : MemberQuery) → IsComparison (compare_members js at query)
  unfolding compare_members
  compare_members-IsComparison query =
      directed-or_then-IsComparison query.direction (compare_member_primary js at query.sort)
        (λ l r. at.compare l.uid r.uid) (member_primary-IsComparison query.sort)
        (part-IsComparison (λ (m : Member). m.uid) at.compare collator)

  users-joined :
      (vs : List Value) (query : UserQuery)
      → 1 ≤ query.page_size
      → joined_pages
          (λ n. (query_freeipa_users js at vs (record query { page = n })).users)
          (query_freeipa_users js at vs query).pagination.total_pages
        ≡ matching_users js at (normalized_users js at vs) query
  unfolding query_freeipa_users pagination_of matching_users user_matches compare_users
  users-joined vs query h =
      pages-joined query.page_size (matching_users js at (normalized_users js at vs) query) h

  members-joined :
      (source : List (String × Value)) (vs : List Value) (query : MemberQuery)
      → 1 ≤ query.page_size
      → joined_pages
          (λ n. (query_freeipa_group_members js at source vs (record query { page = n })).members)
          (query_freeipa_group_members js at source vs query).pagination.total_pages
        ≡ matching_members js at (normalized_members js at (normalize_group js at source) vs) query
  unfolding query_freeipa_group_members pagination_of matching_members member_matches
      compare_members
  members-joined source vs query h =
      pages-joined query.page_size
        (matching_members js at (normalized_members js at (normalize_group js at source) vs) query)
        h

  matching_users-IsListing :
      (us : List User) (query : UserQuery)
      → IsListing
          (compare_users js at query)
          (keep (user_matches js at query) us)
          (matching_users js at us query)
  unfolding IsListing matching_users
  matching_users-IsListing us query = (
    sort_by-perm (compare_users js at query) (keep (user_matches js at query) us),
    sort_by-IsSorted (compare_users js at query) (compare_users-IsComparison query)
        (keep (user_matches js at query) us),
  )

  matching_members-IsListing :
      (ms : List Member) (query : MemberQuery)
      → IsListing
          (compare_members js at query)
          (keep (member_matches js at query) ms)
          (matching_members js at ms query)
  unfolding IsListing matching_members
  matching_members-IsListing ms query = (
    sort_by-perm (compare_members js at query) (keep (member_matches js at query) ms),
    sort_by-IsSorted (compare_members js at query) (compare_members-IsComparison query)
        (keep (member_matches js at query) ms),
  )

  normalize_user_query-positive :
      (parameter : String → Option String) → 1 ≤ (normalize_user_query js at parameter).page_size
  unfolding normalize_user_query
  normalize_user_query-positive parameter = page_size-positive at (parameter "pageSize")

  normalize_member_query-positive :
      (parameter : String → Option String) → 1 ≤ (normalize_member_query js at parameter).page_size
  unfolding normalize_member_query
  normalize_member_query-positive parameter = page_size-positive at (parameter "pageSize")

  -- Whatever a request asks for, its pages from the first to the last, one after the other, are the
  -- users that match it, each as often as there are such users, in the order that it asks for, where
  -- the collator is an order.
  pub query_freeipa_users-pages :
      (vs : List Value) (parameter : String → Option String)
      → let query = normalize_user_query js at parameter in
        IsListing
          (compare_users js at query)
          (keep (user_matches js at query) (normalized_users js at vs))
          (joined_pages
            (λ n. (query_freeipa_users js at vs (record query { page = n })).users)
            (query_freeipa_users js at vs query).pagination.total_pages)
  query_freeipa_users-pages vs parameter =
      let query = normalize_user_query js at parameter in
      subst
        (IsListing (compare_users js at query)
          (keep (user_matches js at query) (normalized_users js at vs)))
        (sym (users-joined vs query (normalize_user_query-positive parameter)))
        (matching_users-IsListing (normalized_users js at vs) query)

  -- Whatever a request asks of a group, its pages from the first to the last, one after the other,
  -- are the members of the group that match it, each as often as there are such members, in the
  -- order that it asks for, where the collator is an order.
  pub query_freeipa_group_members-pages :
      (source : List (String × Value)) (vs : List Value) (parameter : String → Option String)
      → let query = normalize_member_query js at parameter in
        IsListing
          (compare_members js at query)
          (keep
            (member_matches js at query)
            (normalized_members js at (normalize_group js at source) vs))
          (joined_pages
            (λ n. (query_freeipa_group_members js at source vs (record query { page = n })).members)
            (query_freeipa_group_members js at source vs query).pagination.total_pages)
  query_freeipa_group_members-pages source vs parameter =
      let query = normalize_member_query js at parameter in
      subst
        (IsListing (compare_members js at query) (
          keep (member_matches js at query)
            (normalized_members js at (normalize_group js at source) vs)))
        (sym (members-joined source vs query (normalize_member_query-positive parameter)))
        (matching_members-IsListing (normalized_members js at (normalize_group js at source) vs)
          query)
