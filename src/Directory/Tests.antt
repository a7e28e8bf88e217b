-- ===== src/Directory/Tests.antt =====
-- Runs of the queries of the directory.
use Prim.Native.String.{len}
use freeipa_admin_dashboard.Base.{String, true, Option, none, some, List, [], ◌∷◌, keep}
use freeipa_admin_dashboard.Base.Json.{Value, str, array, object, end, item, done, field}
use freeipa_admin_dashboard.Base.Language.{Language, natural}
use freeipa_admin_dashboard.Base.Order.{number_sign, IsComparison}
use freeipa_admin_dashboard.Base.Comparison.{part-IsComparison, number_sign-IsComparison}
use freeipa_admin_dashboard.Directory.Pages.{Locale}
use freeipa_admin_dashboard.Directory.Users.{
  normalize_user_query, normalized_users, user_matches, compare_users, query_freeipa_users,
}
use freeipa_admin_dashboard.Directory.Members.{
  normalize_group, normalize_member_query, normalized_members, member_matches, compare_members,
  query_freeipa_group_members,
}
use freeipa_admin_dashboard.Directory.Joined.{joined_pages}
use freeipa_admin_dashboard.Directory.Listing.{
  IsListing, query_freeipa_users-pages, query_freeipa_group_members-pages,
}

abbrev plain : Language
plain = record {
  show = λ v. elim v [ str s ↦ s | _ ↦ "" ];
  decimal = λ n. "0";
  trim = λ s. s;
  lower = λ s. s;
  slice = λ n s. s;
  number = λ v. natural 0;
  parse = λ s. none;
  stringify = λ v. "";
}

-- A collator that compares the lengths of texts.
abbrev by_length : Locale
by_length = record {
  compare = λ a b. number_sign (len a) (len b);
  lower_ru = λ s. s;
  contains = λ a b. true;
  parse_int = λ s. some 10;
}

by_length-IsComparison : IsComparison by_length.compare
by_length-IsComparison = part-IsComparison len number_sign number_sign-IsComparison

abbrev nothing_asked : String → Option String
nothing_asked s = none

abbrev directory : List Value
directory = object (field "uid" (str "anna") done) ∷ object (field "uid" (str "robert") done) ∷ []

abbrev admins : List (String × Value)
admins =
    ("name", str "admins") ∷ ("memberUids", array (item (str "bob") (item (str "eve") end))) ∷ []

query_freeipa_users-pages_example :
    IsListing
      (compare_users plain by_length (normalize_user_query plain by_length nothing_asked))
      (keep
        (user_matches plain by_length (normalize_user_query plain by_length nothing_asked))
        (normalized_users plain by_length directory))
      (joined_pages
        (λ n.
          (query_freeipa_users plain by_length directory
            (record (normalize_user_query plain by_length nothing_asked) { page = n })).users)
        (query_freeipa_users plain by_length directory
          (normalize_user_query plain by_length nothing_asked)).pagination.total_pages)
query_freeipa_users-pages_example =
    query_freeipa_users-pages plain by_length by_length-IsComparison directory nothing_asked

query_freeipa_group_members-pages_example :
    IsListing
      (compare_members plain by_length (normalize_member_query plain by_length nothing_asked))
      (keep
        (member_matches plain by_length (normalize_member_query plain by_length nothing_asked))
        (normalized_members plain by_length (normalize_group plain by_length admins) directory))
      (joined_pages
        (λ n.
          (query_freeipa_group_members plain by_length admins directory
            (record (normalize_member_query plain by_length nothing_asked) { page = n })).members)
        (query_freeipa_group_members plain by_length admins directory
          (normalize_member_query plain by_length nothing_asked)).pagination.total_pages)
query_freeipa_group_members-pages_example =
    query_freeipa_group_members-pages plain by_length by_length-IsComparison admins directory
      nothing_asked
