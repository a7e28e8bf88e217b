-- ===== src/Directory/Users.antt =====
-- src/freeipa/freeipa-user-query.ts: the parameters of the query, the users as they are cleaned, and
-- the page that is shown.
use Prim.Native.Char.{char}
use Prim.Native.String
use Prim.Native.String.{[] as nil, ◌∷◌ as ◌⋮◌}
use freeipa_admin_dashboard.Base.{
  ℕ, String, Bool, true, false, ◌&&◌, ◌||◌, not, Option, none, some, List, [], ◌∷◌, ◌++◌, map,
  str_eq, if◌then◌else◌, any, keep, length, unique, is_blank,
}
use freeipa_admin_dashboard.Base.Json.{Value, bool, str, array, object, items, entries, get}
use freeipa_admin_dashboard.Base.Language.{Language, Number, natural}
use freeipa_admin_dashboard.Base.Order.{Sign, opposite, or_then, number_sign, sort_by}
use freeipa_admin_dashboard.Directory.Pages.{
  Locale, Direction, asc, desc, Pagination, clean_text, positive_integer, allowed_page_size,
  page_of, pagination_of,
}

pub record User : Type 0 where
  pub uid : String
  pub name : String
  pub first_name : String
  pub last_name : String
  pub email : String
  pub active : Bool
  pub groups : ℕ
  pub group_names : List String

pub data UserStatus : Type 0 where
  all active disabled : UserStatus

pub data UserSort : Type 0 where
  by_uid by_name by_email by_groups by_status : UserSort

pub record UserQuery : Type 0 where
  pub q : String
  pub status : UserStatus
  pub group : String
  pub sort : UserSort
  pub direction : Direction
  pub page : ℕ
  pub page_size : ℕ

-- `summary` of the result.
pub record UserSummary : Type 0 where
  pub total : ℕ
  pub active : ℕ
  pub disabled : ℕ
  pub filtered : ℕ

pub record UserQueryResult : Type 0 where
  pub users : List User
  pub pagination : Pagination
  pub filters : UserQuery
  pub available_groups : List String
  pub summary : UserSummary

abbrev pub text_is : Option String → String → Bool
text_is none t = false
text_is (some s) t = str_eq s t

abbrev pub as_value : Option String → Option Value
as_value none = none
as_value (some s) = some (str s)

abbrev status_of : Option String → UserStatus
status_of v = if text_is v "active" then active else if text_is v "disabled" then disabled else all

abbrev sort_of : Option String → UserSort
sort_of v =
    if text_is v "name"
    then by_name
    else if text_is v "email"
    then by_email
    else if text_is v "groups"
    then by_groups
    else if text_is v "status"
    then by_status
    else by_uid

abbrev pub direction_of : Option String → Direction
direction_of v = if text_is v "desc" then desc else asc

-- `&& user.uid`: users are objects whose `uid` is a text that is not empty.
abbrev pub user_entries : Value → Option (List (String × Value))
user_entries (object fs) = elim (get "uid" (entries fs)) [
  | some (str s) ↦ if is_blank s then none else some (entries fs)
  | _ ↦ none
]
user_entries _ = none

abbrev pub all_entries : List Value → List (List (String × Value))
all_entries [] = []
all_entries (v ∷ vs) =
    let rest = all_entries vs in elim (user_entries v) [ none ↦ rest | some fs ↦ fs ∷ rest ]

abbrev pub is_true : Option Value → Bool
is_true (some (bool b)) = b
is_true _ = false

-- `Math.max(0, Number(value) || 0)`, for a count that is whole.
abbrev pub count_of : Number → ℕ
count_of (natural n) = n
count_of _ = 0

abbrev pub given_items : Option Value → List Value
given_items (some (array vs)) = items vs
given_items _ = []

abbrev pub directed : Direction → Sign → Sign
directed asc s = s
directed desc s = opposite s

-- `Number(active)`.
abbrev pub active_number : Bool → ℕ
active_number true = 1
active_number false = 0

abbrev zero_text : String
zero_text = char 0 tt ⋮ nil

-- `join("\u0000")`, behind the first text.
abbrev pub joined_texts : List String → String
joined_texts [] = ""
joined_texts (t ∷ ts) = String.◌++◌ zero_text (String.◌++◌ t (joined_texts ts))

module _ (js : Language) (at : Locale) where
  unfoldable pub normalize_user_query : (String → Option String) → UserQuery
  unfolding clean_text positive_integer allowed_page_size
  normalize_user_query parameter = record {
    q = clean_text js (as_value (parameter "q")) 160;
    status = status_of (parameter "status");
    group = clean_text js (as_value (parameter "group")) 120;
    sort = sort_of (parameter "sort");
    direction = direction_of (parameter "direction");
    page = positive_integer at (parameter "page") 1 100000;
    page_size = allowed_page_size at (parameter "pageSize");
  }

  unfoldable pub normalized_groups : Option Value → List String
  unfolding clean_text items sort_by
  normalized_groups v = sort_by at.compare (
      unique (keep (λ g. not (is_blank g)) (map (λ g. clean_text js (some g) 120) (given_items v))))

  unfoldable pub normalized_user : List (String × Value) → User
  unfolding clean_text get normalized_groups
  normalized_user fs = record {
    uid = clean_text js (get "uid" fs) 160;
    name = clean_text js (get "name" fs) 240;
    first_name = clean_text js (get "firstName" fs) 160;
    last_name = clean_text js (get "lastName" fs) 160;
    email = clean_text js (get "email" fs) 320;
    active = is_true (get "active" fs);
    groups = count_of (js.number (get "groups" fs));
    group_names = normalized_groups (get "groupNames" fs);
  }

  unfoldable pub normalized_users : List Value → List User
  unfolding normalized_user get entries
  normalized_users vs = map normalized_user (all_entries vs)

  unfoldable pub user_search_text : User → String
  user_search_text u = at.lower_ru (
      String.◌++◌ u.uid
        (joined_texts (u.name ∷ u.first_name ∷ u.last_name ∷ u.email ∷ u.group_names)))

  abbrev has_status : UserStatus → Bool → Bool
  has_status all a = true
  has_status active a = a
  has_status disabled a = not a

  unfoldable pub user_matches : UserQuery → User → Bool
  unfolding user_search_text
  user_matches query u =
      (is_blank (at.lower_ru query.q) || at.contains (user_search_text u) (at.lower_ru query.q))
      && has_status query.status u.active
      && (is_blank (at.lower_ru query.group)
          || any (λ g. str_eq (at.lower_ru g) (at.lower_ru query.group)) u.group_names)

  unfoldable pub compare_user_primary : UserSort → User → User → Sign
  compare_user_primary by_groups l r = number_sign l.groups r.groups
  compare_user_primary by_status l r = number_sign (active_number r.active) (active_number l.active)
  compare_user_primary by_uid l r = at.compare l.uid r.uid
  compare_user_primary by_name l r = at.compare l.name r.name
  compare_user_primary by_email l r = at.compare l.email r.email

  unfoldable pub compare_users : UserQuery → User → User → Sign
  unfolding compare_user_primary
  compare_users query l r =
      or_then (directed query.direction (compare_user_primary query.sort l r))
        (at.compare l.uid r.uid)

  -- `filtered`, sorted.
  unfoldable pub matching_users : List User → UserQuery → List User
  unfolding user_matches compare_users sort_by
  matching_users us query = sort_by (compare_users query) (keep (user_matches query) us)

  abbrev all_group_names : List User → List String
  all_group_names [] = []
  all_group_names (u ∷ us) = u.group_names ++ all_group_names us

  unfoldable pub query_freeipa_users : List Value → UserQuery → UserQueryResult
  unfolding normalized_users matching_users page_of pagination_of sort_by
  query_freeipa_users vs query =
      let us = normalized_users vs in
      let filtered = matching_users us query in
      let pages = pagination_of query.page query.page_size filtered in
      record {
        users = page_of pages.page query.page_size filtered;
        pagination = pages;
        filters = record query { page = pages.page };
        available_groups = sort_by at.compare (unique (all_group_names us));
        summary = record {
          total = length us;
          active = length (keep (λ u. u.active) us);
          disabled = length (keep (λ u. not u.active) us);
          filtered = length filtered;
        };
      }
