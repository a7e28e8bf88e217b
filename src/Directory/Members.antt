-- ===== src/Directory/Members.antt =====
-- src/freeipa/freeipa-group-member-query.ts: a group, its members as they are shown, and a page of
-- them.
use Prim.Native.String
use freeipa_admin_dashboard.Base.{
  ℕ, max, String, Bool, true, false, ◌&&◌, ◌||◌, not, Option, none, some, List, [], ◌∷◌, map,
  str_eq, if◌then◌else◌, keep, length, unique, is_blank, ◌==◌,
}
use freeipa_admin_dashboard.Base.Json.{Value, null, bool, nat, str, get}
use freeipa_admin_dashboard.Base.Language.{Language}
use freeipa_admin_dashboard.Base.Order.{Sign, or_then, number_sign, sort_by}
use freeipa_admin_dashboard.Directory.Pages.{
  Locale, Direction, Pagination, clean_text, positive_integer, allowed_page_size, page_of,
  pagination_of,
}
use freeipa_admin_dashboard.Directory.Users.{
  text_is, as_value, direction_of, all_entries, is_true, count_of, given_items, joined_texts,
  directed,
}

pub record Group : Type 0 where
  pub name : String
  pub description : String
  pub members : ℕ
  pub member_uids : List String
  pub type_name : String

-- `active` is `none` where the user of the member is not known.
pub record Member : Type 0 where
  pub uid : String
  pub name : String
  pub email : String
  pub active : Option Bool

pub data MemberStatus : Type 0 where
  all_members active_members disabled_members unknown_members : MemberStatus

pub data MemberSort : Type 0 where
  members_by_uid members_by_name members_by_email members_by_status : MemberSort

pub record MemberQuery : Type 0 where
  pub q : String
  pub status : MemberStatus
  pub sort : MemberSort
  pub direction : Direction
  pub page : ℕ
  pub page_size : ℕ

pub record MemberSummary : Type 0 where
  pub total : ℕ
  pub active : ℕ
  pub disabled : ℕ
  pub unknown : ℕ
  pub filtered : ℕ

pub record MemberQueryResult : Type 0 where
  pub group : Group
  pub members : List Member
  pub pagination : Pagination
  pub filters : MemberQuery
  pub summary : MemberSummary

abbrev member_status_of : Option String → MemberStatus
member_status_of v =
    if text_is v "active"
    then active_members
    else if text_is v "disabled"
    then disabled_members
    else if text_is v "unknown"
    then unknown_members
    else all_members

abbrev member_sort_of : Option String → MemberSort
member_sort_of v =
    if text_is v "name"
    then members_by_name
    else if text_is v "email"
    then members_by_email
    else if text_is v "status"
    then members_by_status
    else members_by_uid

-- `user?.name || uid`
abbrev name_or : Option Value → String → Value
name_or none uid = str uid
name_or (some null) uid = str uid
name_or (some (str s)) uid = if is_blank s then str uid else str s
name_or (some (bool b)) uid = if b then bool b else str uid
name_or (some (nat n)) uid = if n == 0 then str uid else nat n
name_or (some v) uid = v

-- `member.active === true`, `=== false` and `=== null`.
abbrev pub is_active : Option Bool → Bool
is_active (some b) = b
is_active none = false

abbrev pub is_disabled : Option Bool → Bool
is_disabled (some b) = not b
is_disabled none = false

abbrev pub is_unknown : Option Bool → Bool
is_unknown none = true
is_unknown (some b) = false

abbrev pub has_member_status : MemberStatus → Option Bool → Bool
has_member_status all_members a = true
has_member_status active_members a = is_active a
has_member_status disabled_members a = is_disabled a
has_member_status unknown_members a = is_unknown a

abbrev pub status_rank : Option Bool → ℕ
status_rank (some true) = 0
status_rank (some false) = 1
status_rank none = 2

module _ (js : Language) (at : Locale) where
  unfoldable pub normalize_member_query : (String → Option String) → MemberQuery
  unfolding clean_text positive_integer allowed_page_size
  normalize_member_query parameter = record {
    q = clean_text js (as_value (parameter "q")) 160;
    status = member_status_of (parameter "status");
    sort = member_sort_of (parameter "sort");
    direction = direction_of (parameter "direction");
    page = positive_integer at (parameter "page") 1 100000;
    page_size = allowed_page_size at (parameter "pageSize");
  }

  unfoldable pub normalized_uids : Option Value → List String
  unfolding clean_text
  normalized_uids v =
      unique (keep (λ u. not (is_blank u)) (map (λ u. clean_text js (some u) 160) (given_items v)))

  unfoldable pub normalize_group : List (String × Value) → Group
  unfolding clean_text get normalized_uids
  normalize_group fs =
      let uids = normalized_uids (get "memberUids" fs) in
      record {
        name = clean_text js (get "name" fs) 160;
        description = clean_text js (get "description" fs) 1024;
        members = max (length uids) (count_of (js.number (get "members" fs)));
        member_uids = uids;
        type_name = clean_text js (get "type" fs) 120;
      }

  -- `usersByUid.get(uid)`: of several users with one cleaned name the last.
  unfoldable pub user_of : List (List (String × Value)) → String → Option (List (String × Value))
  unfolding clean_text get
  user_of [] uid = none
  user_of (fs ∷ us) uid = elim (user_of us uid) [
    | some later ↦ some later
    | none ↦ if str_eq (clean_text js (get "uid" fs) 160) uid then some fs else none
  ]

  unfoldable pub normalize_member : String → Option (List (String × Value)) → Member
  unfolding clean_text get
  normalize_member uid none = record {
    uid = clean_text js (some (str uid)) 160;
    name = clean_text js (some (str uid)) 240;
    email = clean_text js none 320;
    active = none;
  }
  normalize_member uid (some fs) = record {
    uid = clean_text js (some (str uid)) 160;
    name = clean_text js (some (name_or (get "name" fs) uid)) 240;
    email = clean_text js (get "email" fs) 320;
    active = some (is_true (get "active" fs));
  }

  unfoldable pub member_search_text : Member → String
  member_search_text m = at.lower_ru (String.◌++◌ m.uid (joined_texts (m.name ∷ m.email ∷ [])))

  unfoldable pub member_matches : MemberQuery → Member → Bool
  unfolding member_search_text
  member_matches query m =
      (is_blank (at.lower_ru query.q) || at.contains (member_search_text m) (at.lower_ru query.q))
      && has_member_status query.status m.active

  unfoldable pub compare_member_primary : MemberSort → Member → Member → Sign
  compare_member_primary members_by_status l r =
      number_sign (status_rank l.active) (status_rank r.active)
  compare_member_primary members_by_uid l r = at.compare l.uid r.uid
  compare_member_primary members_by_name l r = at.compare l.name r.name
  compare_member_primary members_by_email l r = at.compare l.email r.email

  unfoldable pub compare_members : MemberQuery → Member → Member → Sign
  unfolding compare_member_primary
  compare_members query l r =
      or_then (directed query.direction (compare_member_primary query.sort l r))
        (at.compare l.uid r.uid)

  unfoldable pub normalized_members : Group → List Value → List Member
  unfolding user_of normalize_member
  normalized_members g vs =
      map (λ uid. normalize_member uid (user_of (all_entries vs) uid)) g.member_uids

  -- `filtered`, sorted.
  unfoldable pub matching_members : List Member → MemberQuery → List Member
  unfolding member_matches compare_members sort_by
  matching_members ms query = sort_by (compare_members query) (keep (member_matches query) ms)

  unfoldable pub query_freeipa_group_members :
      List (String × Value) → List Value → MemberQuery → MemberQueryResult
  unfolding normalize_group normalized_members matching_members page_of pagination_of
  query_freeipa_group_members source vs query =
      let g = normalize_group source in
      let ms = normalized_members g vs in
      let filtered = matching_members ms query in
      let pages = pagination_of query.page query.page_size filtered in
      record {
        group = g;
        members = page_of pages.page query.page_size filtered;
        pagination = pages;
        filters = record query { page = pages.page };
        summary = record {
          total = length ms;
          active = length (keep (λ m. is_active m.active) ms);
          disabled = length (keep (λ m. is_disabled m.active) ms);
          unknown = length (keep (λ m. is_unknown m.active) ms);
          filtered = length filtered;
        };
      }
