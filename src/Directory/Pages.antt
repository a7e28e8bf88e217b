-- ===== src/Directory/Pages.antt =====
-- What the two queries of the directory share: the cleaning of parameters, and a page of a list.
use freeipa_admin_dashboard.Base.{
  ℕ, ◌+◌, ◌-◌, ◌*◌, ◌/◌, min, max, String, Bool, Option, none, some, List, [], ◌∷◌, any, ◌==◌,
  if◌then◌else◌, length, take, drop, is_empty,
}
use freeipa_admin_dashboard.Base.Json.{Value}
use freeipa_admin_dashboard.Base.Language.{Language, shown, blank_control}
use freeipa_admin_dashboard.Base.Order.{Sign}

-- `collator.compare`, `toLocaleLowerCase("ru")`, `includes` of a text, and `Number.parseInt(text, 10)`
-- (`none`: not a number, or below 0).
pub record Locale : Type 0 where
  pub compare : String → String → Sign
  pub lower_ru : String → String
  pub contains : String → String → Bool
  pub parse_int : String → Option ℕ

unfoldable pub allowed_page_sizes : List ℕ
allowed_page_sizes = 10 ∷ 25 ∷ 50 ∷ 100 ∷ []

abbrev pub text_or_empty : Option String → String
text_or_empty none = ""
text_or_empty (some s) = s

unfoldable pub clean_text : Language → Option Value → ℕ → String
clean_text js v limit = js.slice limit (js.trim (blank_control (shown js v)))

unfoldable pub positive_integer : Locale → Option String → ℕ → ℕ → ℕ
positive_integer at v fallback maximum = elim (at.parse_int (text_or_empty v)) [
  | none ↦ fallback
  | some n ↦ if n == 0 then fallback else min n maximum
]

unfoldable pub allowed_page_size : Locale → Option String → ℕ
unfolding allowed_page_sizes
allowed_page_size at v = elim (at.parse_int (text_or_empty v)) [
  | none ↦ 25
  | some n ↦ if any (λ m. m == n) allowed_page_sizes then n else 25
]

pub data Direction : Type 0 where
  asc desc : Direction

pub record Pagination : Type 0 where
  pub page : ℕ
  pub page_size : ℕ
  pub total : ℕ
  pub total_pages : ℕ
  pub from : ℕ
  pub to : ℕ

-- `Math.max(1, Math.ceil(total / pageSize))`; a page size is positive.
unfoldable pub total_pages_of : ℕ → ℕ → ℕ
total_pages_of total size = max 1 ((total + (size - 1)) / size)

module _ {A : Type 0} where
  -- `slice(offset, offset + pageSize)` with `offset = (page - 1) * pageSize`; pages count from 1.
  unfoldable pub page_of : ℕ → ℕ → List A → List A
  page_of page size l = take size (drop ((page - 1) * size) l)

  unfoldable pub pagination_of : ℕ → ℕ → List A → Pagination
  unfolding total_pages_of page_of
  pagination_of wanted size l =
      let pages = total_pages_of (length l) size in
      let page = min wanted pages in
      let shown_items = page_of page size l in
      record {
        page = page;
        page_size = size;
        total = length l;
        total_pages = pages;
        from = if is_empty shown_items then 0 else (page - 1) * size + 1;
        to = if is_empty shown_items then 0 else (page - 1) * size + length shown_items;
      }
