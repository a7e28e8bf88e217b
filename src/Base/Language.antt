-- ===== src/Base/Language.antt =====
-- The functions of the language that the sources call on texts and values, as one argument of the
-- definitions, and the cleaning of texts that several files write out.
use Prim.Native.Nat.{ℕ, min, max}
use Prim.Native.Char.{code, char}
use Prim.Native.String.{String, [] as nil, ◌∷◌ as ◌⋮◌}
use mathlib.Core.Bool.{Bool, true, false, ◌||◌, ◌&&◌}
use mathlib.Core.Option.{Option, none, some}
use freeipa_admin_dashboard.Base.Tests.{leb, ◌==◌, if◌then◌else◌}
use freeipa_admin_dashboard.Base.Json.{Value, null}

-- What `Number` of a value gives, cut to its integer part: a number that is not negative, one
-- below 0, or one that is not finite.
pub data Number : Type 0 where
  natural : ℕ → Number
  negative not_finite : Number

-- `String` of a value and of a number, `trim`, `toLowerCase`, `slice(0, n)`, `Number` of a value
-- (`none` is `undefined`), `JSON.parse` (`none`: it throws) and `JSON.stringify`.
pub record Language : Type 0 where
  pub show : Value → String
  pub decimal : ℕ → String
  pub trim : String → String
  pub lower : String → String
  pub slice : ℕ → String → String
  pub number : Option Value → Number
  pub parse : String → Option Value
  pub stringify : Value → String

-- `String(value ?? "")`.
abbrev pub shown : Language → Option Value → String
shown js none = ""
shown js (some null) = ""
shown js (some v) = js.show v

abbrev pub some_character : (ℕ → Bool) → String → Bool
some_character p nil = false
some_character p (c ⋮ s) = p (code c) || some_character p s

-- `\s`.
abbrev pub is_space : ℕ → Bool
is_space c =
    (leb 9 c && leb c 13)
    || c == 32
    || c == 160
    || c == 0x1680
    || (leb 0x2000 c && leb c 0x200a)
    || c == 0x2028
    || c == 0x2029
    || c == 0x202f
    || c == 0x205f
    || c == 0x3000
    || c == 0xfeff

-- [\u0000-\u001f\u007f]
abbrev pub is_control : ℕ → Bool
is_control c = leb c 31 || c == 127

abbrev pub strip_control : String → String
strip_control nil = nil
strip_control (c ⋮ s) = let rest = strip_control s in if is_control (code c) then rest else c ⋮ rest

-- `replace(/[\u0000-\u001f\u007f]/g, " ")`.
abbrev pub blank_control : String → String
blank_control nil = nil
blank_control (c ⋮ s) =
    let rest = blank_control s in if is_control (code c) then char 32 tt ⋮ rest else c ⋮ rest

-- `replace(/\s+/g, " ")`; the test says that the character before was a space.
abbrev pub collapse_from : Bool → String → String
collapse_from spaced nil = nil
collapse_from spaced (c ⋮ s) =
    let after = collapse_from true s in
    let plain = collapse_from false s in
    if is_space (code c) then (if spaced then after else char 32 tt ⋮ after) else c ⋮ plain

-- `numberBetween` and its kin: `Math.max(min, Math.min(Math.trunc(parsed), max))`.
unfoldable pub number_between : Number → ℕ → ℕ → ℕ → ℕ
number_between (natural n) fallback low high = max low (min n high)
number_between negative fallback low high = low
number_between not_finite fallback low high = fallback
