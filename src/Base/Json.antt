-- ===== src/Base/Json.antt =====
-- Values that arrive with the type `unknown`: what `JSON.parse` returns. A number is a natural
-- number here, or any other number (negative, fractional or past the range of `Number`).
use Prim.Native.Nat.{ℕ}
use Prim.Native.String.{String}
use mathlib.Core.Bool.{Bool, false}
use mathlib.Core.Option.{Option, none, some}
use mathlib.Core.List.{List, [], ◌∷◌}
use text.Mathlib.Text.{◌==◌}
use freeipa_admin_dashboard.Base.Tests.{if◌then◌else◌}

mutual
  pub data Value : Type 0 where
    null : Value
    bool : Bool → Value
    nat : ℕ → Value
    other_number : Value
    str : String → Value
    array : Items → Value
    object : Fields → Value

  pub data Items : Type 0 where
    end : Items
    item : Value → Items → Items

  pub data Fields : Type 0 where
    done : Fields
    field : String → Value → Fields → Fields

unfoldable pub items : Items → List Value
items end = []
items (item v r) = v ∷ items r

unfoldable pub entries : Fields → List (String × Value)
entries done = []
entries (field k v r) = (k, v) ∷ entries r

-- `source[key]`: `none` is `undefined`. Of two entries with one name `JSON.parse` keeps the last,
-- so the entries of a value have different names.
unfoldable pub get : String → List (String × Value) → Option Value
get key [] = none
get key ((k, v) ∷ r) = if k == key then some v else get key r

-- `value === "…"`.
unfoldable pub is_text : Option Value → String → Bool
is_text (some (str s)) t = s == t
is_text _ t = false
