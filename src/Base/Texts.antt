-- ===== src/Base/Texts.antt =====
-- Text as the programs read it: character classes, the regular expressions that are sequences of
-- classes, and the length of a text in UTF-16 units.
use Prim.Native.Nat.{ℕ, ◌+◌}
use Prim.Native.Char.{code}
use Prim.Native.String.{String, [] as nil, ◌∷◌ as ◌⋮◌}
use mathlib.Core.Bool.{Bool, true, false, ◌&&◌, ◌||◌}
use mathlib.Core.List.{List, [], ◌∷◌, ◌++◌}
use freeipa_admin_dashboard.Base.Tests.{ltb, leb, ◌==◌, if◌then◌else◌}

abbrev pub Class : Type 0
Class = ℕ → Bool

unfoldable pub is_digit : Class
is_digit c = leb 48 c && leb c 57

-- [0-9a-f]
unfoldable pub is_hex : Class
unfolding is_digit
is_hex c = is_digit c || (leb 97 c && leb c 102)

-- [0-9a-f] under the flag `i`.
unfoldable pub is_hex_any_case : Class
unfolding is_hex
is_hex_any_case c = is_hex c || (leb 65 c && leb c 70)

-- [A-Za-z0-9_-]
unfoldable pub is_base64_url : Class
unfolding is_digit
is_base64_url c =
    (leb 65 c && leb c 90) || (leb 97 c && leb c 122) || is_digit c || c == 95 || c == 45

-- One character against a class, text against a sequence of classes: `^…$` with no repetition
-- left open.
unfoldable pub matches : List Class → String → Bool
matches [] nil = true
matches [] (c ⋮ s) = false
matches (p ∷ ps) nil = false
matches (p ∷ ps) (c ⋮ s) = p (code c) && matches ps s

unfoldable pub times : ℕ → Class → List Class
times ℕ.zero p = []
times (ℕ.suc n) p = p ∷ times n p

-- A letter of a pattern under the flag `i`: the pattern's text is in lower case.
abbrev same_letter : ℕ → Class
same_letter a c = a == c || (leb 97 a && leb a 122 && a == c + 32)

unfoldable pub any_case : String → List Class
any_case nil = []
any_case (c ⋮ s) = same_letter (code c) ∷ any_case s

-- The part of an identifier behind its prefix, under the flag `i`:
-- [0-9a-f]{8}-[0-9a-f]{4}-[1-5][0-9a-f]{3}-[89ab][0-9a-f]{3}-[0-9a-f]{12}
unfoldable pub uuid_classes : List Class
unfolding times is_hex_any_case
uuid_classes =
    times 8 is_hex_any_case
    ++ ((λ c. c == 45) ∷ times 4 is_hex_any_case
        ++ ((λ c. c == 45) ∷ (λ c. leb 49 c && leb c 53) ∷ times 3 is_hex_any_case
            ++ ((λ c. c == 45)
                  ∷ (λ c. c == 56 || c == 57 || c == 97 || c == 98 || c == 65 || c == 66)
                  ∷ times 3 is_hex_any_case
                ++ ((λ c. c == 45) ∷ times 12 is_hex_any_case))))

-- `text.length` counts UTF-16 units.
unfoldable pub js_length : String → ℕ
js_length nil = 0
js_length (c ⋮ s) = (if ltb (code c) 0x10000 then 1 else 2) + js_length s

abbrev pub is_blank : String → Bool
is_blank nil = true
is_blank (c ⋮ s) = false
