-- ===== src/Base/Json.antt =====
-- JSON values, as payloads and columns hold them, with what Python's `isinstance`, truth test and
-- `str.upper` say of them.
use Prim.Native.Nat.{ℕ, zero, ◌-◌}
use Prim.Native.Char.{code}
use Prim.Native.String.{String}
use mathlib.Core.Bool.{Bool, true, false, not, ◌&&◌, ◌||◌}
use mathlib.Core.Option.{Option, none, some}
use mathlib.Core.List.{List, [], ◌∷◌, ◌++◌}
use text.Mathlib.Text.{◌==◌}
use rebooter_droids.Base.Tests.{leb, nat_eq, if◌then◌else◌}

-- `negsuc n` is -(n + 1).
pub data ℤ : Type 0 where
  pos : ℕ → ℤ
  negsuc : ℕ → ℤ

abbrev pub leb_ℤ : ℤ → ℤ → Bool
leb_ℤ (pos a) (pos b) = leb a b
leb_ℤ (pos a) (negsuc b) = false
leb_ℤ (negsuc a) (pos b) = true
leb_ℤ (negsuc a) (negsuc b) = leb b a

-- A float that is not an integer is kept as its `repr`.
mutual
  pub data Json : Type 0 where
    null : Json
    bool : Bool → Json
    int : ℤ → Json
    float : String → Json
    str : String → Json
    arr : Items → Json
    obj : Fields → Json

  pub data Items : Type 0 where
    nil : Items
    cons : Json → Items → Items

  pub data Fields : Type 0 where
    end : Fields
    field : String → Json → Fields → Fields

-- `payload.get(k)`; a missing key and a null are told apart by `none`.
abbrev pub get_field : String → Fields → Option Json
get_field k end = none
get_field k (field j v rest) = if j == k then some v else get_field k rest

abbrev pub is_empty : Fields → Bool
is_empty end = true
is_empty (field k v rest) = false

abbrev pub all_keys : (String → Bool) → Fields → Bool
all_keys p end = true
all_keys p (field k v rest) = p k && all_keys p rest

-- `isinstance(v, int)`: a bool is an int.
abbrev pub as_int : Option Json → Option ℤ
as_int (some (int n)) = some n
as_int (some (bool b)) = some (if b then pos 1 else pos 0)
as_int _ = none

abbrev pub as_str : Option Json → Option String
as_str (some (str s)) = some s
as_str _ = none

abbrev is_zero : ℤ → Bool
is_zero (pos zero) = true
is_zero _ = false

abbrev pub truthy : Json → Bool
truthy null = false
truthy (bool b) = b
truthy (int n) = not (is_zero n)
truthy (float r) = not (r == "0.0" || r == "-0.0")
truthy (str s) = not (s == "")
truthy (arr nil) = false
truthy (arr (cons v rest)) = true
truthy (obj fields) = not (is_empty fields)

-- The code points of a text. `String` has its own `[]` and `∷`.
abbrev pub codes : String → List ℕ
codes String.[] = []
codes (String.◌∷◌ c s) = code c ∷ codes s

-- `str.upper` on one character, exact wherever the result has ASCII letters of `GET` or `POST`:
-- besides `a` to `z` these come from the long s (U+017F) and the ligatures U+FB05 and U+FB06.
upper_code : ℕ → List ℕ
upper_code c =
    if leb b'a' c && leb c b'z'
    then (c - 32) ∷ []
    else if nat_eq c 0x17f
    then b'S' ∷ []
    else if leb 0xfb05 c && leb c 0xfb06
    then b'S' ∷ b'T' ∷ []
    else c ∷ []

unfoldable pub upper : List ℕ → List ℕ
unfolding upper_code
upper [] = []
upper (c ∷ cs) = upper_code c ++ upper cs

abbrev pub codes_eq : List ℕ → List ℕ → Bool
codes_eq [] [] = true
codes_eq (a ∷ as_) (b ∷ bs) = nat_eq a b && codes_eq as_ bs
codes_eq _ _ = false

abbrev pub starts : List ℕ → List ℕ → Bool
starts [] cs = true
starts (p ∷ ps) [] = false
starts (p ∷ ps) (c ∷ cs) = nat_eq p c && starts ps cs

-- `text.startswith(prefix)`
abbrev pub starts_with : String → String → Bool
starts_with prefix text = starts (codes prefix) (codes text)
