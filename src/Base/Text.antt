-- ===== src/Base/Text.antt =====
-- White space in a text, as its code points.
use Prim.Native.Nat.{ℕ}
use mathlib.Core.Bool.{Bool, true, false, ◌&&◌, ◌||◌}
use mathlib.Core.List.{List, [], ◌∷◌}
use rebooter_droids.Base.Tests.{leb, nat_eq, if◌then◌else◌}

-- `str.isspace` on one character
abbrev pub is_space : ℕ → Bool
is_space c =
    leb 9 c && leb c 13
    || leb 28 c && leb c 32
    || nat_eq c 0x85
    || nat_eq c 0xa0
    || nat_eq c 0x1680
    || leb 0x2000 c && leb c 0x200a
    || nat_eq c 0x2028
    || nat_eq c 0x2029
    || nat_eq c 0x202f
    || nat_eq c 0x205f
    || nat_eq c 0x3000

-- `str.strip`
drop_spaces : List ℕ → List ℕ
drop_spaces [] = []
drop_spaces (c ∷ cs) = let rest = drop_spaces cs in if is_space c then rest else c ∷ cs

reversed : List ℕ → List ℕ → List ℕ
reversed out [] = out
reversed out (c ∷ cs) = reversed (c ∷ out) cs

unfoldable pub strip : List ℕ → List ℕ
unfolding drop_spaces reversed
strip cs = reversed [] (drop_spaces (reversed [] (drop_spaces cs)))

abbrev pub is_nil : List ℕ → Bool
is_nil [] = true
is_nil (c ∷ cs) = false
