-- ===== src/Base/Table.antt =====
-- A database table: rows under their primary keys, in the order of insertion.
pub mod Keyed
use mathlib.Core.Path.{◌≡◌, refl}
use mathlib.Core.Option.{Option, none, some}
use mathlib.Core.List.{List, [], ◌∷◌}
use Prim.Native.String.{String}
use native.Mathlib.Omega.{arith}
use text.Mathlib.Text.{◌==◌}
use text.Mathlib.TextEquality.{eq_iff}
use rebooter_droids.Base.Tests.{if◌then◌else◌}

abbrev pub Table {ℓ} : Type ℓ → Type ℓ
Table V = List (String × V)

module _ {ℓ} {V : Type ℓ} where
  -- `session.get`
  unfoldable pub get : String → Table V → Option V
  get k [] = none
  get k ((j, v) ∷ t) = if j == k then some v else get k t

  -- `session.add` of a new row, or the write-back of a changed one
  unfoldable pub put : String → V → Table V → Table V
  put k v [] = (k, v) ∷ []
  put k v ((j, w) ∷ t) = if j == k then (j, v) ∷ t else (j, w) ∷ put k v t

  -- `session.delete`
  unfoldable pub remove : String → Table V → Table V
  remove k [] = []
  remove k ((j, v) ∷ t) = let rest = remove k t in if j == k then rest else (j, v) ∷ rest

  -- `UPDATE … SET` over every row
  unfoldable pub update : (String → V → V) → Table V → Table V
  update f [] = []
  update f ((j, v) ∷ t) = (j, f j v) ∷ update f t

  pub get-put :
      (k j : String) (v : V) (t : Table V)
      → get j (put k v t) ≡ (if k == j then some v else get j t)
  unfolding get put
  get-put k j v [] = refl
  get-put k j v ((i, w) ∷ t) = ground (arith, eq_iff k j, eq_iff i k, eq_iff i j, get-put k j v t)

  pub get-remove :
      (k j : String) (t : Table V) → get j (remove k t) ≡ (if k == j then none else get j t)
  unfolding get remove
  get-remove k j [] = ground arith
  get-remove k j ((i, v) ∷ t) = ground (arith, get-remove k j t, eq_iff i k, eq_iff i j, eq_iff k j)

  -- The value at a key after a whole-table update.
  abbrev pub updated : (String → V → V) → String → Option V → Option V
  updated f k none = none
  updated f k (some v) = some (f k v)

  pub get-update :
      (f : String → V → V) (k : String) (t : Table V) → get k (update f t) ≡ updated f k (get k t)
  unfolding get update
  get-update f k [] = refl
  get-update f k ((j, v) ∷ t) = ground (arith, eq_iff j k, get-update f k t)
