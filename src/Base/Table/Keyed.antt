-- ===== src/Base/Table/Keyed.antt =====
-- Tables whose primary keys are distinct, as a database keeps them.
use rebooter_droids.Base.Tests.{Bool-cases, if◌then◌else◌}
use rebooter_droids.Base.Lists.{In}
use rebooter_droids.Base.Table.{Table, get, put, remove, update, get-put, get-remove, get-update}
use mathlib.Core.Path.{◌≡◌, refl}
use mathlib.Core.Logic.{inl, inr}
use mathlib.Core.Option.{none, some}
use mathlib.Core.List.{[], ◌∷◌, ◌++◌}
use Prim.Native.String.{String}
use native.Mathlib.Omega.{arith}
use text.Mathlib.Text.{◌==◌}
use text.Mathlib.TextEquality.{eq_iff}

module _ {ℓ} {V : Type ℓ} where
  abbrev pub IsKeyed : Table V → Type ℓ
  IsKeyed [] = Unit
  IsKeyed ((k, v) ∷ t) = (get k t ≡ none) × IsKeyed t

  pub put-IsKeyed : (k : String) (v : V) (t : Table V) → IsKeyed t → IsKeyed (put k v t)
  unfolding get put
  put-IsKeyed k v [] h = (refl, tt)
  put-IsKeyed k v ((j, w) ∷ t) h = elim (Bool-cases (j == k)) [
    | inl e ↦ rw e (h.0, h.1)
    | inr e ↦
        rw e (ground (arith, get-put k j v t, eq_iff j k, eq_iff k j, h.0), put-IsKeyed k v t h.1)
  ]

  -- A row at the end of the table.
  pub get-append_row :
      (k j : String) (v : V) (t : Table V)
      → get k t ≡ none
      → get j (t ++ (k, v) ∷ []) ≡ (if k == j then some v else get j t)
  unfolding get
  get-append_row k j v [] h = refl
  get-append_row k j v ((i, w) ∷ t) h =
      ground (arith, h, eq_iff i k, eq_iff i j, eq_iff k j, get-append_row k j v t)

  pub append_row-IsKeyed :
      (k : String) (v : V) (t : Table V) → get k t ≡ none → IsKeyed t → IsKeyed (t ++ (k, v) ∷ [])
  unfolding get
  append_row-IsKeyed k v [] h u = (refl, tt)
  append_row-IsKeyed k v ((j, w) ∷ t) h u = (
    ground (arith, h, u.0, eq_iff j k, eq_iff k j, get-append_row k j v t),
    append_row-IsKeyed k v t (ground (arith, h)) u.1,
  )

  pub remove-IsKeyed : (k : String) (t : Table V) → IsKeyed t → IsKeyed (remove k t)
  unfolding remove
  remove-IsKeyed k [] h = tt
  remove-IsKeyed k ((j, w) ∷ t) h = elim (Bool-cases (j == k)) [
    | inl e ↦ rw e (remove-IsKeyed k t h.1)
    | inr e ↦
        rw e (ground (arith, get-remove k j t, eq_iff j k, eq_iff k j, h.0), remove-IsKeyed k t h.1)
  ]

  pub update-IsKeyed : (f : String → V → V) (t : Table V) → IsKeyed t → IsKeyed (update f t)
  unfolding update
  update-IsKeyed f [] h = tt
  update-IsKeyed f ((j, w) ∷ t) h = (ground (arith, get-update f j t), update-IsKeyed f t h.1)

-- A row that stands in the table is the one that `get` finds.
pub get_of_In :
    {V : Type 0} (k : String) (v : V) (t : Table V) → IsKeyed t → In (k, v) t → get k t ≡ some v
unfolding get
get_of_In k v [] h i = elim i [ ]
get_of_In k v ((j, w) ∷ t) h (inl e) = ground (arith, eq_iff j k, e)
get_of_In k v ((j, w) ∷ t) h (inr i) = ground (arith, eq_iff j k, get_of_In k v t h.1 i, h.0)

pub get-In : {V : Type 0} (k : String) (v : V) (t : Table V) → get k t ≡ some v → In (k, v) t
unfolding get
get-In k v [] h = cc
get-In k v ((j, w) ∷ t) h = ground (arith, eq_iff j k, get-In k v t)
