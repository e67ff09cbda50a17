-- ===== src/Examples/Tenancy.antt =====
-- Two orgs, one of which writes a row without an org, one of its own and an unguarded one.
use rebooter_droids.Base.{ℕ, true, false, none, some, List, [], ◌∷◌, ◌≡◌, refl, arith, All, seconds}
use rebooter_droids.Base.Result.{ok, is_ok}
use rebooter_droids.Tenancy.{Object, before_flush, guard_all, guard_each, guard_one}
use rebooter_droids.Tenancy.Isolation.{
  bound_to, is_foreign, VisibleTo, flush-refused_iff, flush-Isolated,
}
use rebooter_droids.Tenancy.Mode.{
  enforce, shadow, Node, Event, set_elsewhere, read_at, run, step, enforce_mode, read_mode,
  invalidated,
}
use rebooter_droids.Tenancy.Mode.Convergence.{mode_converges}

abbrev row_of_nobody : Object ℕ
row_of_nobody = record { scoped = true; is_audit_event = false; organization_id = none; row = 1 }

abbrev row_of_a : Object ℕ
row_of_a = record row_of_nobody { organization_id = some "a"; row = 2 }

abbrev row_of_b : Object ℕ
row_of_b = record row_of_nobody { organization_id = some "b"; row = 3 }

abbrev device_row : Object ℕ
device_row = record row_of_nobody { scoped = false; row = 4 }

abbrev written : List (Object ℕ)
written = row_of_nobody ∷ row_of_a ∷ device_row ∷ []

abbrev stored : List (Object ℕ)
stored = record row_of_nobody { organization_id = some "a" } ∷ row_of_a ∷ device_row ∷ []

flush_test : before_flush (bound_to "a") true written ≡ ok (stored, [])
unfolding before_flush guard_all guard_each guard_one
flush_test = refl

flush-Isolated_example : All (VisibleTo "a" "b") stored
flush-Isolated_example = flush-Isolated "a" "b" written stored [] flush_test

flush-refused_iff_example :
    is_ok (before_flush (bound_to "a") true (row_of_a ∷ row_of_b ∷ [])) ≡ false
unfolding is_foreign
flush-refused_iff_example = flush-refused_iff "a" (row_of_a ∷ row_of_b ∷ [])

-- Another process sets the mode right after this one has cached the old one.
abbrev before : List Event
before = read_at 100 true ∷ set_elsewhere "enforce" ∷ []

abbrev after : List Event
after = read_at 200 true ∷ []

abbrev node : Node
node = run after (run before (record { setting = "shadow"; cache = invalidated }))

stale_test : (enforce_mode (some node.setting) true 300 node.cache).0 ≡ shadow
unfolding run step enforce_mode read_mode
stale_test = refl

mode_converges_example : (enforce_mode (some node.setting) true (seconds 6) node.cache).0 ≡ enforce
unfolding run step enforce_mode read_mode
mode_converges_example =
    mode_converges 100 (seconds 6) true before after "shadow" (omega arith) (tt, tt) (omega arith)
