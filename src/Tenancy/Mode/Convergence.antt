-- ===== src/Tenancy/Mode/Convergence.antt =====
-- How long a process may go on with an old mode.
use rebooter_droids.Base.{
  ℕ, ◌+◌, ◌≤◌, String, Bool, true, false, some, List, [], ◌∷◌, ◌≡◌, ◌⊎◌, inl, arith, All,
}
use rebooter_droids.Tenancy.Mode.{
  Cache, invalidated, cache_ttl, mode_of, read_mode, enforce_mode, Node, Event, set_here,
  set_elsewhere, read_at, failed_read_at, step, run,
}

-- The reads among the events come no later than an instant.
abbrev pub Until : ℕ → Event → Type 0
Until t (set_here text) = Unit
Until t (set_elsewhere text) = Unit
Until t (read_at now cacheable) = now ≤ t
Until t (failed_read_at now cacheable) = now ≤ t

-- The event leaves the setting alone.
abbrev pub LeavesSetting : Event → Type 0
LeavesSetting (set_here text) = ⊥
LeavesSetting (set_elsewhere text) = ⊥
LeavesSetting _ = Unit

-- The cache runs out within its lifetime after an instant.
abbrev RunsOut : ℕ → Cache → Type 0
RunsOut t cache = cache.expires_at ≤ t + cache_ttl

-- The cache runs out, or has the mode that is set.
abbrev IsCurrent : ℕ → Node → Type 0
IsCurrent t node = RunsOut t node.cache ⊎ (node.cache.value ≡ some (mode_of node.setting))

step-RunsOut :
    (t : ℕ) (e : Event) (node : Node)
    → Until t e
    → RunsOut t node.cache
    → RunsOut t (step e node).cache
unfolding step enforce_mode read_mode
step-RunsOut t (set_here text) node u h = omega arith
step-RunsOut t (set_elsewhere text) node u h = h
step-RunsOut t (read_at now true) node u h = ground arith
step-RunsOut t (read_at now false) node u h = ground arith
step-RunsOut t (failed_read_at now cacheable) node u h = ground arith

run-RunsOut :
    (t : ℕ) (es : List Event) (node : Node)
    → All (Until t) es
    → RunsOut t node.cache
    → RunsOut t (run es node).cache
unfolding run
run-RunsOut t [] node u h = h
run-RunsOut t (e ∷ es) node (u, us) h =
    run-RunsOut t es (step e node) us (step-RunsOut t e node u h)

step-IsCurrent :
    (t : ℕ) (e : Event) (node : Node)
    → LeavesSetting e
    → IsCurrent t node
    → IsCurrent t (step e node)
unfolding step enforce_mode read_mode
step-IsCurrent t (set_here text) node l h = absurd l
step-IsCurrent t (set_elsewhere text) node l h = absurd l
step-IsCurrent t (read_at now true) node l h = ground arith
step-IsCurrent t (read_at now false) node l h = ground arith
step-IsCurrent t (failed_read_at now cacheable) node l h = ground arith

run-IsCurrent :
    (t : ℕ) (es : List Event) (node : Node)
    → All LeavesSetting es
    → IsCurrent t node
    → IsCurrent t (run es node)
unfolding run
run-IsCurrent t [] node l h = h
run-IsCurrent t (e ∷ es) node (l, ls) h =
    run-IsCurrent t es (step e node) ls (step-IsCurrent t e node l h)

IsCurrent-mode :
    (t now : ℕ) (cacheable : Bool) (node : Node)
    → IsCurrent t node
    → t + cache_ttl ≤ now
    → (enforce_mode (some node.setting) cacheable now node.cache).0 ≡ mode_of node.setting
unfolding enforce_mode read_mode
IsCurrent-mode t now cacheable node h late = ground arith

-- Whatever happened up to an instant, and whichever process wrote the setting, a process whose
-- setting nobody changes after that instant reads the mode that is set from five seconds later on.
pub mode_converges :
    (t now : ℕ) (cacheable : Bool) (before after : List Event) (text : String)
    → All (Until t) before
    → All LeavesSetting after
    → t + cache_ttl ≤ now
    → let start : Node = record { setting = text; cache = invalidated } in
      let node = run after (run before start) in
      (enforce_mode (some node.setting) cacheable now node.cache).0 ≡ mode_of node.setting
mode_converges t now cacheable before after text u l late =
    let start : Node = record { setting = text; cache = invalidated } in
    let node = run before start in
    IsCurrent-mode t now cacheable (run after node)
      (run-IsCurrent t after node l (inl (run-RunsOut t before start u (omega arith)))) late
