-- ===== src/Tenancy/Mode.antt =====
-- `enforce_mode` of app/services/tenant_scope.py, with its cache. The setting `org_isolation.enforce`
-- is what `str(raw).strip().lower()` makes of it; `none` stands for a read that raises.
pub mod Convergence
use rebooter_droids.Base.{
  ℕ, ◌+◌, String, Bool, true, false, Option, none, some, List, [], ◌∷◌, ◌==◌, ltb, seconds,
  if◌then◌else◌,
}

pub data Mode : Type 0 where
  shadow enforce : Mode

-- `_enforce_cache_value` and `_enforce_cache_expires_at`, in microseconds of the monotonic clock.
pub record Cache : Type 0 where
  pub value : Option Mode
  pub expires_at : ℕ

-- `invalidate_enforce_mode_cache`
abbrev pub invalidated : Cache
invalidated = record { value = none; expires_at = 0 }

-- `_ENFORCE_CACHE_TTL`
abbrev pub cache_ttl : ℕ
cache_ttl = seconds 5

abbrev pub mode_of : String → Mode
mode_of text = if text == "enforce" then enforce else shadow

-- The part that reads the setting.
unfoldable pub read_mode : Option String → Bool → ℕ → Cache → Mode × Cache
read_mode none cacheable now cache = (shadow, cache)
read_mode (some raw) cacheable now cache = (
  mode_of raw,
  if cacheable then record { value = some (mode_of raw); expires_at = now + cache_ttl } else cache,
)

-- `cached is not None and now < _enforce_cache_expires_at`
abbrev pub cached_mode : ℕ → Cache → Option Mode → Option Mode
cached_mode now cache none = none
cached_mode now cache (some mode) = if ltb now cache.expires_at then some mode else none

abbrev pub or_read : Option String → Bool → ℕ → Cache → Option Mode → Mode × Cache
or_read raw cacheable now cache (some mode) = (mode, cache)
or_read raw cacheable now cache none = read_mode raw cacheable now cache

unfoldable pub enforce_mode : Option String → Bool → ℕ → Cache → Mode × Cache
enforce_mode raw cacheable now cache =
    or_read raw cacheable now cache (cached_mode now cache cache.value)

abbrev pub is_enforce : Mode → Bool
is_enforce shadow = false
is_enforce enforce = true

-- `is_enforcing`
unfoldable pub is_enforcing : Option String → Bool → ℕ → Cache → Bool
is_enforcing raw cacheable now cache = is_enforce (enforce_mode raw cacheable now cache).0

-- A process and the database: the setting and the process's cache.
pub record Node : Type 0 where
  pub setting : String
  pub cache : Cache

-- What happens at an instant: `runtime_settings.set_` in this process, whose callback drops the
-- cache, or in another; a read of the mode; a read whose lookup raises.
pub data Event : Type 0 where
  set_here set_elsewhere : String → Event
  read_at : ℕ → Bool → Event
  failed_read_at : ℕ → Bool → Event

unfoldable pub step : Event → Node → Node
unfolding enforce_mode
step (set_here text) node = record { setting = text; cache = invalidated }
step (set_elsewhere text) node = record node { setting = text }
step (read_at now cacheable) node = record node {
  cache = (enforce_mode (some node.setting) cacheable now node.cache).1;
}
step (failed_read_at now cacheable) node = record node {
  cache = (enforce_mode none cacheable now node.cache).1;
}

unfoldable pub run : List Event → Node → Node
run [] node = node
run (e ∷ es) node = run es (step e node)
