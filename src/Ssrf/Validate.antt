-- ===== src/Ssrf/Validate.antt =====
-- `validate_url` of app/services/ssrf_guard.py. Name resolution, `urlparse` and the setting
-- `outbound.allow_http` are parameters.
pub mod Laws
use Prim.Native.Char.{code}
use rebooter_droids.Base.{
  ℕ, String, Bool, true, false, not, ◌&&◌, ◌||◌, Option, none, some, List, [], ◌∷◌, ◌++◌, ◌==◌, any,
  nat_eq, if◌then◌else◌,
}
use rebooter_droids.Base.Result.{Result, ok, err, ◌>>=◌, ◌>>◌, require}
use rebooter_droids.Ssrf.Address.{IpLib, Reason, is_blocked_ip}

-- `parsed.port`, which raises for a number that is no port.
pub data Port : Type 0 where
  no_port bad_port : Port
  number : ℕ → Port

-- `urlparse(url.strip())`; the scheme is in lower case.
pub record Parsed : Type 0 where
  pub scheme : String
  pub hostname : Option String
  pub port : Port

-- What `validate_url` raises; all but the `ValueError` of a bad port are an `SSRFBlockedError`.
pub data Refusal : Type 0 where
  empty_url unsupported_scheme http_not_allowed no_hostname : Refusal
  value_error unresolved no_addresses : Refusal
  blocked : String → Reason → Refusal

pub record Target : Type 0 where
  pub hostname : String
  pub pinned_ip : String
  pub port : ℕ

-- `addr.split("%", 1)[0]`
unfoldable pub strip_scope : String → String
strip_scope String.[] = String.[]
strip_scope (String.◌∷◌ c s) =
    let rest = String.◌∷◌ c (strip_scope s) in if nat_eq (code c) b'%' then String.[] else rest

-- The loop of `_resolve_all`: each address once.
unfoldable pub collect : List String → List String → List String
collect ips [] = ips
collect ips (info ∷ rest) =
    collect (if any (λ ip. ip == strip_scope info) ips then ips else ips ++ strip_scope info ∷ [])
      rest

abbrev non_empty : List String → Result Refusal (List String)
non_empty [] = err no_addresses
non_empty (ip ∷ ips) = ok (ip ∷ ips)

-- `_resolve_all`, on what `getaddrinfo` returns, `none` where it raises.
unfoldable pub resolve_all : Option (List String) → Result Refusal (List String)
unfolding collect strip_scope
resolve_all none = err unresolved
resolve_all (some infos) = non_empty (collect [] infos)

abbrev pub or_refuse : Refusal → Option String → Result Refusal String
or_refuse e none = err e
or_refuse e (some s) = if s == "" then err e else ok s

-- `parsed.port or (443 if scheme == "https" else 80)`
abbrev pub port_or_default : String → Port → Result Refusal ℕ
port_or_default scheme no_port = ok (if scheme == "https" then 443 else 80)
port_or_default scheme bad_port = err value_error
port_or_default scheme (number n) =
    ok (if nat_eq n 0 then if scheme == "https" then 443 else 80 else n)

-- `candidates[0]`
abbrev first : List String → Result Refusal String
first [] = err no_addresses
first (ip ∷ ips) = ok ip

module _ (lib : IpLib) (getaddrinfo : String → Option (List String)) (http_allowed : Bool) where
  -- One round of the loop over the candidates, on what `is_blocked_ip` says, and the rounds after it.
  abbrev pub check_one :
      String → Option Reason → Result Refusal (Unit {0}) → Result Refusal (Unit {0})
  check_one ip (some reason) rest = err (blocked ip reason)
  check_one ip none rest = rest

  unfoldable pub check_all : List String → Result Refusal (Unit {0})
  check_all [] = ok tt
  check_all (ip ∷ ips) = let rest = check_all ips in check_one ip (is_blocked_ip lib ip) rest

  abbrev pub check : Bool → List String → Result Refusal (Unit {0})
  check true candidates = ok tt
  check false candidates = check_all candidates

  -- The part after the scheme has been accepted.
  unfoldable pub pin : Bool → Parsed → Result Refusal Target
  unfolding resolve_all check_all
  pin allow_internal parsed = do
    hostname ← or_refuse no_hostname parsed.hostname
    port ← port_or_default parsed.scheme parsed.port
    candidates ← resolve_all (getaddrinfo hostname)
    check allow_internal candidates
    pinned_ip ← first candidates
    ok (record { hostname = hostname; pinned_ip = pinned_ip; port = port })

  unfoldable pub validate_url : (String → Parsed) → String → Bool → Result Refusal Target
  unfolding pin
  validate_url urlparse url allow_internal = do
    require (not (url == "")) empty_url
    let parsed = urlparse url
    require (parsed.scheme == "http" || parsed.scheme == "https") unsupported_scheme
    require (not (parsed.scheme == "http" && not allow_internal && not http_allowed))
        http_not_allowed
    pin allow_internal parsed
