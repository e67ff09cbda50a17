-- ===== src/Ssrf/Address.antt =====
-- `is_blocked_ip` of app/services/ssrf_guard.py. Python's `ipaddress` is a parameter.
pub mod Public
use rebooter_droids.Base.{String, Bool, false, ◌||◌, Option, none, some, if◌then◌else◌}

-- What the guard uses of `ipaddress`: reading an address, the IPv4 addresses that an IPv6 one wraps,
-- the `is_…` properties, equality, and `ip in ip_network(…)`.
pub record IpLib : Type 1 where
  pub Addr : Type 0
  pub ip_address : String → Option Addr
  pub is_ipv6 : Addr → Bool
  pub ipv4_mapped : Addr → Option Addr
  pub sixtofour : Addr → Option Addr
  pub same : Addr → Addr → Bool
  pub in_network : Addr → String → Bool
  pub is_unspecified : Addr → Bool
  pub is_loopback : Addr → Bool
  pub is_link_local : Addr → Bool
  pub is_multicast : Addr → Bool
  pub is_reserved : Addr → Bool
  pub is_private : Addr → Bool

-- Why an address is blocked.
pub data Reason : Type 0 where
  not_an_ip metadata unspecified loopback link_local multicast reserved private cgnat : Reason

module _ (lib : IpLib) where
  open lib use {
    Addr, ip_address, is_ipv6, ipv4_mapped, sixtofour, same, in_network, is_unspecified,
    is_loopback, is_link_local, is_multicast, is_reserved, is_private,
  }

  abbrev unwrapped : Addr → Option Addr → Option Addr → Addr
  unwrapped ip (some v4) _ = v4
  unwrapped ip none (some v4) = v4
  unwrapped ip none none = ip

  -- `_normalize_ip`
  abbrev pub normalize_ip : Addr → Addr
  normalize_ip ip = if is_ipv6 ip then unwrapped ip (ipv4_mapped ip) (sixtofour ip) else ip

  abbrev pub equals : Addr → Option Addr → Bool
  equals ip none = false
  equals ip (some other) = same ip other

  -- `ip in _METADATA_IPS`
  abbrev pub is_metadata : Addr → Bool
  is_metadata ip =
      equals ip (ip_address "169.254.169.254") || equals ip (ip_address "fd00:ec2::254")

  -- `isinstance(ip, ipaddress.IPv4Address) and ip in _CGNAT_NETWORK`
  abbrev pub is_cgnat : Addr → Bool
  is_cgnat ip = if is_ipv6 ip then false else in_network ip "100.64.0.0/10"

  -- The tests, in their order.
  unfoldable pub classify : Addr → Option Reason
  classify ip =
      if is_metadata ip
      then some metadata
      else if is_unspecified ip
      then some unspecified
      else if is_loopback ip
      then some loopback
      else if is_link_local ip
      then some link_local
      else if is_multicast ip
      then some multicast
      else if is_reserved ip
      then some reserved
      else if is_private ip
      then some private
      else if is_cgnat ip
      then some cgnat
      else none

  abbrev pub blocked_addr : Option Addr → Option Reason
  blocked_addr none = some not_an_ip
  blocked_addr (some ip) = classify (normalize_ip ip)

  -- `is_blocked_ip`: the reason, or `none` for an address that is not blocked.
  unfoldable pub is_blocked_ip : String → Option Reason
  unfolding classify
  is_blocked_ip ip_str = blocked_addr (ip_address ip_str)
