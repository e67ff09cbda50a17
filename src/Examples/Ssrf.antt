-- ===== src/Examples/Ssrf.antt =====
-- A library of four addresses, and names that resolve to some of them.
use rebooter_droids.Base.{
  ℕ, String, true, false, Option, none, some, ◌≡◌, ◌↔◌, ◌⊎◌, refl, List, [], ◌∷◌, ◌==◌, nat_eq,
  if◌then◌else◌,
}
use rebooter_droids.Base.Result.{ok, err}
use rebooter_droids.Ssrf.Address.{IpLib, loopback, private, is_blocked_ip}
use rebooter_droids.Ssrf.Validate.{no_port, Parsed, blocked, Target, validate_url}
use rebooter_droids.Ssrf.Address.Public.{Public, is_blocked_ip-Public_iff}
use rebooter_droids.Ssrf.Validate.Laws.{Pinned, validate_url-Pinned}

-- 1 is public, 2 private, 3 loopback, and 4 an IPv6 address that wraps 3.
abbrev toy : IpLib
toy = record {
  Addr = ℕ;
  ip_address = λ s.
      if s == "93.184.216.34"
      then some 1
      else if s == "10.0.0.1"
      then some 2
      else if s == "127.0.0.1"
      then some 3
      else if s == "::ffff:127.0.0.1"
      then some 4
      else none;
  is_ipv6 = λ a. nat_eq a 4;
  ipv4_mapped = λ a. if nat_eq a 4 then some 3 else none;
  sixtofour = λ a. none;
  same = nat_eq;
  in_network = λ a net. false;
  is_unspecified = λ a. false;
  is_loopback = λ a. nat_eq a 3;
  is_link_local = λ a. false;
  is_multicast = λ a. false;
  is_reserved = λ a. false;
  is_private = λ a. nat_eq a 2;
}

abbrev dns : String → Option (List String)
dns name =
    if name == "example.org"
    then some ("93.184.216.34" ∷ "93.184.216.34" ∷ [])
    else if name == "intranet.example.org"
    then some ("93.184.216.34" ∷ "10.0.0.1" ∷ [])
    else none

-- The host stands for the URL.
abbrev parse : String → Parsed
parse host = record { scheme = "https"; hostname = some host; port = no_port }

abbrev target : Target
target = record { hostname = "example.org"; pinned_ip = "93.184.216.34"; port = 443 }

accepted : validate_url toy dns false parse "example.org" false ≡ ok target
unfolding validate_url is_blocked_ip
accepted = refl

-- One private record poisons the whole name.
poisoned :
    validate_url toy dns false parse "intranet.example.org" false ≡ err (blocked "10.0.0.1" private)
unfolding validate_url is_blocked_ip
poisoned = refl

wrapped : is_blocked_ip toy "::ffff:127.0.0.1" ≡ some loopback
unfolding is_blocked_ip
wrapped = refl

is_blocked_ip-Public_iff_example :
    (is_blocked_ip toy "::ffff:127.0.0.1" ≡ none) ↔ Public toy "::ffff:127.0.0.1"
is_blocked_ip-Public_iff_example = is_blocked_ip-Public_iff toy "::ffff:127.0.0.1"

validate_url-Pinned_example :
    Pinned toy dns false (parse "example.org") target
    × (((parse "example.org").scheme ≡ "https")
        ⊎ (((parse "example.org").scheme ≡ "http") × (false ≡ true)))
validate_url-Pinned_example = validate_url-Pinned toy dns false parse "example.org" target accepted
