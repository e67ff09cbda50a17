-- ===== src/Ssrf/Validate/Laws.antt =====
-- Which targets a request can be pinned to.
use rebooter_droids.Base.{
  any, ◌++◌, ◌==◌, sym, ℕ, String, Bool, true, false, Option, none, some, ◌≡◌, ◌⊎◌, inl, inr, refl,
  arith, List, [], ◌∷◌, eq_iff, subst, Bool-cases, All, Option-cases,
}
use rebooter_droids.Base.Result.{ok, ◌>>=◌, ◌>>◌, Result-cases}
use rebooter_droids.Ssrf.Address.{IpLib, is_blocked_ip}
use rebooter_droids.Ssrf.Validate.{
  collect, strip_scope, Parsed, Target, resolve_all, first, check_all, check, pin, validate_url,
  port_or_default, or_refuse, no_hostname,
}
use rebooter_droids.Ssrf.Address.Public.{Public, is_blocked_ip-Public_iff}

or_refuse-some : (o : Option String) (s : String) → or_refuse no_hostname o ≡ ok s → o ≡ some s
or_refuse-some none s e = absurd (ground (arith, e))
or_refuse-some (some h) s e = ground (arith, e)

module _ {κ} (P : String → Type κ) where
  All-append : (xs : List String) (y : String) → All P (xs ++ y ∷ []) → All P xs × P y
  All-append [] y (p, h) = (tt, p)
  All-append (x ∷ xs) y (p, h) = let (ps, q) = All-append xs y h in ((p, ps), q)

  All-any : (xs : List String) (y : String) → any (λ ip. ip == y) xs ≡ true → All P xs → P y
  All-any [] y e h = absurd (ground (arith, e))
  All-any (x ∷ xs) y e (p, h) = elim (Bool-cases (x == y)) [
    | inl same ↦ subst P (ground (arith, same, eq_iff x y)) p
    | inr other ↦ All-any xs y (ground (arith, e, other)) h
  ]

  -- What holds of the addresses collected holds of every record.
  collect-All :
      (ips infos : List String)
      → All P (collect ips infos)
      → All P ips × All (λ info. P (strip_scope info)) infos
  unfolding collect
  collect-All ips [] h = (h, tt)
  collect-All ips (info ∷ infos) h = elim (Bool-cases (any (λ ip. ip == strip_scope info) ips)) [
    | inl seen ↦
        let (here, later) = collect-All ips infos (rw seen at h) in
        (here, (All-any ips (strip_scope info) seen here, later))
    | inr unseen ↦
        let (grown, later) = collect-All (ips ++ strip_scope info ∷ []) infos (rw unseen at h) in
        let (here, p) = All-append ips (strip_scope info) grown in (here, (p, later))
  ]

-- The first address collected stays the first.
collect-head :
    (infos : List String) (ip : String) (ips : List String)
    → (later : List String) × (collect (ip ∷ ips) infos ≡ ip ∷ later)
unfolding collect
collect-head [] ip ips = (ips, refl)
collect-head (info ∷ infos) ip ips =
    elim (Bool-cases (any (λ i. i == strip_scope info) (ip ∷ ips))) [
      | inl seen ↦ let (later, e) = collect-head infos ip ips in (later, rw seen e)
      | inr unseen ↦
          let (later, e) = collect-head infos ip (ips ++ strip_scope info ∷ []) in
          (later, rw unseen e)
    ]

module _ (lib : IpLib) where
  module _ (getaddrinfo : String → Option (List String)) (http_allowed : Bool) where
    check_all-Public :
        (ips : List String)
        → check_all lib getaddrinfo http_allowed ips ≡ ok tt
        → All (Public lib) ips
    unfolding check_all
    check_all-Public [] h = tt
    check_all-Public (ip ∷ ips) h = elim (Option-cases (is_blocked_ip lib ip)) [
      | inl open_to ↦ (
        (is_blocked_ip-Public_iff lib ip).0 open_to,
        check_all-Public ips (ground (arith, open_to, h)),
      )
      | inr (reason, shut) ↦ absurd (ground (arith, shut, h))
    ]

    -- What a pinned target comes with: the host of the URL, and the addresses to which it resolves.
    pub record Pinned (parsed : Parsed) (t : Target) : Type 0 where
      pub host : parsed.hostname ≡ some t.hostname
      pub head : String
      pub tail : List String
      pub resolved : getaddrinfo t.hostname ≡ some (head ∷ tail)
      pub all_public : All (λ info. Public lib (strip_scope info)) (head ∷ tail)
      pub first_of : t.pinned_ip ≡ strip_scope head

    pinned :
        {t : Target} (parsed : Parsed) (hostname : String) (number : ℕ) (o : Option (List String))
        → parsed.hostname ≡ some hostname
        → getaddrinfo hostname ≡ o
        → (do
          candidates ← resolve_all o
          check lib getaddrinfo http_allowed false candidates
          ip ← first candidates
          ok (record { hostname = hostname; pinned_ip = ip; port = number }))
          ≡ ok t
        → Pinned parsed t
    unfolding resolve_all collect
    pinned {t} parsed hostname number none host known h = absurd (ground (arith, h))
    pinned {t} parsed hostname number (some []) host known h = absurd (ground (arith, h))
    pinned {t} parsed hostname number (some (info ∷ infos)) host known h =
        let (later, cut) = collect-head infos (strip_scope info) [] in
        let all : List String = strip_scope info ∷ later in
        let joined : collect [] (info ∷ infos) ≡ all = cut in
        let gathered : resolve_all (some (info ∷ infos)) ≡ ok all = rw cut refl in
        elim (Result-cases (check_all lib getaddrinfo http_allowed all)) [
          | inr (x, e) ↦ absurd (ground (arith, gathered, e, h))
          | inl (u, e) ↦
              let target : Target = record {
                hostname = hostname;
                pinned_ip = strip_scope info;
                port = number;
              } in
              let made : target ≡ t = ground (arith, gathered, e, h) in
              let public = check_all-Public all e in
              subst (Pinned parsed) made (record {
                host = host;
                head = info;
                tail = infos;
                resolved = known;
                all_public =
                    (collect-All (Public lib) [] (info ∷ infos)
                      (subst (All (Public lib)) (sym joined) public)).1;
                first_of = refl;
              })
        ]

    pin-Pinned :
        (parsed : Parsed) (t : Target)
        → pin lib getaddrinfo http_allowed false parsed ≡ ok t
        → Pinned parsed t
    unfolding pin
    pin-Pinned parsed t h = elim (Result-cases (or_refuse no_hostname parsed.hostname)) [
      | inr (x, e) ↦ absurd (ground (arith, e, h))
      | inl (hostname, e1) ↦ elim (Result-cases (port_or_default parsed.scheme parsed.port)) [
        | inr (x, e) ↦ absurd (ground (arith, e1, e, h))
        | inl (number, e2) ↦
            pinned parsed hostname number (getaddrinfo hostname)
              (or_refuse-some parsed.hostname hostname e1) refl (rw (e1, e2) at h)
      ]
    ]

    -- A URL that the guard accepts from outside is pinned to the first of the addresses to which its
    -- host resolves, without its scope id, and each of these addresses is public; its scheme is
    -- https, or http where the setting allows it.
    pub validate_url-Pinned :
        (urlparse : String → Parsed) (url : String) (t : Target)
        → validate_url lib getaddrinfo http_allowed urlparse url false ≡ ok t
        → Pinned (urlparse url) t
          × (((urlparse url).scheme ≡ "https")
              ⊎ (((urlparse url).scheme ≡ "http") × (http_allowed ≡ true)))
    unfolding validate_url
    validate_url-Pinned urlparse url t h =
        let scheme = (urlparse url).scheme in
        (
          pin-Pinned (urlparse url) t (ground (arith, h)),
          ground (arith, h, eq_iff scheme "https", eq_iff scheme "http"),
        )
