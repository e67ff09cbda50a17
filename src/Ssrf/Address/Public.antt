-- ===== src/Ssrf/Address/Public.antt =====
-- Which addresses the guard lets pass.
use rebooter_droids.Base.{
  String, true, false, Option, none, some, ◌≡◌, ◌↔◌, inl, inr, refl, arith, subst, ap, ◌∙◌,
  Bool-cases, Option-cases,
}
use rebooter_droids.Ssrf.Address.{
  IpLib, equals, normalize_ip, is_metadata, classify, blocked_addr, is_blocked_ip,
}

module _ (lib : IpLib) where
  -- What an address stands for: an IPv6 one for the IPv4 address that it maps, else for the one of
  -- its 6to4 prefix, if it wraps one, and any other for itself.
  pub data StandsFor (a : lib.Addr) : lib.Addr → Type 0 where
    ipv4 : lib.is_ipv6 a ≡ false → StandsFor a a
    mapped : {b : lib.Addr} → lib.is_ipv6 a ≡ true → lib.ipv4_mapped a ≡ some b → StandsFor a b
    tunnelled :
        {b : lib.Addr}
        → lib.is_ipv6 a ≡ true
        → lib.ipv4_mapped a ≡ none
        → lib.sixtofour a ≡ some b
        → StandsFor a b
    plain : lib.is_ipv6 a ≡ true → lib.ipv4_mapped a ≡ none → lib.sixtofour a ≡ none → StandsFor a a

  abbrev pub Differs : lib.Addr → String → Type 0
  Differs a s = (m : lib.Addr) → lib.ip_address s ≡ some m → lib.same a m ≡ false

  -- An address of the public internet: no metadata endpoint of a cloud, in none of the ranges that
  -- ipaddress knows as special, and no shared IPv4 address.
  pub record Routable (a : lib.Addr) : Type 0 where
    pub not_metadata : Differs a "169.254.169.254" × Differs a "fd00:ec2::254"
    pub not_unspecified : lib.is_unspecified a ≡ false
    pub not_loopback : lib.is_loopback a ≡ false
    pub not_link_local : lib.is_link_local a ≡ false
    pub not_multicast : lib.is_multicast a ≡ false
    pub not_reserved : lib.is_reserved a ≡ false
    pub not_private : lib.is_private a ≡ false
    pub not_cgnat : lib.is_ipv6 a ≡ false → lib.in_network a "100.64.0.0/10" ≡ false

  -- A text that reads as an address which stands for a routable one.
  abbrev pub Public : String → Type 0
  Public s =
      (a : lib.Addr) × (b : lib.Addr) × (lib.ip_address s ≡ some a) × StandsFor a b × Routable b

  equals-Differs_iff :
      (a : lib.Addr) (s : String) (o : Option lib.Addr)
      → lib.ip_address s ≡ o
      → (equals lib a o ≡ false) ↔ Differs a s
  equals-Differs_iff a s none e = (λ h m f. absurd (ground (arith, e, f)), λ h. refl)
  equals-Differs_iff a s (some m) e =
      (λ h n f. let same : n ≡ m = ground (arith, e, f) in rw same h, λ h. h m e)

  metadata_iff :
      (a : lib.Addr)
      → (is_metadata lib a ≡ false) ↔ (Differs a "169.254.169.254" × Differs a "fd00:ec2::254")
  metadata_iff a =
      let four = equals-Differs_iff a "169.254.169.254" (lib.ip_address "169.254.169.254") refl in
      let six = equals-Differs_iff a "fd00:ec2::254" (lib.ip_address "fd00:ec2::254") refl in
      (
        λ e. (four.0 (ground (arith, e)), six.0 (ground (arith, e))),
        λ h. ground (arith, four.1 h.0, six.1 h.1),
      )

  normalize_ip-StandsFor : (a : lib.Addr) → StandsFor a (normalize_ip lib a)
  normalize_ip-StandsFor a = elim (Bool-cases (lib.is_ipv6 a)) [
    | inr v4 ↦ rw v4 (ipv4 v4)
    | inl v6 ↦ elim (Option-cases (lib.ipv4_mapped a)) [
      | inr (b, m) ↦ rw (v6, m) (mapped v6 m)
      | inl m ↦ elim (Option-cases (lib.sixtofour a)) [
        | inr (b, t) ↦ rw (v6, m, t) (tunnelled v6 m t)
        | inl t ↦ rw (v6, m, t) (plain v6 m t)
      ]
    ]
  ]

  StandsFor-normalize_ip : (a b : lib.Addr) → StandsFor a b → b ≡ normalize_ip lib a
  StandsFor-normalize_ip a b (ipv4 v4) = ground (arith, v4)
  StandsFor-normalize_ip a b (mapped v6 m) = ground (arith, v6, m)
  StandsFor-normalize_ip a b (tunnelled v6 m t) = ground (arith, v6, m, t)
  StandsFor-normalize_ip a b (plain v6 m t) = ground (arith, v6, m, t)

  classify-Routable : (a : lib.Addr) → classify lib a ≡ none → Routable a
  unfolding classify
  classify-Routable a e = record {
    not_metadata = (metadata_iff a).0 (ground (arith, e));
    not_unspecified = ground (arith, e);
    not_loopback = ground (arith, e);
    not_link_local = ground (arith, e);
    not_multicast = ground (arith, e);
    not_reserved = ground (arith, e);
    not_private = ground (arith, e);
    not_cgnat = λ v4. ground (arith, e, v4);
  }

  Routable-classify : (a : lib.Addr) → Routable a → classify lib a ≡ none
  unfolding classify
  Routable-classify a r =
      let m = (metadata_iff a).1 r.not_metadata in
      elim (Bool-cases (lib.is_ipv6 a)) [
        | inl v6 ↦ ground (
          arith, m, v6, r.not_unspecified, r.not_loopback, r.not_link_local, r.not_multicast,
          r.not_reserved, r.not_private,
        )
        | inr v4 ↦ ground (
          arith,
          m,
          v4,
          r.not_cgnat v4,
          r.not_unspecified,
          r.not_loopback,
          r.not_link_local,
          r.not_multicast,
          r.not_reserved,
          r.not_private,
        )
      ]

  blocked_addr-Public_iff :
      (s : String) (o : Option lib.Addr)
      → lib.ip_address s ≡ o
      → (blocked_addr lib o ≡ none) ↔ Public s
  blocked_addr-Public_iff s none e =
      (λ h. absurd (ground (arith, h)), λ (a, b, f, w, r). absurd (ground (arith, e, f)))
  blocked_addr-Public_iff s (some a) e = (
    λ h. (
      a,
      normalize_ip lib a,
      e,
      normalize_ip-StandsFor a,
      classify-Routable (normalize_ip lib a) h,
    ),
    λ (c, b, f, w, r).
        let same : c ≡ a = ground (arith, e, f) in
        let stands : b ≡ normalize_ip lib a =
          StandsFor-normalize_ip c b w ∙ ap (normalize_ip lib) same in
        Routable-classify (normalize_ip lib a) (subst Routable stands r),
  )

  -- The guard lets an address pass exactly when it is public: it reads as an address, and what it
  -- stands for, an IPv4 address that an IPv6 one wraps included, is no metadata endpoint and is not
  -- unspecified, loopback, link-local, multicast, reserved, private or shared (CGNAT).
  pub is_blocked_ip-Public_iff : (s : String) → (is_blocked_ip lib s ≡ none) ↔ Public s
  unfolding is_blocked_ip
  is_blocked_ip-Public_iff s = blocked_addr-Public_iff s (lib.ip_address s) refl
