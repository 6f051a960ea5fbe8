-- ===== src/Webhooks/Guard.antt =====
-- What src/app/core/utils/webhook_url.py lets through.
use mathlib.Core.Path.{subst}
use python_workflow_service.Prelude.{
  ℕ, String, ◌≡◌, refl, sym, false, not, ◌||◌, ltb, Option-cases, Option, none, some, List, [], ◌∷◌,
  arith, Bool-cases, inl, inr, any, All, str_eq, eq_iff,
}
use python_workflow_service.Prelude.Text.{is_empty, strip, lower, text_length}
use python_workflow_service.Webhooks.{
  Net, Traffic, Url, Port, no_port, port_number, bad_port, port_or_default, Parsed, parsed,
  malformed, passed, Address, is_blocked_ip, has_credentials, is_local, text_or_empty,
  validate_resolved_ips, check_address, check_port, check_parsed, validate_outbound_webhook_url,
}

-- The port that a URL names.
abbrev pub port_of : Port → ℕ
port_of (port_number n) = port_or_default n
port_of _ = 443

-- The answer of the resolver has addresses, and none of them is blocked.
abbrev pub AllOpen : Option (List Address) → Type 0
AllOpen none = ⊥
AllOpen (some []) = ⊥
AllOpen (some (ip ∷ ips)) = All (λ a. is_blocked_ip a ≡ false) (ip ∷ ips)

-- The host is an address that is not blocked, or the resolver gave addresses, none of them blocked.
abbrev Open : Option Address → Option (List Address) → Type 0
Open (some ip) answer = is_blocked_ip ip ≡ false
Open none answer = AllOpen answer

abbrev pub Reaches : Net → String → ℕ → ℕ → Type 0
Reaches net host port lookups = Open (net.address host) (net.resolve lookups host port)

-- What the guard has checked of a URL.
pub record IsSafe (net : Net) (lookups : ℕ) (cleaned : String) : Type 0 where
  pub url : Url
  pub read : net.parse cleaned ≡ parsed url
  pub scheme : url.scheme ≡ "https"
  pub anonymous : has_credentials url ≡ false
  pub remote : is_local (lower (text_or_empty url.hostname)) ≡ false
  pub reaches : Reaches net (lower (text_or_empty url.hostname)) (port_of url.port) lookups

any_none :
    (ips : List Address) → any is_blocked_ip ips ≡ false → All (λ ip. is_blocked_ip ip ≡ false) ips
any_none [] h = tt
any_none (ip ∷ ips) h = ground (arith, any_none ips)

module _ (net : Net) (cleaned : String) {c : String} where
  resolved_lem :
      (answer : Option (List Address))
      → validate_resolved_ips net cleaned answer ≡ passed c
      → (c ≡ cleaned) × AllOpen answer
  unfolding validate_resolved_ips
  resolved_lem none h = ground arith
  resolved_lem (some []) h = ground arith
  resolved_lem (some (ip ∷ ips)) h = elim (Bool-cases (any is_blocked_ip (ip ∷ ips))) [
    | inl blocked ↦ let clash = rw blocked at h in ground arith
    | inr fine ↦ let same = rw fine at h in (ground arith, any_none (ip ∷ ips) fine)
  ]

  check_address-Reaches :
      (host : String) (port : ℕ) (s : Traffic)
      → (check_address net cleaned host port s).0 ≡ passed c
      → (c ≡ cleaned) × Reaches net host port s.lookups
  unfolding check_address
  check_address-Reaches host port s h = elim (Option-cases (net.address host)) [
    | inl named ↦ rw named (resolved_lem _ (rw (named, check_address) at h))
    | inr (ip, literal) ↦ elim (Bool-cases (is_blocked_ip ip)) [
      | inl blocked ↦ let clash = rw (literal, blocked, check_address) at h in ground arith
      | inr fine ↦
          let same = rw (literal, fine, check_address) at h in (ground arith, rw literal fine)
    ]
  ]

  check_port-Reaches :
      (host : String) (port : Port) (s : Traffic)
      → (check_port net cleaned host port s).0 ≡ passed c
      → (c ≡ cleaned) × Reaches net host (port_of port) s.lookups
  unfolding check_port
  check_port-Reaches host (bad_port e) s h = ground arith
  check_port-Reaches host no_port s h = check_address-Reaches host 443 s h
  check_port-Reaches host (port_number n) s h = check_address-Reaches host (port_or_default n) s h

  check_parsed-IsSafe :
      (p : Parsed) (s : Traffic)
      → net.parse cleaned ≡ p
      → (check_parsed net cleaned p s).0 ≡ passed c
      → (c ≡ cleaned) × IsSafe net s.lookups cleaned
  unfolding check_parsed
  check_parsed-IsSafe (malformed e) s read h = ground arith
  check_parsed-IsSafe (parsed url) s read h =
      let hostname = text_or_empty url.hostname in
      let bad =
        not (str_eq url.scheme "https")
        || has_credentials url
        || is_empty hostname
        || is_local (lower hostname) in
      elim (Bool-cases bad) [
        | inl refusal ↦ let clash = rw refusal at h in ground arith
        | inr fine ↦
            let (same, reaches) = check_port-Reaches (lower hostname) url.port s (rw fine at h) in
            (
              same,
              record {
                url = url;
                read = read;
                scheme = ground (arith, eq_iff url.scheme "https");
                anonymous = ground arith;
                remote = ground arith;
                reaches = reaches;
              },
            )
      ]

module _ (net : Net) where
  -- The guard's promise. A URL that it lets through is given back without the white space around it,
  -- is read as an https URL without credentials whose host is not localhost or under it, and names
  -- an address that is not blocked, or a host for which the resolver gave at least one address and
  -- no blocked one.
  pub validate_outbound_webhook_url-IsSafe :
      (url : String) (s : Traffic) (cleaned : String)
      → (validate_outbound_webhook_url net url s).0 ≡ passed cleaned
      → (cleaned ≡ strip url) × IsSafe net s.lookups cleaned
  unfolding validate_outbound_webhook_url
  validate_outbound_webhook_url-IsSafe url s cleaned h =
      elim (Bool-cases (is_empty (strip url) || ltb 2000 (text_length (strip url)))) [
        | inl refusal ↦ let clash = rw refusal at h in ground arith
        | inr fine ↦
            let (same, safe) = check_parsed-IsSafe net (strip url) _ s refl (rw fine at h) in
            (same, subst (λ t. IsSafe net s.lookups t) (sym same) safe)
      ]
