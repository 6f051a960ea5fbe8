-- ===== src/Webhooks/Silent.antt =====
-- The guard of the URLs posts nothing.

use python_workflow_service.Prelude.{
  ℕ, ◌≡◌, refl, String, Bool-cases, inl, inr, ltb, not, ◌||◌, Option-cases, str_eq,
}
use python_workflow_service.Prelude.Text.{strip, lower, is_empty, text_length}
use python_workflow_service.Webhooks.{
  Net, Traffic, validate_outbound_webhook_url, check_address, check_port, check_parsed, Parsed,
  parsed, malformed, Port, no_port, port_number, bad_port, text_or_empty, has_credentials, is_local,
}

module _ (net : Net) where
  check_address_posts :
      (c host : String) (port : ℕ) (s : Traffic)
      → (check_address net c host port s).1.posts ≡ s.posts
  unfolding check_address
  check_address_posts c host port s = elim (Option-cases (net.address host)) [
    | inl named ↦ rw (named, check_address) refl
    | inr (ip, literal) ↦ rw (literal, check_address) refl
  ]

  check_port_posts :
      (c host : String) (port : Port) (s : Traffic)
      → (check_port net c host port s).1.posts ≡ s.posts
  unfolding check_port
  check_port_posts c host (bad_port e) s = refl
  check_port_posts c host no_port s = check_address_posts c host _ s
  check_port_posts c host (port_number n) s = check_address_posts c host _ s

  check_parsed_posts :
      (c : String) (p : Parsed) (s : Traffic) → (check_parsed net c p s).1.posts ≡ s.posts
  unfolding check_parsed
  check_parsed_posts c (malformed e) s = refl
  check_parsed_posts c (parsed url) s =
      let hostname = text_or_empty url.hostname in
      let bad =
        not (str_eq url.scheme "https")
        || has_credentials url
        || is_empty hostname
        || is_local (lower hostname) in
      elim (Bool-cases bad) [
        | inl h ↦ rw h refl
        | inr h ↦ rw h (check_port_posts c (lower hostname) url.port s)
      ]

  pub validate_posts :
      (url : String) (s : Traffic) → (validate_outbound_webhook_url net url s).1.posts ≡ s.posts
  unfolding validate_outbound_webhook_url
  validate_posts url s =
      elim (Bool-cases (is_empty (strip url) || ltb 2000 (text_length (strip url)))) [
        | inl h ↦ rw h refl
        | inr h ↦ rw h (check_parsed_posts (strip url) _ s)
      ]
