-- ===== src/Webhooks.antt =====
-- src/app/core/utils/webhook_url.py and src/app/core/services/webhook_client.py: the guard of the
-- outgoing URLs and the signed POST. `urllib.parse`, `ipaddress`, the resolver, `json.dumps`, HMAC
-- and httpx are not in the repository: `Net` holds what they answer.
pub mod Worker
pub mod Guard
pub mod Silent
use Prim.Native.String.{◌++◌ as str_append}
use python_workflow_service.Prelude.{
  ℕ, ◌+◌, String, Bool, true, false, not, ◌||◌, Option, none, some, List, [], ◌∷◌, ◌++◌, length,
  any, str_eq, ltb, ◌==◌, if◌then◌else◌, get_or_else,
}
use python_workflow_service.Prelude.Text.{text_length, is_empty, strip, lower, ends_with}
use python_workflow_service.Value.{Value}

-- What `ipaddress` says of an address.
pub record Address : Type 0 where
  pub is_private : Bool
  pub is_loopback : Bool
  pub is_link_local : Bool
  pub is_multicast : Bool
  pub is_reserved : Bool
  pub is_unspecified : Bool

-- `parsed.port`, which raises `ValueError` for a port that is not one.
pub data Port : Type 0 where
  no_port : Port
  port_number : ℕ → Port
  bad_port : String → Port

pub record Url : Type 0 where
  pub scheme : String
  pub username : Option String
  pub password : Option String
  pub hostname : Option String
  pub port : Port

-- `urlparse`, or the text of its `ValueError`.
pub data Parsed : Type 0 where
  parsed : Url → Parsed
  malformed : String → Parsed

-- How a POST ends: a status, an `httpx.HTTPError`, or another exception.
pub data Reply : Type 0 where
  answered : ℕ → Reply
  failed : String → Reply
  escaped : String → Reply

pub record Request : Type 0 where
  pub target : String
  pub event : String
  pub body : String
  pub signature : Option String

-- What the process has sent so far: how often it asked the resolver, its POSTs, its waits in seconds.
pub record Traffic : Type 0 where
  pub lookups : ℕ
  pub posts : List Request
  pub sleeps : List ℕ

-- The answers of the libraries: of the resolver to the n-th question (`none` is `gaierror`), of the
-- endpoint to the n-th POST. `invalid` is the text of the guard's exception.
pub record Net : Type 0 where
  pub parse : String → Parsed
  pub address : String → Option Address
  pub resolve : ℕ → String → ℕ → Option (List Address)
  pub post : ℕ → Request → Reply
  pub dumps : Value → String
  pub hmac_sha256 : String → String → String
  pub invalid : String

-- The guard's answer: the cleaned URL, or the text of the exception.
pub data Check : Type 0 where
  passed : String → Check
  refused : String → Check

-- `_is_blocked_ip`.
unfoldable pub is_blocked_ip : Address → Bool
is_blocked_ip ip =
    ip.is_private || ip.is_loopback || ip.is_link_local || ip.is_multicast || ip.is_reserved
    || ip.is_unspecified

abbrev pub text_or_empty : Option String → String
text_or_empty o = get_or_else o ""

unfoldable pub has_credentials : Url → Bool
has_credentials url =
    not (is_empty (text_or_empty url.username)) || not (is_empty (text_or_empty url.password))

-- `host in {"localhost"} or host.endswith(".localhost")`.
unfoldable pub is_local : String → Bool
is_local host = str_eq host "localhost" || ends_with host ".localhost"

abbrev pub port_or_default : ℕ → ℕ
port_or_default n = if n == 0 then 443 else n

module _ (net : Net) where
  -- `_validate_resolved_ips`. The list without its repetitions passes when the list does.
  unfoldable pub validate_resolved_ips : String → Option (List Address) → Check
  validate_resolved_ips cleaned none = refused net.invalid
  validate_resolved_ips cleaned (some []) = refused net.invalid
  validate_resolved_ips cleaned (some (ip ∷ ips)) =
      if any is_blocked_ip (ip ∷ ips) then refused net.invalid else passed cleaned

  -- The last step of the guard: the host is an address, or the resolver is asked.
  unfoldable pub check_address : String → String → ℕ → Traffic → Check × Traffic
  check_address cleaned host port s = elim (net.address host) [
    | some ip ↦ (if is_blocked_ip ip then refused net.invalid else passed cleaned, s)
    | none ↦ (
      validate_resolved_ips cleaned (net.resolve s.lookups host port),
      record s { lookups = s.lookups + 1 },
    )
  ]

  unfoldable pub check_port : String → String → Port → Traffic → Check × Traffic
  check_port cleaned host (bad_port e) s = (refused e, s)
  check_port cleaned host no_port s = check_address cleaned host 443 s
  check_port cleaned host (port_number n) s = check_address cleaned host (port_or_default n) s

  unfoldable pub check_parsed : String → Parsed → Traffic → Check × Traffic
  check_parsed cleaned (malformed e) s = (refused e, s)
  check_parsed cleaned (parsed url) s =
      let hostname = text_or_empty url.hostname in
      if not (str_eq url.scheme "https")
        || has_credentials url
        || is_empty hostname
        || is_local (lower hostname)
      then (refused net.invalid, s)
      else check_port cleaned (lower hostname) url.port s

  -- `validate_outbound_webhook_url`.
  unfoldable pub validate_outbound_webhook_url : String → Traffic → Check × Traffic
  validate_outbound_webhook_url url s =
      let cleaned = strip url in
      if is_empty cleaned || ltb 2000 (text_length cleaned)
      then (refused net.invalid, s)
      else check_parsed cleaned (net.parse cleaned) s

  -- `sign_webhook_payload`.
  unfoldable pub sign_webhook_payload : String → String → String
  sign_webhook_payload secret body = str_append "sha256=" (net.hmac_sha256 secret body)

  -- The request of `post_webhook`: it is signed where there is a secret.
  unfoldable pub build_request : String → String → String → Value → Request
  unfolding sign_webhook_payload
  build_request cleaned secret event payload =
      let body = net.dumps payload in
      record {
        target = cleaned;
        event = event;
        body = body;
        signature = if is_empty secret then none else some (sign_webhook_payload secret body);
      }

  abbrev pub send : Request → Traffic → Reply × Traffic
  send request s = (net.post (length s.posts) request, record s { posts = s.posts ++ request ∷ [] })

  -- `post_webhook`, which runs the guard again: a refusal escapes from it as an exception.
  unfoldable pub post_webhook : String → String → String → Value → Traffic → Reply × Traffic
  post_webhook url secret event payload s =
      let checked = validate_outbound_webhook_url url s in
      elim checked.0 [
        | refused e ↦ (escaped e, checked.1)
        | passed cleaned ↦ send (build_request cleaned secret event payload) checked.1
      ]
