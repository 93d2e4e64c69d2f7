-- ===== src/Executor/Egress/Proxy.antt =====
-- createEgressProxyHandler of packages/executor/src/egress-proxy.ts.
--
-- What comes from outside is the record `Env`: the URL parser, the resolution of names, the upstream
-- service, the decoding of UTF-8, JSON, the redaction, ids and the clock. checkSsrf throws nothing but an
-- SsrfError, so that the branch for other errors is not here. The entry of the audit log is written as
-- well as possible: an error of the log is swallowed.
use secure_openclaw_poc.Common.{
  ◌&&◌, ◌+◌, ◌++◌, Bool, List, Option, String, Text, [], codes, if◌then◌else◌, get_or, is_one_of,
  leb, length, ltb, max, none, not, reverse, some, starts_with, text_eq, true, ◌||◌, ℕ, ◌∷◌,
}
use secure_openclaw_poc.Executor.Egress.Placeholders.{SubstitutionError, substitute_placeholders}
use secure_openclaw_poc.Crypto.UseCredential.{Vault}
use secure_openclaw_poc.Common.Outcome.{Outcome, returned, ◌>>=◌}
use secure_openclaw_poc.Executor.Egress.Telegram.{
  Action, Intercepted, TelegramInterceptor, TelegramUpdate,
}
use secure_openclaw_poc.Types.{ActionCategory, PolicyAction, block, AuditEntry, AuditResult}

-- The clauses of EgressRequestSchema, read.
pub record EgressRequest : Type 0 where
  pub url : Text
  pub method : Text
  pub headers : List (Text × Text)
  pub body : Option Text
  pub agent_id : String
  pub session_id : String

pub record EgressBinding : Type 0 where
  pub service_id : Text
  pub allowed_domains : List Text

pub record Url : Type 0 where
  pub protocol : Text
  pub hostname : Text
  pub pathname : Text

-- What is sent on.
pub record Forward : Type 0 where
  pub url : Text
  pub headers : List (Text × Text)
  pub body : Option Text

-- An answer: each reading of its body gives bytes or fails.
pub record UpstreamResponse : Type 0 where
  pub status : ℕ
  pub headers : List (Text × Text)
  pub readings : List (Option (List ℕ))

pub data Event : Type 0 where
  fetches : (method : Text) → Forward → (timeout_ms : ℕ) → Event
  telegram : Action → Event
  logs : AuditEntry → Event

pub data Refusal : Type 0 where
  invalid_json invalid_request invalid_url not_https not_bound ssrf_protection : Refusal
  no_vault substitution_failed credential_error too_large upstream_error : Refusal

pub data Response : Type 0 where
  refused : (status : ℕ) → Refusal → Response
  forwarded : (status : ℕ) (headers : List (Text × Text)) (body : Text) → Response

pub data Incoming : Type 0 where
  no_json no_request : Incoming
  request : EgressRequest → Incoming

-- The confirmations after a call, what it did, and its response.
pub record Reply (S : Type 0) : Type 0 where
  pub state : S
  pub events : List Event
  pub response : Response

pub record Env (S : Type 0) : Type 0 where
  pub lower : Text → Text
  pub parse_url : Text → Option Url
  pub number : Text → Option ℕ
  pub parse_hex : Text → Option ℕ
  pub resolve4 : Text → Option (List Text)
  pub resolve6 : Text → Option (List Text)
  pub fetch : (method : Text) → Forward → Option UpstreamResponse
  pub decode : List ℕ → Text
  pub poll_timeout_ms : (body : Text) → Option ℕ
  pub updates_of : (body : Text) → Option (List TelegramUpdate)
  pub with_updates : (body : Text) → List Intercepted → Text
  pub redact : Text → Text
  pub uuid : String
  pub manifest_uuid : String
  pub iso_time : String
  pub duration_ms : ℕ
  pub bindings : List EgressBinding
  pub max_response_bytes : ℕ
  pub telegram_interceptor : Option (TelegramInterceptor S)

-- `map.set` and `map.get` of a map whose keys are texts.
unfoldable pub set_domain : (domain service_id : Text) → List (Text × Text) → List (Text × Text)
set_domain domain service_id [] = (domain, service_id) ∷ []
set_domain domain service_id ((d, s) ∷ rest) =
    let later = (d, s) ∷ set_domain domain service_id rest in
    if text_eq d domain then (d, service_id) ∷ rest else later

unfoldable pub get_domain : (domain : Text) → List (Text × Text) → Option Text
get_domain domain [] = none
get_domain domain ((d, s) ∷ rest) =
    let later = get_domain domain rest in if text_eq d domain then some s else later

abbrev pub upstream_timeout_ms : ℕ
upstream_timeout_ms = 60000

abbrev pub allowed_response_headers : List Text
allowed_response_headers =
    codes "content-type"
    ∷ codes "content-length"
    ∷ codes "content-encoding"
    ∷ codes "retry-after"
    ∷ codes "x-request-id"
    ∷ codes "x-ratelimit-limit"
    ∷ codes "x-ratelimit-remaining"
    ∷ codes "x-ratelimit-reset"
    ∷ []

pub data Body : Type 0 where
  whole : List ℕ → Body
  over_limit broken : Body

abbrev pub add_bytes : List ℕ → Body → Body
add_bytes bytes (whole rest) = whole (bytes ++ rest)
add_bytes bytes over_limit = over_limit
add_bytes bytes broken = broken

-- The loop that reads a body.
unfoldable pub read_body : (max_response_bytes total_size : ℕ) → List (Option (List ℕ)) → Body
read_body max_bytes total [] = whole []
read_body max_bytes total (none ∷ rs) = broken
read_body max_bytes total (some bytes ∷ rs) =
    let rest = add_bytes bytes (read_body max_bytes (total + length bytes) rs) in
    if ltb max_bytes (total + length bytes) then over_limit else rest

-- `new Response(body, ...)` with a body: it throws for a status that allows none, and for one that is
-- out of range.
unfoldable pub allows_body : (status : ℕ) → Bool
allows_body status =
    (leb 200 status && leb status 599) && not (is_one_of status (204 ∷ 205 ∷ 304 ∷ []))

abbrev pub is_https : Url → Bool
is_https u = text_eq u.protocol (codes "https:")

module _ {S : Type 0} (env : Env S) where
  abbrev pub set_domains : (service_id : Text) → List Text → List (Text × Text) → List (Text × Text)
  set_domains service_id [] m = m
  set_domains service_id (d ∷ ds) m =
      set_domains service_id ds (set_domain (env.lower d) service_id m)

  abbrev pub add_bindings : List EgressBinding → List (Text × Text) → List (Text × Text)
  add_bindings [] m = m
  add_bindings (b ∷ bs) m = add_bindings bs (set_domains b.service_id b.allowed_domains m)

  unfoldable pub build_domain_map : List EgressBinding → List (Text × Text)
  unfolding set_domain
  build_domain_map bindings = add_bindings bindings []

  abbrev pub target_host : Url → Text
  target_host u = env.lower u.hostname

  -- `auditLog`.
  abbrev pub audit_log : EgressRequest → Url → PolicyAction → AuditResult → Event
  audit_log r u decision result = logs (record {
    id = env.uuid;
    timestamp = env.iso_time;
    manifest_id = env.manifest_uuid;
    session_id = r.session_id;
    agent_id = r.agent_id;
    tool = "egress_proxy";
    category = ActionCategory.write;
    decision = decision;
    parameters_summary = r.method ++ 32 ∷ target_host u ++ u.pathname;
    result = result;
    duration_ms = some env.duration_ms;
    source = none;
  })

  abbrev pub refuse : S → List Event → (status : ℕ) → Refusal → Reply S
  refuse s events status why = record { state = s; events = events; response = refused status why }

  abbrev pub blocked : S → EgressRequest → Url → AuditResult → (status : ℕ) → Refusal → Reply S
  blocked s r u result status why = refuse s (audit_log r u block result ∷ []) status why

  abbrev pub is_skipped : (name : Text) → Bool
  is_skipped name =
      text_eq (env.lower name) (codes "host") || text_eq (env.lower name) (codes "connection")

  unfoldable pub substitute_headers :
      Vault
      → (service_id : Text) → List (Text × Text)
      → Outcome SubstitutionError (List (Text × Text))
  substitute_headers vault service_id [] = returned []
  substitute_headers vault service_id ((name, value) ∷ hs) =
      let rest = substitute_headers vault service_id hs in
      if is_skipped name
      then rest
      else (substitute_placeholders value vault service_id >>= λ filled.
          rest >>= λ later. returned ((name, filled) ∷ later))

  abbrev pub substitute_body :
      Vault → (service_id : Text) → Option Text → Outcome SubstitutionError (Option Text)
  substitute_body vault service_id none = returned none
  substitute_body vault service_id (some []) = returned none
  substitute_body vault service_id (some (c ∷ cs)) =
      substitute_placeholders (c ∷ cs) vault service_id >>= λ filled. returned (some filled)

  unfoldable pub substitute_request :
      Vault → (service_id : Text) → EgressRequest → Outcome SubstitutionError Forward
  unfolding substitute_headers
  substitute_request vault service_id r = substitute_placeholders r.url vault service_id >>= λ url.
      substitute_headers vault service_id r.headers >>= λ headers.
      substitute_body vault service_id r.body >>= λ body.
      returned (record { url = url; headers = headers; body = body })

  unfoldable pub is_telegram_get_updates : Url → Bool
  is_telegram_get_updates u =
      text_eq (target_host u) (codes "api.telegram.org")
      && starts_with (reverse u.pathname) (reverse (codes "/getUpdates"))

  abbrev pub timeout_for : (is_get_updates : Bool) → (body : Option Text) → ℕ
  timeout_for true (some (c ∷ cs)) =
      max upstream_timeout_ms (get_or (env.poll_timeout_ms (c ∷ cs)) 0 + 15000)
  timeout_for _ body = upstream_timeout_ms
