-- ===== src/Heartbeat.antt =====
-- src/heartbeat.rs and src/registry_client.rs: the requests to Agent and Registry, and what has to
-- hold of an answer before it is trusted. The HTTP exchange and the parsers are functions; a
-- failure is named for the `bail!` or the context that it comes from.
pub mod Trust
pub mod Deregistration
use Prim.Native.String.{String, ◌++◌}
use secure_connect_connector.Dto.{ConnectorHeartbeatResponse}
use secure_connect_connector.Crypto.{Library, verify_base64}
use secure_connect_connector.Text.{trim_end_slashes}
use secure_connect_connector.GatewayEnd.{GatewayEndReport}
use secure_connect_connector.Base.{
  Bool, List, Option, and_then, false, if◌then◌else◌, leb, ltb, nat_key, none, some, string_key,
  true, ℕ, ◌&&◌, ◌==◌, ◌||◌,
}

-- The request bodies of src/dto.rs, and the answer to a deregistration.
pub record ConnectorHeartbeatRequest : Type 0 where
  pub connector_public_key : String
  pub unresolved_endpoint_hosts : Option (List String)
  pub ended_flows : List GatewayEndReport

pub record ConnectorDeregisterRequest : Type 0 where
  pub connector_public_key : String

pub record ConnectorDeregisterResponse : Type 0 where
  pub connector_id : String
  pub connector_public_key : String
  pub status : String
  pub generated_at : String
  pub expires_at : String
  pub nonce : String

-- An HTTP response: its status, its `X-Signature` header, which may be absent or no UTF-8, and its
-- body, the reading of which may fail.
pub record HttpResponse : Type 0 where
  pub status : ℕ
  pub signature_header : Option (Option String)
  pub body : Option (List ℕ)

pub record AgentRejected : Type 0 where
  pub status : ℕ
  pub reason : Option String

pub data Failure : Type 0 where
  request_failed : Failure
  returned : (status : ℕ) → Failure
  signature_missing signature_not_utf8 body_unreadable signature_invalid body_unparseable : Failure
  other_public_key other_status expiry_unparseable already_expired : Failure

-- `anyhow::Result`, with the error that callers downcast to set apart.
pub data Outcome {ℓ} (A : Type ℓ) : Type ℓ where
  ok : A → Outcome A
  rejected : AgentRejected → Outcome A
  failed : Failure → Outcome A

infixl 5 ◌>>=◌ ◌>>◌
abbrev pub ◌>>=◌ {ℓ κ} : {A : Type ℓ} {B : Type κ} → Outcome A → (A → Outcome B) → Outcome B
ok a >>= f = f a
rejected r >>= f = rejected r
failed e >>= f = failed e

abbrev pub ◌>>◌ {ℓ} : {B : Type ℓ} → Outcome (Unit {0}) → Outcome B → Outcome B
m >> k = m >>= λ _. k

-- `Option::context`, and a test with its `bail!`.
abbrev pub context {ℓ} : {A : Type ℓ} → Failure → Option A → Outcome A
context e none = failed e
context e (some a) = ok a

abbrev pub ensure : Bool → Failure → Outcome (Unit {0})
ensure true e = ok tt
ensure false e = failed e

abbrev pub bad_request : ℕ
bad_request = 400

abbrev pub conflict : ℕ
conflict = 409

-- The statuses that an Agent refuses by: a deregistration has two.
abbrev pub refuses_heartbeat : ℕ → Bool
refuses_heartbeat status = status == bad_request

abbrev pub refuses_deregister : ℕ → Bool
refuses_deregister status = status == bad_request || status == conflict

abbrev pub is_success : ℕ → Bool
is_success status = leb 200 status && ltb status 300

abbrev pub is_key : Option String → String → Bool
is_key none key = false
is_key (some public_key) key = public_key == key

-- `serde_json` and `chrono`, at the types that the client reads.
pub record Parsers : Type 0 where
  pub reason_of : List ℕ → Option String
  pub heartbeat_response : List ℕ → Option ConnectorHeartbeatResponse
  pub deregister_response : List ℕ → Option ConnectorDeregisterResponse
  pub permitted_key : List ℕ → Option String
  pub parse_from_rfc3339 : String → Option ℕ

-- Where an Agent is, by the address that agents.json lists.
abbrev pub base_url_of : String → String
base_url_of ip_address = "https://" ++ ip_address

abbrev pub heartbeat_url : String → String
heartbeat_url agent_base_url = trim_end_slashes agent_base_url ++ "/api/connectors/heartbeat"

abbrev pub deregister_url : String → String
deregister_url agent_base_url = trim_end_slashes agent_base_url ++ "/api/connectors/deregister"

abbrev pub permitted_key_url : (base_url agent_ip_address : String) → String
permitted_key_url base_url agent_ip_address =
    trim_end_slashes base_url ++ "/api/agents/" ++ agent_ip_address ++ "/permitted-key"

module _ (library : Library) (parsers : Parsers) where
  abbrev refusal : HttpResponse → AgentRejected
  refusal response = record {
    status = response.status;
    reason = and_then response.body parsers.reason_of;
  }

  -- A refusal, or another answer that is no success.
  unfoldable pub check_status : (ℕ → Bool) → HttpResponse → Outcome (Unit {0})
  check_status refuses response =
      if refuses response.status
      then rejected (refusal response)
      else if is_success response.status
      then ok tt
      else failed (returned response.status)

  -- The body, as it was sent, once its signature is verified.
  unfoldable pub signed_body : String → HttpResponse → Outcome (List ℕ)
  unfolding verify_base64
  signed_body public_key_hex response = do
    header ← context signature_missing response.signature_header
    signature ← context signature_not_utf8 header
    body ← context body_unreadable response.body
    ensure (verify_base64 library public_key_hex body signature) signature_invalid
    ok body

  -- What is sent where: a response, or none where the request fails or times out.
  unfoldable pub fetch_and_verify :
      (String → ConnectorHeartbeatRequest → Option HttpResponse)
      → (agent_base_url agent_public_key_hex : String) → ConnectorHeartbeatRequest
      → Outcome ConnectorHeartbeatResponse
  unfolding trim_end_slashes check_status signed_body
  fetch_and_verify post agent_base_url agent_public_key_hex request = do
    response ← context request_failed (post (heartbeat_url agent_base_url) request)
    check_status refuses_heartbeat response
    body ← signed_body agent_public_key_hex response
    parsed ← context body_unparseable (parsers.heartbeat_response body)
    ensure (is_key parsed.connector_public_key request.connector_public_key) other_public_key
    ok parsed

  unfoldable pub deregister_and_verify :
      (String → ConnectorDeregisterRequest → Option HttpResponse)
      → (now : ℕ) → (agent_base_url agent_public_key_hex : String) → ConnectorDeregisterRequest
      → Outcome ConnectorDeregisterResponse
  unfolding trim_end_slashes check_status signed_body
  deregister_and_verify post now agent_base_url agent_public_key_hex request = do
    response ← context request_failed (post (deregister_url agent_base_url) request)
    check_status refuses_deregister response
    body ← signed_body agent_public_key_hex response
    parsed ← context body_unparseable (parsers.deregister_response body)
    ensure (parsed.connector_public_key == request.connector_public_key) other_public_key
    ensure (parsed.status == "DEREGISTERED") other_status
    expires_at ← context expiry_unparseable (parsers.parse_from_rfc3339 parsed.expires_at)
    ensure (ltb now expires_at) already_expired
    ok parsed

  -- `RegistryClient::get_agent_permitted_key`
  unfoldable pub get_agent_permitted_key :
      (String → Option HttpResponse) → (base_url agent_ip_address : String) → Outcome String
  unfolding trim_end_slashes
  get_agent_permitted_key fetch base_url agent_ip_address = do
    response ← context request_failed (fetch (permitted_key_url base_url agent_ip_address))
    ensure (is_success response.status) (returned response.status)
    context body_unparseable (and_then response.body parsers.permitted_key)
