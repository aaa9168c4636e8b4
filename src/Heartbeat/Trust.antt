-- ===== src/Heartbeat/Trust.antt =====
-- src/heartbeat.rs: which answers are trusted, and which are refusals.
use secure_connect_connector.Dto.{ConnectorHeartbeatResponse}
use Prim.Native.String.{String}
use secure_connect_connector.Heartbeat.{
  ConnectorHeartbeatRequest, Failure, HttpResponse, Outcome, Parsers, body_unreadable, check_status,
  context, ensure, failed, fetch_and_verify, heartbeat_url, is_key, is_success, ok,
  other_public_key, refuses_heartbeat, rejected, request_failed, signature_invalid,
  signature_missing, signature_not_utf8, signed_body, body_unparseable, ◌>>=◌, ◌>>◌,
}
use secure_connect_connector.Crypto.{Library, verify_base64}
use secure_connect_connector.Base.{
  Bool, List, Option, ap, arith, false, nat_key, none, refl, some, string_key, true, ℕ, ◌↔◌, ◌∙◌,
  ◌≡◌,
}

pub context-ok {ℓ} :
    {A : Type ℓ} (e : Failure) (o : Option A) {a : A} → context e o ≡ ok a → o ≡ some a
context-ok e none h = cc h
context-ok e (some a) h = cc h

pub ensure-ok : (e : Failure) (b : Bool) → ensure b e ≡ ok tt → b ≡ true
ensure-ok e true h = refl
ensure-ok e false h = cc h

pub >>=-ok {ℓ κ} :
    {A : Type ℓ} {B : Type κ} (m : Outcome A) (f : A → Outcome B) {b : B}
    → (m >>= f) ≡ ok b
    → (a : A) × (m ≡ ok a) × (f a ≡ ok b)
>>=-ok (ok a) f h = (a, refl, h)
>>=-ok (rejected r) f h = cc h
>>=-ok (failed e) f h = cc h

pub >>-ok {ℓ} :
    {B : Type ℓ} (m : Outcome (Unit {0})) (k : Outcome B) {b : B}
    → (m >> k) ≡ ok b
    → (m ≡ ok tt) × (k ≡ ok b)
>>-ok (ok tt) k h = (refl, h)
>>-ok (rejected r) k h = cc h
>>-ok (failed e) k h = cc h

module _ (library : Library) (parsers : Parsers) where
  -- The response is a success whose raw body carries a signature that verifies under the key.
  pub record IsSigned (refuses : ℕ → Bool) (key : String) (response : HttpResponse) (body : List ℕ)
      : Type 0 where
    pub signature : String
    pub header : response.signature_header ≡ some (some signature)
    pub content : response.body ≡ some body
    pub verified : verify_base64 library key body signature ≡ true
    pub success : is_success response.status ≡ true
    pub not_refused : refuses response.status ≡ false

  pub check_status-ok :
      (refuses : ℕ → Bool) (response : HttpResponse)
      → check_status library parsers refuses response ≡ ok tt
      → (is_success response.status ≡ true) × (refuses response.status ≡ false)
  unfolding check_status
  check_status-ok refuses response h = ground arith

  pub signed_body-ok :
      (key : String) (response : HttpResponse) (body : List ℕ)
      → signed_body library parsers key response ≡ ok body
      → (signature : String) × (response.signature_header ≡ some (some signature))
        × (response.body ≡ some body)
        × (verify_base64 library key body signature ≡ true)
  unfolding signed_body
  signed_body-ok key response body h =
      let (header, a, h) = >>=-ok (context signature_missing response.signature_header) _ h in
      let (signature, b, h) = >>=-ok (context signature_not_utf8 header) _ h in
      let (content, c, h) = >>=-ok (context body_unreadable response.body) _ h in
      let (d, e) =
        >>-ok (ensure (verify_base64 library key content signature) signature_invalid) _ h in
      let same : content ≡ body = cc e in
      (
        signature,
        context-ok _ _ a ∙ ap some (context-ok _ _ b),
        context-ok _ _ c ∙ ap some same,
        rw (← same) (ensure-ok _ _ d),
      )

  -- What the answer to a heartbeat is trusted on.
  pub record IsTrusted (post : String → ConnectorHeartbeatRequest → Option HttpResponse)
      (base_url key : String) (request : ConnectorHeartbeatRequest)
      (parsed : ConnectorHeartbeatResponse) : Type 0 where
    pub response : HttpResponse
    pub body : List ℕ
    pub sent : post (heartbeat_url base_url) request ≡ some response
    pub signed : IsSigned refuses_heartbeat key response body
    pub reads : parsers.heartbeat_response body ≡ some parsed
    pub own_key : parsed.connector_public_key ≡ some request.connector_public_key

  is_key-eq : (o : Option String) (key : String) → is_key o key ≡ true → o ≡ some key
  is_key-eq none key h = cc h
  is_key-eq (some k) key h = ground arith

  fetch_and_verify-IsTrusted :
      (post : String → ConnectorHeartbeatRequest → Option HttpResponse) (base_url key : String)
      (request : ConnectorHeartbeatRequest) (parsed : ConnectorHeartbeatResponse)
      → fetch_and_verify library parsers post base_url key request ≡ ok parsed
      → IsTrusted post base_url key request parsed
  unfolding fetch_and_verify
  fetch_and_verify-IsTrusted post base_url key request parsed h =
      let (response, a, h) =
        >>=-ok (context request_failed (post (heartbeat_url base_url) request)) _ h in
      let (b, h) = >>-ok (check_status library parsers refuses_heartbeat response) _ h in
      let (body, c, h) = >>=-ok (signed_body library parsers key response) _ h in
      let (content, d, h) =
        >>=-ok (context body_unparseable (parsers.heartbeat_response body)) _ h in
      let (e, f) =
        >>-ok
          (ensure (is_key content.connector_public_key request.connector_public_key)
            other_public_key)
          _ h in
      let same : content ≡ parsed = cc f in
      let status = check_status-ok refuses_heartbeat response b in
      let (signature, header, full, verified) = signed_body-ok key response body c in
      record {
        response = response;
        body = body;
        sent = context-ok _ _ a;
        signed = record {
          signature = signature;
          header = header;
          content = full;
          verified = verified;
          success = status.0;
          not_refused = status.1;
        };
        reads = context-ok _ _ d ∙ ap some same;
        own_key = rw (← same) (is_key-eq _ _ (ensure-ok _ _ e));
      }

  IsTrusted-fetch_and_verify :
      (post : String → ConnectorHeartbeatRequest → Option HttpResponse) (base_url key : String)
      (request : ConnectorHeartbeatRequest) (parsed : ConnectorHeartbeatResponse)
      → IsTrusted post base_url key request parsed
      → fetch_and_verify library parsers post base_url key request ≡ ok parsed
  unfolding fetch_and_verify check_status signed_body
  IsTrusted-fetch_and_verify post base_url key request parsed t =
      let s = t.signed in
      rw (t.sent) (
        rw (s.not_refused) (
          rw (s.success) (
            rw (s.header)
              (rw (s.content) (rw (s.verified) (rw (t.reads) (rw (t.own_key) (ground arith))))))))

  -- A heartbeat's answer is accepted exactly where Agent's response, from the heartbeat address of
  -- that Agent, is a success that is no refusal, its raw body carries a signature that verifies under
  -- the key asked for, and what that body parses to names this Connector's own public key.
  pub fetch_and_verify_iff :
      (post : String → ConnectorHeartbeatRequest → Option HttpResponse) (base_url key : String)
      (request : ConnectorHeartbeatRequest) (parsed : ConnectorHeartbeatResponse)
      → (fetch_and_verify library parsers post base_url key request ≡ ok parsed)
        ↔ IsTrusted post base_url key request parsed
  fetch_and_verify_iff post base_url key request parsed = (
    fetch_and_verify-IsTrusted post base_url key request parsed,
    IsTrusted-fetch_and_verify post base_url key request parsed,
  )
