-- ===== src/Heartbeat/Deregistration.antt =====
-- src/heartbeat.rs: which answer to a deregistration is trusted, on which the host removes its
-- service and key, and what counts as a refusal.
use Prim.Native.String.{String}
use secure_connect_connector.Heartbeat.{
  ConnectorDeregisterRequest, ConnectorDeregisterResponse, HttpResponse, Parsers, check_status,
  context, deregister_and_verify, deregister_url, ensure, already_expired, expiry_unparseable, ok,
  other_public_key, other_status, refuses_deregister, request_failed, signed_body, body_unparseable,
}
use secure_connect_connector.Heartbeat.Trust.{
  >>-ok, >>=-ok, IsSigned, check_status-ok, context-ok, ensure-ok, signed_body-ok,
}
use secure_connect_connector.Crypto.{Library}
use secure_connect_connector.Base.{
  List, Option, arith, ltb, ltb→lt, nat_key, some, string_key, subst, true, ℕ, ◌<◌, ◌==◌, ◌↔◌, ◌≡◌,
}

key_eq : (a b : String) → (a == b) ≡ true → a ≡ b
key_eq a b h = ground arith

module _ (library : Library) (parsers : Parsers) where
  pub record IsConfirmed (post : String → ConnectorDeregisterRequest → Option HttpResponse)
      (now : ℕ) (base_url key : String) (request : ConnectorDeregisterRequest)
      (parsed : ConnectorDeregisterResponse) : Type 0 where
    pub response : HttpResponse
    pub body : List ℕ
    pub expires_at : ℕ
    pub sent : post (deregister_url base_url) request ≡ some response
    pub signed : IsSigned library parsers refuses_deregister key response body
    pub reads : parsers.deregister_response body ≡ some parsed
    pub own_key : parsed.connector_public_key ≡ request.connector_public_key
    pub deregistered : parsed.status ≡ "DEREGISTERED"
    pub expiry : parsers.parse_from_rfc3339 parsed.expires_at ≡ some expires_at
    pub valid : now < expires_at

  deregister_and_verify-IsConfirmed :
      (post : String → ConnectorDeregisterRequest → Option HttpResponse) (now : ℕ)
      (base_url key : String) (request : ConnectorDeregisterRequest)
      (parsed : ConnectorDeregisterResponse)
      → deregister_and_verify library parsers post now base_url key request ≡ ok parsed
      → IsConfirmed post now base_url key request parsed
  unfolding deregister_and_verify
  deregister_and_verify-IsConfirmed post now base_url key request parsed h =
      let (response, a, h) =
        >>=-ok (context request_failed (post (deregister_url base_url) request)) _ h in
      let (b, h) = >>-ok (check_status library parsers refuses_deregister response) _ h in
      let (body, c, h) = >>=-ok (signed_body library parsers key response) _ h in
      let (content, d, h) =
        >>=-ok (context body_unparseable (parsers.deregister_response body)) _ h in
      let (e, h) =
        >>-ok
          (ensure (content.connector_public_key == request.connector_public_key) other_public_key) _
          h in
      let (f, h) = >>-ok (ensure (content.status == "DEREGISTERED") other_status) _ h in
      let (expires_at, g, h) =
        >>=-ok (context expiry_unparseable (parsers.parse_from_rfc3339 content.expires_at)) _ h in
      let (i, j) = >>-ok (ensure (ltb now expires_at) already_expired) _ h in
      let same : content ≡ parsed = cc j in
      let status = check_status-ok library parsers refuses_deregister response b in
      let (signature, header, full, verified) =
        signed_body-ok library parsers key response body c in
      subst (λ p. IsConfirmed post now base_url key request p) same
        (record {
          response = response;
          body = body;
          expires_at = expires_at;
          sent = context-ok _ _ a;
          signed = record {
            signature = signature;
            header = header;
            content = full;
            verified = verified;
            success = status.0;
            not_refused = status.1;
          };
          reads = context-ok _ _ d;
          own_key = key_eq _ _ (ensure-ok _ _ e);
          deregistered = key_eq _ _ (ensure-ok _ _ f);
          expiry = context-ok _ _ g;
          valid = ltb→lt now expires_at (ensure-ok _ _ i);
        })

  IsConfirmed-deregister_and_verify :
      (post : String → ConnectorDeregisterRequest → Option HttpResponse) (now : ℕ)
      (base_url key : String) (request : ConnectorDeregisterRequest)
      (parsed : ConnectorDeregisterResponse)
      → IsConfirmed post now base_url key request parsed
      → deregister_and_verify library parsers post now base_url key request ≡ ok parsed
  unfolding deregister_and_verify check_status signed_body
  IsConfirmed-deregister_and_verify post now base_url key request parsed t =
      let s = t.signed in
      rw (t.sent) (
        rw (s.not_refused) (
          rw (s.success) (
            rw (s.header) (
              rw (s.content) (
                rw (s.verified) (
                  rw (t.reads) (
                    rw (t.own_key)
                      (rw (t.deregistered) (rw (t.expiry) (ground (arith, t.valid)))))))))))

  -- A deregistration is confirmed exactly where Agent's response, from the deregistration address of
  -- that Agent, is a success that is no refusal, its raw body carries a signature that verifies under
  -- the key asked for, and what it parses to names this Connector's own public key, has the status
  -- DEREGISTERED, and has a readable expiry that is still to come.
  pub deregister_and_verify_iff :
      (post : String → ConnectorDeregisterRequest → Option HttpResponse) (now : ℕ)
      (base_url key : String) (request : ConnectorDeregisterRequest)
      (parsed : ConnectorDeregisterResponse)
      → (deregister_and_verify library parsers post now base_url key request ≡ ok parsed)
        ↔ IsConfirmed post now base_url key request parsed
  deregister_and_verify_iff post now base_url key request parsed = (
    deregister_and_verify-IsConfirmed post now base_url key request parsed,
    IsConfirmed-deregister_and_verify post now base_url key request parsed,
  )
