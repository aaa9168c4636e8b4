-- ===== src/FlowControl/Decisions.antt =====
-- What an admission rests on, and what it leaves behind.
use secure_connect_connector.Dto.{PortRule}
use secure_connect_connector.Policy.{PolicyStore}
use secure_connect_connector.Audit.{
  AuditEvent, AuditLog, access_allowed, access_refused, record_event,
}
use secure_connect_connector.Crypto.{Library, verify_base64}
use secure_connect_connector.Access.{
  AccessDecision, access_event, as_audit_str, decide_access_and_audit, decide_access_at,
}
use secure_connect_connector.Access.Decisions.{IsEntitled, decide_access_at_allowed}
use secure_connect_connector.Base.{
  Bool-cases, List, Option, Option-cases, String, ap, arith, inl, inr, none, refl, some, subst, sym,
  true, ℕ, ◌∙◌, ◌∷◌, ◌≡◌,
}
use secure_connect_connector.FlowControl.{
  AdmissionOutcome, authenticate_and_decide, decide_signed, outcome_of_decision,
}

-- A proof of identity and an entitlement: the key, the signature and the signed data are there, the
-- data decodes to a message that the signature signs, and the policy entitles the key.
pub record IsAuthenticated (library : Library) (p : String → Option ℕ) (store : PolicyStore)
    (gateway_id : String) (presented signature signed_data : Option String) (now : ℕ)
    (device_public_key : String) (opened : List PortRule) : Type 0 where
  pub message : List ℕ
  pub signed : String
  pub data_text : String
  pub user_id : String
  pub has_key : presented ≡ some device_public_key
  pub has_signature : signature ≡ some signed
  pub has_data : signed_data ≡ some data_text
  pub decodes : library.base64_decode data_text ≡ some message
  pub verifies : verify_base64 library device_public_key message signed ≡ true
  pub entitled : IsEntitled p store gateway_id device_public_key now user_id opened

-- The one entry that `authenticate_and_decide` writes, for each outcome.
abbrev pub IsEventOf : String → AuditEvent → AdmissionOutcome → Type 0
IsEventOf gateway_id event (AdmissionOutcome.allowed key opened) =
    (user_id : String) × (event ≡ access_allowed gateway_id user_id key)
IsEventOf gateway_id event (AdmissionOutcome.refused _) =
    (key : String) × (reason : String) × (event ≡ access_refused gateway_id key reason)

outcome_of_decision_event :
    (g k : String) (d : AccessDecision) → IsEventOf g (access_event g k d) (outcome_of_decision k d)
unfolding access_event outcome_of_decision
outcome_of_decision_event g k (AccessDecision.allowed u opened) = (u, refl)
outcome_of_decision_event g k (AccessDecision.refused reason) = (k, as_audit_str reason, refl)

refusal_event :
    (log : AuditLog) (g k r : String) (after : AuditLog) (outcome : AdmissionOutcome)
    → record_event log (access_refused g k r) ≡ after
    → AdmissionOutcome.refused "invalid_signature" ≡ outcome
    → (event : AuditEvent) × (after ≡ event ∷ log) × IsEventOf g event outcome
refusal_event log g k r after outcome grown same = (
  access_refused g k r,
  sym grown,
  subst (λ o. IsEventOf g (access_refused g k r) o) same (k, r, refl),
)

decide_signed_audited :
    (library : Library) (p : String → Option ℕ) (store : PolicyStore) (log : AuditLog)
    (g k s : String) (decoded : Option (List ℕ)) (now : ℕ) (after : AuditLog)
    (outcome : AdmissionOutcome)
    → decide_signed library p store log g k s decoded now ≡ some (after, outcome)
    → (event : AuditEvent) × (after ≡ event ∷ log) × IsEventOf g event outcome
unfolding decide_signed decide_access_and_audit
decide_signed_audited library p store log g k s none now after outcome e =
    refusal_event log g k "invalid_signature" after outcome (ground arith) (ground arith)
decide_signed_audited library p store log g k s (some message) now after outcome e =
    elim (Bool-cases (verify_base64 library k message s)) [
      | inr bad ↦
          refusal_event log g k "invalid_signature" after outcome (ground arith) (ground arith)
      | inl good ↦ elim (Option-cases (decide_access_at p store g k now)) [
        | inl none_left ↦ absurd (ground arith)
        | inr (decision, h) ↦
            let same : outcome_of_decision k decision ≡ outcome = ground arith in
            (
              access_event g k decision,
              ground arith,
              subst (λ o. IsEventOf g (access_event g k decision) o) same
                  (outcome_of_decision_event g k decision),
            )
      ]
    ]

-- Whatever is presented, a decision that is reached writes exactly one entry to the audit log, for
-- the gateway that was asked for: of an access that it allows with its key and a user, of any
-- other a refusal.
pub authenticate_and_decide_audited :
    (library : Library) (p : String → Option ℕ) (store : PolicyStore) (log : AuditLog) (g : String)
    (key signature data_text : Option String) (now : ℕ) (after : AuditLog)
    (outcome : AdmissionOutcome)
    → authenticate_and_decide library p store log g key signature data_text now
      ≡ some (after, outcome)
    → (event : AuditEvent) × (after ≡ event ∷ log) × IsEventOf g event outcome
unfolding authenticate_and_decide
authenticate_and_decide_audited library p store log g (some k) (some s) (some d) now after outcome
      e =
    decide_signed_audited library p store log g k s (library.base64_decode d) now after outcome e
authenticate_and_decide_audited library p store log g (some k) (some s) none now after outcome e =
    refusal_event log g k "no_signature_presented" after outcome (ground arith) (ground arith)
authenticate_and_decide_audited library p store log g (some k) none data_text now after outcome e =
    refusal_event log g k "no_signature_presented" after outcome (ground arith) (ground arith)
authenticate_and_decide_audited library p store log g none signature data_text now after outcome e =
    refusal_event log g "" "no_signature_presented" after outcome (ground arith) (ground arith)

outcome_of_decision_allowed :
    (k key : String) (d : AccessDecision) (opened : List PortRule)
    → outcome_of_decision k d ≡ AdmissionOutcome.allowed key opened
    → (user_id : String) × (k ≡ key) × (d ≡ AccessDecision.allowed user_id opened)
unfolding outcome_of_decision
outcome_of_decision_allowed k key (AccessDecision.allowed u rs) opened e =
    (u, ground arith, ground arith)
outcome_of_decision_allowed k key (AccessDecision.refused reason) opened e = absurd (ground arith)

decide_signed_allowed :
    (library : Library) (p : String → Option ℕ) (store : PolicyStore) (log : AuditLog)
    (g k s : String) (decoded : Option (List ℕ)) (now : ℕ) (after : AuditLog) (key : String)
    (opened : List PortRule)
    → decide_signed library p store log g k s decoded now
      ≡ some (after, AdmissionOutcome.allowed key opened)
    → (message : List ℕ) × (user_id : String) × (decoded ≡ some message)
      × (verify_base64 library k message s ≡ true)
      × (k ≡ key)
      × IsEntitled p store g k now user_id opened
unfolding decide_signed decide_access_and_audit
decide_signed_allowed library p store log g k s none now after key opened e = absurd (ground arith)
decide_signed_allowed library p store log g k s (some message) now after key opened e =
    elim (Bool-cases (verify_base64 library k message s)) [
      | inr bad ↦ absurd (ground arith)
      | inl good ↦ elim (Option-cases (decide_access_at p store g k now)) [
        | inl none_left ↦ absurd (ground arith)
        | inr (decision, h) ↦
            let (user_id, same, d) =
              outcome_of_decision_allowed k key decision opened (ground arith) in
            (
              message,
              user_id,
              refl,
              good,
              same,
              decide_access_at_allowed p store g k now user_id opened (h ∙ ap some d),
            )
      ]
    ]

-- Access is only allowed where the signature, over the decoded data, is the presented key's own,
-- and where the applied policy entitles that key to the gateway.
pub authenticate_and_decide_allowed :
    (library : Library) (p : String → Option ℕ) (store : PolicyStore) (log : AuditLog) (g : String)
    (presented signature data_text : Option String) (now : ℕ) (after : AuditLog) (key : String)
    (opened : List PortRule)
    → authenticate_and_decide library p store log g presented signature data_text now
      ≡ some (after, AdmissionOutcome.allowed key opened)
    → IsAuthenticated library p store g presented signature data_text now key opened
unfolding authenticate_and_decide
authenticate_and_decide_allowed library p store log g (some k) (some s) (some d) now after key
      opened e =
    let (message, user_id, f, v, same, entitled) =
      decide_signed_allowed library p store log g k s (library.base64_decode d) now after key opened
        e in
    record {
      message = message;
      signed = s;
      data_text = d;
      user_id = user_id;
      has_key = ap some same;
      has_signature = refl;
      has_data = refl;
      decodes = f;
      verifies = subst (λ x. verify_base64 library x message s ≡ true) same v;
      entitled = subst (λ x. IsEntitled p store g x now user_id opened) same entitled;
    }
authenticate_and_decide_allowed library p store log g (some k) (some s) none now after key opened
      e =
    absurd (ground arith)
authenticate_and_decide_allowed library p store log g (some k) none data_text now after key opened
      e =
    absurd (ground arith)
authenticate_and_decide_allowed library p store log g none signature data_text now after key opened
      e =
    absurd (ground arith)
