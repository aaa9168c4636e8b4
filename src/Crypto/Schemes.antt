-- ===== src/Crypto/Schemes.antt =====
-- What a signature that is accepted proves.
use secure_connect_connector.Crypto.{Library, verify_base64, verify_bytes, verify_ed25519}
use secure_connect_connector.Base.{
  Bool-cases, List, Option-cases, String, arith, inl, inr, length, nat_key, some, true, ℕ, ◌==◌,
  ◌↔◌, ◌≡◌, ◌⊎◌,
}

-- A signature by an Ed25519 key of 32 bytes or a P-256 key of 65 bytes, each accepted by its own
-- scheme alone.
abbrev pub IsSigned : Library → List ℕ → List ℕ → List ℕ → Type 0
IsSigned library key message signature =
    ((length key ≡ 32)
      × (length signature ≡ 64)
      × (library.is_ed25519_key key ≡ true)
      × (library.ed25519_verifies key message signature ≡ true))
    ⊎ ((length key ≡ 65) × (library.ecdsa_p256_verifies key message signature ≡ true))

verify_bytes-IsSigned :
    (library : Library) (key message signature : List ℕ)
    → (verify_bytes library key message signature ≡ true) ↔ IsSigned library key message signature
unfolding verify_bytes verify_ed25519
verify_bytes-IsSigned library key message signature = (λ e. to e, λ h. from h)
  where
    to : verify_bytes library key message signature ≡ true → IsSigned library key message signature
    to e = elim (Bool-cases (length key == 32)) [
      | inl h ↦ inl (ground arith, ground arith, ground arith, ground arith)
      | inr h ↦ inr (ground arith, ground arith)
    ]

    from :
        IsSigned library key message signature → verify_bytes library key message signature ≡ true
    from (inl h) = ground (arith, h)
    from (inr h) = ground (arith, h)

-- A signature is accepted exactly when the key decodes from hex and the signature from base64, and
-- the bytes verify under the scheme of the key's length, an Ed25519 signature with its 64 bytes.
pub verify_base64-IsSigned :
    (library : Library) (public_key : String) (message : List ℕ) (signature : String)
    → (verify_base64 library public_key message signature ≡ true) ↔ (
        (key : List ℕ) × (bytes : List ℕ) × (library.hex_decode public_key ≡ some key)
        × (library.base64_decode signature ≡ some bytes)
        × IsSigned library key message bytes)
unfolding verify_base64
verify_base64-IsSigned library public_key message signature = (λ e. to e, λ h. from h)
  where
    to :
        verify_base64 library public_key message signature ≡ true
        → (key : List ℕ) × (bytes : List ℕ) × (library.hex_decode public_key ≡ some key)
          × (library.base64_decode signature ≡ some bytes)
          × IsSigned library key message bytes
    to e = elim (Option-cases (library.hex_decode public_key)) [
      | inl h ↦ absurd (ground arith)
      | inr (key, h) ↦ elim (Option-cases (library.base64_decode signature)) [
        | inl i ↦ absurd (ground arith)
        | inr (bytes, i) ↦
            (key, bytes, h, i, (verify_bytes-IsSigned library key message bytes).0 (ground arith))
      ]
    ]

    from :
        (key : List ℕ) × (bytes : List ℕ) × (library.hex_decode public_key ≡ some key)
          × (library.base64_decode signature ≡ some bytes)
          × IsSigned library key message bytes
        → verify_base64 library public_key message signature ≡ true
    from (key, bytes, h, i, s) =
        rw (h, verify_base64, i) ((verify_bytes-IsSigned library key message bytes).1 s)
