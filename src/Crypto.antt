-- ===== src/Crypto.antt =====
-- src/crypto.rs: how a signature is verified. The decoders and the two signature schemes are
-- libraries, which stand here as the fields of a record.
pub mod Schemes
use secure_connect_connector.Base.{
  Bool, List, Option, String, false, if◌then◌else◌, length, nat_key, none, some, ℕ, ◌&&◌, ◌==◌,
}

-- `hex::decode`, `BASE64.decode`, `VerifyingKey::from_bytes`, `VerifyingKey::verify` and ring's
-- `ECDSA_P256_SHA256_ASN1`.
pub record Library : Type 0 where
  pub hex_decode : String → Option (List ℕ)
  pub base64_decode : String → Option (List ℕ)
  pub is_ed25519_key : List ℕ → Bool
  pub ed25519_verifies : (public_key message signature : List ℕ) → Bool
  pub ecdsa_p256_verifies : (public_key message signature : List ℕ) → Bool

module _ (library : Library) where
  unfoldable pub verify_ed25519 : List ℕ → List ℕ → List ℕ → Bool
  verify_ed25519 public_key_bytes message signature_bytes =
      length public_key_bytes == 32
      && library.is_ed25519_key public_key_bytes
      && length signature_bytes == 64
      && library.ed25519_verifies public_key_bytes message signature_bytes

  abbrev pub verify_ecdsa_p256 : List ℕ → List ℕ → List ℕ → Bool
  verify_ecdsa_p256 public_key_bytes message signature_bytes =
      library.ecdsa_p256_verifies public_key_bytes message signature_bytes

  -- The `match` on the length of the key.
  unfoldable pub verify_bytes : List ℕ → List ℕ → List ℕ → Bool
  unfolding verify_ed25519
  verify_bytes public_key_bytes message signature_bytes =
      if length public_key_bytes == 32
      then verify_ed25519 public_key_bytes message signature_bytes
      else if length public_key_bytes == 65
      then verify_ecdsa_p256 public_key_bytes message signature_bytes
      else false

  unfoldable pub verify_base64 : String → List ℕ → String → Bool
  unfolding verify_bytes
  verify_base64 public_key_hex message signature_base64 = elim (library.hex_decode public_key_hex) [
    | none ↦ false
    | some public_key_bytes ↦ elim (library.base64_decode signature_base64) [
      | none ↦ false
      | some signature_bytes ↦ verify_bytes public_key_bytes message signature_bytes
    ]
  ]
