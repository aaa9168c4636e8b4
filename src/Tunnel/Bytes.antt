-- ===== src/Tunnel/Bytes.antt =====
-- What a write changes of a packet's bytes, and of the sum of its words.
use secure_connect_connector.Tunnel.{Packet, byte_at, read_u16, set_byte, write_u16}
use secure_connect_connector.Base.{
  [], arith, if◌then◌else◌, length, ltb, nat_key, refl, some, suc, zero, ℕ, ◌%◌, ◌&&◌, ◌*◌, ◌+◌,
  ◌/◌, ◌<◌, ◌==◌, ◌∷◌, ◌≡◌, ◌≢◌,
}

pub length-set_byte : (p : Packet) (i v : ℕ) → length (set_byte p i v) ≡ length p
unfolding set_byte
length-set_byte [] i v = refl
length-set_byte (b ∷ p) zero v = refl
length-set_byte (b ∷ p) (suc i) v = omega (arith, length-set_byte p i v)

pub byte_at-set_byte :
    (p : Packet) (i v j : ℕ)
    → byte_at (set_byte p i v) j ≡ (if i == j && ltb i (length p) then some v else byte_at p j)
unfolding set_byte byte_at
byte_at-set_byte [] i v j = ground arith
byte_at-set_byte (b ∷ p) zero v zero = ground arith
byte_at-set_byte (b ∷ p) zero v (suc j) = ground arith
byte_at-set_byte (b ∷ p) (suc i) v zero = ground arith
byte_at-set_byte (b ∷ p) (suc i) v (suc j) = ground (arith, byte_at-set_byte p i v j)

pub length-write_u16 : (p : Packet) (i v : ℕ) → length (write_u16 p i v) ≡ length p
unfolding write_u16
length-write_u16 p i v = omega (
  arith,
  length-set_byte (set_byte p i (v / 256)) (i + 1) (v % 256),
  length-set_byte p i (v / 256),
)

-- A write elsewhere leaves a byte as it was.
pub byte_at-write_u16_other :
    (p : Packet) (i v j : ℕ) → i ≢ j → i + 1 ≢ j → byte_at (write_u16 p i v) j ≡ byte_at p j
unfolding write_u16
byte_at-write_u16_other p i v j a b = ground (
  arith,
  byte_at-set_byte (set_byte p i (v / 256)) (i + 1) (v % 256) j,
  byte_at-set_byte p i (v / 256) j,
)

pub byte_at-write_u16 :
    (p : Packet) (i v : ℕ)
    → i + 1 < length p
    → (byte_at (write_u16 p i v) i ≡ some (v / 256))
      × (byte_at (write_u16 p i v) (i + 1) ≡ some (v % 256))
unfolding write_u16
byte_at-write_u16 p i v h = (
  ground (
    arith,
    byte_at-set_byte (set_byte p i (v / 256)) (i + 1) (v % 256) i,
    byte_at-set_byte p i (v / 256) i,
  ),
  ground (
    arith,
    byte_at-set_byte (set_byte p i (v / 256)) (i + 1) (v % 256) (i + 1),
    length-set_byte p i (v / 256),
  ),
)

-- The sum of a packet's words, its last byte the high one of a word of its own.
unfoldable pub word_sum : Packet → ℕ
word_sum [] = 0
word_sum (a ∷ []) = a * 256
word_sum (a ∷ b ∷ p) = a * 256 + b + word_sum p

-- Writing the word `k` of a packet exchanges it for the old one in the sum.
pub word_sum-write_u16 :
    (p : Packet) (k v : ℕ)
    → k + k + 1 < length p
    → word_sum (write_u16 p (k + k) v) + read_u16 p (k + k) ≡ word_sum p + v
unfolding word_sum write_u16 read_u16 set_byte byte_at
word_sum-write_u16 [] k v h = absurd (omega (arith, h))
word_sum-write_u16 (a ∷ []) k v h = absurd (omega (arith, h))
word_sum-write_u16 (a ∷ b ∷ p) zero v h = omega arith
word_sum-write_u16 (a ∷ b ∷ p) (suc k) v h =
    let even : suc k + suc k ≡ suc (suc (k + k)) = omega arith in
    let rest = word_sum-write_u16 p k v (omega (arith, h)) in
    let odd : suc (suc (k + k)) + 1 ≡ suc (suc (k + k + 1)) = omega arith in
    rw (even, odd, set_byte, byte_at, word_sum) (omega (arith, rest))
