-- ===== src/Tunnel/Words.antt =====
-- src/tunnel.rs: the sum of a header's words, and what the writes of bytes and words do to it.
use secure_connect_connector.Tunnel.Addresses.{write_octets}
use secure_connect_connector.Net.{Ipv4Addr}
use secure_connect_connector.Tunnel.{Packet, byte_at, from_be_bytes, read_u16, set_byte, write_u16}
use secure_connect_connector.Base.{
  [], arith, length, refl, suc, zero, ℕ, ◌%◌, ◌*◌, ◌+◌, ◌/◌, ◌<◌, ◌∙◌, ◌∷◌, ◌≡◌, ◌≤◌,
}

-- The sum of a packet's first `count` words: of its header, where the header has as many.
unfoldable pub words : ℕ → Packet → ℕ
words zero p = 0
words (suc count) [] = 0
words (suc count) (a ∷ []) = a * 256
words (suc count) (a ∷ b ∷ p) = a * 256 + b + words count p

pub words-set_byte_beyond :
    (count : ℕ) (p : Packet) (i v : ℕ)
    → count + count ≤ i
    → words count (set_byte p i v) ≡ words count p
unfolding words set_byte
words-set_byte_beyond zero p i v h = refl
words-set_byte_beyond (suc count) [] i v h = refl
words-set_byte_beyond (suc count) (a ∷ []) zero v h = absurd (omega (arith, h))
words-set_byte_beyond (suc count) (a ∷ []) (suc i) v h = refl
words-set_byte_beyond (suc count) (a ∷ b ∷ p) zero v h = absurd (omega (arith, h))
words-set_byte_beyond (suc count) (a ∷ b ∷ p) (suc zero) v h = absurd (omega (arith, h))
words-set_byte_beyond (suc count) (a ∷ b ∷ p) (suc (suc i)) v h =
    omega (arith, words-set_byte_beyond count p i v (omega (arith, h)))

pub words-write_u16_beyond :
    (count : ℕ) (p : Packet) (i v : ℕ)
    → count + count ≤ i
    → words count (write_u16 p i v) ≡ words count p
unfolding write_u16
words-write_u16_beyond count p i v h =
    words-set_byte_beyond count (set_byte p i (v / 256)) (i + 1) (v % 256) (omega (arith, h))
    ∙ words-set_byte_beyond count p i (v / 256) h

pub words-write_u16 :
    (count : ℕ) (p : Packet) (k v : ℕ)
    → k < count
    → k + k + 1 < length p
    → words count (write_u16 p (k + k) v) + read_u16 p (k + k) ≡ words count p + v
unfolding words write_u16 read_u16 set_byte byte_at
words-write_u16 zero p k v low h = absurd (omega (arith, low))
words-write_u16 (suc count) [] k v low h = absurd (omega (arith, h))
words-write_u16 (suc count) (a ∷ []) k v low h = absurd (omega (arith, h))
words-write_u16 (suc count) (a ∷ b ∷ p) zero v low h = omega arith
words-write_u16 (suc count) (a ∷ b ∷ p) (suc k) v low h =
    let even : suc k + suc k ≡ suc (suc (k + k)) = omega arith in
    let odd : suc (suc (k + k)) + 1 ≡ suc (suc (k + k + 1)) = omega arith in
    let rest = words-write_u16 count p k v (omega (arith, low)) (omega (arith, h)) in
    rw (even, odd, set_byte, byte_at, words) (omega (arith, rest))

pub words_at :
    (count : ℕ) (p : Packet) (i k v : ℕ)
    → i ≡ k + k
    → k < count
    → i + 1 < length p
    → words count (write_u16 p i v) + read_u16 p i ≡ words count p + v
words_at count p i k v e low h = rw e (words-write_u16 count p k v low (omega (arith, e, h)))

-- An address whose octets are bytes.
abbrev pub IsAddress : Ipv4Addr → Type 0
IsAddress v = (v.a < 256) × (v.b < 256) × (v.c < 256) × (v.d < 256)

pub write_octets_words :
    (p : Packet) (i : ℕ) (v : Ipv4Addr)
    → IsAddress v
    → write_octets p i v
      ≡ write_u16 (write_u16 p i (from_be_bytes v.a v.b)) (i + 2) (from_be_bytes v.c v.d)
unfolding write_octets write_u16
write_octets_words p i v (a, b, c, d) =
    let one : from_be_bytes v.a v.b / 256 ≡ v.a = omega (arith, a, b) in
    let two : from_be_bytes v.a v.b % 256 ≡ v.b = omega (arith, a, b) in
    let three : from_be_bytes v.c v.d / 256 ≡ v.c = omega (arith, c, d) in
    let four : from_be_bytes v.c v.d % 256 ≡ v.d = omega (arith, c, d) in
    let at : i + 2 + 1 ≡ i + 3 = omega arith in rw (one, two, three, four, at) refl
