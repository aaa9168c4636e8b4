-- ===== src/Tunnel/Checksum.antt =====
-- The incremental update of a ones-complement checksum.
use secure_connect_connector.Tunnel.{checksum_adjust, fold_carries}
use secure_connect_connector.Base.{arith, ℕ, ◌%◌, ◌+◌, ◌-◌, ◌/◌, ◌<◌, ◌^◌, ◌≡◌, ◌≤◌}

-- The value after a carry.
abbrev folded : ℕ → ℕ
folded sum = sum % 2 ^ 16 + sum / 2 ^ 16

fold_carries_steps :
    (sum : ℕ)
    → sum ≤ 196605
    → (fold_carries 2 sum < 2 ^ 16) × (fold_carries 2 sum % 65535 ≡ sum % 65535)
unfolding fold_carries
fold_carries_steps sum h = ground arith

complement_sum :
    (r x old new : ℕ)
    → old ≤ 65535
    → r < 65536
    → r % 65535 ≡ (x + (65535 - old) + new) % 65535
    → (65535 - (65535 - r % 65536) + old) % 65535 ≡ (x + new) % 65535
complement_sum r x old new o small same = omega arith

-- For any 16-bit checksum and words, the update fits in 16 bits, and the complement of the
-- checksum changes by exactly the difference of the new word and the old one, modulo 65535.
pub checksum_adjust_sum :
    (checksum old new : ℕ)
    → checksum < 2 ^ 16
    → old < 2 ^ 16
    → new < 2 ^ 16
    → (checksum_adjust checksum old new < 2 ^ 16)
      × ((65535 - checksum_adjust checksum old new + old) % 65535
          ≡ (65535 - checksum + new) % 65535)
unfolding checksum_adjust
checksum_adjust_sum checksum old new c o n =
    let sum = 65535 - checksum + (65535 - old) + new in
    let (small, same) = fold_carries_steps sum (omega arith) in
    (
      omega arith,
      complement_sum (fold_carries 2 sum) (65535 - checksum) old new (omega arith) small same,
    )
