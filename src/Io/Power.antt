-- ===== src/Io/Power.antt =====
-- unix/core.c: the size that the table grows to.
use sebbu_c_libuv.Base.{ℕ, zero, suc, ◌+◌, ◌-◌, ◌*◌, ◌/◌, ◌%◌, ◌^◌, ◌≤◌, ◌<◌, ◌≡◌, arith}
use sebbu_c_libuv.Io.{bit_or, or_shifted, next_power_of_two}

abbrev two_to : ℕ → ℕ
two_to zero = 1
two_to (suc n) = 2 * two_to n

bit_or-ge : (w a b : ℕ) → a < two_to w → a ≤ bit_or w a b
unfolding bit_or
bit_or-ge zero a b h = omega arith
bit_or-ge (suc w) a b h = ground (arith, bit_or-ge w (a / 2) (b / 2) (omega arith))

bit_or-lt : (w n a b : ℕ) → a < two_to n → b < two_to n → bit_or w a b < two_to n
unfolding bit_or
bit_or-lt zero n a b h k = omega arith
bit_or-lt (suc w) zero a b h k =
    ground (arith, bit_or-lt w zero (a / 2) (b / 2) (omega arith) (omega arith))
bit_or-lt (suc w) (suc n) a b h k =
    ground (arith, bit_or-lt w n (a / 2) (b / 2) (omega arith) (omega arith))

or_shifted-bounds :
    (n val : ℕ)
    → 0 < n
    → val < 2147483648
    → (val ≤ or_shifted n val) × (or_shifted n val < 2147483648)
or_shifted-bounds n val h k =
    (bit_or-ge 32 val (val / n) (omega arith), bit_or-lt 32 31 val (val / n) k (omega arith))

pub next_power_of_two-bounds :
    (val : ℕ)
    → 0 < val
    → val ≤ 2147483648
    → (val ≤ next_power_of_two val) × (next_power_of_two val ≤ 2147483648)
unfolding next_power_of_two
next_power_of_two-bounds val h k =
    let v = (val + 2 ^ 32 - 1) % 2 ^ 32 in
    let is : v ≡ val - 1 = omega arith in
    let a = or_shifted-bounds 2 v (omega arith) (omega (arith, is)) in
    let b = or_shifted-bounds 4 (or_shifted 2 v) (omega arith) a.1 in
    let c = or_shifted-bounds 16 (or_shifted 4 (or_shifted 2 v)) (omega arith) b.1 in
    let d =
      or_shifted-bounds 256 (or_shifted 16 (or_shifted 4 (or_shifted 2 v))) (omega arith) c.1 in
    let e =
      or_shifted-bounds 65536 (or_shifted 256 (or_shifted 16 (or_shifted 4 (or_shifted 2 v))))
        (omega arith) d.1 in
    (omega (arith, is, a.0, b.0, c.0, d.0, e.0, e.1), omega (arith, e.1))
