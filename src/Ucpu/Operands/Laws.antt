-- ===== src/Ucpu/Operands/Laws.antt =====
-- The operands of a run are words that the divider accepts, and the generator never sticks at zero.
use fpga_g_ptp.Base.{ℕ, ◌*◌, ◌/◌, ◌^◌, ◌<◌, ◌≢◌, arith, u32, u64, bit_xor, u64_max}
use fpga_g_ptp.Base.Bits.{bit_xor-lt, bit_or-lt, eq_of_bit_xor-zero, bit_or_step}
use fpga_g_ptp.Ucpu.Operands.{xs64, nonzero_divisor, operands_for_run}

-- A word that its shifted self does not cancel.
left13_ne : (x : ℕ) → 0 < x → x < 2 ^ 64 → bit_xor x (u64 (x * 2 ^ 13)) ≢ 0
left13_ne x q h e = omega (arith, eq_of_bit_xor-zero x (u64 (x * 2 ^ 13)) e)

left17_ne : (x : ℕ) → 0 < x → x < 2 ^ 64 → bit_xor x (u64 (x * 2 ^ 17)) ≢ 0
left17_ne x q h e = omega (arith, eq_of_bit_xor-zero x (u64 (x * 2 ^ 17)) e)

right_ne : (x : ℕ) → 0 < x → bit_xor x (x / 2 ^ 7) ≢ 0
right_ne x p e = omega (arith, eq_of_bit_xor-zero x (x / 2 ^ 7) e)

xs64_lem : (x : ℕ) → 0 < x → x < 2 ^ 64 → (0 < xs64 x) × (xs64 x < 2 ^ 64)
unfolding xs64
xs64_lem x p h =
    let y = bit_xor x (u64 (x * 2 ^ 13)) in
    let y_lt = bit_xor-lt 64 x (u64 (x * 2 ^ 13)) h (omega arith) in
    let y_ne = left13_ne x p h in
    let z = bit_xor y (y / 2 ^ 7) in
    let z_lt = bit_xor-lt 64 y (y / 2 ^ 7) y_lt (omega arith) in
    let z_ne = right_ne y (omega arith) in
    let w_lt = bit_xor-lt 64 z (u64 (z * 2 ^ 17)) z_lt (omega arith) in
    let w_ne = left17_ne z (omega arith) z_lt in (omega arith, w_lt)

nonzero_divisor_lem :
    (b : ℕ) → b < 2 ^ 64 → (nonzero_divisor b < 2 ^ 64) × (0 < u32 (nonzero_divisor b))
unfolding nonzero_divisor
nonzero_divisor_lem b h = ground (arith, bit_or-lt 64 b 1 h (omega arith), bit_or_step b 1)

-- In every run, from a nonzero 64-bit generator state, the operands are 64-bit words, the low half of the divisor `b` is not zero, and
-- the generator is again in a nonzero 64-bit state.
pub operands_for_run_lem :
    (run s : ℕ)
    → 0 < s
    → s < 2 ^ 64
    → let next = operands_for_run run s in
      (next.0.a < 2 ^ 64)
      × (next.0.b < 2 ^ 64)
      × (0 < u32 next.0.b)
      × (0 < next.1)
      × (next.1 < 2 ^ 64)
unfolding operands_for_run
operands_for_run_lem run s p h =
    let first = xs64_lem s p h in
    let second = xs64_lem (xs64 s) first.0 first.1 in
    ground (
      arith,
      first,
      second,
      nonzero_divisor_lem (xs64 (xs64 s)) second.1,
      nonzero_divisor_lem 1 (omega arith),
      nonzero_divisor_lem 63 (omega arith),
      nonzero_divisor_lem 64 (omega arith),
      nonzero_divisor_lem u64_max (omega arith),
    )
