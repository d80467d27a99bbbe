-- ===== src/Ucpu/Operands.antt =====
-- tb/verilator/ucpu/sim_main.cpp, the operand pairs: `xs64` and `operands_for_run`.
pub mod Laws
use fpga_g_ptp.Base.{
  ℕ, ◌+◌, ◌-◌, ◌%◌, ◌^◌, Bool, ◌==◌, if◌then◌else◌, u32, u64, ◌<<<◌, ◌>>>◌, bit_or, bit_xor,
  u64_max,
}

pub record Operands : Type 0 where
  pub a : ℕ
  pub b : ℕ

abbrev pub seed : ℕ
seed = 0x243F6A8885A308D3

-- `x ^= x << 13; x ^= x >> 7; x ^= x << 17;`
unfoldable pub xs64 : ℕ → ℕ
xs64 x =
    let x = bit_xor x (u64 (x <<< 13)) in let x = bit_xor x (x >>> 7) in bit_xor x (u64 (x <<< 17))

-- `if ((uint32_t)b == 0) b |= 1;`
unfoldable pub nonzero_divisor : ℕ → ℕ
nonzero_divisor b = if u32 b == 0 then bit_or b 1 else b

-- The operands of one run, and the generator after it.
unfoldable pub operands_for_run : (run xs_state : ℕ) → Operands × ℕ
unfolding xs64 nonzero_divisor
operands_for_run run s =
    if run == 0
    then (record { a = 0; b = nonzero_divisor 1 }, s)
    else (if run == 1
        then (record { a = u64_max; b = nonzero_divisor 1 }, s)
        else (if run == 2
            then (record { a = 0x8000000000000000; b = nonzero_divisor 63 }, s)
            else (if run == 3
                then (record { a = 0x123456789ABCDEF0; b = nonzero_divisor 64 }, s)
                else (if run == 4 then (record { a = 1; b = nonzero_divisor u64_max }, s) else (
                  record { a = xs64 s; b = nonzero_divisor (xs64 (xs64 s)) },
                  xs64 (xs64 s),
                )))))
