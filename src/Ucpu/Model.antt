-- ===== src/Ucpu/Model.antt =====
-- tb/verilator/ucpu/sim_main.cpp, the independent model in `compare_scratch_against_the_model`: the
-- twelve results expected of one pair of operands.
pub mod Laws
use fpga_g_ptp.Base.{
  ℕ, ◌+◌, ◌/◌, ◌%◌, ◌^◌, List, [], ◌∷◌, u32, u64, add_u64, sub_u64, ◌<<<◌, ◌>>>◌, bit_and, bit_or,
  bit_xor,
}
use fpga_g_ptp.Base.Int.{ℤ, ◌*ℤ◌, asr, to_i64, to_i32, to_u64}
use fpga_g_ptp.Ucpu.Operands.{Operands}

abbrev pub addi_imm : ℕ
addi_imm = 0xABC

abbrev pub shri_shift : ℕ
shri_shift = 16

unfoldable pub shift_of : ℕ → ℕ
shift_of b = bit_and b 63

unfoldable pub sar : (a sh : ℕ) → ℕ
sar a sh = to_u64 (asr (to_i64 a) sh)

unfoldable pub muls : (a b : ℕ) → ℕ
muls a b = to_u64 (to_i32 (u32 a) *ℤ to_i32 (u32 b))

-- `exp[0]` to `exp[11]`
unfoldable pub expected : Operands → List ℕ
unfolding shift_of sar muls
expected ops =
    let a = ops.a in
    let b = ops.b in
    let sh = shift_of b in
    add_u64 a b
    ∷ sub_u64 a b
    ∷ bit_and a b
    ∷ bit_or a b
    ∷ bit_xor a b
    ∷ u64 (a <<< sh)
    ∷ a >>> sh
    ∷ sar a sh
    ∷ muls a b
    ∷ a / u32 b
    ∷ add_u64 a addi_imm
    ∷ a >>> shri_shift
    ∷ []
