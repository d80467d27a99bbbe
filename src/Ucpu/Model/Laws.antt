-- ===== src/Ucpu/Model/Laws.antt =====
-- The signed results of the model, described on the unsigned words.
use fpga_g_ptp.Base.{
  ℕ, ◌-◌, ◌/◌, ◌%◌, ◌^◌, ◌<◌, ◌≤◌, ◌≡◌, arith, if◌then◌else◌, ltb, ap, ap₂, ◌∙◌, refl, Bool-cases,
  inl, inr,
}
use native.Mathlib.Nat.{one-le-pow, div-le_self, mod-eq_of_lt}
use fpga_g_ptp.Base.Bits.{bit_and_mask}
use fpga_g_ptp.Base.Int.{asr, to_i64, to_u64}
use fpga_g_ptp.Ucpu.Model.{shift_of, sar}

-- The shift count is the operand modulo the width.
shift_of_lem : (b : ℕ) → shift_of b ≡ b % 64
unfolding shift_of
shift_of_lem b = bit_and_mask 6 b

-- For a 64-bit word and the shift count of any word, the arithmetic right shift of the model is the logical one if the word has its
-- sign bit clear, and the complement of the logical shift of the complement if it is set.
pub sar_lem :
    (a b : ℕ)
    → a < 2 ^ 64
    → sar a (shift_of b)
      ≡ (if ltb a (2 ^ 63) then a / 2 ^ (b % 64) else 2 ^ 64 - 1 - (2 ^ 64 - 1 - a) / 2 ^ (b % 64))
unfolding sar asr to_i64 to_u64
sar_lem a b h =
    let some_bits : 1 ≤ 2 ^ (b % 64) = one-le-pow (b % 64) 2 (omega arith) in
    let low = div-le_self a (2 ^ (b % 64)) in
    let high = div-le_self (2 ^ 64 - 1 - a) (2 ^ (b % 64)) in
    rw (shift_of_lem b) (elim (Bool-cases (ltb a (2 ^ 63))) [
      | inl e ↦ rw e (mod-eq_of_lt (omega arith))
      | inr e ↦ rw e (
          ap₂ (λ (u v : ℕ). 2 ^ 64 - 1 - u / 2 ^ (b % 64) % v) complement refl
          ∙ ap (λ (u : ℕ). 2 ^ 64 - 1 - u) (mod-eq_of_lt (omega arith)))
    ])
  where
    complement : 2 ^ 64 - a - 1 ≡ 2 ^ 64 - 1 - a
    complement = omega arith
