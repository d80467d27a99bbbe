-- ===== src/Engine/Servo.antt =====
-- The servo mirror of the engine suite: the policy that steps or slews the clock, as `servo_mirror`
-- states it. All values are `int64_t`.
pub mod Laws
use fpga_g_ptp.Base.{ℕ, ◌+◌, ◌*◌, ◌/◌, ◌^◌, Bool, true, false, ◌||◌, u32, if◌then◌else◌}
use fpga_g_ptp.Base.Int.{ℤ, pos, neg, ◌+ℤ◌, ◌-ℤ◌, ◌*ℤ◌, asr, ltb_ℤ, to_u64}

abbrev pub sv_step_linkup_ns : ℕ
sv_step_linkup_ns = 20000

abbrev pub sv_step_locked_ns : ℕ
sv_step_locked_ns = 100000

abbrev pub sv_gain_m : ℕ
sv_gain_m = 4295

abbrev pub sv_gain_s : ℕ
sv_gain_s = 6

abbrev sv_clk_hz : ℕ
sv_clk_hz = 2000000

abbrev sv_env_ppm : ℕ
sv_env_ppm = 200

-- The consumer's envelope.
abbrev pub sv_amax : ℕ
sv_amax = (sv_env_ppm * 2 ^ 24 * 1000 + sv_clk_hz / 2) / sv_clk_hz

abbrev pub sv_ilim : ℕ
sv_ilim = sv_amax

pub record ServoModelState : Type 0 where
  pub intg : ℤ
  pub stepped : Bool
  pub step_val : ℕ
  pub addend : ℤ

abbrev pub initial : ServoModelState
initial = record { intg = pos 0; stepped = false; step_val = 0; addend = pos 0 }

unfoldable pub clamp_to : ℤ → ℕ → ℤ
clamp_to v lim =
    if ltb_ℤ (pos lim) v then pos lim else (if ltb_ℤ v (neg (pos lim)) then neg (pos lim) else v)

unfoldable pub pi_out : ℤ → ℤ → ℤ
pi_out t intg = t -ℤ asr t 2 +ℤ intg

abbrev pub threshold : Bool → ℕ
threshold linkup = if linkup then sv_step_linkup_ns else sv_step_locked_ns

unfoldable pub proportional : ℤ → ℤ
proportional off = asr (off *ℤ pos sv_gain_m) sv_gain_s

unfoldable pub servo_mirror : (off : ℤ) (linkup : Bool) → ServoModelState → ServoModelState
servo_mirror off linkup svm =
    let thr = threshold linkup in
    let t = proportional off in
    let intg = clamp_to (svm.intg +ℤ asr t 2) sv_ilim in
    if ltb_ℤ (pos thr) off || ltb_ℤ off (neg (pos thr))
    then record svm {
      stepped = true;
      step_val = to_u64 (neg off);
      addend = neg (clamp_to svm.intg sv_amax);
    }
    else record svm {
      stepped = false;
      intg = intg;
      addend = neg (clamp_to (pi_out t intg) sv_amax);
    }

-- The addend that a 32-bit PHC write carries.
unfoldable pub adj_bits : ℤ → ℕ
adj_bits addend = u32 (to_u64 addend)
