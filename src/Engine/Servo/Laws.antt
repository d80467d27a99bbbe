-- ===== src/Engine/Servo/Laws.antt =====
-- The policy: when the mirror steps, what it then writes, and that no trim leaves the envelope.
use fpga_g_ptp.Base.{
  ℕ, ◌≤◌, ◌≡◌, ◌⊎◌, ◌↔◌, Bool, true, false, ◌||◌, arith, refl, sym, subst, Bool-cases, inl, inr,
}
use fpga_g_ptp.Base.Int.{
  ℤ, pos, negsuc, neg, ◌+ℤ◌, ◌-ℤ◌, ◌*ℤ◌, ◌≤ℤ◌, ◌<ℤ◌, pos_part, neg_part, asr, to_u64, neg_parts,
  eq_of_parts, ltb_ℤ,
}
use fpga_g_ptp.Engine.Servo.{
  ServoModelState, sv_amax, sv_ilim, threshold, clamp_to, pi_out, proportional, servo_mirror,
}

-- From -lim to lim.
abbrev pub Within : ℕ → ℤ → Type 0
Within lim v = (pos_part v ≤ lim) × (neg_part v ≤ lim)

pub clamp_to-Within : (v : ℤ) (lim : ℕ) → Within lim (clamp_to v lim)
unfolding clamp_to neg
clamp_to-Within v lim = ground arith

pub clamp_to_idle : (v : ℤ) (lim : ℕ) → Within lim v → clamp_to v lim ≡ v
unfolding clamp_to neg
clamp_to_idle v lim h = ground arith

-- The greatest integer below the quotient of `v` and `d`.
abbrev pub IsFloor : (d : ℕ) (v q : ℤ) → Type 0
IsFloor d v q = (q *ℤ pos d ≤ℤ v) × (v <ℤ (q +ℤ pos 1) *ℤ pos d)

-- The value from -lim to lim that is nearest to `v`.
pub record IsNearest (lim : ℕ) (v w : ℤ) : Type 0 where
  pub within : Within lim w
  pub above : w <ℤ v → w ≡ pos lim
  pub below : v <ℤ w → w ≡ neg (pos lim)

clamp_to-IsNearest : (v : ℤ) (lim : ℕ) → IsNearest lim v (clamp_to v lim)
unfolding clamp_to neg
clamp_to-IsNearest v lim = record {
  within = clamp_to-Within v lim;
  above = λ h. ground arith;
  below = λ h. ground arith;
}

asr-IsFloor_64 : (v : ℤ) → IsFloor 64 v (asr v 6)
unfolding asr ◌*ℤ◌ ◌+ℤ◌
asr-IsFloor_64 (pos n) = ground arith
asr-IsFloor_64 (negsuc n) = ground arith

asr-IsFloor_256 : (v : ℤ) → IsFloor 256 v (asr (asr v 6) 2)
unfolding asr ◌*ℤ◌ ◌+ℤ◌
asr-IsFloor_256 (pos n) = ground arith
asr-IsFloor_256 (negsuc n) = ground arith

neg-neg : (v : ℤ) → neg (neg v) ≡ v
neg-neg v = eq_of_parts (neg (neg v)) v (omega (arith, neg_parts v, neg_parts (neg v)))

-- What a slew writes: the PI law on the offset in units of 64 and of 256, with gain 4295, each sum to the nearest in range.
pub record Slews (off : ℤ) (svm svm' : ServoModelState) : Type 0 where
  pub term : ℤ
  pub part : ℤ
  pub of_offset : IsFloor 64 (off *ℤ pos 4295) term
  pub quarter : IsFloor 256 (off *ℤ pos 4295) part
  pub integrates : IsNearest 1_677_722 (svm.intg +ℤ part) svm'.intg
  pub trims : IsNearest 1_677_722 (term -ℤ part +ℤ svm'.intg) (neg svm'.addend)

-- What a step writes.
pub record Steps (off : ℤ) (svm svm' : ServoModelState) : Type 0 where
  pub undoes : svm'.step_val ≡ to_u64 (neg off)
  pub keeps_rate : svm'.intg ≡ svm.intg
  pub trims : IsNearest 1_677_722 svm.intg (neg svm'.addend)

-- What a sample leaves to be written, whatever came before it.
pub record Policy (off : ℤ) (linkup : Bool) (svm svm' : ServoModelState) : Type 0 where
  pub steps_iff :
      (svm'.stepped ≡ true)
      ↔ ((pos (threshold linkup) <ℤ off) ⊎ (off <ℤ neg (pos (threshold linkup))))
  pub steps : svm'.stepped ≡ true → Steps off svm svm'
  pub slews : svm'.stepped ≡ false → Slews off svm svm'
  pub in_envelope : Within sv_amax svm'.addend
  pub integrator_bounded : Within sv_ilim svm.intg → Within sv_ilim svm'.intg

neg-IsNearest : (v : ℤ) → IsNearest 1_677_722 v (neg (neg (clamp_to v sv_amax)))
neg-IsNearest v =
    subst (IsNearest 1_677_722 v) (sym (neg-neg (clamp_to v sv_amax)))
      (clamp_to-IsNearest v sv_amax)

clash : {b : Bool} → b ≡ true → b ≡ false → ⊥
clash h k = ground arith

-- A value within when its negation is.
Within-neg : (lim : ℕ) (v : ℤ) → Within lim (neg v) → Within lim v
Within-neg lim v h = omega (arith, h, neg_parts v)

module _ (off : ℤ) (linkup : Bool) (svm : ServoModelState) where
  far : Bool
  far = ltb_ℤ (pos (threshold linkup)) off || ltb_ℤ off (neg (pos (threshold linkup)))

  servo_mirror-Steps :
      far ≡ true
      → ((servo_mirror off linkup svm).stepped ≡ true) × Steps off svm (servo_mirror off linkup svm)
  unfolding servo_mirror far
  servo_mirror-Steps e =
      rw e (refl, record { undoes = refl; keeps_rate = refl; trims = neg-IsNearest svm.intg })

  servo_mirror-Slews :
      far ≡ false
      → ((servo_mirror off linkup svm).stepped ≡ false)
        × Slews off svm (servo_mirror off linkup svm)
  unfolding servo_mirror far proportional pi_out
  servo_mirror-Slews e =
      let v = off *ℤ pos 4295 in
      let t = asr v 6 in
      rw e (
        refl,
        record {
          term = t;
          part = asr t 2;
          of_offset = asr-IsFloor_64 v;
          quarter = asr-IsFloor_256 v;
          integrates = clamp_to-IsNearest (svm.intg +ℤ asr t 2) sv_ilim;
          trims = neg-IsNearest (t -ℤ asr t 2 +ℤ clamp_to (svm.intg +ℤ asr t 2) sv_ilim);
        },
      )

  far_iff : (far ≡ true) ↔ ((pos (threshold linkup) <ℤ off) ⊎ (off <ℤ neg (pos (threshold linkup))))
  unfolding far
  far_iff = ground (arith, neg_parts (pos (threshold linkup)))

  -- For every offset and every state: the mirror steps exactly when the offset is past the threshold of
  -- the pair (20 us at link-up, 100 us once locked). A step carries minus the offset, leaves the
  -- integrator alone and trims by minus the integrator. A slew adds the 256th part of 4295 times the offset, rounded
  -- down, to the integrator, and trims by minus the sum of the new integrator and the 64th part less
  -- the 256th. The integrator of a slew and each trim are the nearest to that in the envelope of 200 ppm, 1,677,722
  -- either way, which every trim is in, and which the integrator never leaves.
  pub servo_mirror_lem : Policy off linkup svm (servo_mirror off linkup svm)
  servo_mirror_lem = elim (Bool-cases far) [
    | inl e ↦
        let (stepped, steps) = servo_mirror-Steps e in
        record {
          steps_iff = (λ h. far_iff.0 e, λ h. stepped);
          steps = λ h. steps;
          slews = λ h. absurd (clash stepped h);
          in_envelope = Within-neg sv_amax _ steps.trims.within;
          integrator_bounded = λ h. subst (Within sv_ilim) (sym steps.keeps_rate) h;
        }
    | inr e ↦
        let (slewed, slews) = servo_mirror-Slews e in
        record {
          steps_iff = (λ h. absurd (clash h slewed), λ h. absurd (clash (far_iff.1 h) e));
          steps = λ h. absurd (clash h slewed);
          slews = λ h. slews;
          in_envelope = Within-neg sv_amax _ slews.trims.within;
          integrator_bounded = λ h. slews.integrates.within;
        }
  ]
