-- ===== src/Engine/Pdelay/Laws.antt =====
-- What the mirror computes: the link delay of the specification, and the rate ratio.
use fpga_g_ptp.Base.{
  ℕ, ◌-◌, ◌*◌, ◌/◌, ◌^◌, ◌≤◌, ◌<◌, ◌≡◌, ◌≢◌, refl, ◌⊎◌, true, false, arith, sub_u64,
}
use fpga_g_ptp.Base.Bits.{bit_and_mask}
use fpga_g_ptp.Base.Int.{◌*ℤ◌, asr, to_i32, to_i64, to_u64, sub_ℕ}
use fpga_g_ptp.Engine.Pdelay.{PdelayModelState, update_ratio, corrected, model_exchange}

-- The Q2.30 product, where both factors are below 2^31.
pub corrected_small :
    (nrr turn : ℕ)
    → 0 < nrr
    → nrr < 2 ^ 31
    → turn < 2 ^ 31
    → corrected nrr turn ≡ nrr * turn / 2 ^ 30
unfolding corrected to_i32 to_u64 ◌*ℤ◌
corrected_small nrr turn p h t = ground (arith, bit_and_mask 32 nrr, bit_and_mask 32 turn, product)
  where
    product : nrr * turn < 2 ^ 64
    product = grind arith

-- The difference of two `uint64_t` below 2^62, read as an `int64_t`, does not wrap.
signed_difference : (a b : ℕ) → a < 2 ^ 62 → b < 2 ^ 62 → to_i64 (sub_u64 a b) ≡ sub_ℕ a b
unfolding to_i64
signed_difference a b p q = ground arith

-- After a first exchange, with stamps that do not run backwards and a peer's interval below 2^34 ns,
-- the window since the last exchange gives a new ratio exactly when it is not empty and shorter than
-- 2^32 ns: then the ratio is the quotient of the peer's interval by ours in Q2.30. Else the ratio
-- stands and the window is marked as skipped.
pub update_ratio_lem :
    (t3 t4 : ℕ) (pdm : PdelayModelState)
    → pdm.nr3 ≢ 0
    → t4 < 2 ^ 64
    → pdm.nr3 ≤ t3
    → pdm.nr4 ≤ t4
    → t3 - pdm.nr3 < 2 ^ 34
    → let pdm' = update_ratio t3 t4 pdm in
      ((0 < t4 - pdm.nr4)
        × (t4 - pdm.nr4 < 2 ^ 32)
        × (pdm'.nrr ≡ (t3 - pdm.nr3) * 2 ^ 30 / (t4 - pdm.nr4))
        × (pdm'.stale_skip ≡ false))
      ⊎ (((t4 - pdm.nr4 ≡ 0) ⊎ (2 ^ 32 ≤ t4 - pdm.nr4))
          × (pdm'.nrr ≡ pdm.nrr)
          × (pdm'.stale_skip ≡ true))
unfolding update_ratio
update_ratio_lem t3 t4 pdm started fits p q short =
    ground (arith, bit_and_mask 32 (sub_u64 t4 pdm.nr4), peers, ours)
  where
    peers : sub_u64 t3 pdm.nr3 ≡ t3 - pdm.nr3
    peers = omega arith

    ours : sub_u64 t4 pdm.nr4 ≡ t4 - pdm.nr4
    ours = omega arith

-- The first exchange, with no ratio yet, stamps that do not run backwards, and a turnaround and a
-- residence time below 2^62 ns, gives half of what the turnaround exceeds the residence time by,
-- rounded down: the mean link delay.
pub model_exchange_first :
    (t1 t2 t3 t4 : ℕ) (pdm : PdelayModelState)
    → pdm.nr3 ≡ 0
    → pdm.nrr ≡ 0
    → t4 < 2 ^ 64
    → t3 < 2 ^ 64
    → t1 ≤ t4
    → t2 ≤ t3
    → t4 - t1 < 2 ^ 62
    → t3 - t2 < 2 ^ 62
    → (model_exchange t1 t2 t3 t4 pdm).d ≡ asr (sub_ℕ (t4 - t1) (t3 - t2)) 1
unfolding model_exchange
model_exchange_first t1 t2 t3 t4 pdm fresh none_yet f4 f3 p q long resid =
    ground (arith, turned, stayed, signed_difference (t4 - t1) (t3 - t2))
  where
    turned : sub_u64 t4 t1 ≡ t4 - t1
    turned = omega arith

    stayed : sub_u64 t3 t2 ≡ t3 - t2
    stayed = omega arith

-- An exchange after which the Q2.30 ratio is above 0 and below 2, whose stamps do not run backwards,
-- with a turnaround below 2^31 ns and a residence time below 2^62 ns, gives half of what the
-- turnaround, taken to the peer's clock by the ratio, exceeds the residence time by, rounded down.
pub model_exchange_corrected :
    (t1 t2 t3 t4 : ℕ) (pdm : PdelayModelState)
    → let nrr = (update_ratio t3 t4 pdm).nrr in
      0 < nrr
      → nrr < 2 ^ 31
      → t4 < 2 ^ 64
      → t3 < 2 ^ 64
      → t1 ≤ t4
      → t2 ≤ t3
      → t4 - t1 < 2 ^ 31
      → t3 - t2 < 2 ^ 62
      → (model_exchange t1 t2 t3 t4 pdm).d ≡ asr (sub_ℕ (nrr * (t4 - t1) / 2 ^ 30) (t3 - t2)) 1
unfolding model_exchange
model_exchange_corrected t1 t2 t3 t4 pdm up top f4 f3 p q long resid =
    rw
      (
        turned,
        stayed,
        corrected_small _ (t4 - t1) up top long,
        signed_difference (nrr * (t4 - t1) / 2 ^ 30) (t3 - t2) below resid,
      )
      refl
  where
    nrr : ℕ
    nrr = (update_ratio t3 t4 pdm).nrr

    turned : sub_u64 t4 t1 ≡ t4 - t1
    turned = omega arith

    stayed : sub_u64 t3 t2 ≡ t3 - t2
    stayed = omega arith

    below : nrr * (t4 - t1) / 2 ^ 30 < 2 ^ 62
    below = grind arith
