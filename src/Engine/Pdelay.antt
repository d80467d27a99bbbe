-- ===== src/Engine/Pdelay.antt =====
-- The peer delay mirror of the engine suite: `PdelayModelState` and `model_exchange`, and the peer
-- clock `peer_ns` that the scripted peer answers by. Stamps are `uint64_t` nanoseconds.
pub mod Laws
pub mod Peer
use fpga_g_ptp.Base.{
  ℕ, ◌+◌, ◌-◌, ◌*◌, ◌/◌, ◌%◌, ◌^◌, Bool, true, false, not, ◌&&◌, u64, ◌<<<◌, ◌>>>◌, add_u64,
  sub_u64, bit_and, ◌==◌, if◌then◌else◌,
}
use fpga_g_ptp.Base.Int.{ℤ, pos, ◌*ℤ◌, asr, to_i32, to_i64, to_u64}

pub record PdelayModelState : Type 0 where
  pub nr3 : ℕ
  pub nr4 : ℕ
  pub nrr : ℕ
  pub d : ℤ
  pub count : ℕ
  pub stale_skip : Bool

abbrev pub initial : PdelayModelState
initial = record { nr3 = 0; nr4 = 0; nrr = 0; d = pos 0; count = 0; stale_skip = false }

-- The first half: the neighbor rate ratio from the window since the last exchange.
unfoldable pub update_ratio : (t3 t4 : ℕ) → PdelayModelState → PdelayModelState
update_ratio t3 t4 pdm =
    let num = sub_u64 t3 pdm.nr3 in
    let den = sub_u64 t4 pdm.nr4 in
    let low = bit_and den 0xffff_ffff in
    if pdm.nr3 == 0
    then record pdm { stale_skip = false }
    else (if den >>> 32 == 0 && not (low == 0)
        then record pdm { stale_skip = false; nrr = u64 (num <<< 30) / low }
        else record pdm { stale_skip = true })

-- The turnaround on the peer's clock, once there is a ratio.
unfoldable pub corrected : (nrr turn : ℕ) → ℕ
corrected nrr turn =
    if nrr == 0
    then turn
    else to_u64 (to_i32 (bit_and nrr 0xffff_ffff) *ℤ to_i32 (bit_and turn 0xffff_ffff)) >>> 30

unfoldable pub model_exchange : (t1 t2 t3 t4 : ℕ) → PdelayModelState → PdelayModelState
unfolding update_ratio corrected
model_exchange t1 t2 t3 t4 pdm =
    let pdm' = update_ratio t3 t4 pdm in
    record pdm' {
      nr3 = t3;
      nr4 = t4;
      d = asr (to_i64 (sub_u64 (corrected pdm'.nrr (sub_u64 t4 t1)) (sub_u64 t3 t2))) 1;
      count = pdm.count + 1;
    }

unfoldable pub peer_ns : ℕ → ℕ
peer_ns ours = add_u64 (add_u64 5_000_000 ours) (ours >>> 13)
