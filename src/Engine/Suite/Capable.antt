-- ===== src/Engine/Suite/Capable.antt =====
-- tb/verilator/engine/sim_main.cpp, the phases in which the live peer raises asCapable and the
-- announce receipt timeout makes the plane a master.
use fpga_g_ptp.Base.{ℕ, Bool, true, length, for_range, bit_and, bit_or, u32, to_nat}
use fpga_g_ptp.Base.Int.{to_u64}
use fpga_g_ptp.Harness.Verilated.{Verilated}
use fpga_g_ptp.Engine.Const.{our_cid, fl_amgm, fl_ascap, fl_syncok}
use fpga_g_ptp.Engine.Watch.{path_tail_slots, pub_path_head, pub_path_tail}
use fpga_g_ptp.Engine.Pdelay.Peer.{pd_normal}
use fpga_g_ptp.Engine.Ports.{EngineIn, EngineOut}
use fpga_g_ptp.Engine.Bench.{outs, run}
use fpga_g_ptp.Engine.Suite.{Suite, on_bench, wait_flags}
use fpga_g_ptp.Engine.Suite.Send.{expect}

-- `auto_txts = on; pd_seen = txf.size();`
unfoldable pub auto_results : {S : Type 0} (on : Bool) → Suite S → Suite S
auto_results on s = record s {
  bench = record s.bench { transmit = record s.bench.transmit { auto_txts = on } };
  pd_seen = length s.bench.transmit.txf;
}

-- The checks of the first mastership, on what the engine then publishes.
unfoldable pub grade_mastership : {S : Type 0} → EngineOut → Suite S → Suite S
grade_mastership o s =
    let want = bit_or (bit_or s.bench.self_present fl_amgm) fl_ascap in
    let s = expect (bit_and o.pub_flags_o 7) want s in
    let s = expect (bit_and o.pub_flags_o 0xF) (bit_or want fl_syncok) s in
    let s = expect o.pub_path_count_o 1 (expect o.pub_gm_id_o our_cid s) in
    for_range path_tail_slots 0 (λ k c. expect (pub_path_tail o k) 0 c)
      (expect (pub_path_head o) our_cid s)

-- `fuel` is that of `service_pdelay`.
module _ (V : Verilated EngineIn EngineOut) (fuel : ℕ) where
  unfoldable pub raise_ascapable_on_the_second_exchange : Suite V.State → Suite V.State
  raise_ascapable_on_the_second_exchange s =
      let s = record (auto_results true s) { pd_mode = pd_normal } in
      let (capable, s) = wait_flags V fuel fl_ascap fl_ascap 6000000 s in
      let s = expect s.pdm.count 2 (expect (to_nat capable) 1 s) in
      expect (outs V s.bench).pub_pdelay_ns_o (u32 (to_u64 s.pdm.d)) s

  unfoldable pub become_master_on_announce_receipt_timeout : Suite V.State → Suite V.State
  become_master_on_announce_receipt_timeout s =
      let (master, s) = wait_flags V fuel fl_amgm fl_amgm 12000000 s in
      let s = on_bench (run V 200) (expect (to_nat master) 1 s) in
      grade_mastership (outs V s.bench) s
