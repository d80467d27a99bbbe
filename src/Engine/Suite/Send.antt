-- ===== src/Engine/Suite/Send.antt =====
-- tb/verilator/engine/sim_main.cpp, what the phases send and grade by: `sync_pair`,
-- `expect_policy_pair`, `announce`, `send_announce`, `path_trace_of`, `check_common`.
use fpga_g_ptp.Base.{
  ℕ, ◌+◌, ◌-◌, Bool, true, not, ◌&&◌, Option, none, some, List, ◌==◌, ltb, if◌then◌else◌, length,
  is_empty, get_elem?, drop, [], ◌∷◌, false, last_or, take, snoc, bit_and, bit_or, u32, u64_max,
  sub_u64, add_u64, to_nat,
}
use fpga_g_ptp.Base.Int.{ℤ, pos, neg, ltb_ℤ, to_i32, to_u64}
use fpga_g_ptp.Harness.Verilated.{Verilated}
use fpga_g_ptp.Harness.Tally.{expect_eq}
use fpga_g_ptp.Wire.{Frame, put_ts}
use fpga_g_ptp.Wire.Read.{byte_at, fld16, fld48, fld64}
use fpga_g_ptp.Engine.Const.{our_cid, our_mac, fl_syncok}
use fpga_g_ptp.Engine.Frames.{ptp, follow_up, announce_frame, send_announce_frame}
use fpga_g_ptp.Engine.Servo.{servo_mirror, adj_bits, sv_amax}
use fpga_g_ptp.Engine.Watch.{PubSnap}
use fpga_g_ptp.Engine.Ports.{EngineIn, EngineOut}
use fpga_g_ptp.Engine.Bench.{outs, run, send_frame, deliver_result}
use fpga_g_ptp.Engine.Suite.{Suite, on_bench, run_svc}

-- The pathTrace that a present path trace TLV leaves published.
unfoldable pub path_trace_of : (received : List ℕ) → List ℕ
path_trace_of received = take 8 (snoc received our_cid)

abbrev pub first_commit_since : (mark : ℕ) → List PubSnap → Option PubSnap
first_commit_since mark commit_snaps = get_elem? commit_snaps mark

abbrev pub last_commit_since : (mark : ℕ) → List PubSnap → Option PubSnap
last_commit_since mark commit_snaps =
    if ltb mark (length commit_snaps)
    then get_elem? commit_snaps (length commit_snaps - 1)
    else none

-- `a_commit_since_names`, on the commits from the mark on.
unfoldable pub any_names : (gm : ℕ) → List PubSnap → Bool
any_names gm [] = false
any_names gm (c ∷ commits) = if c.gm == gm then true else any_names gm commits

abbrev pub a_commit_since_names : (mark gm : ℕ) → List PubSnap → Bool
a_commit_since_names mark gm commit_snaps = any_names gm (drop mark commit_snaps)

-- The data of the last addend pulse, or all ones.
abbrev pub last_adj : List ℕ → ℕ
last_adj adj_seen = if is_empty adj_seen then u64_max else last_or adj_seen 0

module _ {S : Type 0} where
  -- `expect(n, got, exp)`
  unfoldable pub expect : (got exp : ℕ) → Suite S → Suite S
  expect got exp s = on_bench (λ b. record b { tally = expect_eq got exp b.tally }) s

  -- Whether the pulses since `s0` steps and `a0` addends are those of the mirror.
  unfoldable pub steered_as_mirror : (s0 a0 : ℕ) → Suite S → Bool
  steered_as_mirror s0 a0 s =
      let p = s.bench.phc in
      let addend =
        (length p.adj_seen == a0 + 1)
        && (not (is_empty p.adj_seen) && (last_or p.adj_seen 0 == adj_bits s.svm.addend)) in
      if not s.svm.stepped
      then addend && (length p.steps_seen == s0)
      else addend
        && (length p.steps_seen == s0 + 1)
        && (last_or p.steps_seen 0 == s.svm.step_val)
        && ltb (last_or p.step_cyc 0) (last_or p.adj_cyc 0)

  -- The fields that every frame of a type has; a frame of another size is graded by its size alone.
  unfoldable pub check_common : Frame → (mtype flags msglen logint : ℕ) → Suite S → Suite S
  check_common f mtype flags msglen logint s =
      let control = if mtype == 0x0 then 0x00 else if mtype == 0x8 then 0x02 else 0x05 in
      if not (length f == 14 + msglen)
      then expect (length f) (14 + msglen) s
      else let s = expect (fld48 f 6) our_mac (expect (fld48 f 0) 0x0180C200000E s) in
        let s = expect (fld16 f 16) msglen (expect (byte_at f 14) (bit_or 0x10 mtype) s) in
        let s = expect (fld64 f 34) our_cid (expect (fld16 f 20) flags s) in
        let s = expect (byte_at f 46) control (expect (fld16 f 42) 1 s) in
        expect (byte_at f 47) logint s

module _ (V : Verilated EngineIn EngineOut) where
  unfoldable pub txts_idx : (idx ns : ℕ) → Suite V.State → Suite V.State
  txts_idx idx ns = on_bench (deliver_result V idx ns true 1)

  -- The result of the frame last sent.
  unfoldable pub txts : (ns : ℕ) → Suite V.State → Suite V.State
  txts ns s = txts_idx (length s.bench.transmit.txf - 1) ns s

  unfoldable pub sync_pair : (seq local_rx origin src : ℕ) → Suite V.State → Suite V.State
  sync_pair seq local_rx origin src = on_bench (λ b.
      let b = run V 2000 (send_frame V (put_ts (ptp 0x0 seq 0 0x0208 10 src) 0) local_rx b) in
      run V 6000 (send_frame V (follow_up seq 0 origin src 0x0000) (add_u64 local_rx 500) b))

  abbrev pub sync_ok : Suite V.State → ℕ
  sync_ok s = bit_and (outs V s.bench).pub_flags_o fl_syncok

  -- The addend pulse of a pair, from the `a0`th on.
  unfoldable pub grade_addend : (a0 : ℕ) → Suite V.State → Suite V.State
  grade_addend a0 s =
      let adj = s.bench.phc.adj_seen in
      if ltb a0 (length adj)
      then (let a = to_i32 (last_or adj 0) in
          let s = expect (last_or adj 0) (adj_bits s.svm.addend) s in
          expect (to_nat (not (ltb_ℤ (pos sv_amax) a) && not (ltb_ℤ a (neg (pos sv_amax))))) 1 s)
      else s

  -- The step pulse of a pair that steps.
  unfoldable pub grade_step :
      (s0 a0 : ℕ) (off : ℤ) (want_step : Bool) → Suite V.State → Suite V.State
  grade_step s0 a0 off want_step s =
      let p = s.bench.phc in
      if want_step && ltb s0 (length p.steps_seen) && ltb a0 (length p.adj_seen)
      then (let s = expect (last_or p.steps_seen 0) (to_u64 (neg off)) s in
          let s = expect (to_nat (ltb (last_or p.step_cyc 0) (last_or p.adj_cyc 0))) 1 s in
          expect (outs V s.bench).phc_step_o (last_or p.steps_seen 0) s)
      else s

  -- `verdict_before` is `none` where the source has -1.
  unfoldable pub expect_policy_pair :
      (seq local_rx : ℕ) (off : ℤ) (linkup want_step : Bool) (src : ℕ)
      (verdict_before : Option Bool)
      → Suite V.State
      → Suite V.State
  expect_policy_pair seq local_rx off linkup want_step src verdict_before s =
      let s0 = length s.bench.phc.steps_seen in
      let a0 = length s.bench.phc.adj_seen in
      let high : Bool = elim verdict_before [ none ↦ not linkup | some v ↦ v ] in
      let s = expect (sync_ok s) (if high then fl_syncok else 0) s in
      let origin = sub_u64 (sub_u64 local_rx (to_u64 s.pdm.d)) (to_u64 off) in
      let s = sync_pair seq local_rx origin src s in
      let s = record s { svm = servo_mirror off linkup s.svm } in
      let s = expect (to_nat s.svm.stepped) (to_nat want_step) s in
      let s = expect (u32 (outs V s.bench).pub_offset_o) (u32 (to_u64 off)) s in
      let s = expect (length s.bench.phc.steps_seen - s0) (to_nat want_step) s in
      let s = expect (length s.bench.phc.adj_seen - a0) 1 s in
      let s = grade_step s0 a0 off want_step (grade_addend a0 s) in expect (sync_ok s) fl_syncok s

  unfoldable pub announce : (seq p1 gmid steps src : ℕ) → Suite V.State → Suite V.State
  announce seq p1 gmid steps src =
      on_bench (λ b. run V 6000 (send_frame V (announce_frame seq p1 gmid steps src) 5000000 b))

  -- `fuel` is that of `service_pdelay`.
  unfoldable pub send_announce :
      (fuel seq p1 gmid steps src : ℕ) (path : List ℕ) (rx_ts : ℕ) (empty_tlv : Bool)
      → Suite V.State
      → Suite V.State
  send_announce fuel seq p1 gmid steps src path rx_ts empty_tlv s =
      run_svc V fuel 6000
        (on_bench (send_frame V (send_announce_frame seq p1 gmid steps src path empty_tlv) rx_ts) s)
