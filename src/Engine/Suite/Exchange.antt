-- ===== src/Engine/Suite/Exchange.antt =====
-- tb/verilator/engine/sim_main.cpp, phases 1b to 3d: the first exchange that the plane initiates, and
-- the requests of a peer that it answers or refuses.
pub mod Answer
pub mod Found
pub mod Laws
use fpga_g_ptp.Base.{
  ℕ, ◌+◌, ◌-◌, ◌*◌, Bool, true, false, not, Option, none, some, List, [], ◌∷◌, ◌==◌, leb,
  if◌then◌else◌, length, is_empty, drop, take, set, for_each, bit_and, u16, u32, u64, add_u64,
  to_nat,
}
use fpga_g_ptp.Base.Int.{to_u64}
use fpga_g_ptp.Harness.Verilated.{Verilated}
use fpga_g_ptp.Wire.{Frame, put_u16, put_u64, put_ts}
use fpga_g_ptp.Wire.Read.{fld16, fld32, fld48, fld64}
use fpga_g_ptp.Engine.Const.{our_cid, peer_cid, near_cid, req_hi_cid, fl_ascap}
use fpga_g_ptp.Engine.Frames.{ptp}
use fpga_g_ptp.Engine.Pdelay.{model_exchange, peer_ns}
use fpga_g_ptp.Engine.Pdelay.Peer.{pd_self, pd_skip}
use fpga_g_ptp.Engine.Ports.{EngineIn, EngineOut}
use fpga_g_ptp.Engine.Bench.{outs, run, send_frame}
use fpga_g_ptp.Engine.Suite.{Suite, on_bench, pd_frame, run_svc, wait_tx}
use fpga_g_ptp.Engine.Suite.Phased.{Phased, on_suite}
use fpga_g_ptp.Engine.Suite.Send.{expect, check_common, txts}
use fpga_g_ptp.Engine.Suite.Boot.{pdelay_req, type_count}
use fpga_g_ptp.Engine.Suite.Capable.{auto_results}

-- `fld48(f, 48) * 1000000000ull + fld32(f, 54)`
unfoldable pub stamp_of : Frame → ℕ
stamp_of f = add_u64 (u64 (fld48 f 48 * 1_000_000_000)) (fld32 f 54)

-- The request of phase 3b, of domain 0x10.
unfoldable pub foreign_req : (seq : ℕ) → Frame
foreign_req seq = set (pdelay_req seq peer_cid) 18 0x10

-- `if (!f.empty())`
unfoldable pub when_sent :
    {S : Type 0} → (Frame → Suite S → Suite S) → Option (ℕ × Frame) → Suite S → Suite S
when_sent grade none s = s
when_sent grade (some (i, f)) s = if is_empty f then s else grade f s

-- The checks of our Pdelay_Resp, or of its Follow_Up, for a request of the peer.
unfoldable pub grade_answer : {S : Type 0} → (mtype flags seq ns : ℕ) → Frame → Suite S → Suite S
grade_answer mtype flags seq ns f s =
    let s = expect (fld16 f 44) seq (check_common f mtype flags 54 0x7F s) in
    expect (fld64 f 58) peer_cid (expect (stamp_of f) ns s)

-- Those of an answer after the refusals.
unfoldable pub grade_identity : {S : Type 0} → (seq cid : ℕ) → Frame → Suite S → Suite S
grade_identity seq cid f s = expect (fld64 f 58) cid (expect (fld16 f 44) seq s)

unfoldable pub grade_pairing : {S : Type 0} → (seq : ℕ) → Frame → Suite S → Suite S
grade_pairing seq f s = expect (fld16 f 44) seq s

-- A requester of phase 3a.
pub record Near : Type 0 where
  pub cid : ℕ
  pub seq : ℕ
  pub rx : ℕ
  pub tx : ℕ

unfoldable pub near_requesters : (t2r t3r : ℕ) → List Near
near_requesters t2r t3r =
    record { cid = near_cid; seq = 0x55B1; rx = add_u64 t2r 20000; tx = add_u64 t3r 20000 }
    ∷ record { cid = req_hi_cid; seq = 0x55B2; rx = add_u64 t2r 40000; tx = add_u64 t3r 40000 }
    ∷ []

-- The sequenceId of a frame that was sent, and 0 without one.
abbrev pub seq_sent : Option (ℕ × Frame) → ℕ
seq_sent none = 0
seq_sent (some (i, f)) = if is_empty f then 0 else fld16 f 44

abbrev pub was_sent : Option (ℕ × Frame) → Bool
was_sent none = false
was_sent (some (i, f)) = not (is_empty f)

module _ (V : Verilated EngineIn EngineOut) where
  -- `send_frame(f.b, rx_ts); run(n);`
  unfoldable pub inject : Frame → (rx_ts n : ℕ) → Suite V.State → Suite V.State
  inject f rx_ts n = on_bench (λ b. run V n (send_frame V f rx_ts b))

  unfoldable pub ignore_a_follow_up_for_the_boot_request : Phased V.State → Phased V.State
  ignore_a_follow_up_for_the_boot_request h =
      let t1 = h.marks.t1 in
      let g = pd_frame 0xA 0 0x0000 0 (add_u64 t1 20000) in
      let s = inject g (add_u64 t1 22200) 6000 h.suite in
      let o = outs V s.bench in
      record h { suite = expect (bit_and o.pub_flags_o fl_ascap) 0 (expect o.pub_pdelay_ns_o 0 s) }

  unfoldable pub compute_the_first_exchange_delay : Phased V.State → Phased V.State
  compute_the_first_exchange_delay h =
      let t1 = h.marks.t1 in
      let t2 = peer_ns (add_u64 t1 300) in
      let t3 = add_u64 t2 20000 in
      let t4 = add_u64 t1 21200 in
      let s = inject (pd_frame 0x3 0 0x0200 peer_cid t2) t4 4000 h.suite in
      let s = inject (pd_frame 0xA 0 0x0000 peer_cid t3) (add_u64 t4 1000) 6000 s in
      let s = record s { pdm = model_exchange t1 t2 t3 t4 s.pdm } in
      let o = outs V s.bench in
      let s = expect o.pub_pdelay_ns_o (u32 (to_u64 s.pdm.d)) s in
      record h { suite = expect (bit_and o.pub_flags_o fl_ascap) 0 s }

  unfoldable pub refuse_an_unlisted_message_type : Phased V.State → Phased V.State
  refuse_an_unlisted_message_type h =
      let pre = length h.suite.bench.transmit.txf in
      let s = on_bench (run V 4000) h.suite in
      let s = expect (length s.bench.transmit.txf) pre s in
      let mark = length s.bench.transmit.txf in
      let drops = u16 (outs V s.bench).dbg_rx_drop_o in
      let flags = (outs V s.bench).pub_flags_o in
      let rx_ts = add_u64 h.marks.t2r 450000 in
      let s =
        for_each
          (λ mt c. inject (put_ts (ptp mt (u16 (0x56A0 + mt)) 0 0x0000 10 peer_cid) 0) rx_ts 4000 c)
          (0x1 ∷ 0xD ∷ 0xF ∷ []) s in
      let s = expect (length s.bench.transmit.txf) mark s in
      let s = expect (outs V s.bench).dbg_rx_drop_o (u16 (drops + 3)) s in
      record h { suite = expect (outs V s.bench).pub_flags_o flags s }

  -- `fuel` is that of `service_pdelay`.
  module _ (fuel : ℕ) where
    unfoldable pub ignore_a_self_sourced_pdelay_response : Suite V.State → Suite V.State
    ignore_a_self_sourced_pdelay_response s =
        let o = outs V s.bench in
        let c0 = s.pdm.count in
        let s = record (auto_results true s) { pd_mode = pd_self; pd_self_sent = 0 } in
        let s = run_svc V fuel 2600000 s in
        let s = expect (to_nat (leb 1 s.pd_self_sent)) 1 s in
        let s = expect (outs V s.bench).dbg_rx_drop_o (u16 o.dbg_rx_drop_o) s in
        let now = outs V s.bench in
        let s = expect (bit_and now.pub_flags_o fl_ascap) (bit_and o.pub_flags_o fl_ascap) s in
        let s = expect s.pdm.count c0 (expect now.pub_pdelay_ns_o o.pub_pdelay_ns_o s) in
        record (auto_results false s) { pd_mode = pd_skip }

    -- `wait_tx(mtype, 400000)` and the checks of what was sent.
    unfoldable pub wait_and_grade :
        (mtype : ℕ) (grade : Frame → Suite V.State → Suite V.State) → Suite V.State → Suite V.State
    wait_and_grade mtype grade s =
        let (sent, s) = wait_tx V fuel (some mtype) 400000 0 s in when_sent grade sent s

    unfoldable pub answer_a_peer_initiated_exchange : Phased V.State → Phased V.State
    answer_a_peer_initiated_exchange h =
        let t2r : ℕ = 2000000 in
        let t3r : ℕ = 2050000 in
        let s = on_bench (send_frame V (pdelay_req 0x55AA peer_cid) t2r) h.suite in
        let s = wait_and_grade 0x3 (grade_answer 0x3 0x0200 0x55AA t2r) s in
        let s = wait_and_grade 0xA (grade_answer 0xA 0x0000 0x55AA t3r) (txts V t3r s) in
        record h { suite = s; marks = record h.marks { t2r = t2r; t3r = t3r } }

    unfoldable pub answer_near : Near → Suite V.State → Suite V.State
    answer_near n s =
        let s = on_bench (send_frame V (pdelay_req n.seq n.cid) n.rx) s in
        let (r, s) = wait_tx V fuel (some 0x3) 400000 0 s in
        let s = expect (to_nat (was_sent r)) 1 s in
        let s = when_sent (grade_identity n.seq n.cid) r s in
        let (u, s) = wait_tx V fuel (some 0xA) 400000 0 (txts V n.tx s) in
        expect (seq_sent u) n.seq s

    unfoldable pub answer_a_requester_whose_identity_nearly_matches_ours :
        Phased V.State → Phased V.State
    answer_a_requester_whose_identity_nearly_matches_ours h =
        on_suite (for_each answer_near (near_requesters h.marks.t2r h.marks.t3r)) h

    -- No response since the mark, and so many more drops; the frames so far are accounted for.
    unfoldable pub grade_refusals : (mark drops n : ℕ) → Suite V.State → Suite V.State
    grade_refusals mark drops n s =
        let s = expect (type_count 0x3 (drop mark s.bench.transmit.txf)) 0 s in
        let s = expect (outs V s.bench).dbg_rx_drop_o (u16 (drops + n)) s in
        record s { tx_seen = length s.bench.transmit.txf }

    -- The request behind the refusals is answered.
    unfoldable pub answer_after : (seq rx_ts tx_ts : ℕ) → Suite V.State → Suite V.State
    answer_after seq rx_ts tx_ts s =
        let s = on_bench (send_frame V (pdelay_req seq peer_cid) rx_ts) s in
        let s = wait_and_grade 0x3 (grade_identity seq peer_cid) s in
        wait_and_grade 0xA (grade_pairing seq) (txts V tx_ts s)

    unfoldable pub refuse_a_foreign_domain_pdelay_request : Phased V.State → Phased V.State
    refuse_a_foreign_domain_pdelay_request h =
        let m = h.marks in
        let drops = u16 (outs V h.suite.bench).dbg_rx_drop_o in
        let mark = length h.suite.bench.transmit.txf in
        let s = inject (foreign_req 0x55AB) (add_u64 m.t2r 100000) 4000 h.suite in
        let s = grade_refusals mark drops 1 s in
        record h { suite = answer_after 0x55AC (add_u64 m.t2r 200000) (add_u64 m.t3r 200000) s }

    unfoldable pub refuse_a_truncated_pdelay_request : Phased V.State → Phased V.State
    refuse_a_truncated_pdelay_request h =
        let m = h.marks in
        let drops = u16 (outs V h.suite.bench).dbg_rx_drop_o in
        let mark = length h.suite.bench.transmit.txf in
        let s = inject (ptp 0x2 0x55AD 0 0x0000 0 peer_cid) (add_u64 m.t2r 300000) 4000 h.suite in
        let cut = take 67 (pdelay_req 0x55AE peer_cid) in
        let s = inject cut (add_u64 m.t2r 350000) 4000 s in
        let s = grade_refusals mark drops 2 s in
        record h { suite = answer_after 0x55AF (add_u64 m.t2r 400000) (add_u64 m.t3r 400000) s }
