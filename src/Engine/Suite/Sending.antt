-- ===== src/Engine/Suite/Sending.antt =====
-- tb/verilator/engine/sim_main.cpp, phases 6 and 7: the Announce, the Sync and the Follow_Up that the
-- plane sends as a master, and a response with the Sync's sequenceId across its pending stamp.
use fpga_g_ptp.Base.{
  ℕ, ◌+◌, true, false, Option, none, some, List, [], ◌∷◌, ◌==◌, if◌then◌else◌, length, drop,
  u64_max, add_u64, to_nat,
}
use fpga_g_ptp.Harness.Verilated.{Verilated}
use fpga_g_ptp.Wire.{Frame}
use fpga_g_ptp.Wire.Read.{byte_at, fld16, fld32, fld48, fld64, type_of}
use fpga_g_ptp.Engine.Const.{our_cid, our_cq, peer_cid}
use fpga_g_ptp.Engine.Phc.{phc}
use fpga_g_ptp.Engine.Ports.{EngineIn, EngineOut}
use fpga_g_ptp.Engine.Bench.{run}
use fpga_g_ptp.Engine.Suite.{Suite, on_bench, wait_tx}
use fpga_g_ptp.Engine.Suite.Send.{expect, check_common, txts_idx}
use fpga_g_ptp.Engine.Suite.Boot.{any_bits, pdelay_req}
use fpga_g_ptp.Engine.Suite.Capable.{auto_results}
use fpga_g_ptp.Engine.Suite.Exchange.{inject, seq_sent, stamp_of, was_sent, when_sent}

abbrev pub resp_collision_ts : ℕ
resp_collision_ts = 7110000

abbrev pub sync_collision_ts : ℕ
sync_collision_ts = 7220000

-- `auto_pend` and an index, as compared by `expect`.
abbrev pub pend_word : Option ℕ → ℕ
pend_word none = u64_max
pend_word (some idx) = idx

-- The index of what `wait_tx` found, and the 0 that stands there on a timeout.
abbrev pub index_sent : Option (ℕ × Frame) → ℕ
index_sent none = 0
index_sent (some (i, f)) = i

-- The last of the frames that is of the type, the first of which has index `i`.
unfoldable pub last_of_type : (mtype i : ℕ) → List Frame → Option (ℕ × Frame)
last_of_type mtype i [] = none
last_of_type mtype i (f ∷ fs) = elim (last_of_type mtype (i + 1) fs) [
  | some found ↦ some found
  | none ↦ if type_of f == mtype then some (i, f) else none
]

abbrev pub since : {S : Type 0} (mtype mark : ℕ) → Suite S → Option (ℕ × Frame)
since mtype mark s = last_of_type mtype mark (drop mark s.bench.transmit.txf)

unfoldable pub grade_our_announce : {S : Type 0} → Frame → Suite S → Suite S
grade_our_announce f s =
    let s = expect (fld16 f 58) 37 (check_common f 0xB 0x0008 76 0x00 s) in
    let s = expect (fld32 f 62) our_cq (expect (byte_at f 61) 248 s) in
    let s = expect (fld64 f 67) our_cid (expect (byte_at f 66) 248 s) in
    let s = expect (byte_at f 77) 0xA0 (expect (fld16 f 75) 0 s) in
    expect (fld64 f 82) our_cid (expect (fld32 f 78) 0x00080008 s)

unfoldable pub grade_our_sync : {S : Type 0} → Frame → Suite S → Suite S
grade_our_sync f s = expect (any_bits 10 48 f) 0 (check_common f 0x0 0x0200 44 0xFD s)

unfoldable pub grade_our_follow_up : {S : Type 0} (sseq : ℕ) → Frame → Suite S → Suite S
grade_our_follow_up sseq f s =
    let s = expect (fld16 f 44) sseq (check_common f 0x8 0x0000 76 0xFD s) in
    let s = expect (fld32 f 58) 0x0003001C (expect (stamp_of f) sync_collision_ts s) in
    expect (fld48 f 62) 0x0080C2000001 s

-- Every Resp_FU has the stamp of the response; the Sync Follow_Ups among the frames are counted.
unfoldable pub grade_collision : {S : Type 0} → (premature : ℕ) → List Frame → Suite S → ℕ × Suite S
grade_collision premature [] s = (premature, s)
grade_collision premature (f ∷ fs) s =
    let graded = if type_of f == 0xA then expect (stamp_of f) resp_collision_ts s else s in
    grade_collision (if type_of f == 0x8 then premature + 1 else premature) fs graded

module _ (V : Verilated EngineIn EngineOut) where
  -- `if (found) txts_idx(idx, ns)`
  unfoldable pub stamp_found : Option (ℕ × Frame) → (ns : ℕ) → Suite V.State → Suite V.State
  stamp_found none ns s = s
  stamp_found (some (i, f)) ns s = txts_idx V i ns s

  abbrev pub idle : ℕ → Suite V.State → Suite V.State
  idle n = on_bench (run V n)

  -- The response to a request with the Sync's sequenceId is stamped ahead of the Sync.
  unfoldable pub stamp_the_response_first : (sseq : ℕ) → Suite V.State → Suite V.State
  stamp_the_response_first sseq s =
      let mark = length s.bench.transmit.txf in
      let s = inject V (pdelay_req sseq peer_cid) (add_u64 (phc s.bench.phc) 1000) 8000 s in
      let resp = since 0x3 mark s in
      let s = expect (elim resp [ none ↦ 0 | some found ↦ 1 ]) 1 s in
      let stamp_mark = length s.bench.transmit.txf in
      let s = idle 8000 (stamp_found resp resp_collision_ts s) in
      let rfu = since 0xA stamp_mark s in
      let (premature, s) = grade_collision 0 (drop stamp_mark s.bench.transmit.txf) s in
      let s = expect premature 0 (expect (elim rfu [ none ↦ 0 | some found ↦ 1 ]) 1 s) in
      elim rfu [ none ↦ s | some (i, f) ↦ idle 2000 (txts_idx V i (resp_collision_ts + 1000) s) ]

  -- The Sync's own stamp still builds its Follow_Up.
  unfoldable pub stamp_the_sync : Option (ℕ × Frame) → (sseq : ℕ) → Suite V.State → Suite V.State
  stamp_the_sync sync sseq s =
      let mark = length s.bench.transmit.txf in
      let stamped = if was_sent sync then stamp_found sync sync_collision_ts s else s in
      let s = idle 8000 stamped in
      let fu = since 0x8 mark s in
      when_sent (grade_our_follow_up sseq) fu (expect (to_nat (was_sent fu)) 1 s)

  -- `fuel` is that of `service_pdelay`.
  module _ (fuel : ℕ) where
    unfoldable pub check_our_announce : Suite V.State → Suite V.State
    check_our_announce s =
        let s = record s { tx_seen = length s.bench.transmit.txf } in
        let (ann, s) = wait_tx V fuel (some 0xB) 400000 0 s in when_sent grade_our_announce ann s

    unfoldable pub check_our_sync_and_follow_up : Suite V.State → Suite V.State
    check_our_sync_and_follow_up s =
        let (sync, s) = wait_tx V fuel (some 0x0) 800000 0 s in
        let s = when_sent grade_our_sync sync s in
        let s = expect (pend_word s.bench.transmit.auto_pend) (index_sent sync) s in
        let s =
          on_bench
            (λ b. record b { transmit = record b.transmit { auto_txts = false; auto_pend = none } })
            s in
        let s = stamp_the_response_first (seq_sent sync) s in
        auto_results true (stamp_the_sync sync (seq_sent sync) s)
