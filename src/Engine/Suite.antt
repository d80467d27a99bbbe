-- ===== src/Engine/Suite.antt =====
-- tb/verilator/engine/sim_main.cpp, the phases' helpers in `GptpEngineHarness`: the auto peer
-- `service_pdelay`, the bounded waits, and what the phases send and grade by.
pub mod Laws
pub mod Peer
pub mod Send
pub mod Phased
pub mod Capable
pub mod Loss
pub mod Interval
pub mod Present
pub mod Record
pub mod Pass
pub mod Exchange
pub mod Pairing
pub mod Sending
pub mod Graded
pub mod Boot
use fpga_g_ptp.Base.{
  ℕ, zero, suc, ◌+◌, ◌*◌, Bool, true, false, not, ◌&&◌, ◌||◌, Option, none, some, List, [], ◌∷◌,
  ◌==◌, ltb, leb, if◌then◌else◌, length, get_or, drop, bit_and, u8, for_range, add_u64,
}
use fpga_g_ptp.Harness.Verilated.{Verilated}
use fpga_g_ptp.Harness.Tally.{expect_eq}
use fpga_g_ptp.Wire.{Frame, put_u16, put_u64, put_ts}
use fpga_g_ptp.Wire.Read.{byte_at, fld16}
use fpga_g_ptp.Engine.Const.{our_cid, peer_cid, near_cid}
use fpga_g_ptp.Engine.Frames.{ptp}
use fpga_g_ptp.Engine.Pdelay.{PdelayModelState, model_exchange, peer_ns}
use fpga_g_ptp.Engine.Pdelay.Peer.{
  PdMode, pd_off, pd_skip, pd_self, pd_dual, pd_dup, pd_dual_late, pd_nofu, pd_dup3, pd_late,
  stamps,
}
use fpga_g_ptp.Engine.Servo.{ServoModelState}
use fpga_g_ptp.Engine.Ports.{EngineIn, EngineOut}
use fpga_g_ptp.Engine.Bench.{Bench, bench, outs, tick, run, send_frame}

-- The members that the phases share, over the clocked ones.
pub record Suite (S : Type 0) : Type 0 where
  pub bench : Bench S
  pub pdm : PdelayModelState
  pub svm : ServoModelState
  pub pd_mode : PdMode
  pub pd_seen : ℕ
  pub pd_self_sent : ℕ
  pub tx_seen : ℕ
  pub is_cut : Bool  -- no member: whether the fuel of a call of `service_pdelay` ran out

abbrev pub on_bench : {S : Type 0} → (Bench S → Bench S) → Suite S → Suite S
on_bench f s = record s { bench = f s.bench }

-- `txf[i].size() > 14 && (txf[i][14] & 0xF) == mtype`
abbrev pub is_type : (mtype : ℕ) → Frame → Bool
is_type mtype f = ltb 14 (length f) && (bit_and (byte_at f 14) 0xF == mtype)

-- A Pdelay_Resp or its Follow_Up, with the timestamp that it carries.
unfoldable pub pd_frame : (mtype seq flags src ts : ℕ) → Frame
pd_frame mtype seq flags src ts =
    put_u16 (put_u64 (put_ts (ptp mtype seq 0 flags 20 src) ts) our_cid) 1

-- How many responses follow the first.
abbrev pub duplicates : PdMode → ℕ
duplicates pd_dup3 = 2
duplicates pd_dual = 1
duplicates pd_dup = 1
duplicates _ = 0

-- The identity of a second response.
abbrev pub second_source : PdMode → ℕ
second_source pd_dual = near_cid
second_source _ = peer_cid

abbrev pub follows_up : PdMode → Bool
follows_up pd_nofu = false
follows_up _ = true

abbrev pub answers_late : PdMode → Bool
answers_late pd_dual_late = true
answers_late _ = false

-- `dups == 0 && pd_mode != PD_LATE`
abbrev pub completes : PdMode → Bool
completes pd_late = false
completes mode = duplicates mode == 0

module _ (V : Verilated EngineIn EngineOut) where
  -- `send_frame(f.b, rx_ts); run(400);`
  unfoldable pub answer : Frame → (rx_ts : ℕ) → Suite V.State → Suite V.State
  answer f rx_ts = on_bench (λ b. run V 400 (send_frame V f rx_ts b))

  -- The request reflected back as an exchange with ourselves.
  unfoldable pub reflect : (seq t1 : ℕ) → Suite V.State → Suite V.State
  reflect seq t1 s =
      let t2 = peer_ns (add_u64 t1 300) in
      let s = answer (pd_frame 0x3 seq 0x0200 our_cid t2) (add_u64 t1 21200) s in
      let s =
        answer (pd_frame 0xA seq 0x0000 our_cid (add_u64 t2 19800))
          (add_u64 (add_u64 t1 21200) 1000) s in
      record s { pd_self_sent = s.pd_self_sent + 1 }

  -- The responses after the first, the `k`th with its own stamps.
  unfoldable pub answer_again : PdMode → (seq t2 t4 : ℕ) → Suite V.State → Suite V.State
  answer_again mode seq t2 t4 s =
      for_range (duplicates mode) 1
        (λ k c.
          answer (pd_frame 0x3 seq 0x0200 (second_source mode) (add_u64 t2 (40 * k)))
            (add_u64 t4 (80 * k)) c)
        s

  -- The Follow_Up and what stands behind it.
  unfoldable pub finish_exchange : PdMode → (seq t1 t2 t3 t4 : ℕ) → Suite V.State → Suite V.State
  finish_exchange mode seq t1 t2 t3 t4 s =
      let s = answer (pd_frame 0xA seq 0x0000 peer_cid t3) (add_u64 t4 1000) s in
      let s =
        if answers_late mode
        then answer (pd_frame 0x3 seq 0x0200 near_cid (add_u64 t2 40)) (add_u64 t4 2000) s
        else s in
      if completes mode then record s { pdm = model_exchange t1 t2 t3 t4 s.pdm } else s

  unfoldable pub respond : PdMode → (seq t1 : ℕ) → Suite V.State → Suite V.State
  respond mode seq t1 s =
      let t = stamps mode s.pdm.nrr t1 in
      let s = answer (pd_frame 0x3 seq 0x0200 peer_cid t.t2) t.t4 s in
      if follows_up mode
      then finish_exchange mode seq t.t1 t.t2 t.t3 t.t4 (answer_again mode seq t.t2 t.t4 s)
      else s

  -- What the mode does with a request that was sent at `t1`.
  unfoldable pub answer_request : PdMode → (seq t1 : ℕ) → Suite V.State → Suite V.State
  answer_request pd_off seq t1 s = s
  answer_request pd_skip seq t1 s = s
  answer_request pd_self seq t1 s = reflect seq t1 s
  answer_request mode seq t1 s = respond mode seq t1 s

  -- One round of the loop; `none` where it ends, at the end of `txf` or before a request without its
  -- egress timestamp.
  unfoldable pub serve_next : Suite V.State → Option (Suite V.State)
  serve_next s =
      let i = s.pd_seen in
      let f = get_or s.bench.transmit.txf i [] in
      let t1 = get_or s.bench.transmit.txns i 0 in
      let seen = record s { pd_seen = i + 1 } in
      if ltb i (length s.bench.transmit.txf)
      then (if not (is_type 0x2 f)
          then some seen
          else (if t1 == 0 then none else some (answer_request s.pd_mode (fld16 f 44) t1 seen)))
      else none

  unfoldable pub serve_loop : (fuel : ℕ) → Suite V.State → Suite V.State
  serve_loop zero s = elim (serve_next s) [ none ↦ s | some t ↦ record s { is_cut = true } ]
  serve_loop (suc fuel) s = elim (serve_next s) [ none ↦ s | some t ↦ serve_loop fuel t ]

  -- The rounds that a call of `service_pdelay` may take, which the source does not bound.
  module _ (fuel : ℕ) where
    unfoldable pub service_pdelay : Suite V.State → Suite V.State
    service_pdelay = serve_loop fuel

    -- `tick(); if ((n & 255) == 0) service_pdelay();`
    unfoldable pub turn : (n : ℕ) → Suite V.State → Suite V.State
    turn n s = let s = on_bench (tick V) s in if bit_and n 255 == 0 then service_pdelay s else s

    unfoldable pub run_svc : (n : ℕ) → Suite V.State → Suite V.State
    run_svc zero s = s
    run_svc (suc n) s = run_svc n (turn n s)

    -- The bounded loop of the three waits, which returns as soon as `ready` holds.
    unfoldable pub wait_until :
        (ready : Suite V.State → Bool) (turns n : ℕ) → Suite V.State → Bool × Suite V.State
    wait_until ready zero n s = (false, s)
    wait_until ready (suc turns) n s = elim (ready s) [
      | true ↦ (true, s)
      | false ↦ wait_until ready turns (n + 1) (turn n s)
    ]

    abbrev pub flags_are : (mask want : ℕ) → Suite V.State → Bool
    flags_are mask want s = bit_and (outs V s.bench).pub_flags_o mask == want

    unfoldable pub wait_flags : (mask want max_ticks : ℕ) → Suite V.State → Bool × Suite V.State
    wait_flags mask want max_ticks s = wait_until (flags_are mask want) max_ticks 0 s

    unfoldable pub wait_exchanges : (count max_ticks : ℕ) → Suite V.State → Bool × Suite V.State
    wait_exchanges count max_ticks s = wait_until (λ c. leb count c.pdm.count) max_ticks 0 s

    unfoldable pub wait_requests : (count max_ticks : ℕ) → Suite V.State → Bool × Suite V.State
    wait_requests count max_ticks s =
        wait_until (λ c. leb count c.bench.transmit.pd_reqs_sent) max_ticks 0 s

    -- The first frame from index `i` on of the type, any for `none`, with its index.
    unfoldable pub next_tx : (mtype : Option ℕ) (i : ℕ) → List Frame → Option (ℕ × Frame)
    next_tx mtype i [] = none
    next_tx mtype i (f ∷ fs) =
        if elim mtype [ none ↦ true | some m ↦ is_type m f ]
        then some (i, f)
        else next_tx mtype (i + 1) fs

    -- The frame and its index; on a timeout the failed check, and no frame.
    unfoldable pub wait_tx :
        (mtype : Option ℕ) (turns n : ℕ) → Suite V.State → Option (ℕ × Frame) × Suite V.State
    wait_tx mtype zero n s = (none, on_bench (λ b. record b { tally = expect_eq 0 1 b.tally }) s)
    wait_tx mtype (suc turns) n s =
        elim (next_tx mtype s.tx_seen (drop s.tx_seen s.bench.transmit.txf)) [
          | some (i, f) ↦ (some (i, f), record s { tx_seen = i + 1 })
          | none ↦ wait_tx mtype turns (n + 1) (
              turn n (record s {
                tx_seen =
                    if ltb s.tx_seen (length s.bench.transmit.txf)
                    then length s.bench.transmit.txf
                    else s.tx_seen;
              }))
        ]
