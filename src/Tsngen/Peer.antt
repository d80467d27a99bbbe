-- ===== src/Tsngen/Peer.antt =====
-- tb/tsngen/tsngen_main.cpp, the automatic pdelay responder: `pd_answer`, `service_pdelay` and `pump`.
pub mod Laws
use fpga_g_ptp.Base.{
  ℕ, zero, suc, ◌+◌, ◌-◌, ◌*◌, ◌/◌, ◌%◌, ◌^◌, Bool, true, false, not, ◌&&◌, ◌||◌, List, [], ◌∷◌,
  ◌==◌, if◌then◌else◌, ltb, leb, length, get_or, bit_or, bit_and, u32, u64, min, ◌>>>◌,
}
use fpga_g_ptp.Harness.Verilated.{Verilated}
use fpga_g_ptp.Wire.{Frame, put_u8, put_u16, put_u32, put_u64}
use fpga_g_ptp.Wire.Read.{seq_of}
use fpga_g_ptp.Engine.Const.{our_cid, peer_cid}
use fpga_g_ptp.Engine.Ports.{EngineIn, EngineOut}
use fpga_g_ptp.Tsngen.Clock.{Session, tick, run, send_frame}

unfoldable pub pd_answer : (mtype seq flags logint ts_ns rq_cid : ℕ) → Frame
pd_answer mtype seq flags logint ts_ns rq_cid =
    let b = put_u32 (put_u16 [] 0x0180) 0xC200000E in
    let b = put_u32 (put_u16 b 0x0080) 0xE1112233 in
    let b = put_u16 b 0x88F7 in
    let b = put_u8 (put_u8 b (bit_or 0x10 mtype)) 0x02 in
    let b = put_u16 b 54 in
    let b = put_u8 (put_u8 b 0) 0 in
    let b = put_u16 b flags in
    let b = put_u32 (put_u64 b 0) 0 in
    let b = put_u16 (put_u64 b peer_cid) 1 in
    let b = put_u16 b seq in
    let b = put_u8 (put_u8 b 0x05) logint in
    let b = put_u32 (put_u16 b ((ts_ns / 1000000000) >>> 32)) (ts_ns / 1000000000) in
    let b = put_u32 b (ts_ns % 1000000000) in put_u16 (put_u64 b rq_cid) 1

abbrev pub pd_ns : ℕ
pd_ns = 700

abbrev pub is_pd_request : Frame → Bool
is_pd_request f = ltb 14 (length f) && bit_and (get_or f 14 0) 0xF == 0x2

module _ (V : Verilated EngineIn EngineOut) where
  -- The two answers to the request `seq` that left at `t1`.
  unfoldable pub answer_request : (seq t1 : ℕ) → Session V.State → Session V.State
  unfolding pd_answer run send_frame
  answer_request seq t1 s =
      let t2 = u64 (t1 + 123456) in
      let t3 = u64 (t2 + 15000) in
      let t4 = u64 (t1 + 15000 + 2 * pd_ns) in
      let s = run V 2000 (send_frame V (pd_answer 0x3 seq 0x0200 0x7F t2 our_cid) t4 s) in
      run V 2000 (send_frame V (pd_answer 0xA seq 0x0000 0x7F t3 our_cid) (u64 (t4 + 1000)) s)

  -- (The sequence of a request shorter than 46 bytes is read out of bounds in the source; here it is 0.)
  -- One turn of the loop, on the frame at `pd_seen`; `false` is the return that waits for its stamp.
  unfoldable pub serve_next : Session V.State → Bool × Session V.State
  unfolding answer_request
  serve_next s =
      let f = get_or s.txf s.pd_seen [] in
      let t1 = get_or s.txns s.pd_seen 0 in
      elim (is_pd_request f) [
        | false ↦ (true, record s { pd_seen = s.pd_seen + 1 })
        | true ↦ elim (t1 == 0) [
          | true ↦ (false, s)
          | false ↦
              let t = answer_request (seq_of f) t1 s in (true, record t { pd_seen = t.pd_seen + 1 })
        ]
      ]

  -- The loop has no bound of its own: each answer runs the engine, which may send more. The fuel bounds
  -- the frames that one call looks at.
  unfoldable pub serve_loop : (fuel : ℕ) → Session V.State → Session V.State
  unfolding serve_next
  serve_loop zero s = s
  serve_loop (suc fuel) s = elim (ltb s.pd_seen (length s.txf)) [
    | false ↦ s
    | true ↦
        let next = serve_next s in elim next.0 [ true ↦ serve_loop fuel next.1 | false ↦ next.1 ]
  ]

  unfoldable pub service_pdelay : (fuel : ℕ) → Session V.State → Session V.State
  unfolding serve_loop
  service_pdelay fuel s = if s.auto_pd then serve_loop fuel s else s

  -- Bursts of at most 64 clocks; `turns` bounds them, and `n` turns are enough.
  unfoldable pub pump_turns : (fuel turns n : ℕ) → Session V.State → Session V.State
  unfolding run service_pdelay
  pump_turns fuel zero n s = s
  pump_turns fuel (suc turns) zero s = s
  pump_turns fuel (suc turns) (suc n) s =
      let burst = min (suc n) 64 in
      pump_turns fuel turns (suc n - burst) (service_pdelay fuel (run V burst s))

  unfoldable pub pump : (fuel n : ℕ) → Session V.State → Session V.State
  unfolding pump_turns
  pump fuel n s = pump_turns fuel n n s
