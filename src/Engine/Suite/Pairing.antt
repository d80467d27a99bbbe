-- ===== src/Engine/Suite/Pairing.antt =====
-- tb/verilator/engine/sim_main.cpp, phases 7b and 7c: which Pdelay_Resp and which Follow_Up of it
-- complete an exchange, and the flag bits that a receiver ignores.
use fpga_g_ptp.Base.{
  ℕ, zero, suc, ◌+◌, ◌-◌, true, false, not, Option, some, ◌∷◌, [], List, ◌==◌, if◌then◌else◌,
  length, get_or, take, for_each, bit_and, bit_xor, u16, u32, add_u64, to_nat,
}
use fpga_g_ptp.Base.Int.{to_u64}
use fpga_g_ptp.Harness.Verilated.{Verilated}
use fpga_g_ptp.Wire.{Frame, put_u16, put_u64, put_ts}
use fpga_g_ptp.Engine.Const.{our_cid, our_pn, foreign_pn, peer_cid, near_cid, fl_ascap}
use fpga_g_ptp.Engine.Frames.{ptp}
use fpga_g_ptp.Engine.Pdelay.{model_exchange, peer_ns}
use fpga_g_ptp.Engine.Pdelay.Peer.{pd_normal, pd_skip}
use fpga_g_ptp.Engine.Ports.{EngineIn, EngineOut}
use fpga_g_ptp.Engine.Bench.{Bench, outs, tick}
use fpga_g_ptp.Engine.Suite.{Suite, on_bench, wait_tx}
use fpga_g_ptp.Engine.Suite.Send.{expect}
use fpga_g_ptp.Engine.Suite.Exchange.{inject, seq_sent, was_sent}

-- The frames of `resp` and `rfu`, with the requesting port that they carry.
unfoldable pub resp_frame : (seq src t2 rpn rcid flags : ℕ) → Frame
resp_frame seq src t2 rpn rcid flags =
    put_u16 (put_u64 (put_ts (ptp 0x3 seq 0 flags 20 src) t2) rcid) rpn

unfoldable pub rfu_frame : (seq src t3 rpn rcid flags : ℕ) → Frame
rfu_frame seq src t3 rpn rcid flags =
    put_u16 (put_u64 (put_ts (ptp 0xA seq 0 flags 20 src) t3) rcid) rpn

abbrev pub stranger : ℕ
stranger = 0x00BAD0FFFE000002

-- `pd0` and `fl0`, which every reader has written before.
pub record Before : Type 0 where
  pub pd0 : ℕ
  pub fl0 : ℕ

-- An exchange that answers a request sent at `t1`.
pub record Stamped : Type 0 where
  pub seq : ℕ
  pub t1 : ℕ
  pub t2 : ℕ
  pub t3 : ℕ
  pub t4 : ℕ

-- The peer holds the request for `resid` of its own clock.
unfoldable pub stamped : (seq t1 resid : ℕ) → Stamped
stamped seq t1 resid =
    let t2 = peer_ns (add_u64 t1 300) in
    record { seq = seq; t1 = t1; t2 = t2; t3 = add_u64 t2 resid; t4 = add_u64 t1 21200 }

-- A variant of the ignored flag bits.
pub record Variant : Type 0 where
  pub resp : ℕ
  pub rfu : ℕ
  pub resid : ℕ

unfoldable pub variants : List Variant
variants =
    record { resp = 0x0200; rfu = 0x0000; resid = 20200 }
    ∷ record { resp = 0x0208; rfu = 0x0008; resid = 20600 }
    ∷ record { resp = 0x0000; rfu = 0x0200; resid = 21000 }
    ∷ []

module _ (V : Verilated EngineIn EngineOut) where
  unfoldable pub resp : (seq src t2 rx rpn rcid flags : ℕ) → Suite V.State → Suite V.State
  resp seq src t2 rx rpn rcid flags = inject V (resp_frame seq src t2 rpn rcid flags) rx 2000

  unfoldable pub rfu : (seq src t3 rx rpn rcid flags : ℕ) → Suite V.State → Suite V.State
  rfu seq src t3 rx rpn rcid flags = inject V (rfu_frame seq src t3 rpn rcid flags) rx 6000

  -- With the default arguments.
  abbrev pub our_resp : (seq t2 rx : ℕ) → Suite V.State → Suite V.State
  our_resp seq t2 rx = resp seq peer_cid t2 rx our_pn our_cid 0x0200

  abbrev pub our_rfu : (seq src t3 rx : ℕ) → Suite V.State → Suite V.State
  our_rfu seq src t3 rx = rfu seq src t3 rx our_pn our_cid 0x0000

  abbrev pub before : Suite V.State → Before
  before s = record { pd0 = (outs V s.bench).pub_pdelay_ns_o; fl0 = (outs V s.bench).pub_flags_o }

  unfoldable pub unmoved : Before → Suite V.State → Suite V.State
  unmoved b s =
      let o = outs V s.bench in
      expect (bit_and o.pub_flags_o fl_ascap) (bit_and b.fl0 fl_ascap)
        (expect o.pub_pdelay_ns_o b.pd0 s)

  -- `for (int k = 0; k < 400 && txns[i] == 0; k++) tick();`
  unfoldable pub await_stamp : (turns i : ℕ) → Bench V.State → Bench V.State
  await_stamp zero i b = b
  await_stamp (suc turns) i b = elim (get_or b.transmit.txns i 0 == 0) [
    | true ↦ await_stamp turns i (tick V b)
    | false ↦ b
  ]

  -- The delay that the model has, on a plane that is still capable.
  unfoldable pub grade_delay : Suite V.State → Suite V.State
  grade_delay s =
      let o = outs V s.bench in
      expect (bit_and o.pub_flags_o fl_ascap) fl_ascap
        (expect o.pub_pdelay_ns_o (u32 (to_u64 s.pdm.d)) s)

  abbrev pub complete : Stamped → Suite V.State → Suite V.State
  complete x s = record s { pdm = model_exchange x.t1 x.t2 x.t3 x.t4 s.pdm }

  -- `pd_seen = txf.size(); pd_mode = PD_NORMAL;`
  abbrev pub answer_fresh : Suite V.State → Suite V.State
  answer_fresh s = record s { pd_seen = length s.bench.transmit.txf; pd_mode = pd_normal }

  -- What must not complete an exchange whose response has not come.
  unfoldable pub refuse_unpaired : Before → Stamped → Suite V.State → Suite V.State
  refuse_unpaired b x s =
      let late = add_u64 x.t3 2000 in
      let high = bit_xor x.seq 0x0100 in
      let s = unmoved b (our_rfu x.seq peer_cid late (add_u64 x.t4 1000) s) in
      let s = unmoved b (our_rfu 0xEEEE peer_cid 1000 (add_u64 x.t4 1100) s) in
      let s = our_resp 0xEEEE x.t2 x.t4 s in
      let s = unmoved b (our_rfu 0xEEEE peer_cid late (add_u64 x.t4 1200) s) in
      let s = our_resp high x.t2 x.t4 s in
      let s = unmoved b (our_rfu high peer_cid late (add_u64 x.t4 1250) s) in
      let s = resp x.seq peer_cid x.t2 x.t4 our_pn near_cid 0x0200 s in
      let s = unmoved b (our_rfu x.seq peer_cid late (add_u64 x.t4 1280) s) in
      let s = resp x.seq peer_cid x.t2 x.t4 foreign_pn our_cid 0x0200 s in
      unmoved b (our_rfu x.seq peer_cid late (add_u64 x.t4 1260) s)

  -- What must not complete one whose response has come.
  unfoldable pub refuse_mispaired : Before → Stamped → Suite V.State → Suite V.State
  refuse_mispaired b x s =
      let late = add_u64 x.t3 2000 in
      let s = our_resp x.seq x.t2 x.t4 s in
      let s = unmoved b (our_rfu x.seq stranger late (add_u64 x.t4 1300) s) in
      let s = unmoved b (rfu x.seq peer_cid late (add_u64 x.t4 1320) foreign_pn our_cid 0x0000 s) in
      unmoved b (rfu x.seq peer_cid late (add_u64 x.t4 1340) our_pn near_cid 0x0000 s)

  -- `fuel` is that of `service_pdelay`.
  module _ (fuel : ℕ) where
    -- The next request that the plane sends.
    unfoldable pub await_request : Suite V.State → Option (ℕ × Frame) × Suite V.State
    await_request s =
        wait_tx V fuel (some 0x2) 4000000 0 (record s { tx_seen = length s.bench.transmit.txf })

    -- Its stamp, and the exchange that answers it. Without a request the source looks at the frame last
    -- looked at; `size_t` would wrap where there is no frame at all, which is out of bounds there.
    unfoldable pub exchange_for :
        (sent : Option (ℕ × Frame)) (resid : ℕ) → Suite V.State → Stamped × Suite V.State
    exchange_for sent resid s =
        let i = s.tx_seen - 1 in
        let s = on_bench (await_stamp 400 i) s in
        (stamped (seq_sent sent) (get_or s.bench.transmit.txns i 0) resid, s)

    -- `wait_tx`, the check that it found a request, and the exchange for it.
    unfoldable pub begin_exchange : Suite V.State → Stamped × Suite V.State
    begin_exchange s =
        let (sent, s) = await_request s in
        exchange_for sent 20000 (expect (to_nat (was_sent sent)) 1 s)

    unfoldable pub refuse_duplicate_and_superseded_follow_ups :
        Before → (seq t3 t4 : ℕ) → Suite V.State → Suite V.State
    refuse_duplicate_and_superseded_follow_ups b seq t3 t4 s =
        let s = unmoved b (our_rfu seq peer_cid (add_u64 t3 2000) (add_u64 t4 1500) s) in
        let (x, s) = begin_exchange s in
        let (y, s) = begin_exchange (our_resp x.seq x.t2 x.t4 s) in
        let s = unmoved b (our_rfu x.seq peer_cid x.t3 (add_u64 y.t4 1000) s) in
        let s = our_rfu y.seq peer_cid y.t3 (add_u64 y.t4 1100) (our_resp y.seq y.t2 y.t4 s) in
        answer_fresh (grade_delay (complete y s))

    unfoldable pub pair_a_follow_up_only_with_the_outstanding_resp : Suite V.State → Suite V.State
    pair_a_follow_up_only_with_the_outstanding_resp s =
        let (x, s) = begin_exchange (record s { pd_mode = pd_skip }) in
        let b = before s in
        let s = refuse_mispaired b x (refuse_unpaired b x s) in
        let s = our_rfu x.seq peer_cid x.t3 (add_u64 x.t4 1400) s in
        let s = grade_delay (complete x s) in
        refuse_duplicate_and_superseded_follow_ups (before s) x.seq x.t3 x.t4 s

    -- What is left of a variant where the request came; `previous` is the delay published before.
    unfoldable pub compute_variant :
        Variant → Stamped → (previous : ℕ) → Suite V.State → Suite V.State
    compute_variant v x previous s =
        let drops = u16 (outs V s.bench).dbg_rx_drop_o in
        let s = resp x.seq peer_cid x.t2 x.t4 our_pn our_cid v.resp s in
        let s = rfu x.seq peer_cid x.t3 (add_u64 x.t4 1000) our_pn our_cid v.rfu s in
        let s = complete x s in
        let o = outs V s.bench in
        let d = u32 (to_u64 s.pdm.d) in
        let s = expect o.pub_pdelay_ns_o d (expect (to_nat (not (d == previous))) 1 s) in
        expect (bit_and o.pub_flags_o fl_ascap) fl_ascap (expect o.dbg_rx_drop_o drops s)

    -- How many variants ran, the delay published last, and the suite.
    unfoldable pub run_variant : Variant → ℕ × ℕ × Suite V.State → ℕ × ℕ × Suite V.State
    run_variant v (computed, previous, s) =
        let (sent, s) = await_request s in
        let s = expect (to_nat (was_sent sent)) 1 s in
        let (x, t) = exchange_for sent v.resid s in
        let t = compute_variant v x previous t in
        if was_sent sent
        then (computed + 1, (outs V t.bench).pub_pdelay_ns_o, t)
        else (computed, previous, s)

    -- The controls on a request that came.
    unfoldable pub refuse_with_the_reserved_bit : Stamped → Suite V.State → Suite V.State
    refuse_with_the_reserved_bit x s =
        let b = before s in
        let drops = u16 (outs V s.bench).dbg_rx_drop_o in
        let cut = take 67 (resp_frame x.seq peer_cid x.t2 our_pn our_cid 0x0208) in
        let s = inject V cut x.t4 2000 s in
        let s = unmoved b (expect (outs V s.bench).dbg_rx_drop_o (u16 (drops + 1)) s) in
        let s = resp x.seq peer_cid x.t2 x.t4 our_pn near_cid 0x0208 s in
        let s = rfu x.seq peer_cid x.t3 (add_u64 x.t4 1000) our_pn our_cid 0x0008 s in
        let s = resp x.seq peer_cid x.t2 x.t4 our_pn our_cid 0x0208 (unmoved b s) in
        let s = rfu x.seq peer_cid x.t3 (add_u64 x.t4 1100) foreign_pn our_cid 0x0008 s in
        let s = rfu x.seq peer_cid x.t3 (add_u64 x.t4 1200) our_pn our_cid 0x0008 (unmoved b s) in
        grade_delay (complete x s)

    unfoldable pub refuse_bad_pdelay_frames_carrying_the_reserved_bit :
        Suite V.State → Suite V.State
    refuse_bad_pdelay_frames_carrying_the_reserved_bit s =
        let (sent, s) = await_request s in
        let s = expect (to_nat (was_sent sent)) 1 s in
        let (x, t) = exchange_for sent 20000 s in
        answer_fresh (if was_sent sent then refuse_with_the_reserved_bit x t else s)

    unfoldable pub pair_a_pdelay_exchange_whose_flag_bits_are_ignored :
        Suite V.State → Suite V.State
    pair_a_pdelay_exchange_whose_flag_bits_are_ignored s =
        let s = record s { pd_mode = pd_skip } in
        let (computed, previous, s) =
          for_each run_variant variants (0, (outs V s.bench).pub_pdelay_ns_o, s) in
        refuse_bad_pdelay_frames_carrying_the_reserved_bit (expect computed 3 s)
