-- ===== src/Engine/Suite/Graded/Peer.antt =====
-- tb/verilator/engine/sim_main.cpp, the tally over the auto peer, the waits and the senders.
use fpga_g_ptp.Base.{
  ℕ, zero, suc, ◌+◌, ◌*◌, refl, Bool, true, false, not, Option, none, some, List, [], ◌==◌,
  if◌then◌else◌, if_cases, length, ltb, get_or, drop, bit_and, for_range_inv, add_u64,
}
use fpga_g_ptp.Harness.Verilated.{Verilated}
use fpga_g_ptp.Harness.Tally.{Tally}
use fpga_g_ptp.Wire.{Frame}
use fpga_g_ptp.Engine.Ports.{EngineIn, EngineOut}
use fpga_g_ptp.Engine.Bench.{tick}
use fpga_g_ptp.Engine.Pdelay.Peer.{
  PdMode, pd_off, pd_normal, pd_neg, pd_far, pd_skip, pd_self, pd_dual, pd_dup, pd_dual_late,
  pd_nofu, pd_dup3, pd_edge, pd_late,
}
use fpga_g_ptp.Engine.Suite.{
  Suite, on_bench, is_type, pd_frame, duplicates, follows_up, answers_late, completes,
  second_source, answer, reflect, answer_again, finish_exchange, respond, answer_request,
  serve_next, serve_loop, service_pdelay, turn, run_svc, wait_until, wait_flags, next_tx, wait_tx,
}
use fpga_g_ptp.Engine.Suite.Send.{expect, txts_idx, sync_pair, check_common, send_announce}
use fpga_g_ptp.Engine.Suite.Graded.{
  Graded, Graded-same, Graded-more, expect-Graded, expect-weak, tick-Clocked, run-Clocked,
  send_frame-Clocked, deliver_result-Clocked,
}

-- Where a loop goes on.
unfoldable Goes : {S : Type 0} (t : Tally) (n : ℕ) → Option (Suite S) → Type 0
Goes t n none = Unit
Goes t n (some c) = Graded t c n

module _ (V : Verilated EngineIn EngineOut) {t : Tally} {n : ℕ} where
  answer-Graded :
      (f : Frame) (rx_ts : ℕ) {s : Suite V.State} → Graded t s n → Graded t (answer V f rx_ts s) n
  unfolding answer
  answer-Graded f rx_ts g = record {
    bench = run-Clocked V 400 (send_frame-Clocked V f rx_ts g.bench);
  }

  reflect-Graded : (seq t1 : ℕ) {s : Suite V.State} → Graded t s n → Graded t (reflect V seq t1 s) n
  unfolding reflect
  reflect-Graded seq t1 {s} g =
      Graded-same (reflect V seq t1 s) refl (answer-Graded _ _ (answer-Graded _ _ g))

  answer_again-Graded :
      (mode : PdMode) (seq t2 t4 : ℕ) {s : Suite V.State}
      → Graded t s n
      → Graded t (answer_again V mode seq t2 t4 s) n
  unfolding answer_again
  answer_again-Graded mode seq t2 t4 {s} g =
      for_range_inv (λ (c : Suite V.State). Graded t c n)
        (λ k c.
          answer V (pd_frame 0x3 seq 0x0200 (second_source mode) (add_u64 t2 (40 * k)))
            (add_u64 t4 (80 * k)) c)
        (λ k c h. answer-Graded _ _ h) (duplicates mode) 1 s g

  finish_exchange-Graded :
      (mode : PdMode) (seq t1 t2 t3 t4 : ℕ) {s : Suite V.State}
      → Graded t s n
      → Graded t (finish_exchange V mode seq t1 t2 t3 t4 s) n
  unfolding finish_exchange
  finish_exchange-Graded mode seq t1 t2 t3 t4 {s} g =
      let followed =
        answer-Graded (pd_frame 0xA seq 0x0000 fpga_g_ptp.Engine.Const.peer_cid t3)
          (add_u64 t4 1000) g in
      let P : Suite V.State → Type 0 = λ c. Graded t c n in
      let late =
        if_cases P (answers_late mode)
          (λ e.
            answer-Graded (pd_frame 0x3 seq 0x0200 fpga_g_ptp.Engine.Const.near_cid (add_u64 t2 40))
              (add_u64 t4 2000) followed)
          (λ e. followed) in
      if_cases P (completes mode) (λ e. Graded-same _ refl late) (λ e. late)

  respond-Graded :
      (mode : PdMode) (seq t1 : ℕ) {s : Suite V.State}
      → Graded t s n
      → Graded t (respond V mode seq t1 s) n
  unfolding respond
  respond-Graded mode seq t1 g =
      let first = answer-Graded _ _ g in
      if_cases (λ (c : Suite V.State). Graded t c n) (follows_up mode)
        (λ e. finish_exchange-Graded mode seq _ _ _ _ (answer_again-Graded mode seq _ _ first))
        (λ e. first)

  answer_request-Graded :
      (mode : PdMode) (seq t1 : ℕ) {s : Suite V.State}
      → Graded t s n
      → Graded t (answer_request V mode seq t1 s) n
  unfolding answer_request
  answer_request-Graded pd_off seq t1 g = g
  answer_request-Graded pd_skip seq t1 g = g
  answer_request-Graded pd_self seq t1 g = reflect-Graded seq t1 g
  answer_request-Graded pd_normal seq t1 g = respond-Graded pd_normal seq t1 g
  answer_request-Graded pd_neg seq t1 g = respond-Graded pd_neg seq t1 g
  answer_request-Graded pd_far seq t1 g = respond-Graded pd_far seq t1 g
  answer_request-Graded pd_dual seq t1 g = respond-Graded pd_dual seq t1 g
  answer_request-Graded pd_dup seq t1 g = respond-Graded pd_dup seq t1 g
  answer_request-Graded pd_dual_late seq t1 g = respond-Graded pd_dual_late seq t1 g
  answer_request-Graded pd_nofu seq t1 g = respond-Graded pd_nofu seq t1 g
  answer_request-Graded pd_dup3 seq t1 g = respond-Graded pd_dup3 seq t1 g
  answer_request-Graded pd_edge seq t1 g = respond-Graded pd_edge seq t1 g
  answer_request-Graded pd_late seq t1 g = respond-Graded pd_late seq t1 g

  serve_next-Goes : (s : Suite V.State) → Graded t s n → Goes t n (serve_next V s)
  unfolding serve_next Goes
  serve_next-Goes s g =
      let seen = record s { pd_seen = s.pd_seen + 1 } in
      let h : Graded t seen n = Graded-same seen refl g in
      if_cases (Goes t n) (ltb s.pd_seen (length s.bench.transmit.txf))
        (λ e.
          if_cases (Goes t n) (not (is_type 0x2 (get_or s.bench.transmit.txf s.pd_seen [])))
            (λ f. h)
            (λ f.
              if_cases (Goes t n) (get_or s.bench.transmit.txns s.pd_seen 0 == 0) (λ k. tt)
                (λ k. answer_request-Graded s.pd_mode _ _ h)))
        (λ e. tt)

  serve_loop-Graded :
      (fuel : ℕ) (s : Suite V.State) → Graded t s n → Graded t (serve_loop V fuel s) n
  unfolding serve_loop Goes
  serve_loop-Graded zero s g =
      elim (serve_next V s)
        as (λ o.
          let c : Suite V.State = elim o [ none ↦ s | some d ↦ record s { is_cut = true } ] in
          Graded t c n) [ none ↦ g | some d ↦ Graded-same _ refl g ]
  serve_loop-Graded (suc fuel) s g =
      elim (serve_next V s)
          as (λ o.
            Goes t n o
            → Graded t (elim o as (λ k. Suite V.State) [ none ↦ s | some c ↦ serve_loop V fuel c ])
                n) [ none ↦ λ h. g | some c ↦ λ h. serve_loop-Graded fuel c h ]
        (serve_next-Goes s g)

  module _ (fuel : ℕ) where
    pub turn-Graded : (k : ℕ) {s : Suite V.State} → Graded t s n → Graded t (turn V fuel k s) n
    unfolding turn service_pdelay
    turn-Graded k {s} g =
        let ticked : Graded t (on_bench (tick V) s) n = record { bench = tick-Clocked V g.bench } in
        if_cases (λ (c : Suite V.State). Graded t c n) (bit_and k 255 == 0)
          (λ e. serve_loop-Graded fuel _ ticked) (λ e. ticked)

    pub run_svc-Graded :
        (k : ℕ) {s : Suite V.State} → Graded t s n → Graded t (run_svc V fuel k s) n
    unfolding run_svc
    run_svc-Graded zero g = g
    run_svc-Graded (suc k) g = run_svc-Graded k (turn-Graded k g)

    wait_until-Graded :
        (ready : Suite V.State → Bool) (turns k : ℕ) (s : Suite V.State)
        → Graded t s n
        → Graded t (wait_until V fuel ready turns k s).1 n
    unfolding wait_until
    wait_until-Graded ready zero k s g = g
    wait_until-Graded ready (suc turns) k s g =
        elim (ready s)
          as (λ r.
            let w : Bool × Suite V.State = elim r [
              | true ↦ (true, s)
              | false ↦ wait_until V fuel ready turns (k + 1) (turn V fuel k s)
            ] in
            Graded t w.1 n) [
              | true ↦ g
              | false ↦ wait_until-Graded ready turns (k + 1) _ (turn-Graded k g)
            ]

    pub wait_flags-Graded :
        (mask want turns : ℕ) {s : Suite V.State}
        → Graded t s n
        → Graded t (wait_flags V fuel mask want turns s).1 n
    unfolding wait_flags
    wait_flags-Graded mask want turns {s} g = wait_until-Graded _ turns 0 s g

    pub wait_tx-Graded :
        (mtype : Option ℕ) (turns k : ℕ) (s : Suite V.State)
        → Graded t s n
        → Graded t (wait_tx V fuel mtype turns k s).1 n
    unfolding wait_tx expect
    wait_tx-Graded mtype zero k s g = Graded-more (expect-Graded 0 1 g)
    wait_tx-Graded mtype (suc turns) k s g =
        go (next_tx V fuel mtype s.tx_seen (drop s.tx_seen s.bench.transmit.txf))
          (λ c h. wait_tx-Graded mtype turns (k + 1) c h)
      where
        looked : ℕ → Suite V.State
        looked i = record s { tx_seen = i }

        end : ℕ
        end =
            if ltb s.tx_seen (length s.bench.transmit.txf)
            then length s.bench.transmit.txf
            else s.tx_seen

        go :
            (o : Option (ℕ × Frame))
            → ((c : Suite V.State)
                → Graded t c n
                → Graded t (wait_tx V fuel mtype turns (k + 1) c).1 n)
            → let w : Option (ℕ × Frame) × Suite V.State = elim o [
              | some (i, f) ↦ (some (i, f), looked (i + 1))
              | none ↦ wait_tx V fuel mtype turns (k + 1) (turn V fuel k (looked end))
            ] in
              Graded t w.1 n
        go (some (i, f)) on = Graded-same _ refl g
        go none on = on _ (turn-Graded k (Graded-same (looked end) refl g))

    pub send_announce-Graded :
        (seq p1 gmid steps src : ℕ) (path : List ℕ) (rx_ts : ℕ) (empty_tlv : Bool)
        {s : Suite V.State}
        → Graded t s n
        → Graded t (send_announce V fuel seq p1 gmid steps src path rx_ts empty_tlv s) n
    unfolding send_announce
    send_announce-Graded seq p1 gmid steps src path rx_ts empty_tlv g =
        run_svc-Graded 6000 record { bench = send_frame-Clocked V _ rx_ts g.bench }

  pub sync_pair-Graded :
      (seq local_rx origin src : ℕ) {s : Suite V.State}
      → Graded t s n
      → Graded t (sync_pair V seq local_rx origin src s) n
  unfolding sync_pair
  sync_pair-Graded seq local_rx origin src g = record {
    bench =
        run-Clocked V 6000
          (send_frame-Clocked V _ _ (run-Clocked V 2000 (send_frame-Clocked V _ local_rx g.bench)));
  }

  pub txts_idx-Graded :
      (idx ns : ℕ) {s : Suite V.State} → Graded t s n → Graded t (txts_idx V idx ns s) n
  unfolding txts_idx
  txts_idx-Graded idx ns g = record { bench = deliver_result-Clocked V idx ns true 1 g.bench }

-- A frame of the right size is graded nine times, another once.
pub check_common-Graded :
    {S : Type 0} {t : Tally} {n : ℕ} (f : Frame) (mtype flags msglen logint : ℕ) {s : Suite S}
    → Graded t s n
    → Graded t (check_common f mtype flags msglen logint s) n
unfolding check_common
check_common-Graded {S} {t} {n} f mtype flags msglen logint g =
    if_cases (λ (c : Suite S). Graded t c n) (not (length f == 14 + msglen))
      (λ e. expect-weak _ _ g) (λ e. search (expect-weak) depth 40)
