-- ===== src/Engine/Suite/Exchange/Laws.antt =====
-- tb/verilator/engine/sim_main.cpp, what a pass of `answer_a_peer_initiated_exchange` means.
use fpga_g_ptp.Base.{
  ℕ, ◌+◌, ◌≤◌, ◌≡◌, ◌∙◌, refl, sym, ap, true, false, not, Option, none, some, [], ◌∷◌, arith,
  length, is_empty, get_elem?, ◌==◌, if_cases,
}
use fpga_g_ptp.Harness.Verilated.{Verilated}
use fpga_g_ptp.Harness.Tally.{Tally}
use fpga_g_ptp.Wire.{Frame}
use fpga_g_ptp.Engine.Const.{peer_cid}
use fpga_g_ptp.Engine.Ports.{EngineIn, EngineOut}
use fpga_g_ptp.Engine.Transmit.{Transmit}
use fpga_g_ptp.Engine.Suite.{Suite, is_type, on_bench, wait_tx}
use fpga_g_ptp.Engine.Bench.{send_frame}
use fpga_g_ptp.Engine.Suite.Boot.{pdelay_req}
use fpga_g_ptp.Engine.Suite.Phased.{Phased}
use fpga_g_ptp.Engine.Suite.Send.{expect, check_common, txts}
use fpga_g_ptp.Engine.Suite.Exchange.{
  when_sent, grade_answer, wait_and_grade, answer_a_peer_initiated_exchange,
}
use fpga_g_ptp.Engine.Suite.Graded.{Graded, Graded-start, expect-weak, send_frame-Clocked}
use fpga_g_ptp.Engine.Suite.Graded.Peer.{check_common-Graded, wait_tx-Graded, txts_idx-Graded}
use fpga_g_ptp.Engine.Suite.Exchange.Answer.{IsAnswer, fails, answer_clean}
use fpga_g_ptp.Engine.Suite.Exchange.Found.{Found, at_index, wait_tx_clean}

-- Where a wait has looked up to a frame of the type that answers the request.
pub record Answered {S : Type 0} (mtype flags seq ns : ℕ) (s : Suite S) : Type 0 where
  pub index : ℕ
  pub frame : Frame
  pub sent : get_elem? s.bench.transmit.txf index ≡ some frame
  pub looked : s.tx_seen ≡ index + 1
  pub typed : is_type mtype frame ≡ true
  pub answer : IsAnswer mtype flags seq ns frame

typed_frame : (m : ℕ) (f : Frame) → is_type m f ≡ true → is_empty f ≡ false
typed_frame m [] e = sym e
typed_frame m (x ∷ f) e = refl

module _ {S : Type 0} where
  grade_answer-Graded :
      {t : Tally} {n : ℕ} (mtype flags seq ns : ℕ) (f : Frame) {s : Suite S}
      → Graded t s n
      → Graded t (grade_answer mtype flags seq ns f s) n
  unfolding grade_answer
  grade_answer-Graded mtype flags seq ns f g =
      expect-weak _ _
        (expect-weak _ _ (expect-weak _ _ (check_common-Graded f mtype flags 54 0x7F g)))

  -- The checks of an answer leave all but the tally.
  grade_answer_rest :
      (mtype flags seq ns : ℕ) (f : Frame) (s : Suite S)
      → let c = grade_answer mtype flags seq ns f s in
        (c.bench.transmit ≡ s.bench.transmit) × (c.tx_seen ≡ s.tx_seen)
  unfolding grade_answer check_common expect
  grade_answer_rest mtype flags seq ns f s =
      if_cases (λ (c : Suite S). (c.bench.transmit ≡ s.bench.transmit) × (c.tx_seen ≡ s.tx_seen))
        (not (length f == 68)) (λ e. (refl, refl)) (λ e. (refl, refl))

  answered :
      (mtype flags seq ns : ℕ) (o : Option (ℕ × Frame)) (k : ℕ) (s : Suite S)
      → k ≤ fails s
      → Found mtype o s
      → let c = when_sent (grade_answer mtype flags seq ns) o s in
        fails c ≡ k → Answered mtype flags seq ns c
  unfolding when_sent
  answered mtype flags seq ns none k s le found e = absurd (cc found.gave)
  answered mtype flags seq ns (some (i, f)) k s le found e =
      let place : i ≡ found.index = cc found.gave in
      let same : f ≡ found.frame = cc found.gave in
      let typed : is_type mtype f ≡ true = ap (λ x. is_type mtype x) same ∙ found.typed in
      let full = typed_frame mtype f typed in
      let (transmit, seen) = grade_answer_rest mtype flags seq ns f s in
      let (answer, kept) = answer_clean mtype flags seq ns f k s le (rw full at e) in
      rw full record {
        index = i;
        frame = f;
        sent =
            ap (λ (t : Transmit). get_elem? t.txf i) transmit
            ∙ at_index s.bench.transmit.txf i found.index place
            ∙ found.sent
            ∙ ap (λ x. some x) (sym same);
        looked = seen ∙ found.looked ∙ ap (λ n. n + 1) (sym place);
        typed = typed;
        answer = answer;
      }

module _ (V : Verilated EngineIn EngineOut) (fuel : ℕ) where
  sent-Graded :
      {t : Tally} {n : ℕ} (mtype flags seq ns : ℕ) (o : Option (ℕ × Frame)) {s : Suite V.State}
      → Graded t s n
      → Graded t (when_sent (grade_answer mtype flags seq ns) o s) n
  unfolding when_sent
  sent-Graded mtype flags seq ns none g = g
  sent-Graded {t} {n} mtype flags seq ns (some (i, f)) g =
      if_cases (λ (c : Suite V.State). Graded t c n) (is_empty f) (λ e. g)
        (λ e. grade_answer-Graded mtype flags seq ns f g)

  wait_and_grade-Graded :
      {t : Tally} {n : ℕ} (mtype flags seq ns : ℕ) {s : Suite V.State}
      → Graded t s n
      → Graded t (wait_and_grade V fuel mtype (grade_answer mtype flags seq ns) s) n
  unfolding wait_and_grade
  wait_and_grade-Graded mtype flags seq ns {s} g =
      sent-Graded mtype flags seq ns (wait_tx V fuel (some mtype) 400000 0 s).0
        (wait_tx-Graded V fuel (some mtype) 400000 0 s g)

  wait_and_grade-Answered :
      (mtype flags seq ns k : ℕ) (s : Suite V.State)
      → k ≤ fails s
      → let c = wait_and_grade V fuel mtype (grade_answer mtype flags seq ns) s in
        fails c ≡ k → Answered mtype flags seq ns c
  unfolding wait_and_grade
  wait_and_grade-Answered mtype flags seq ns k s le e =
      let w = wait_tx V fuel (some mtype) 400000 0 s in
      let kept =
        (wait_tx-Graded V fuel (some mtype) 400000 0 s (Graded-start s)).bench.tally.kept in
      let graded = (sent-Graded mtype flags seq ns w.0 (Graded-start w.1)).bench.tally.kept in
      let found = wait_tx_clean V fuel mtype 400000 0 k s le (omega (arith, le, kept, graded, e)) in
      answered mtype flags seq ns w.0 k w.1 (omega (arith, le, kept)) found e

  -- The harness when the response has been graded.
  abbrev pub responded : Phased V.State → Suite V.State
  responded h =
      wait_and_grade V fuel 0x3 (grade_answer 0x3 0x0200 0x55AA 2000000)
        (on_bench (send_frame V (pdelay_req 0x55AA peer_cid) 2000000) h.suite)

  -- If phase 3 adds no failure, then the two waits for a response and for its Follow_Up each stopped
  -- right behind a transmitted frame of the type that they wait for, and that frame is a complete
  -- answer to the request of the peer: 68 octets from our address to the multicast one, with our identity
  -- and port, the header fields of its type, the request's sequenceId and requester, and the
  -- timestamp at which the request came in or the response went out.
  pub answer_the_peer-Answered :
      (h : Phased V.State)
      → let c = answer_a_peer_initiated_exchange V fuel h in
        fails c.suite ≡ fails h.suite
        → Answered 0x3 0x0200 0x55AA 2000000 (responded h)
          × Answered 0xA 0x0000 0x55AA 2050000 c.suite
  unfolding answer_a_peer_initiated_exchange txts
  answer_the_peer-Answered h e =
      let s0 = on_bench (send_frame V (pdelay_req 0x55AA peer_cid) 2000000) h.suite in
      let s1 = responded h in
      let s2 = txts V 2050000 s1 in
      let k0 : fails h.suite ≤ fails s0 =
        (send_frame-Clocked V (pdelay_req 0x55AA peer_cid) 2000000
          (Graded-start h.suite).bench).tally.kept in
      let k1 : fails s0 ≤ fails s1 =
        (wait_and_grade-Graded 0x3 0x0200 0x55AA 2000000 (Graded-start s0)).bench.tally.kept in
      let k2 : fails s1 ≤ fails s2 = (txts_idx-Graded V _ _ (Graded-start s1)).bench.tally.kept in
      let k3 =
        (wait_and_grade-Graded 0xA 0x0000 0x55AA 2050000 (Graded-start s2)).bench.tally.kept in
      let k = fails h.suite in
      (
        wait_and_grade-Answered 0x3 0x0200 0x55AA 2000000 k s0 k0
            (omega (arith, k0, k1, k2, k3, e)),
        wait_and_grade-Answered 0xA 0x0000 0x55AA 2050000 k s2 (omega (arith, k0, k1, k2)) e,
      )
