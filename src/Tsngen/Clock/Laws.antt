-- ===== src/Tsngen/Clock/Laws.antt =====
-- The records of a session.
use fpga_g_ptp.Base.{
  ℕ, ◌<◌, ◌≡◌, Bool, true, false, ◌&&◌, Option, none, some, arith, length, length-snoc, length-set,
  repeat_inv, if_cases,
}
use fpga_g_ptp.Harness.Verilated.{Verilated}
use fpga_g_ptp.Engine.Ports.{EngineIn, EngineOut}
use fpga_g_ptp.Tsngen.Clock.{
  Session, egress_ns, offer, start_frame, take_byte, end_frame, capture, outs, clock, settle, tick,
  run,
}

-- A stamp for each frame, a pending stamp that names a frame.
pub record IsStamped {S : Type 0} (s : Session S) : Type 0 where
  pub stamps : length s.txns ≡ length s.txf
  pub pending : (i : ℕ) → s.auto_pend ≡ some i → i < length s.txf

offer-IsStamped :
    {S : Type 0} (pend : Option ℕ) (s : Session S) → IsStamped s → IsStamped (offer pend s)
unfolding offer
offer-IsStamped none s r = r
offer-IsStamped (some idx) s r =
    if_cases IsStamped s.ports.txts_valid_i (λ e. r)
      (λ e. record {
        stamps = omega (arith, r.stamps, length-set s.txns idx (egress_ns idx));
        pending = λ i h. ground arith;
      })

start_frame-IsStamped :
    {S : Type 0} (o : EngineOut) (s : Session S) → IsStamped s → IsStamped (start_frame o s)
unfolding start_frame
start_frame-IsStamped o s r =
    if_cases IsStamped o.tx_sof_o (λ e. record { stamps = r.stamps; pending = r.pending }) (λ e. r)

take_byte-IsStamped :
    {S : Type 0} (o : EngineOut) (s : Session S) → IsStamped s → IsStamped (take_byte o s)
unfolding take_byte
take_byte-IsStamped o s r =
    if_cases IsStamped s.in_tx (λ e. record { stamps = r.stamps; pending = r.pending }) (λ e. r)

end_frame-IsStamped :
    {S : Type 0} (o : EngineOut) (s : Session S) → IsStamped s → IsStamped (end_frame o s)
unfolding end_frame
end_frame-IsStamped o s r =
    if_cases IsStamped (o.tx_eof_o && s.in_tx)
      (λ e. record {
        stamps = omega (arith, r.stamps, length-snoc s.txns 0, length-snoc s.txf s.cur);
        pending = λ i h. ground (arith, length-snoc s.txf s.cur);
      })
      (λ e. r)

capture-IsStamped :
    {S : Type 0} (o : EngineOut) (s : Session S) → IsStamped s → IsStamped (capture o s)
unfolding capture
capture-IsStamped o s r =
    let t = start_frame o s in
    let u = take_byte o t in
    if_cases IsStamped o.tx_valid_o
      (λ e. end_frame-IsStamped o u (take_byte-IsStamped o t (start_frame-IsStamped o s r)))
      (λ e. r)

module _ (V : Verilated EngineIn EngineOut) where
  clock-IsStamped : (level : Bool) (s : Session V.State) → IsStamped s → IsStamped (clock V level s)
  unfolding clock
  clock-IsStamped level s r = record { stamps = r.stamps; pending = r.pending }

  settle-IsStamped :
      (taken : Bool) (s : Session V.State) → IsStamped s → IsStamped (settle V taken s)
  unfolding settle
  settle-IsStamped taken s r =
      if_cases IsStamped taken (λ e. record { stamps = r.stamps; pending = r.pending }) (λ e. r)

  tick-IsStamped : (s : Session V.State) → IsStamped s → IsStamped (tick V s)
  unfolding tick
  tick-IsStamped s r =
      let offered = offer-IsStamped s.auto_pend s r in
      let low = clock V false (offer s.auto_pend s) in
      let high = clock V true low in
      settle-IsStamped _ (capture (outs V high) high) (
        capture-IsStamped (outs V high) high
          (clock-IsStamped true low (clock-IsStamped false (offer s.auto_pend s) offered)))

  -- Whatever the engine does, after any number of clocks of a session that has a stamp entry for each captured frame and
  -- whose pending stamp, if any, names a captured frame, both hold again.
  pub run-IsStamped : (n : ℕ) (s : Session V.State) → IsStamped s → IsStamped (run V n s)
  unfolding run
  run-IsStamped n s r = repeat_inv IsStamped (tick V) tick-IsStamped n s r
