-- ===== src/Engine/Suite/Graded/Phases.antt =====
-- tb/verilator/engine/sim_main.cpp, how many comparisons the phases of the fourth pass make at least.
use fpga_g_ptp.Base.{
  ℕ, zero, suc, ◌+◌, ◌-◌, ◌%◌, refl, true, false, Option, none, some, ◌==◌, if_cases, is_empty,
  bit_and, for_range, for_range_inv,
}
use fpga_g_ptp.Harness.Verilated.{Verilated}
use fpga_g_ptp.Harness.Tally.{Tally}
use fpga_g_ptp.Wire.{Frame}
use fpga_g_ptp.Engine.Const.{fl_ascap}
use fpga_g_ptp.Engine.Ports.{EngineIn, EngineOut}
use fpga_g_ptp.Engine.Bench.{Bench, outs}
use fpga_g_ptp.Engine.Pdelay.Peer.{pd_normal}
use fpga_g_ptp.Engine.Suite.{Suite, on_bench, run_svc}
use fpga_g_ptp.Engine.Suite.Phased.{Phased}
use fpga_g_ptp.Engine.Suite.Boot.{
  hold_in_reset, release_reset, refuse_the_deep_announce, bring_the_engine_out_of_reset,
  grade_request, check_the_boot_pdelay_request, grade_boot, publish_thisclock_before_any_peer,
}
use fpga_g_ptp.Engine.Suite.Capable.{
  auto_results, grade_mastership, raise_ascapable_on_the_second_exchange,
  become_master_on_announce_receipt_timeout,
}
use fpga_g_ptp.Engine.Suite.Loss.{
  Sent, on_sent, d_sync, d_announce, lose_round, lose_loop, lose_the_peer, refuse_the_incapable,
  rise_again, elect_the_worse, drop_a_peer_whose_pdelay_stops,
}
use fpga_g_ptp.Engine.Suite.Graded.{
  Clocked, Clocked-same, Graded, Graded-same, expect-Graded, expect-weak, run-Clocked,
  run_on-Graded,
}
use fpga_g_ptp.Engine.Suite.Graded.Peer.{
  run_svc-Graded, wait_flags-Graded, wait_tx-Graded, send_announce-Graded, sync_pair-Graded,
  check_common-Graded,
}

mastership-Graded :
    {S : Type 0} {t : Tally} {n : ℕ} {s : Suite S} (o : EngineOut)
    → Graded t s n
    → Graded t
        (grade_mastership o s)
        (suc (suc (suc (suc (suc (suc (suc (suc (suc (suc (suc (suc n))))))))))))
unfolding grade_mastership for_range
mastership-Graded o g = search (expect-Graded) depth 40

module _ (V : Verilated EngineIn EngineOut) (fuel : ℕ) {t : Tally} {n : ℕ} where
  hold-Clocked : {b : Bench V.State} → Clocked t b n → Clocked t (hold_in_reset V b) n
  unfolding hold_in_reset
  hold-Clocked g = run-Clocked V 8 (Clocked-same _ refl g)

  release-Graded : (h : Phased V.State) → Graded t h.suite n → Graded t (release_reset V h).suite n
  unfolding release_reset
  release-Graded h g = record { bench = run-Clocked V 2 (Clocked-same _ refl g.bench) }

  deep-Graded :
      {s : Suite V.State}
      → Graded t s n
      → Graded t (refuse_the_deep_announce V fuel s) (suc (suc (suc n)))
  unfolding refuse_the_deep_announce
  deep-Graded g =
      let sent = send_announce-Graded V fuel _ _ _ _ _ _ _ false g in
      expect-Graded _ _ (expect-Graded _ _ (expect-Graded _ _ sent))

  grade_request-Graded :
      (req : Option (ℕ × Frame)) {s : Suite V.State}
      → Graded t s n
      → Graded t (grade_request V req s) n
  unfolding grade_request
  grade_request-Graded none g = g
  grade_request-Graded (some (i, f)) g =
      if_cases (λ (c : Suite V.State). Graded t c n) (is_empty f) (λ e. g)
        (λ e. expect-weak _ _ (check_common-Graded f 0x2 0x0000 54 0x00 g))

module _ (V : Verilated EngineIn EngineOut) (fuel : ℕ) {t : Tally} {n : ℕ} where
  pub bring-Graded :
      (h : Phased V.State)
      → Graded t h.suite n
      → Graded t (bring_the_engine_out_of_reset V fuel h).suite (suc (suc (suc (suc (suc n)))))
  unfolding bring_the_engine_out_of_reset
  bring-Graded h g =
      let held : Graded t (on_bench (hold_in_reset V) h.suite) n = record {
        bench = hold-Clocked V fuel g.bench;
      } in
      deep-Graded V fuel (release-Graded V fuel _ (expect-Graded _ 0 (expect-Graded _ 0 held)))

  pub request-Graded :
      (h : Phased V.State)
      → Graded t h.suite n
      → Graded t (check_the_boot_pdelay_request V fuel h).suite (suc n)
  unfolding check_the_boot_pdelay_request
  request-Graded h g =
      let waited = wait_tx-Graded V fuel (some 0x2) 3200000 0 h.suite g in
      expect-Graded _ _ (grade_request-Graded V fuel _ (Graded-same _ refl waited))

  pub publish-Graded :
      (h : Phased V.State)
      → Graded t h.suite n
      → Graded t
          (publish_thisclock_before_any_peer V h).suite
          (suc (suc (suc (suc (suc (suc (suc n)))))))
  unfolding publish_thisclock_before_any_peer grade_boot
  publish-Graded h g = search (expect-Graded) depth 40

  pub capable-Graded :
      {s : Suite V.State}
      → Graded t s n
      → Graded t (raise_ascapable_on_the_second_exchange V fuel s) (suc (suc (suc n)))
  unfolding raise_ascapable_on_the_second_exchange auto_results
  capable-Graded g =
      let waited = wait_flags-Graded V fuel fl_ascap fl_ascap 6000000 (Graded-same _ refl g) in
      expect-Graded _ _ (expect-Graded _ _ (expect-Graded _ _ waited))

  pub master-Graded :
      {s : Suite V.State}
      → Graded t s n
      → Graded t
          (become_master_on_announce_receipt_timeout V fuel s)
          (suc (suc (suc (suc (suc (suc (suc (suc (suc (suc (suc (suc (suc n)))))))))))))
  unfolding become_master_on_announce_receipt_timeout
  master-Graded g =
      let waited = wait_flags-Graded V fuel 2 2 12000000 g in
      mastership-Graded _ (run_on-Graded V 200 (expect-Graded _ 1 waited))

module _ (V : Verilated EngineIn EngineOut) (fuel : ℕ) {t : Tally} {n : ℕ} where
  d_sync-Graded : (p : Sent V.State) → Graded t p.suite n → Graded t (d_sync V fuel p).suite n
  unfolding d_sync
  d_sync-Graded p g = sync_pair-Graded V _ _ _ _ g

  d_announce-Graded :
      (p : Sent V.State) → Graded t p.suite n → Graded t (d_announce V fuel p).suite n
  unfolding d_announce
  d_announce-Graded p g = send_announce-Graded V fuel _ _ _ _ _ _ _ false g

  lose_round-Graded :
      (k : ℕ) (p : Sent V.State) → Graded t p.suite n → Graded t (lose_round V fuel k p).suite n
  unfolding lose_round
  lose_round-Graded k p g =
      let synced = d_sync-Graded _ (run_svc-Graded V fuel (250000 - 8000) g) in
      if_cases (λ (q : Sent V.State). Graded t q.suite n) (k % 8 == 7)
        (λ e. d_announce-Graded _ synced) (λ e. synced)

  lose_loop-Graded :
      (rounds k : ℕ) (p : Sent V.State)
      → Graded t p.suite n
      → Graded t (lose_loop V fuel rounds k p).suite n
  unfolding lose_loop
  lose_loop-Graded zero k p g = g
  lose_loop-Graded (suc rounds) k p g =
      elim (bit_and (outs V p.suite.bench).pub_flags_o fl_ascap == 0)
        as (λ o.
          let q : Sent V.State = elim o [
            | true ↦ p
            | false ↦ lose_loop V fuel rounds (k + 1) (lose_round V fuel k p)
          ] in
          Graded t q.suite n) [
            | true ↦ g
            | false ↦ lose_loop-Graded rounds (k + 1) _ (lose_round-Graded k p g)
          ]

  lose-Graded :
      (p : Sent V.State)
      → Graded t p.suite n
      → Graded t (lose_the_peer V fuel p).suite (suc (suc (suc n)))
  unfolding lose_the_peer
  lose-Graded p g =
      let normal : Graded t (record p.suite { pd_mode = pd_normal }) n = Graded-same _ refl g in
      let waited = wait_flags-Graded V fuel fl_ascap fl_ascap 9000000 normal in
      let synced = d_sync-Graded _ (d_announce-Graded _ waited) in
      let lost = lose_loop-Graded 64 0 _ (Graded-same _ refl synced) in
      let ran = run_svc-Graded V fuel 20000 lost in
      expect-Graded _ _ (expect-Graded _ _ (expect-Graded _ _ ran))

  incapable-Graded :
      (p : Sent V.State)
      → Graded t p.suite n
      → Graded t (refuse_the_incapable V fuel p).suite (suc n)
  unfolding refuse_the_incapable
  incapable-Graded p g = expect-Graded _ 1 (
      for_range_inv (λ (q : Sent V.State). Graded t q.suite n)
        (λ beat q. d_announce V fuel (on_sent (run_svc V fuel 2000000) q))
        (λ beat q h.
          d_announce-Graded (on_sent (run_svc V fuel 2000000) q) (run_svc-Graded V fuel 2000000 h))
        3 0 (d_announce V fuel p) (d_announce-Graded p g))

  rise-Graded :
      {s : Suite V.State} → Graded t s n → Graded t (rise_again V fuel s) (suc (suc (suc n)))
  unfolding rise_again
  rise-Graded {s} g =
      let capable = wait_flags-Graded V fuel fl_ascap fl_ascap 9000000 (Graded-same _ refl g) in
      let master = wait_flags-Graded V fuel 2 2 6100000 capable in
      let ran = run_on-Graded V 200 master in
      expect-Graded _ _ (expect-Graded _ _ (expect-Graded _ _ ran))

  worse-Graded :
      (seq : ℕ) {s : Suite V.State} → Graded t s n → Graded t (elect_the_worse V fuel seq s) (suc n)
  unfolding elect_the_worse
  worse-Graded seq g = expect-Graded _ 1 (send_announce-Graded V fuel _ _ _ _ _ _ _ false g)

module _ (V : Verilated EngineIn EngineOut) (fuel : ℕ) {t : Tally} {n : ℕ} where
  pub drop-Graded :
      {s : Suite V.State}
      → Graded t s n
      → Graded t
          (drop_a_peer_whose_pdelay_stops V fuel s)
          (suc (suc (suc (suc (suc (suc (suc (suc n))))))))
  unfolding drop_a_peer_whose_pdelay_stops
  drop-Graded {s} g =
      let start : Sent V.State = record { suite = s; seq = 0x8401; sseq = 0x8601 } in
      let lost = lose-Graded V fuel start g in
      let refused = incapable-Graded V fuel (lose_the_peer V fuel start) lost in
      worse-Graded V fuel _ (rise-Graded V fuel refused)
