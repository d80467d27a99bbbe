-- ===== src/Engine/Suite/Pass.antt =====
-- tb/verilator/engine/sim_main.cpp, `run_the_self_publication_phases` and the verdict of
-- `run_suite`.
pub mod Laws
use fpga_g_ptp.Base.{ℕ, true, Option, none, some, if◌then◌else◌}
use fpga_g_ptp.Harness.Verilated.{Verilated}
use fpga_g_ptp.Harness.Tally.{exit_status}
use fpga_g_ptp.Engine.Ports.{EngineIn, EngineOut}
use fpga_g_ptp.Engine.Suite.{Suite}
use fpga_g_ptp.Engine.Suite.Phased.{Phased, phased, on_suite}
use fpga_g_ptp.Engine.Suite.Send.{txts_idx}
use fpga_g_ptp.Engine.Suite.Boot.{
  bring_the_engine_out_of_reset, check_the_boot_pdelay_request, publish_thisclock_before_any_peer,
}
use fpga_g_ptp.Engine.Suite.Capable.{
  raise_ascapable_on_the_second_exchange, become_master_on_announce_receipt_timeout,
}
use fpga_g_ptp.Engine.Suite.Loss.{drop_a_peer_whose_pdelay_stops}
use fpga_g_ptp.Engine.Suite.Present.{
  age_only_while_a_grandmaster_is_present,
  clear_sync_ok_when_sync_stops_without_a_grandmaster_present,
}
use fpga_g_ptp.Engine.Suite.Record.{
  hold_every_committed_path_coherent, keep_sync_ok_in_every_master_cycle,
  end_every_peer_path_with_thisclock, announce_the_image_clock_accuracy,
}

-- The phases that clock nothing, on the record of the whole pass.
unfoldable pub grade_the_record : {S : Type 0} → Suite S → Suite S
grade_the_record s = announce_the_image_clock_accuracy (
    end_every_peer_path_with_thisclock
      (keep_sync_ok_in_every_master_cycle (hold_every_committed_path_coherent s)))

-- `fuel` is that of `service_pdelay`.
module _ (V : Verilated EngineIn EngineOut) (fuel : ℕ) where
  -- The boot phases; the stamp of the boot request is returned behind them.
  unfoldable pub boot_phases : Phased V.State → Phased V.State
  boot_phases h =
      publish_thisclock_before_any_peer V
        (check_the_boot_pdelay_request V fuel (bring_the_engine_out_of_reset V fuel h))

  unfoldable pub return_boot_stamp : Phased V.State → Phased V.State
  return_boot_stamp h = on_suite (txts_idx V h.marks.our_req_idx h.marks.t1) h

  unfoldable pub peer_phases : Suite V.State → Suite V.State
  peer_phases s = age_only_while_a_grandmaster_is_present V fuel (
      drop_a_peer_whose_pdelay_stops V fuel (
        become_master_on_announce_receipt_timeout V fuel
          (raise_ascapable_on_the_second_exchange V fuel s)))

  unfoldable pub run_the_self_publication_phases : Phased V.State → Phased V.State
  run_the_self_publication_phases h =
      let h = on_suite peer_phases (return_boot_stamp (boot_phases h)) in
      on_suite grade_the_record
        (clear_sync_ok_when_sync_stops_without_a_grandmaster_present V fuel h)

  -- The harness of the fourth pass, constructed and run.
  unfoldable pub self_publication_pass : Phased V.State
  self_publication_pass = run_the_self_publication_phases (phased V true)

  -- `return fails ? 1 : 0;`, and `none` where some call of `service_pdelay` goes on past its fuel.
  unfoldable pub pass_status : Option ℕ
  pass_status =
      let s = self_publication_pass.suite in
      if s.is_cut then none else some (exit_status s.bench.tally)
