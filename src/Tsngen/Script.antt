-- ===== src/Tsngen/Script.antt =====
-- tb/tsngen/tsngen_main.cpp, the commands of the script and `run_script`. A line is taken as the command
-- that its words make; the splitting into words is the iostream library's.
pub mod Laws
use fpga_g_ptp.Base.{
  ℕ, zero, suc, ◌+◌, ◌-◌, ◌*◌, ◌/◌, ◌%◌, ◌^◌, Bool, true, false, not, ◌&&◌, Option, none, some,
  List, [], ◌∷◌, ◌++◌, ◌==◌, if◌then◌else◌, ltb, length, is_empty, get_or, drop, bit_and, snoc, u8,
}
use fpga_g_ptp.Base.Int.{ℤ, to_i32}
use fpga_g_ptp.Harness.Verilated.{Verilated}
use fpga_g_ptp.Wire.{Frame}
use fpga_g_ptp.Engine.Ports.{EngineIn, EngineOut, has_flag}
use fpga_g_ptp.Tsngen.Clock.{
  Session, session, outs, tick, run, send_frame, bring_the_engine_out_of_reset,
}
use fpga_g_ptp.Tsngen.Peer.{pump}

-- A frame is written as hexadecimal digits.
pub data Command : Type 0 where
  blank boot master pub_bank txdump unknown : Command
  rx : (hex : List ℕ) (ts : ℕ) → Command
  run_for : (n : ℕ) → Command

-- What goes to standard output and standard error.
pub data Line : Type 0 where
  ok_boot ok_master no_pdreq no_ascapable master_timeout unknown_command end_tx : Line
  published : (gm parent flags pdelay : ℕ) (offset : ℤ) (annq rxdrop evdrop : ℕ) → Line
  transmitted : (hex : List ℕ) (ts : ℕ) → Line

-- The loop of `inject_one_frame`: two digits to a byte, a last odd digit dropped.
unfoldable pub bytes_of_hex : List ℕ → Frame
bytes_of_hex [] = []
bytes_of_hex (d ∷ []) = []
bytes_of_hex (d ∷ e ∷ ds) = u8 (d * 16 + e) ∷ bytes_of_hex ds

-- `%02x` of each byte.
unfoldable pub hex_of_bytes : Frame → List ℕ
hex_of_bytes [] = []
hex_of_bytes (v ∷ vs) = v / 16 ∷ v % 16 ∷ hex_of_bytes vs

-- The lines of the frames from index `i` on.
unfoldable pub dump_lines : (txf : List Frame) (txns : List ℕ) → List Line
unfolding hex_of_bytes
dump_lines [] txns = []
dump_lines (f ∷ fs) [] = transmitted (hex_of_bytes f) 0 ∷ dump_lines fs []
dump_lines (f ∷ fs) (ns ∷ nss) = transmitted (hex_of_bytes f) ns ∷ dump_lines fs nss

module _ (V : Verilated EngineIn EngineOut) where
  -- `while (txf.empty() && n++ < 3200000ull) tick();`
  unfoldable pub await_request : (n : ℕ) → Session V.State → Session V.State
  unfolding tick
  await_request zero s = s
  await_request (suc n) s = elim (is_empty s.txf) [ true ↦ await_request n (tick V s) | false ↦ s ]

  -- `while (!(dut->pub_flags_o & mask) && n < limit) { pump(64); n += 64; }`, in turns.
  unfoldable pub await_flag : (fuel turns mask : ℕ) → Session V.State → Session V.State
  unfolding pump
  await_flag fuel zero mask s = s
  await_flag fuel (suc turns) mask s = elim (has_flag (outs V s) mask) [
    | true ↦ s
    | false ↦ await_flag fuel turns mask (pump V fuel 64 s)
  ]

  -- Whether it succeeds, the line printed, and the session.
  unfoldable pub boot_until_ascapable : (fuel : ℕ) → Session V.State → Bool × Line × Session V.State
  unfolding await_request await_flag pump
  boot_until_ascapable fuel s =
      let t = await_request 3200000 s in
      elim (is_empty t.txf) [
        | true ↦ (false, no_pdreq, t)
        | false ↦
            let u = await_flag fuel 93750 4 (pump V fuel 64 (record t { auto_pd = true })) in
            if has_flag (outs V u) 4 then (true, ok_boot, u) else (false, no_ascapable, u)
      ]

  unfoldable pub pump_until_the_announce_timeout_elects_us :
      (fuel : ℕ) → Session V.State → Bool × Line × Session V.State
  unfolding await_flag
  pump_until_the_announce_timeout_elects_us fuel s =
      let u = await_flag fuel 187500 2 s in
      if has_flag (outs V u) 2 then (true, ok_master, u) else (false, master_timeout, u)

  unfoldable pub inject_one_frame :
      (fuel : ℕ) (hex : List ℕ) (ts : ℕ) → Session V.State → Session V.State
  unfolding bytes_of_hex send_frame pump
  inject_one_frame fuel hex ts s = pump V fuel 4000 (send_frame V (bytes_of_hex hex) ts s)

  unfoldable pub print_the_publish_bank : Session V.State → Line
  print_the_publish_bank s =
      let o = outs V s in
      published o.pub_gm_id_o o.pub_parent_id_o o.pub_flags_o o.pub_pdelay_ns_o
        (to_i32 o.pub_offset_o) o.pub_annq_o o.dbg_rx_drop_o o.dbg_ev_drop_o

  unfoldable pub dump_the_frames_transmitted_since_the_last_dump :
      (fuel : ℕ) → Session V.State → List Line × Session V.State
  unfolding dump_lines pump
  dump_the_frames_transmitted_since_the_last_dump fuel s =
      let t = pump V fuel 256 s in
      (
        snoc (dump_lines (drop t.dumped t.txf) (drop t.dumped t.txns)) end_tx,
        record t { dumped = length t.txf },
      )

  -- `if (!passed) return 1;`, between the rest of the script and its end here.
  abbrev pub run_on :
      Bool → (go stop : ℕ × List Line × Session V.State) → ℕ × List Line × Session V.State
  run_on true go stop = go
  run_on false go stop = stop

  -- The lines of the script: the exit status, what is printed, and the session.
  unfoldable pub run_lines :
      (fuel : ℕ) → List Command → Session V.State → ℕ × List Line × Session V.State
  unfolding boot_until_ascapable pump_until_the_announce_timeout_elects_us inject_one_frame
      print_the_publish_bank dump_the_frames_transmitted_since_the_last_dump pump
  run_lines fuel [] s = (0, [], s)
  run_lines fuel (blank ∷ cs) s = run_lines fuel cs s
  run_lines fuel (boot ∷ cs) s =
      let done = boot_until_ascapable fuel s in
      let rest = run_lines fuel cs done.2 in
      run_on done.0 (rest.0, done.1 ∷ rest.1, rest.2) (1, done.1 ∷ [], done.2)
  run_lines fuel (master ∷ cs) s =
      let done = pump_until_the_announce_timeout_elects_us fuel s in
      let rest = run_lines fuel cs done.2 in
      run_on done.0 (rest.0, done.1 ∷ rest.1, rest.2) (1, done.1 ∷ [], done.2)
  run_lines fuel (rx hex ts ∷ cs) s = run_lines fuel cs (inject_one_frame fuel hex ts s)
  run_lines fuel (run_for n ∷ cs) s = run_lines fuel cs (pump V fuel n s)
  run_lines fuel (pub_bank ∷ cs) s =
      let rest = run_lines fuel cs s in (rest.0, print_the_publish_bank s ∷ rest.1, rest.2)
  run_lines fuel (txdump ∷ cs) s =
      let dump = dump_the_frames_transmitted_since_the_last_dump fuel s in
      let rest = run_lines fuel cs dump.1 in (rest.0, dump.0 ++ rest.1, rest.2)
  run_lines fuel (unknown ∷ cs) s = (2, unknown_command ∷ [], s)

  unfoldable pub run_script : (fuel : ℕ) → List Command → ℕ × List Line × Session V.State
  unfolding bring_the_engine_out_of_reset run_lines
  run_script fuel script = run_lines fuel script (bring_the_engine_out_of_reset V (session V))
