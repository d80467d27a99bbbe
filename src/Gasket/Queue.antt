-- ===== src/Gasket/Queue.antt =====
-- tb/verilator/gaskets/sim_main.cpp, the frames that go in and come out: `push_frame`, `mk_frame` and
-- `pop_frame`.
pub mod Laws
pub mod Waits
use fpga_g_ptp.Base.{
  ℕ, zero, suc, ◌+◌, ◌-◌, ◌*◌, ◌%◌, ◌^◌, Bool, true, false, ◌||◌, Option, none, some, List, [], ◌∷◌,
  map, if◌then◌else◌, ltb, length, is_empty, drop, take, u8,
}
use fpga_g_ptp.Harness.Verilated.{Verilated}
use fpga_g_ptp.Wire.{Frame}
use fpga_g_ptp.Gasket.Clock.{GasketIn, GasketOut, RxWord, Bench, outs, tick}

-- `b[i] = (uint8_t)(seed + i * 7)`, from index `i` on.
unfoldable pub mk_bytes : (i seed len : ℕ) → Frame
mk_bytes i seed zero = []
mk_bytes i seed (suc len) = u8 (seed + i * 7) ∷ mk_bytes (i + 1) seed len

unfoldable pub mk_frame : (len seed : ℕ) → Frame
unfolding mk_bytes
mk_frame len seed = mk_bytes 0 seed len

-- `while (rp < rxw.size() && !rxw[rp].sof) rp++`, as the words skipped.
unfoldable pub to_sof : List RxWord → ℕ
to_sof [] = 0
to_sof (w ∷ ws) = if w.sof then 0 else suc (to_sof ws)

-- The words up to the first `eof`, that word included.
unfoldable pub to_eof : List RxWord → Option (List RxWord)
to_eof [] = none
to_eof (w ∷ ws) =
    let rest = to_eof ws in
    if w.eof then some (w ∷ []) else (elim rest [ none ↦ none | some ws' ↦ some (w ∷ ws') ])

abbrev pub bytes_of : List RxWord → Frame
bytes_of [] = []
bytes_of (w ∷ ws) = w.byte ∷ bytes_of ws

abbrev pub any_err : List RxWord → Bool
any_err [] = false
any_err (w ∷ ws) = w.err || any_err ws

pub record Popped : Type 0 where
  pub out : Frame
  pub err : Bool

-- The read pointer and the frame, of the words from `start` on.
abbrev pub found : (start : ℕ) → Option (List RxWord) → ℕ × Option Popped
found start none = (start, none)
found start (some ws) = (start + length ws, some (record { out = bytes_of ws; err = any_err ws }))

-- One look at the received words: the read pointer after it, and the frame if it is complete.
unfoldable pub look : (rxw : List RxWord) (rp : ℕ) → ℕ × Option Popped
unfolding to_sof to_eof
look rxw rp = let start = rp + to_sof (drop rp rxw) in found start (to_eof (drop start rxw))

-- `++stall > 100000` gives up at the 100001st refusal.
abbrev pub push_limit : ℕ
push_limit = 100001

module _ (V : Verilated GasketIn GasketOut) where
  -- The clocks of one byte, already on the ports, and whether it was accepted: the byte is given up
  -- when it was refused as often as there is fuel.
  unfoldable pub push_byte : (fuel : ℕ) → Bench V.State → Bool × Bench V.State
  unfolding tick
  push_byte zero b = (false, b)
  push_byte (suc fuel) b = elim (outs V b).tx_ready_o [
    | true ↦ (true, tick V b)
    | false ↦ push_byte fuel (tick V b)
  ]

  abbrev pub drive_byte : (byte : ℕ) (sof eof : Bool) → Bench V.State → Bench V.State
  drive_byte byte sof eof b = record b {
    ports = record b.ports { tx_valid_i = true; tx_data_i = byte; tx_sof_i = sof; tx_eof_i = eof };
  }

  abbrev pub give_up : Bench V.State → Bench V.State
  give_up b = record b { push_timeouts = b.push_timeouts + 1 }

  unfoldable pub push_bytes : (first : Bool) → Frame → Bench V.State → Bench V.State
  unfolding push_byte
  push_bytes first [] b = b
  push_bytes first (x ∷ xs) b =
      let pushed = push_byte push_limit (drive_byte x first (is_empty xs) b) in
      let rest = push_bytes false xs pushed.1 in if pushed.0 then rest else give_up pushed.1

  unfoldable pub push_frame : Frame → Bench V.State → Bench V.State
  unfolding push_bytes
  push_frame f b =
      let c = push_bytes true f b in
      record c { ports = record c.ports { tx_valid_i = false; tx_sof_i = false; tx_eof_i = false } }

  -- What was found, or what later looks find.
  abbrev pub pop_or :
      (later : Option Popped × Bench V.State)
      → Option Popped
      → Bench V.State
      → Option Popped × Bench V.State
  pop_or later none b = later
  pop_or later (some popped) b = (some popped, b)

  -- One look before each clock, for `budget` clocks at most.
  unfoldable pub pop_frame : (budget : ℕ) → Bench V.State → Option Popped × Bench V.State
  unfolding look tick
  pop_frame zero b = (none, b)
  pop_frame (suc budget) b =
      let seen = look b.rxw b.rp in
      let c = record b { rp = seen.0 } in
      let later = pop_frame budget (tick V c) in pop_or later seen.1 c
