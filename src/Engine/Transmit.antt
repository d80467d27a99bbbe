-- ===== src/Engine/Transmit.antt =====
-- The transmit side of the engine suite: the bytes accepted on the TX face become frames.
pub mod Laws
pub mod Stream
use fpga_g_ptp.Base.{
  ℕ, ◌+◌, ◌-◌, Bool, true, false, ◌&&◌, Option, none, some, List, [], ◌==◌, if◌then◌else◌, snoc,
  length, set, count_u64,
}
use fpga_g_ptp.Wire.{Frame}
use fpga_g_ptp.Wire.Read.{type_of}

pub record Transmit : Type 0 where
  pub pd_reqs_sent : ℕ
  pub txf : List Frame
  pub txns : List ℕ
  pub txsof : List ℕ
  pub txstarts : List ℕ
  pub cur_sof : ℕ
  pub cur : Frame
  pub in_tx : Bool
  pub auto_txts : Bool
  pub auto_pend : Option ℕ  -- `none` is the -1 of the source

abbrev pub initial : Transmit
initial = record {
  pd_reqs_sent = 0;
  txf = [];
  txns = [];
  txsof = [];
  txstarts = [];
  cur_sof = 0;
  cur = [];
  in_tx = false;
  auto_txts = false;
  auto_pend = none;
}

-- What the TX face shows where a clock samples it.
pub record Beat : Type 0 where
  pub fire : Bool
  pub sof : Bool
  pub eof : Bool
  pub byte : ℕ

unfoldable pub start_frame : (cyc : ℕ) → Beat → Transmit → Transmit
start_frame cyc beat t =
    if beat.sof
    then record t { cur = []; in_tx = true; cur_sof = cyc; txstarts = snoc t.txstarts cyc }
    else t

unfoldable pub take_byte : Beat → Transmit → Transmit
take_byte beat t = if t.in_tx then record t { cur = snoc t.cur beat.byte } else t

unfoldable pub end_frame : Beat → Transmit → Transmit
end_frame beat t =
    if beat.eof && t.in_tx
    then record t {
      pd_reqs_sent = count_u64 (type_of t.cur == 0x2) t.pd_reqs_sent;
      txf = snoc t.txf t.cur;
      txns = snoc t.txns 0;
      txsof = snoc t.txsof t.cur_sof;
      auto_pend = if t.auto_txts then some (length t.txf) else t.auto_pend;
      in_tx = false;
    }
    else t

-- The branch `if (tx_fire)` of `tick`.
unfoldable pub capture : (cyc : ℕ) → Beat → Transmit → Transmit
unfolding start_frame take_byte end_frame
capture cyc beat t =
    if beat.fire then end_frame beat (take_byte beat (start_frame cyc beat t)) else t

-- `txns[auto_pend] = ns; auto_pend = -1`
unfoldable pub stamp : (idx ns : ℕ) → Transmit → Transmit
stamp idx ns t = record t { txns = set t.txns idx ns; auto_pend = none }
