-- ===== src/Engine/Ports.antt =====
-- The ports of the Verilated `KL_gptp_engine` that the engine suites drive and read. A port of one bit
-- is a Bool, any other the number it carries.
use fpga_g_ptp.Base.{ℕ, ◌+◌, ◌*◌, Bool, false, not, List, bit_and, bit_or, ◌<<<◌, get_or, ◌==◌}

pub record EngineIn : Type 0 where
  pub clk_i : Bool
  pub rst_n : Bool
  pub rx_valid_i : Bool
  pub rx_data_i : ℕ
  pub rx_sof_i : Bool
  pub rx_eof_i : Bool
  pub rx_err_i : Bool
  pub rx_ts_i : ℕ
  pub tx_ready_i : Bool
  pub txts_valid_i : Bool
  pub txts_ns_i : ℕ
  pub txts_seq_i : ℕ
  pub txts_type_i : ℕ
  pub txts_ok_i : Bool
  pub txts_gen_i : ℕ
  pub tx_credit_i : Bool
  pub port_enabled_i : Bool

pub record EngineOut : Type 0 where
  pub tx_valid_o : Bool
  pub tx_data_o : ℕ
  pub tx_sof_o : Bool
  pub tx_eof_o : Bool
  pub txts_ready_o : Bool
  pub pub_gm_id_o : ℕ
  pub pub_parent_id_o : ℕ
  pub pub_path_count_o : ℕ
  pub pub_path_o : List ℕ
  pub pub_flags_o : ℕ
  pub pub_commit_o : Bool
  pub pub_pdelay_ns_o : ℕ
  pub pub_offset_o : ℕ
  pub pub_annq_o : ℕ
  pub phc_slew_active_o : Bool
  pub phc_addend_we_o : Bool
  pub phc_addend_o : ℕ
  pub phc_step_we_o : Bool
  pub phc_step_o : ℕ
  pub dbg_rx_drop_o : ℕ
  pub dbg_ev_drop_o : ℕ

-- Every port low: a model just elaborated.
abbrev pub idle_in : EngineIn
idle_in = record {
  clk_i = false;
  rst_n = false;
  rx_valid_i = false;
  rx_data_i = 0;
  rx_sof_i = false;
  rx_eof_i = false;
  rx_err_i = false;
  rx_ts_i = 0;
  tx_ready_i = false;
  txts_valid_i = false;
  txts_ns_i = 0;
  txts_seq_i = 0;
  txts_type_i = 0;
  txts_ok_i = false;
  txts_gen_i = 0;
  tx_credit_i = false;
  port_enabled_i = false;
}

-- `dut->pub_flags_o & mask`, as a condition.
abbrev pub has_flag : EngineOut → ℕ → Bool
has_flag o mask = not (bit_and o.pub_flags_o mask == 0)

-- Entry `k` of the published path, from two little-endian 32-bit words.
unfoldable pub pub_path_entry : EngineOut → ℕ → ℕ
pub_path_entry o k =
    bit_or (get_or o.pub_path_o (2 * k) 0) (get_or o.pub_path_o (2 * k + 1) 0 <<< 32)
