-- ===== src/Engine/Watch.antt =====
-- tb/verilator/engine/sim_main.cpp, what the harness records of each clock beside the frames: the slew
-- edges, the boot grades, the master grades and the snapshots of the published state.
pub mod Laws
use fpga_g_ptp.Base.{
  ℕ, zero, suc, ◌+◌, ◌*◌, Bool, true, false, not, ◌&&◌, List, [], ◌∷◌, ◌==◌, if◌then◌else◌, ltb,
  snoc, length, get_or, is_empty, differ, bit_and, add_u64, count_u64,
}
use fpga_g_ptp.Engine.Const.{our_cid, fl_present, fl_amgm, fl_syncok}
use fpga_g_ptp.Engine.Ports.{EngineOut, has_flag, pub_path_entry}

pub record PubSnap : Type 0 where
  pub gm : ℕ
  pub parent : ℕ
  pub count : ℕ
  pub head : ℕ
  pub tail : List ℕ
  pub cyc : ℕ
  pub flags : ℕ

abbrev pub path_tail_slots : ℕ
path_tail_slots = 7

abbrev pub max_commit_snaps : ℕ
max_commit_snaps = 1000000

pub record Watch : Type 0 where
  pub commits_seen : ℕ
  pub commit_snaps : List PubSnap
  pub boot_watch : Bool
  pub boot_cycles : ℕ
  pub boot_bad_gm : ℕ
  pub boot_bad_path : ℕ
  pub boot_bad_present : ℕ
  pub master_cycles : ℕ
  pub master_unsynced_cycles : ℕ
  pub slew_edges : List (ℕ × Bool)
  pub slew_previous : Bool
  pub slew_async_changes : ℕ
  pub slew_early_clears : ℕ

abbrev pub initial : Watch
initial = record {
  commits_seen = 0;
  commit_snaps = [];
  boot_watch = false;
  boot_cycles = 0;
  boot_bad_gm = 0;
  boot_bad_path = 0;
  boot_bad_present = 0;
  master_cycles = 0;
  master_unsynced_cycles = 0;
  slew_edges = [];
  slew_previous = false;
  slew_async_changes = 0;
  slew_early_clears = 0;
}

-- `pub_path_head()` and `pub_path_tail(slot)`
abbrev pub pub_path_head : EngineOut → ℕ
pub_path_head o = pub_path_entry o 0

abbrev pub pub_path_tail : EngineOut → ℕ → ℕ
pub_path_tail o slot = pub_path_entry o (slot + 1)

-- The tail entries of the published path, slot by slot.
abbrev pub tail_of : EngineOut → List ℕ
tail_of o =
    pub_path_tail o 0
    ∷ pub_path_tail o 1
    ∷ pub_path_tail o 2
    ∷ pub_path_tail o 3
    ∷ pub_path_tail o 4
    ∷ pub_path_tail o 5
    ∷ pub_path_tail o 6
    ∷ []

abbrev pub all_zero : List ℕ → Bool
all_zero [] = true
all_zero (x ∷ xs) = x == 0 && all_zero xs

abbrev pub count_if : Bool → ℕ → ℕ
count_if b n = if b then n + 1 else n

-- After the low half of the clock.
unfoldable pub watch_low : EngineOut → Watch → Watch
watch_low o w = record w {
  slew_async_changes = count_u64 (differ o.phc_slew_active_o w.slew_previous) w.slew_async_changes;
}

unfoldable pub watch_slew : (rst_n : Bool) (cyc : ℕ) → EngineOut → Watch → Watch
watch_slew rst_n cyc o w =
    if differ o.phc_slew_active_o w.slew_previous
    then record w {
      slew_edges = snoc w.slew_edges (cyc, o.phc_slew_active_o);
      slew_early_clears =
          count_u64 (not o.phc_slew_active_o && rst_n && not o.phc_addend_we_o) w.slew_early_clears;
      slew_previous = o.phc_slew_active_o;
    }
    else w

unfoldable pub self_path : EngineOut → Bool
self_path o = o.pub_path_count_o == 1 && pub_path_head o == our_cid && all_zero (tail_of o)

unfoldable pub watch_boot : (self_present : ℕ) → EngineOut → Watch → Watch
watch_boot self_present o w =
    if w.boot_watch
    then record w {
      boot_cycles = add_u64 w.boot_cycles 1;
      boot_bad_gm = count_u64 (not (o.pub_gm_id_o == our_cid)) w.boot_bad_gm;
      boot_bad_path = count_u64 (not (self_path o)) w.boot_bad_path;
      boot_bad_present =
          count_u64 (not (bit_and o.pub_flags_o fl_present == self_present)) w.boot_bad_present;
    }
    else w

unfoldable pub watch_master : EngineOut → Watch → Watch
watch_master o w =
    if has_flag o fl_amgm
    then record w {
      master_cycles = add_u64 w.master_cycles 1;
      master_unsynced_cycles = count_u64 (not (has_flag o fl_syncok)) w.master_unsynced_cycles;
    }
    else w

abbrev pub snap_of : (cyc : ℕ) → EngineOut → PubSnap
snap_of cyc o = record {
  gm = o.pub_gm_id_o;
  parent = o.pub_parent_id_o;
  count = o.pub_path_count_o;
  head = pub_path_head o;
  tail = tail_of o;
  cyc = cyc;
  flags = o.pub_flags_o;
}

unfoldable pub watch_commit : (cyc : ℕ) → EngineOut → Watch → Watch
watch_commit cyc o w = record w {
  commits_seen = count_u64 o.pub_commit_o w.commits_seen;
  commit_snaps =
      if o.pub_commit_o && ltb (length w.commit_snaps) max_commit_snaps
      then snoc w.commit_snaps (snap_of cyc o)
      else w.commit_snaps;
}

-- After the high half, in the order of `tick`.
unfoldable pub watch_high : (self_present : ℕ) (rst_n : Bool) (cyc : ℕ) → EngineOut → Watch → Watch
watch_high self_present rst_n cyc o w =
    watch_commit cyc o (watch_master o (watch_boot self_present o (watch_slew rst_n cyc o w)))

-- A tail of a committed path against the entries expected from slot `k`.
unfoldable pub tail_is : List ℕ → List ℕ → (k n : ℕ) → Bool
tail_is tail path k zero = true
tail_is tail path k (suc n) =
    get_or tail k 0 == get_or path (k + 1) 0 && tail_is tail path (k + 1) n

-- Past the end of `path` an entry is expected to be zero.
unfoldable pub committed_path_is : PubSnap → List ℕ → Bool
unfolding tail_is
committed_path_is s path =
    (not (is_empty path) && s.count == length path && s.head == get_or path 0 0)
    && tail_is s.tail path 0 path_tail_slots
