-- ===== src/Engine/Suite/Record.antt =====
-- tb/verilator/engine/sim_main.cpp, the last phases of a pass, which clock nothing and grade all that
-- the run has recorded.
pub mod Counts
pub mod Handovers
pub mod Laws
use fpga_g_ptp.Base.{
  ℕ, zero, suc, ◌+◌, ◌-◌, min, Bool, true, false, not, ◌&&◌, ◌||◌, List, [], ◌∷◌, ◌==◌, ltb,
  if◌then◌else◌, length, get_or, for_range, for_each, bit_and, bit_or, to_nat,
}
use fpga_g_ptp.Wire.{Frame}
use fpga_g_ptp.Wire.Read.{byte_at, fld16, type_of}
use fpga_g_ptp.Engine.Const.{our_cid, fl_amgm, fl_syncok}
use fpga_g_ptp.Engine.Watch.{PubSnap, committed_path_is, path_tail_slots, count_if}
use fpga_g_ptp.Engine.Suite.{Suite}
use fpga_g_ptp.Engine.Suite.Send.{expect}

-- The two counters of a loop: what was graded, and what of it was bad.
pub record Grades : Type 0 where
  pub graded : ℕ
  pub bad : ℕ

abbrev pub none_graded : Grades
none_graded = record { graded = 0; bad = 0 }

unfoldable pub grade_one : (is_bad : Bool) → Grades → Grades
grade_one is_bad g = record { graded = g.graded + 1; bad = count_if is_bad g.bad }

-- A commit of thisClock without exactly its own path.
unfoldable pub self_is_bad : PubSnap → Bool
self_is_bad c = c.gm == our_cid && not (committed_path_is c (our_cid ∷ []))

unfoldable pub self_bad : List PubSnap → ℕ
self_bad commits = for_each (λ c n. count_if (self_is_bad c) n) commits 0

-- The commit after `last`, graded if it hands the mastership of `last` to a peer.
unfoldable pub grade_handover : (last : PubSnap) → PubSnap → Grades → Grades
grade_handover last c g =
    if bit_and last.flags fl_amgm == 0
    then g
    else (if c.gm == our_cid
        then g
        else grade_one (not (bit_and c.flags (bit_or fl_amgm fl_syncok) == 0)) g)

unfoldable pub handovers_after : (last : PubSnap) → List PubSnap → Grades → Grades
handovers_after last [] g = g
handovers_after last (c ∷ commits) g = handovers_after c commits (grade_handover last c g)

unfoldable pub handovers : List PubSnap → Grades
handovers [] = none_graded
handovers (c ∷ commits) = handovers_after c commits none_graded

-- `k == 0 ? s.head : s.tail[k - 1]`
unfoldable pub entry : PubSnap → ℕ → ℕ
entry c zero = c.head
entry c (suc k) = get_or c.tail k 0

-- How often our identity was seen, and the place of the last time.
pub record Places : Type 0 where
  pub seen : ℕ
  pub at : ℕ

unfoldable pub note_place : PubSnap → (k : ℕ) → Places → Places
note_place c k p = if entry c k == our_cid then record { seen = p.seen + 1; at = k } else p

-- `k < s.count && k <= PATH_TAIL_SLOTS` bounds the loop.
unfoldable pub places_of : PubSnap → Places
places_of c =
    for_range (min c.count (path_tail_slots + 1)) 0 (note_place c) (record { seen = 0; at = 0 })

unfoldable pub is_appended : PubSnap → Bool
is_appended c = let p = places_of c in p.seen == 1 && p.at + 1 == c.count

unfoldable pub is_filled : PubSnap → Bool
is_filled c = (places_of c).seen == 0 && c.count == 8

unfoldable pub grade_path : PubSnap → Grades → Grades
grade_path c g =
    if c.gm == our_cid then g else grade_one (not (is_appended c) && not (is_filled c)) g

unfoldable pub peer_paths : List PubSnap → Grades
peer_paths commits = for_each grade_path commits none_graded

-- The clockAccuracy, class and variance octets of an Announce.
unfoldable pub is_wrong : (want : ℕ) → Frame → Bool
is_wrong want f =
    not (byte_at f 63 == want) || not (byte_at f 62 == 0xF8) || not (fld16 f 64 == 0x436A)

unfoldable pub grade_announce : (want : ℕ) → Frame → Grades → Grades
grade_announce want f g =
    if ltb (length f) 66 || not (type_of f == 0xB) then g else grade_one (is_wrong want f) g

unfoldable pub announces : (want : ℕ) → List Frame → Grades
announces want txf = for_each (grade_announce want) txf none_graded

-- Of the image that the suite runs.
unfoldable pub clock_accuracy : (self_present : ℕ) → ℕ
clock_accuracy self_present = if self_present == 0 then 0xFE else 0x22

module _ {S : Type 0} where
  unfoldable pub hold_every_committed_path_coherent : Suite S → Suite S
  hold_every_committed_path_coherent s = expect (self_bad s.bench.watch.commit_snaps) 0 s

  unfoldable pub keep_sync_ok_in_every_master_cycle : Suite S → Suite S
  keep_sync_ok_in_every_master_cycle s =
      let w = s.bench.watch in
      let g = handovers w.commit_snaps in
      let s = expect (to_nat (ltb 0 w.master_cycles)) 1 s in
      let s = expect w.master_unsynced_cycles 0 s in
      expect g.bad 0 (expect (to_nat (ltb 0 g.graded)) 1 s)

  unfoldable pub end_every_peer_path_with_thisclock : Suite S → Suite S
  end_every_peer_path_with_thisclock s =
      let g = peer_paths s.bench.watch.commit_snaps in
      expect g.bad 0 (expect (to_nat (ltb 0 g.graded)) 1 s)

  unfoldable pub announce_the_image_clock_accuracy : Suite S → Suite S
  announce_the_image_clock_accuracy s =
      let g = announces (clock_accuracy s.bench.self_present) s.bench.transmit.txf in
      expect (to_nat (not (g.graded == 0) && (g.bad == 0))) 1 s
