-- ===== src/Engine/Watch/Laws.antt =====
-- What the records of each clock say of the published state.
use fpga_g_ptp.Base.{
  ℕ, zero, suc, ◌∙◌, ◌+◌, ◌≤◌, ◌<◌, ◌^◌, ◌≡◌, ap, Bool, true, List, [], ◌∷◌, arith, length,
  length-snoc, get_or, if_cases, min,
}
use fpga_g_ptp.Engine.Ports.{EngineOut}
use fpga_g_ptp.Engine.Watch.{
  PubSnap, Watch, watch_low, watch_high, watch_slew, watch_boot, watch_master, watch_commit,
  committed_path_is, tail_is, max_commit_snaps, snap_of,
}

-- The grades are bounded by what they grade, and the snapshots are as many as the commits, up to the
-- bound of the record; the three counters of cycles and commits by how often they may have counted.
pub record IsWatched (boot master commits : ℕ) (w : Watch) : Type 0 where
  pub booted : w.boot_cycles ≤ boot
  pub mastered : w.master_cycles ≤ master
  pub committed : w.commits_seen ≤ commits
  pub snaps : length w.commit_snaps ≡ min w.commits_seen max_commit_snaps
  pub gm : w.boot_bad_gm ≤ w.boot_cycles
  pub path : w.boot_bad_path ≤ w.boot_cycles
  pub present : w.boot_bad_present ≤ w.boot_cycles
  pub synced : w.master_unsynced_cycles ≤ w.master_cycles
  pub clears : w.slew_early_clears ≤ length w.slew_edges

up : {a n : ℕ} → a ≤ n → a ≤ n + 1
up h = omega (arith, h)

pub watch_low-IsWatched :
    {b m c : ℕ} (o : EngineOut) (w : Watch) → IsWatched b m c w → IsWatched b m c (watch_low o w)
unfolding watch_low
watch_low-IsWatched o w h = record {
  booted = h.booted;
  mastered = h.mastered;
  committed = h.committed;
  snaps = h.snaps;
  gm = h.gm;
  path = h.path;
  present = h.present;
  synced = h.synced;
  clears = h.clears;
}

watch_slew-IsWatched :
    {b m c : ℕ} (rst_n : Bool) (cyc : ℕ) (o : EngineOut) (w : Watch)
    → IsWatched b m c w
    → IsWatched b m c (watch_slew rst_n cyc o w)
unfolding watch_slew
watch_slew-IsWatched {b} {m} {c} rst_n cyc o w h =
    if_cases (IsWatched b m c) _
      (λ e. record {
        booted = h.booted;
        mastered = h.mastered;
        committed = h.committed;
        snaps = h.snaps;
        gm = h.gm;
        path = h.path;
        present = h.present;
        synced = h.synced;
        clears = ground (arith, h.clears, length-snoc w.slew_edges (cyc, o.phc_slew_active_o));
      })
      (λ e. h)

watch_boot-IsWatched :
    {b m c : ℕ} (self_present : ℕ) (o : EngineOut) (w : Watch)
    → b + 1 < 2 ^ 64
    → IsWatched b m c w
    → IsWatched (b + 1) m c (watch_boot self_present o w)
unfolding watch_boot
watch_boot-IsWatched {b} {m} {c} self_present o w k h =
    if_cases (IsWatched (b + 1) m c) _
      (λ e. record {
        booted = ground (arith, h.booted);
        mastered = h.mastered;
        committed = h.committed;
        snaps = h.snaps;
        gm = ground (arith, h.gm, h.booted);
        path = ground (arith, h.path, h.booted);
        present = ground (arith, h.present, h.booted);
        synced = h.synced;
        clears = h.clears;
      })
      (λ e. record {
        booted = up h.booted;
        mastered = h.mastered;
        committed = h.committed;
        snaps = h.snaps;
        gm = h.gm;
        path = h.path;
        present = h.present;
        synced = h.synced;
        clears = h.clears;
      })

watch_master-IsWatched :
    {b m c : ℕ} (o : EngineOut) (w : Watch)
    → m + 1 < 2 ^ 64
    → IsWatched b m c w
    → IsWatched b (m + 1) c (watch_master o w)
unfolding watch_master
watch_master-IsWatched {b} {m} {c} o w k h =
    if_cases (IsWatched b (m + 1) c) _
      (λ e. record {
        booted = h.booted;
        mastered = ground (arith, h.mastered);
        committed = h.committed;
        snaps = h.snaps;
        gm = h.gm;
        path = h.path;
        present = h.present;
        synced = ground (arith, h.synced, h.mastered);
        clears = h.clears;
      })
      (λ e. record {
        booted = h.booted;
        mastered = up h.mastered;
        committed = h.committed;
        snaps = h.snaps;
        gm = h.gm;
        path = h.path;
        present = h.present;
        synced = h.synced;
        clears = h.clears;
      })

watch_commit-IsWatched :
    {b m c : ℕ} (cyc : ℕ) (o : EngineOut) (w : Watch)
    → c + 1 < 2 ^ 64
    → IsWatched b m c w
    → IsWatched b m (c + 1) (watch_commit cyc o w)
unfolding watch_commit
watch_commit-IsWatched cyc o w k h = record {
  booted = h.booted;
  mastered = h.mastered;
  committed = ground (arith, h.committed);
  snaps = ground (arith, h.snaps, h.committed, length-snoc w.commit_snaps (snap_of cyc o));
  gm = h.gm;
  path = h.path;
  present = h.present;
  synced = h.synced;
  clears = h.clears;
}

pub watch_high-IsWatched :
    {b m c : ℕ} (self_present : ℕ) (rst_n : Bool) (cyc : ℕ) (o : EngineOut) (w : Watch)
    → b + 1 < 2 ^ 64
    → m + 1 < 2 ^ 64
    → c + 1 < 2 ^ 64
    → IsWatched b m c w
    → IsWatched (b + 1) (m + 1) (c + 1) (watch_high self_present rst_n cyc o w)
unfolding watch_high
watch_high-IsWatched self_present rst_n cyc o w kb km kc h = watch_commit-IsWatched cyc o _ kc (
    watch_master-IsWatched o _ km
      (watch_boot-IsWatched self_present o _ kb (watch_slew-IsWatched rst_n cyc o w h)))

tail_is-drop :
    (tail path : List ℕ) (k n i : ℕ)
    → tail_is tail path k n ≡ true
    → i < n
    → get_or tail (k + i) 0 ≡ get_or path (k + i + 1) 0
unfolding tail_is
tail_is-drop tail path k zero i e h = absurd (omega arith)
tail_is-drop tail path k (suc n) zero e h =
    ap (λ j. get_or tail j 0) (omega arith) ∙ head ∙ ap (λ j. get_or path j 0) (omega arith)
  where
    head : get_or tail k 0 ≡ get_or path (k + 1) 0
    head = ground (arith, e)
tail_is-drop tail path k (suc n) (suc i) e h =
    ap (λ j. get_or tail j 0) (omega arith)
    ∙ tail_is-drop tail path (k + 1) n i (ground (arith, e)) (omega arith)
    ∙ ap (λ j. get_or path j 0) (omega arith)

-- A snapshot for which `committed_path_is` holds has the length of `path` as its count, is not empty, and agrees
-- with `path` in each of the eight entries, where an entry past the end of `path` is zero.
pub committed_path_is_lem :
    (s : PubSnap) (path : List ℕ)
    → committed_path_is s path ≡ true
    → (0 < length path)
      × (s.count ≡ length path)
      × ((i : ℕ) → i < 8 → get_or (s.head ∷ s.tail) i 0 ≡ get_or path i 0)
unfolding committed_path_is
committed_path_is_lem s [] e = absurd (ground arith)
committed_path_is_lem s (x ∷ path) e = (omega arith, ground (arith, e), λ i h. entries i h)
  where
    entries : (i : ℕ) → i < 8 → get_or (s.head ∷ s.tail) i 0 ≡ get_or (x ∷ path) i 0
    entries zero h = ground (arith, e)
    entries (suc i) h =
        let left : i ≡ 0 + i = omega arith in
        let right : 0 + i + 1 ≡ suc i = omega arith in
        ap (λ j. get_or s.tail j 0) left
        ∙ tail_is-drop s.tail (x ∷ path) 0 7 i (ground (arith, e)) (omega arith)
        ∙ ap (λ j. get_or (x ∷ path) j 0) right
