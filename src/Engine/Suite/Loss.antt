-- ===== src/Engine/Suite/Loss.antt =====
-- tb/verilator/engine/sim_main.cpp, phase 36: a peer whose Pdelay stops.
use fpga_g_ptp.Base.{
  ℕ, zero, suc, ◌+◌, ◌-◌, ◌%◌, ◌^◌, Bool, true, false, not, ◌&&◌, Option, none, some, List, [], ◌∷◌,
  ◌==◌, leb, if◌then◌else◌, length, drop, for_range, for_each, bit_and, u16, add_u64, sub_u64,
  to_nat,
}
use fpga_g_ptp.Base.Int.{to_u64}
use fpga_g_ptp.Harness.Verilated.{Verilated}
use fpga_g_ptp.Engine.Const.{our_cid, fl_present, fl_amgm, fl_ascap}
use fpga_g_ptp.Engine.Phc.{phc}
use fpga_g_ptp.Engine.Watch.{PubSnap, committed_path_is}
use fpga_g_ptp.Engine.Pdelay.Peer.{pd_normal, pd_off}
use fpga_g_ptp.Engine.Ports.{EngineIn, EngineOut}
use fpga_g_ptp.Engine.Bench.{outs, run}
use fpga_g_ptp.Engine.Suite.{Suite, on_bench, run_svc, wait_flags}
use fpga_g_ptp.Engine.Suite.Send.{
  expect, sync_pair, send_announce, last_commit_since, a_commit_since_names,
}

abbrev pub gmd : ℕ
gmd = 0x0082D0FFFE000001

abbrev pub hopd : ℕ
hopd = 0x0082D0FFFE000002

abbrev pub srcd : ℕ
srcd = 0x0082D0FFFE000003

abbrev pub gme : ℕ
gme = 0x0082E0FFFE000001

abbrev pub srce : ℕ
srce = 0x0082E0FFFE000002

-- The locals of the phase that count what was sent.
pub record Sent (S : Type 0) : Type 0 where
  pub suite : Suite S
  pub seq : ℕ
  pub sseq : ℕ

abbrev pub on_sent : {S : Type 0} → (Suite S → Suite S) → Sent S → Sent S
on_sent f p = record p { suite = f p.suite }

-- The loops that look for two commits: the first with the one property, and the first from it on with
-- the other.
unfoldable pub first_of : (is_first : PubSnap → Bool) → PubSnap → Option PubSnap → Option PubSnap
first_of is_first c (some f) = some f
first_of is_first c none = if is_first c then some c else none

unfoldable pub then_of :
    (is_then : PubSnap → Bool) → PubSnap → (first second : Option PubSnap) → Option PubSnap
then_of is_then c none t = t
then_of is_then c (some f) t = first_of is_then c t

unfoldable pub first_then :
    (is_first is_then : PubSnap → Bool) → List PubSnap → Option PubSnap × Option PubSnap
first_then is_first is_then commits =
    for_each (λ c found. let f = first_of is_first c found.0 in (f, then_of is_then c f found.1))
      commits (none, none)

-- Both were found, the second within so many cycles of the first.
abbrev pub follows_within : (cycles : ℕ) → Option PubSnap → Option PubSnap → Bool
follows_within cycles (some f) (some t) = leb (sub_u64 t.cyc f.cyc) cycles
follows_within cycles _ _ = false

-- A pointer that is set and a commit that names the grandmaster with exactly that path.
abbrev pub names_path : (gm : ℕ) (path : List ℕ) → Option PubSnap → Bool
names_path gm path none = false
names_path gm path (some c) = (c.gm == gm) && committed_path_is c path

abbrev pub carries : (path : List ℕ) → Option PubSnap → Bool
carries path none = false
carries path (some c) = committed_path_is c path

-- The flags of the commit, and all ones without one.
abbrev pub flags_of : Option PubSnap → ℕ
flags_of none = 2 ^ 32 - 1
flags_of (some c) = c.flags

abbrev pub is_incapable : PubSnap → Bool
is_incapable c = bit_and c.flags fl_ascap == 0

abbrev pub is_capable : PubSnap → Bool
is_capable c = not (is_incapable c)

abbrev pub is_ours : PubSnap → Bool
is_ours c = c.gm == our_cid

abbrev pub is_master : PubSnap → Bool
is_master c = not (bit_and c.flags fl_amgm == 0)

-- `fuel` is that of `service_pdelay`.
module _ (V : Verilated EngineIn EngineOut) (fuel : ℕ) where
  -- `phc() + 100`, the ingress stamp of every Announce of the later phases.
  abbrev pub soon : Suite V.State → ℕ
  soon s = add_u64 (phc s.bench.phc) 100

  -- One Sync/Follow_Up pair from D, measured exactly on time.
  unfoldable pub d_sync : Sent V.State → Sent V.State
  d_sync p =
      let local = add_u64 (phc p.suite.bench.phc) 1000 in
      let origin = sub_u64 local (to_u64 p.suite.pdm.d) in
      record p { suite = sync_pair V p.sseq local origin srcd p.suite; sseq = u16 (p.sseq + 1) }

  unfoldable pub d_announce : Sent V.State → Sent V.State
  d_announce p = record p {
    suite =
        send_announce V fuel p.seq 1 gmd 2 srcd (gmd ∷ hopd ∷ srcd ∷ []) (soon p.suite) false
          p.suite;
    seq = u16 (p.seq + 1);
  }

  unfoldable pub lose_round : (n : ℕ) → Sent V.State → Sent V.State
  lose_round n p =
      let p = d_sync (on_sent (run_svc V fuel (250000 - 8000)) p) in
      if n % 8 == 7 then d_announce p else p

  -- At most `rounds` of them, while the plane is asCapable.
  unfoldable pub lose_loop : (rounds n : ℕ) → Sent V.State → Sent V.State
  lose_loop zero n p = p
  lose_loop (suc rounds) n p = elim (bit_and (outs V p.suite.bench).pub_flags_o fl_ascap == 0) [
    | true ↦ p
    | false ↦ lose_loop rounds (n + 1) (lose_round n p)
  ]

  -- Pdelay stops, and the plane drops D.
  unfoldable pub lose_the_peer : Sent V.State → Sent V.State
  lose_the_peer p =
      let p = on_sent (λ s. record s { pd_mode = pd_normal }) p in
      let p = on_sent (λ s. (wait_flags V fuel fl_ascap fl_ascap 9000000 s).1) p in
      let p = on_sent (λ s. record s { pd_mode = pd_off }) (d_sync (d_announce p)) in
      let lost0 = length p.suite.bench.watch.commit_snaps in
      let p = on_sent (run_svc V fuel 20000) (lose_loop 64 0 p) in
      let (fell, self) =
        first_then is_incapable is_ours (drop lost0 p.suite.bench.watch.commit_snaps) in
      let s = expect (to_nat (follows_within 4000 fell self)) 1 p.suite in
      let s = expect (to_nat (carries (our_cid ∷ []) self)) 1 s in
      record p { suite = expect (flags_of self) s.bench.self_present s }

  unfoldable pub refuse_the_incapable : Sent V.State → Sent V.State
  refuse_the_incapable p =
      let still0 = length p.suite.bench.watch.commit_snaps in
      let p =
        for_range 3 0 (λ beat q. d_announce (on_sent (run_svc V fuel 2000000) q)) (d_announce p) in
      let b = p.suite.bench in
      let elects = a_commit_since_names still0 gmd b.watch.commit_snaps in
      on_sent (expect (to_nat (not elects && ((outs V b).pub_gm_id_o == our_cid))) 1) p

  unfoldable pub rise_again : Suite V.State → Suite V.State
  rise_again s =
      let s = record s { pd_mode = pd_normal; pd_seen = length s.bench.transmit.txf } in
      let rise0 = length s.bench.watch.commit_snaps in
      let s = (wait_flags V fuel fl_ascap fl_ascap 9000000 s).1 in
      let s = on_bench (run V 200) (wait_flags V fuel fl_amgm fl_amgm 6100000 s).1 in
      let (rose, master) =
        first_then is_capable is_master (drop rise0 s.bench.watch.commit_snaps) in
      let present : ℕ = elim master [ none ↦ 2 ^ 32 - 1 | some c ↦ bit_and c.flags fl_present ] in
      let s = expect (to_nat (follows_within 6004000 rose master)) 1 s in
      let s = expect (to_nat (names_path our_cid (our_cid ∷ []) master)) 1 s in
      expect present s.bench.self_present s

  unfoldable pub elect_the_worse : (seq : ℕ) → Suite V.State → Suite V.State
  elect_the_worse seq s =
      let back0 = length s.bench.watch.commit_snaps in
      let s = send_announce V fuel seq 2 gme 1 srce (gme ∷ srce ∷ []) (soon s) false s in
      let back = last_commit_since back0 s.bench.watch.commit_snaps in
      expect (to_nat (names_path gme (gme ∷ srce ∷ our_cid ∷ []) back)) 1 s

  unfoldable pub drop_a_peer_whose_pdelay_stops : Suite V.State → Suite V.State
  drop_a_peer_whose_pdelay_stops s =
      let p =
        refuse_the_incapable (lose_the_peer record { suite = s; seq = 0x8401; sseq = 0x8601 }) in
      elect_the_worse p.seq (rise_again p.suite)
