-- ===== src/Engine/Suite/Boot/Laws.antt =====
-- tb/verilator/engine/sim_main.cpp, `publish_thisclock_before_any_peer`.
use fpga_g_ptp.Base.{
  ℕ, ◌+◌, ◌≤◌, ◌≡◌, ◌∙◌, refl, ap, subst, Bool, true, false, Bool-cases, Option, none, some, List,
  [], ◌∷◌, length, ltb, ◌==◌, ◌&&◌, arith, inl, inr, ==_iff, drop, to_nat, sub_u64, ◌^◌, ◌-◌,
}
use fpga_g_ptp.Harness.Verilated.{Verilated}
use fpga_g_ptp.Harness.Tally.{expect_eq, grade}
use fpga_g_ptp.Engine.Const.{our_cid}
use fpga_g_ptp.Engine.Watch.{PubSnap, committed_path_is}
use fpga_g_ptp.Engine.Ports.{EngineIn, EngineOut}
use fpga_g_ptp.Engine.Suite.{Suite}
use fpga_g_ptp.Engine.Suite.Send.{expect}
use fpga_g_ptp.Engine.Suite.Phased.{Phased}
use fpga_g_ptp.Engine.Suite.Boot.{boot_commits, grade_boot, publish_thisclock_before_any_peer}

-- The commits before a cycle.
unfoldable pub before : (cyc : ℕ) → List PubSnap → List PubSnap
before cyc [] = []
before cyc (s ∷ snaps) = elim (ltb s.cyc cyc) [
  | true ↦ s ∷ before cyc snaps
  | false ↦ before cyc snaps
]

unfoldable or_head : Option PubSnap → List PubSnap → Option PubSnap
or_head none [] = none
or_head none (s ∷ snaps) = some s
or_head (some s) snaps = some s

boot_commits_lem :
    (cyc n : ℕ) (first : Option PubSnap) (snaps : List PubSnap)
    → boot_commits cyc n first snaps
      ≡ (n + length (before cyc snaps), or_head first (before cyc snaps))
unfolding boot_commits before or_head
boot_commits_lem cyc n none [] = ap (λ k. (k, none)) (omega arith)
boot_commits_lem cyc n (some c) [] = ap (λ k. (k, some c)) (omega arith)
boot_commits_lem cyc n none (s ∷ snaps) = elim (Bool-cases (ltb s.cyc cyc)) [
  | inl e ↦
      rw (e, boot_commits, before)
        (boot_commits_lem cyc (n + 1) (some s) snaps ∙ ap (λ k. (k, some s)) (omega arith))
  | inr e ↦ rw (e, boot_commits, before) (boot_commits_lem cyc n none snaps)
]
boot_commits_lem cyc n (some c) (s ∷ snaps) = elim (Bool-cases (ltb s.cyc cyc)) [
  | inl e ↦
      rw (e, boot_commits, before)
        (boot_commits_lem cyc (n + 1) (some c) snaps ∙ ap (λ k. (k, some c)) (omega arith))
  | inr e ↦ rw (e, boot_commits, before) (boot_commits_lem cyc n (some c) snaps)
]

unfoldable AllEqual : List (ℕ × ℕ) → Type 0
AllEqual [] = Unit
AllEqual ((got, exp) ∷ rest) = (got ≡ exp) × AllEqual rest

module _ {S : Type 0} where
  passes :
      (got exp f : ℕ) (s : Suite S)
      → f ≤ s.bench.tally.fails
      → (expect got exp s).bench.tally.fails ≡ f
      → (got ≡ exp) × (s.bench.tally.fails ≡ f)
  unfolding expect expect_eq grade
  passes got exp f s le e = ground arith

  grows :
      (got exp f : ℕ) (s : Suite S)
      → f ≤ s.bench.tally.fails
      → f ≤ (expect got exp s).bench.tally.fails
  unfolding expect expect_eq grade
  grows got exp f s le = ground arith

  expects : List (ℕ × ℕ) → Suite S → Suite S
  expects [] s = s
  expects ((got, exp) ∷ rest) s = expects rest (expect got exp s)

  expects_grows :
      (graded : List (ℕ × ℕ)) (f : ℕ) (s : Suite S)
      → f ≤ s.bench.tally.fails
      → f ≤ (expects graded s).bench.tally.fails
  unfolding expects
  expects_grows [] f s le = le
  expects_grows ((got, exp) ∷ rest) f s le =
      expects_grows rest f (expect got exp s) (grows got exp f s le)

  expects_lem :
      (graded : List (ℕ × ℕ)) (f : ℕ) (s : Suite S)
      → f ≤ s.bench.tally.fails
      → (expects graded s).bench.tally.fails ≡ f
      → AllEqual graded × (s.bench.tally.fails ≡ f)
  unfolding expects AllEqual
  expects_lem [] f s le e = (tt, e)
  expects_lem ((got, exp) ∷ rest) f s le e =
      let (later, here) = expects_lem rest f (expect got exp s) (grows got exp f s le) e in
      let (same, start) = passes got exp f s le here in ((same, later), start)

  seven :
      (gm path present n late ours flags p : ℕ) (s : Suite S)
      → (expects
          ((gm, 0) ∷ (path, 0) ∷ (present, 0) ∷ (n, 1) ∷ (late, 0) ∷ (ours, 1) ∷ (flags, p) ∷ [])
          s).bench.tally.fails
        ≡ s.bench.tally.fails
      → (gm ≡ 0) × (path ≡ 0) × (present ≡ 0) × (n ≡ 1) × (late ≡ 0) × (ours ≡ 1) × (flags ≡ p)
  unfolding AllEqual
  seven gm path present n late ours flags p s e =
      let (a, (b, (c, (d, (f, (g, (h, u))))))) =
        (expects_lem
          ((gm, 0) ∷ (path, 0) ∷ (present, 0) ∷ (n, 1) ∷ (late, 0) ∷ (ours, 1) ∷ (flags, p) ∷ [])
          s.bench.tally.fails s (omega arith) e).0 in
      (a, b, c, d, f, g, h)

module _ (V : Verilated EngineIn EngineOut) where
  -- What the seven checks say of the commits before the beat, where none of them fails.
  unfoldable pub Boots : (release : ℕ) (commits : List PubSnap) → Suite V.State → Type 0
  Boots release commits s =
      let w = s.bench.watch in
      (w.boot_bad_gm ≡ 0)
      × (w.boot_bad_path ≡ 0)
      × (w.boot_bad_present ≡ 0)
      × (c : PubSnap) × (commits ≡ c ∷ [])
      × (sub_u64 c.cyc release ≡ 0)
      × (c.gm ≡ our_cid)
      × (committed_path_is c (our_cid ∷ []) ≡ true)
      × (c.flags ≡ s.bench.self_present)

  ours_holds : (a b : Bool) → to_nat (a && b) ≡ 1 → (a ≡ true) × (b ≡ true)
  ours_holds a b e = ground arith

  grade_boot-Boots :
      (release : ℕ) (commits : List PubSnap) (s : Suite V.State)
      → (grade_boot V release (length commits) (or_head none commits) s).bench.tally.fails
        ≡ s.bench.tally.fails
      → Boots release commits s
  unfolding grade_boot expects AllEqual Boots or_head
  grade_boot-Boots release [] s e =
      let w = s.bench.watch in
      let p = s.bench.self_present in
      let held =
        seven w.boot_bad_gm w.boot_bad_path w.boot_bad_present 0 (2 ^ 64 - 1) 0 (2 ^ 32 - 1) p s
          e in
      absurd (omega arith)
  grade_boot-Boots release (c ∷ []) s e =
      let w = s.bench.watch in
      let late = sub_u64 c.cyc release in
      let is_ours = committed_path_is c (our_cid ∷ []) in
      let ours = to_nat ((c.gm == our_cid) && is_ours) in
      let p = s.bench.self_present in
      let (gm, path, present, n, in_time, both, flags) =
        seven w.boot_bad_gm w.boot_bad_path w.boot_bad_present 1 late ours c.flags p s e in
      let (cid, whole) = ours_holds (c.gm == our_cid) is_ours both in
      (gm, path, present, c, refl, in_time, (==_iff c.gm our_cid).0 cid, whole, flags)
  grade_boot-Boots release (c ∷ d ∷ more) s e =
      let w = s.bench.watch in
      let late = sub_u64 c.cyc release in
      let ours = to_nat ((c.gm == our_cid) && committed_path_is c (our_cid ∷ [])) in
      let p = s.bench.self_present in
      let n = length (c ∷ d ∷ more) in
      let held = seven w.boot_bad_gm w.boot_bad_path w.boot_bad_present n late ours c.flags p s e in
      absurd (omega arith)

  -- If none of the phase's seven checks fails, then no clock that was watched showed another
  -- grandmaster, path or gmPresent than those of a plane without a peer, and there is exactly one
  -- commit from the mark on and before the first beat: at the cycle of the release, with our identity
  -- as its grandmaster and its whole path, and with the flags of gmPresent alone.
  pub publish_thisclock-Boots :
      (h : Phased V.State)
      → (publish_thisclock_before_any_peer V h).suite.bench.tally.fails ≡ h.suite.bench.tally.fails
      → Boots h.marks.cold_release_cyc
          (before h.marks.boot_beat_cyc
            (drop h.marks.cold_boot_mark h.suite.bench.watch.commit_snaps))
          h.suite
  unfolding publish_thisclock_before_any_peer
  publish_thisclock-Boots h e =
      let commits =
        before h.marks.boot_beat_cyc
          (drop h.marks.cold_boot_mark h.suite.bench.watch.commit_snaps) in
      let since = drop h.marks.cold_boot_mark h.suite.bench.watch.commit_snaps in
      let found =
        boot_commits_lem h.marks.boot_beat_cyc 0 none since
        ∙ ap (λ k. (k, or_head none commits)) (omega arith) in
      grade_boot-Boots h.marks.cold_release_cyc commits h.suite (
        subst
          (λ r.
            (grade_boot V h.marks.cold_release_cyc r.0 r.1 h.suite).bench.tally.fails
            ≡ h.suite.bench.tally.fails)
          found e)
