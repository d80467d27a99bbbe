-- ===== src/Engine/Pdelay/Peer.antt =====
-- The scripted peer of the engine suite: the four stamps of the exchange that `service_pdelay` gives
-- each mode, and what the mirror makes of two exchanges in a row.
use fpga_g_ptp.Base.{
  ℕ, ◌+◌, ◌*◌, ◌/◌, ◌≤◌, ◌<◌, ◌≡◌, ◌≢◌, refl, u64, ◌>>>◌, add_u64, sub_u64, ◌==◌, if◌then◌else◌,
}
use fpga_g_ptp.Engine.Pdelay.{PdelayModelState, model_exchange, peer_ns}

pub data PdMode : Type 0 where
  pd_off pd_normal pd_neg pd_far pd_skip pd_self pd_dual : PdMode
  pd_dup pd_dual_late pd_nofu pd_dup3 pd_edge pd_late : PdMode

-- `P100_LATE_NS`
abbrev pub p100_late_ns : ℕ
p100_late_ns = ((15000000 + 2 * 800) * 1000300 + 999999) / 1000000 + 2 * 40

p100_late_bound : p100_late_ns ≡ 15006181
p100_late_bound = refl

pub record Stamps : Type 0 where
  pub t1 : ℕ
  pub t2 : ℕ
  pub t3 : ℕ
  pub t4 : ℕ

-- The residence time that a mode without a late bound answers with.
unfoldable pub residence : PdMode → ℕ
residence pd_neg = 21300
residence pd_far = 19200
residence _ = 20000

-- `nrr` is the mirror's ratio before the exchange.
late_stamps : (turn trip nrr t1 : ℕ) → Stamps
late_stamps turn trip nrr t1 =
    let t2 = peer_ns (add_u64 t1 300) in
    let stay = if nrr == 0 then turn else u64 (nrr * turn) >>> 30 in
    record { t1 = t1; t2 = t2; t3 = sub_u64 (add_u64 t2 stay) trip; t4 = add_u64 t1 turn }

unfoldable pub stamps : PdMode → (nrr t1 : ℕ) → Stamps
unfolding late_stamps residence
stamps pd_edge nrr t1 = late_stamps p100_late_ns 1200 nrr t1
stamps pd_late nrr t1 = late_stamps (p100_late_ns + 1) 1300 nrr t1
stamps mode nrr t1 =
    let t2 = peer_ns (add_u64 t1 300) in
    record { t1 = t1; t2 = t2; t3 = add_u64 t2 (residence mode); t4 = add_u64 t1 21200 }

-- `model_exchange` on the exchange of a mode.
unfoldable pub exchange : PdMode → (t1 : ℕ) → PdelayModelState → PdelayModelState
unfolding stamps
exchange mode t1 pdm = let s = stamps mode pdm.nrr t1 in model_exchange s.t1 s.t2 s.t3 s.t4 pdm

abbrev pub IsPrompt : PdMode → Type 0
IsPrompt mode = (mode ≢ pd_edge) × (mode ≢ pd_late)

abbrev IsSteady : ℕ → Type 0
IsSteady nrr = (1073871796 ≤ nrr) × (nrr < 1073873996)
