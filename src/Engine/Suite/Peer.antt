-- ===== src/Engine/Suite/Peer.antt =====
-- tb/verilator/engine/sim_main.cpp, what `service_pdelay` makes of one request.
use fpga_g_ptp.Base.{ℕ, ◌+◌, ◌≡◌, refl, Bool, true, false, if◌then◌else◌, for_range}
use fpga_g_ptp.Harness.Verilated.{Verilated}
use fpga_g_ptp.Engine.Pdelay.Peer.{
  PdMode, pd_off, pd_normal, pd_neg, pd_far, pd_skip, pd_self, pd_dual, pd_dup, pd_dual_late,
  pd_nofu, pd_dup3, pd_edge, pd_late, exchange,
}
use fpga_g_ptp.Engine.Ports.{EngineIn, EngineOut}
use fpga_g_ptp.Engine.Suite.{
  Suite, answer, reflect, answer_again, finish_exchange, respond, answer_request,
}

-- The modes in which one response and its Follow_Up come in time.
abbrev pub in_time : PdMode → Bool
in_time pd_normal = true
in_time pd_neg = true
in_time pd_far = true
in_time pd_dual_late = true
in_time pd_edge = true
in_time _ = false

abbrev pub is_self : PdMode → Bool
is_self pd_self = true
is_self _ = false

module _ (V : Verilated EngineIn EngineOut) where
  -- Whatever the engine does while it is answered, a request feeds the pdelay mirror with the
  -- exchange of the mode if the mode is one in which one response and its Follow_Up come in time, and
  -- leaves the mirror as it was in every other mode; a reflected pair is counted in the mode that
  -- reflects and in no other; and no frame of the engine's is passed over.
  pub answer_request_lem :
      (mode : PdMode) (seq t1 : ℕ) (s : Suite V.State)
      → let r = answer_request V mode seq t1 s in
        (r.pdm ≡ (if in_time mode then exchange mode t1 s.pdm else s.pdm))
        × (r.pd_self_sent ≡ (if is_self mode then s.pd_self_sent + 1 else s.pd_self_sent))
        × (r.pd_seen ≡ s.pd_seen)
        × (r.tx_seen ≡ s.tx_seen)
  unfolding answer reflect answer_again finish_exchange respond answer_request for_range exchange
  answer_request_lem pd_off seq t1 s = (refl, refl, refl, refl)
  answer_request_lem pd_normal seq t1 s = (refl, refl, refl, refl)
  answer_request_lem pd_neg seq t1 s = (refl, refl, refl, refl)
  answer_request_lem pd_far seq t1 s = (refl, refl, refl, refl)
  answer_request_lem pd_skip seq t1 s = (refl, refl, refl, refl)
  answer_request_lem pd_self seq t1 s = (refl, refl, refl, refl)
  answer_request_lem pd_dual seq t1 s = (refl, refl, refl, refl)
  answer_request_lem pd_dup seq t1 s = (refl, refl, refl, refl)
  answer_request_lem pd_dual_late seq t1 s = (refl, refl, refl, refl)
  answer_request_lem pd_nofu seq t1 s = (refl, refl, refl, refl)
  answer_request_lem pd_dup3 seq t1 s = (refl, refl, refl, refl)
  answer_request_lem pd_edge seq t1 s = (refl, refl, refl, refl)
  answer_request_lem pd_late seq t1 s = (refl, refl, refl, refl)
