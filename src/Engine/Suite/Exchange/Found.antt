-- ===== src/Engine/Suite/Exchange/Found.antt =====
-- tb/verilator/engine/sim_main.cpp, what a `wait_tx` that does not fail has found.
use fpga_g_ptp.Base.{
  ℕ, zero, suc, ◌+◌, ◌≤◌, ◌≡◌, ◌∙◌, refl, sym, ap, true, Bool-cases, Option, none, some, List, [],
  ◌∷◌, arith, inl, inr, length, get_elem?, drop, ltb, if◌then◌else◌,
}
use fpga_g_ptp.Harness.Verilated.{Verilated}
use fpga_g_ptp.Harness.Tally.{expect_eq}
use fpga_g_ptp.Wire.{Frame}
use fpga_g_ptp.Engine.Ports.{EngineIn, EngineOut}
use fpga_g_ptp.Engine.Suite.{Suite, is_type, turn, next_tx, wait_tx}
use fpga_g_ptp.Engine.Suite.Send.{expect}
use fpga_g_ptp.Engine.Suite.Graded.{Graded-start, Graded-same}
use fpga_g_ptp.Engine.Suite.Graded.Peer.{turn-Graded}
use fpga_g_ptp.Engine.Suite.Exchange.Answer.{fails, no_wait}

-- A wait that gave a transmitted frame of the type, and has looked no further.
pub record Found {S : Type 0} (mtype : ℕ) (o : Option (ℕ × Frame)) (s : Suite S) : Type 0 where
  pub index : ℕ
  pub frame : Frame
  pub gave : o ≡ some (index, frame)
  pub sent : get_elem? s.bench.transmit.txf index ≡ some frame
  pub typed : is_type mtype frame ≡ true
  pub looked : s.tx_seen ≡ index + 1

pub at_index : {A : Type 0} (xs : List A) (i j : ℕ) → i ≡ j → get_elem? xs i ≡ get_elem? xs j
at_index xs i j e = ap (λ n. get_elem? xs n) e

plus_zero : (i : ℕ) → i ≡ i + 0
plus_zero i = omega arith

get_elem?-drop :
    {A : Type 0} (i d : ℕ) (xs : List A) → get_elem? (drop i xs) d ≡ get_elem? xs (i + d)
get_elem?-drop zero d xs = at_index xs d (0 + d) (omega arith)
get_elem?-drop (suc i) d [] = refl
get_elem?-drop (suc i) d (x ∷ xs) =
    get_elem?-drop i d xs ∙ at_index (x ∷ xs) (suc (i + d)) (suc i + d) (omega arith)

module _ (V : Verilated EngineIn EngineOut) (fuel : ℕ) where
  -- What is found in the rest of the frames stands in all of them.
  next_tx_lem :
      (m i : ℕ) (fs all : List Frame)
      → ((d : ℕ) → get_elem? fs d ≡ get_elem? all (i + d))
      → (j : ℕ) (f : Frame) → next_tx V fuel (some m) i fs ≡ some (j, f)
      → (get_elem? all j ≡ some f) × (is_type m f ≡ true)
  unfolding next_tx
  next_tx_lem m i [] all rest j f e = cc e
  next_tx_lem m i (g ∷ fs) all rest j f e =
      elim (Bool-cases (is_type m g)) as (λ c. (get_elem? all j ≡ some f) × (is_type m f ≡ true)) [
        | inl is ↦
            let here : some (i, g) ≡ some (j, f) = rw is at e in
            let place : i ≡ j = cc here in
            let same : g ≡ f = cc here in
            (
              at_index all j (i + 0) (sym place ∙ plus_zero i)
                  ∙ sym (rest 0)
                  ∙ ap (λ x. some x) same,
              sym (ap (λ x. is_type m x) same) ∙ is,
            )
        | inr other ↦
            next_tx_lem m (i + 1) fs all
              (λ d. rest (suc d) ∙ at_index all (i + suc d) (i + 1 + d) (omega arith)) j f
              (rw other at e)
      ]

  -- A wait that adds no failure has found a frame.
  pub wait_tx_clean :
      (m turns n k : ℕ) (s : Suite V.State)
      → k ≤ fails s
      → let w = wait_tx V fuel (some m) turns n s in fails w.1 ≡ k → Found m w.0 w.1
  unfolding wait_tx expect expect_eq
  wait_tx_clean m zero n k s le e = absurd (no_wait k s le e)
  wait_tx_clean m (suc turns) n k s le e =
      go (next_tx V fuel (some m) s.tx_seen (drop s.tx_seen s.bench.transmit.txf))
        (λ c lc ec. wait_tx_clean m turns (n + 1) k c lc ec) refl e
    where
      end : ℕ
      end =
          if ltb s.tx_seen (length s.bench.transmit.txf)
          then length s.bench.transmit.txf
          else s.tx_seen

      later : Suite V.State
      later = turn V fuel n (record s { tx_seen = end })

      go :
          (o : Option (ℕ × Frame))
          → ((c : Suite V.State)
              → k ≤ fails c
              → let w = wait_tx V fuel (some m) turns (n + 1) c in fails w.1 ≡ k → Found m w.0 w.1)
          → next_tx V fuel (some m) s.tx_seen (drop s.tx_seen s.bench.transmit.txf) ≡ o
          → let w : Option (ℕ × Frame) × Suite V.State = elim o [
            | some (i, f) ↦ (some (i, f), record s { tx_seen = i + 1 })
            | none ↦ wait_tx V fuel (some m) turns (n + 1) later
          ] in
            fails w.1 ≡ k → Found m w.0 w.1
      go (some (i, f)) on at e =
          let (sent, typed) =
            next_tx_lem m s.tx_seen (drop s.tx_seen s.bench.transmit.txf) s.bench.transmit.txf
              (λ d. get_elem?-drop s.tx_seen d s.bench.transmit.txf) i f at in
          record { index = i; frame = f; gave = refl; sent = sent; typed = typed; looked = refl }
      go none on at e =
          let kept =
            (turn-Graded V fuel n
              (Graded-same (record s { tx_seen = end }) refl (Graded-start s))).bench.tally.kept in
          on later (omega (arith, le, kept)) e
