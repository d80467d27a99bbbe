-- ===== src/Engine/Suite/Exchange/Answer.antt =====
-- tb/verilator/engine/sim_main.cpp, the checks of an answer in `answer_a_peer_initiated_exchange`.
use fpga_g_ptp.Base.{
  ℕ, ◌≤◌, ◌≡◌, Bool-cases, arith, inl, inr, length, ◌==◌, ==_iff, if◌then◌else◌, bit_or,
}
use fpga_g_ptp.Harness.Tally.{expect_eq, grade}
use fpga_g_ptp.Wire.{Frame}
use fpga_g_ptp.Wire.Read.{byte_at, fld16, fld48, fld64}
use fpga_g_ptp.Engine.Const.{our_cid, our_mac, peer_cid}
use fpga_g_ptp.Engine.Suite.{Suite}
use fpga_g_ptp.Engine.Suite.Send.{expect, check_common}
use fpga_g_ptp.Engine.Suite.Exchange.{stamp_of, grade_answer}
use fpga_g_ptp.Engine.Suite.Graded.{Graded-start}
use fpga_g_ptp.Engine.Suite.Graded.Peer.{check_common-Graded}

abbrev control_of : ℕ → ℕ
control_of mtype = if mtype == 0x0 then 0x00 else if mtype == 0x8 then 0x02 else 0x05

-- A frame of our port, of 54 octets behind the addresses and the EtherType.
pub record IsOurs (mtype flags : ℕ) (f : Frame) : Type 0 where
  pub size : length f ≡ 68
  pub destination : fld48 f 0 ≡ 0x0180C200000E
  pub source : fld48 f 6 ≡ our_mac
  pub type : byte_at f 14 ≡ bit_or 0x10 mtype
  pub declared : fld16 f 16 ≡ 54
  pub flag_bits : fld16 f 20 ≡ flags
  pub identity : fld64 f 34 ≡ our_cid
  pub port : fld16 f 42 ≡ 1
  pub control : byte_at f 46 ≡ control_of mtype
  pub interval : byte_at f 47 ≡ 0x7F

-- A frame of ours that answers the peer's request.
pub record IsAnswer (mtype flags seq ns : ℕ) (f : Frame) : Type 0 where
  pub ours : IsOurs mtype flags f
  pub sequence : fld16 f 44 ≡ seq
  pub stamp : stamp_of f ≡ ns
  pub requester : fld64 f 58 ≡ peer_cid

module _ {S : Type 0} where
  abbrev pub fails : Suite S → ℕ
  fails s = s.bench.tally.fails

  pub no_wait : (k : ℕ) (s : Suite S) → k ≤ fails s → ¬ (fails (expect 0 1 s) ≡ k)
  unfolding expect expect_eq grade
  no_wait k s le e = ground arith

  -- A check that adds no failure to `k` of them.
  no_failure :
      (got exp k : ℕ) (s : Suite S)
      → k ≤ fails s
      → fails (expect got exp s) ≡ k
      → (got ≡ exp) × (fails s ≡ k)
  unfolding expect expect_eq grade
  no_failure got exp k s le e = ground arith

  expect-more : (got exp k : ℕ) (s : Suite S) → k ≤ fails s → k ≤ fails (expect got exp s)
  unfolding expect expect_eq grade
  expect-more got exp k s le = ground arith

  -- The nine checks of a frame of ours.
  common_clean :
      (f : Frame) (mtype flags k : ℕ) (s : Suite S)
      → k ≤ fails s
      → fails (check_common f mtype flags 54 0x7F s) ≡ k
      → IsOurs mtype flags f × (fails s ≡ k)
  unfolding check_common
  common_clean f mtype flags k s le e =
      elim (Bool-cases (length f == 68)) as (λ c. IsOurs mtype flags f × (fails s ≡ k)) [
        | inl same ↦
            let s1 = expect (fld48 f 0) 0x0180C200000E s in
            let l1 = expect-more (fld48 f 0) 0x0180C200000E k s le in
            let s2 = expect (fld48 f 6) our_mac s1 in
            let l2 = expect-more (fld48 f 6) our_mac k s1 l1 in
            let s3 = expect (byte_at f 14) (bit_or 0x10 mtype) s2 in
            let l3 = expect-more (byte_at f 14) (bit_or 0x10 mtype) k s2 l2 in
            let s4 = expect (fld16 f 16) 54 s3 in
            let l4 = expect-more (fld16 f 16) 54 k s3 l3 in
            let s5 = expect (fld16 f 20) flags s4 in
            let l5 = expect-more (fld16 f 20) flags k s4 l4 in
            let s6 = expect (fld64 f 34) our_cid s5 in
            let l6 = expect-more (fld64 f 34) our_cid k s5 l5 in
            let s7 = expect (fld16 f 42) 1 s6 in
            let l7 = expect-more (fld16 f 42) 1 k s6 l6 in
            let s8 = expect (byte_at f 46) (control_of mtype) s7 in
            let l8 = expect-more (byte_at f 46) (control_of mtype) k s7 l7 in
            let s9 = expect (byte_at f 47) 0x7F s8 in
            let l9 = expect-more (byte_at f 47) 0x7F k s8 l8 in
            let e9 : fails s9 ≡ k = rw same at e in
            let (c9, e8) = no_failure (byte_at f 47) 0x7F k s8 l8 e9 in
            let (c8, e7) = no_failure (byte_at f 46) (control_of mtype) k s7 l7 e8 in
            let (c7, e6) = no_failure (fld16 f 42) 1 k s6 l6 e7 in
            let (c6, e5) = no_failure (fld64 f 34) our_cid k s5 l5 e6 in
            let (c5, e4) = no_failure (fld16 f 20) flags k s4 l4 e5 in
            let (c4, e3) = no_failure (fld16 f 16) 54 k s3 l3 e4 in
            let (c3, e2) = no_failure (byte_at f 14) (bit_or 0x10 mtype) k s2 l2 e3 in
            let (c2, e1) = no_failure (fld48 f 6) our_mac k s1 l1 e2 in
            let (c1, e0) = no_failure (fld48 f 0) 0x0180C200000E k s le e1 in
            (
              record {
                size = (==_iff (length f) 68).0 same;
                destination = c1;
                source = c2;
                type = c3;
                declared = c4;
                flag_bits = c5;
                identity = c6;
                port = c7;
                control = c8;
                interval = c9;
              },
              e0,
            )
        | inr other ↦ let size = (no_failure (length f) 68 k s le (rw other at e)).0 in ground arith
      ]

  pub answer_clean :
      (mtype flags seq ns : ℕ) (f : Frame) (k : ℕ) (s : Suite S)
      → k ≤ fails s
      → fails (grade_answer mtype flags seq ns f s) ≡ k
      → IsAnswer mtype flags seq ns f × (fails s ≡ k)
  unfolding grade_answer
  answer_clean mtype flags seq ns f k s le e =
      let s1 = check_common f mtype flags 54 0x7F s in
      let l1 : k ≤ fails s1 = omega (
        arith,
        le,
        (check_common-Graded f mtype flags 54 0x7F (Graded-start s)).bench.tally.kept,
      ) in
      let s2 = expect (fld16 f 44) seq s1 in
      let l2 = expect-more (fld16 f 44) seq k s1 l1 in
      let s3 = expect (stamp_of f) ns s2 in
      let l3 = expect-more (stamp_of f) ns k s2 l2 in
      let (c3, e3) = no_failure (fld64 f 58) peer_cid k s3 l3 e in
      let (c2, e2) = no_failure (stamp_of f) ns k s2 l2 e3 in
      let (c1, e1) = no_failure (fld16 f 44) seq k s1 l1 e2 in
      let (ours, e0) = common_clean f mtype flags k s le e1 in
      (record { ours = ours; sequence = c1; stamp = c2; requester = c3 }, e0)
