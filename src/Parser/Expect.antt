-- ===== src/Parser/Expect.antt =====
-- tb/verilator/parser/sim_main.cpp: `expect_eq`, the constants of the checks, and the groups of
-- comparisons that the blocks of the `check_` functions have in common.
pub mod Laws
use fpga_g_ptp.Base.{
  ℕ, ◌+◌, ◌%◌, ◌^◌, Bool, false, List, [], ◌∷◌, ◌==◌, if◌then◌else◌, bit_or, ◌<<<◌, u16, to_nat,
  length,
}
use fpga_g_ptp.Harness.Verilated.{Verilated}
use fpga_g_ptp.Harness.Tally.{expect_eq}
use fpga_g_ptp.Wire.{Frame}
use fpga_g_ptp.Parser.Feed.{ParserIn, ParserOut, Bank, store, load, Harness, feed}

abbrev pub local_cid : ℕ
local_cid = 0x02A1B2FFFEC3D4E5

abbrev pub agm : ℕ
agm = 0x001122FFFE334455

abbrev pub asrc : ℕ
asrc = 0x001122FFFE556677

abbrev pub pt_present : ℕ
pt_present = 1 <<< 63

-- `bank.count(a)`
unfoldable pub count : (a : ℕ) → Bank → ℕ
count a [] = 0
count a ((k, w) ∷ bank) = if k == a then 1 else count a bank

-- `bank[a]` as it is read: a missing word is inserted as zero.
unfoldable pub touch : (a : ℕ) → Bank → Bank
touch a bank = if count a bank == 0 then store a 0 bank else bank

module _ {S : Type 0} where
  -- `expect_eq(what, got, exp)`
  unfoldable pub expect : (got exp : ℕ) → Harness S → Harness S
  expect got exp h = record h { tally = expect_eq got exp h.tally }

  -- `expect_eq(n, bank[a], exp)`
  unfoldable pub expect_word : (a exp : ℕ) → Harness S → Harness S
  expect_word a exp h = expect (load a h.bank) exp (record h { bank = touch a h.bank })

  -- `expect_eq(n, ev_seen ? ev_code : 0, code)`
  unfoldable pub expect_event : (code : ℕ) → Harness S → Harness S
  expect_event code h = expect (if h.ev_seen then h.ev_code else 0) code h

  -- `expect_eq(n, ev_seq, seq)`
  unfoldable pub expect_seq : (seq : ℕ) → Harness S → Harness S
  expect_seq seq h = expect h.ev_seq seq h

  -- `expect_eq(n, ev_seen, 0)`
  unfoldable pub expect_silent : Harness S → Harness S
  expect_silent h = expect (to_nat h.ev_seen) 0 h

  -- `expect_eq(n, bank.count(a), 0)`
  unfoldable pub expect_absent : (a : ℕ) → Harness S → Harness S
  expect_absent a h = expect (count a h.bank) 0 h

  -- `expect_eq(n, bank.size(), words)`
  unfoldable pub expect_size : (words : ℕ) → Harness S → Harness S
  expect_size words h = expect (length h.bank) words h

  -- `bank[from + k]` for each entry `k` of the path.
  unfoldable pub expect_identities : (from : ℕ) → List ℕ → Harness S → Harness S
  expect_identities from [] h = h
  expect_identities from (hop ∷ path) h = expect_identities (from + 1) path (expect_word from hop h)

module _ (V : Verilated ParserIn ParserOut) where
  -- `dut->drop_cnt_o`, a 16-bit port
  abbrev pub drops : Harness V.State → ℕ
  drops h = (V.out h.dut).drop_cnt_o

  -- `expect_eq(n, dut->drop_cnt_o, static_cast<uint16_t>(d0 + n))`
  unfoldable pub expect_drops : (d0 n : ℕ) → Harness V.State → Harness V.State
  expect_drops d0 n h = expect (drops h) (u16 (d0 + n)) h

  -- `expect_eq(n, dut->drop_cnt_o, d0)`
  unfoldable pub expect_no_drop : (d0 : ℕ) → Harness V.State → Harness V.State
  expect_no_drop d0 h = expect (drops h) d0 h

  -- The blocks that feed one frame and grade it by `graded`, with the drop count from before the feed.
  abbrev pub block :
      (graded : (d0 : ℕ) → Harness V.State → Harness V.State)
      → Frame
      → Harness V.State
      → Harness V.State
  block graded f h = graded (drops h) (feed V f false h)

  -- No event, no hop count, one drop.
  unfoldable pub expect_refused : Frame → Harness V.State → Harness V.State
  expect_refused = block (λ d0 h. expect_drops d0 1 (expect_absent 12 (expect_silent h)))

  -- No event, one drop.
  unfoldable pub expect_dropped : Frame → Harness V.State → Harness V.State
  expect_dropped = block (λ d0 h. expect_drops d0 1 (expect_silent h))

  -- No event, no bank write, one drop.
  unfoldable pub expect_unwritten : Frame → Harness V.State → Harness V.State
  expect_unwritten = block (λ d0 h. expect_drops d0 1 (expect_size 0 (expect_silent h)))

  -- An Announce event with `w12` as its word 12, and no drop.
  unfoldable pub expect_counted : (w12 : ℕ) → Frame → Harness V.State → Harness V.State
  expect_counted w12 = block (λ d0 h. expect_no_drop d0 (expect_word 12 w12 (expect_event 3 h)))

  -- The same with no identity kept.
  unfoldable pub expect_pathless : Frame → Harness V.State → Harness V.State
  expect_pathless =
      block (λ d0 h. expect_no_drop d0 (expect_absent 16 (expect_word 12 0 (expect_event 3 h))))

  -- The same with `path` as the identities kept.
  unfoldable pub expect_path : (w12 : ℕ) → List ℕ → Frame → Harness V.State → Harness V.State
  expect_path w12 path = block (λ d0 h.
      expect_no_drop d0 (expect_identities 16 path (expect_word 12 w12 (expect_event 3 h))))
