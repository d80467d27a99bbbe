-- ===== src/Engine/Const.antt =====
-- The identities and flag bits of the engine suite.
use fpga_g_ptp.Base.{ℕ, ◌/◌, ◌%◌, ◌^◌, ◌*◌, ◌+◌}

abbrev pub our_mac : ℕ
our_mac = 0x02A1B2C3D4E5

abbrev pub our_cid : ℕ
our_cid = 0x02A1B2FFFEC3D4E5

abbrev pub peer_cid : ℕ
peer_cid = 0x0080E1FFFE112233

abbrev pub near_cid : ℕ
near_cid = 0x0077770000000000 + our_cid % 2 ^ 32

abbrev pub req_hi_cid : ℕ
req_hi_cid = our_cid / 2 ^ 32 * 2 ^ 32 + 0x00112233

abbrev pub our_cq : ℕ
our_cq = 0xF822436A

abbrev pub fl_present : ℕ
fl_present = 1

abbrev pub fl_amgm : ℕ
fl_amgm = 2

abbrev pub fl_ascap : ℕ
fl_ascap = 4

abbrev pub fl_syncok : ℕ
fl_syncok = 8

abbrev pub our_pn : ℕ
our_pn = 1

abbrev pub foreign_pn : ℕ
foreign_pn = 99
