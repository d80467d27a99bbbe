-- ===== src/Parser/Tests/Reference.antt =====
-- A parser on which the suite is run: the header rules, the TLV walk and the message bank as the comments
-- of tb/verilator/parser/sim_main.cpp state them, one byte to a clock.
use fpga_g_ptp.Base.{
  ℕ, ◌+◌, ◌-◌, ◌*◌, ◌/◌, ◌%◌, Bool, true, false, not, ◌&&◌, ◌||◌, List, [], ◌∷◌, ◌==◌, ltb, leb,
  if◌then◌else◌, bit_or, u16, ◌<<<◌, take, drop, get_or, to_nat,
}
use fpga_g_ptp.Harness.Verilated.{Verilated}
use fpga_g_ptp.Parser.Feed.{ParserIn, ParserOut}

-- The frame so far, newest byte first; whether it is refused; the walk: where the present TLV starts,
-- whether the information TLV or a path was met, the hops and whether the local clock is one; whether
-- word 12 is still to be written.
pub record Parsing : Type 0 where
  pub rev : List ℕ
  pub n : ℕ
  pub bad : Bool
  pub tlv : ℕ
  pub met : Bool
  pub hops : ℕ
  pub loop : Bool
  pub later : Bool
  pub drops : ℕ
  pub out : ParserOut

abbrev pub no_out : ParserOut
no_out = record {
  bank_we_o = false;
  bank_addr_o = 0;
  bank_wdata_o = 0;
  ev_valid_o = false;
  ev_code_o = 0;
  ev_seq_o = 0;
  drop_cnt_o = 0;
}

abbrev pub no_parsing : Parsing
no_parsing = record {
  rev = [];
  n = 0;
  bad = false;
  tlv = 0;
  met = false;
  hops = 0;
  loop = false;
  later = false;
  drops = 0;
  out = no_out;
}

unfoldable pub number : List ℕ → ℕ
number [] = 0
number (x ∷ xs) = x + 256 * number xs

-- The `k` bytes from index `j` on.
unfoldable pub field : (j k : ℕ) → Parsing → ℕ
unfolding number
field j k s = number (take k (drop (s.n - (j + k)) s.rev))

unfoldable pub type_of : Parsing → ℕ
unfolding field
type_of s = field 14 1 s % 16

unfoldable pub end_of : Parsing → ℕ
unfolding field
end_of s = 14 + field 16 2 s

-- The event code and the least messageLength of a type, zero for the unlisted ones.
unfoldable pub code_of : ℕ → ℕ
code_of t = get_or (1 ∷ 0 ∷ 4 ∷ 5 ∷ 0 ∷ 0 ∷ 0 ∷ 0 ∷ 2 ∷ 0 ∷ 6 ∷ 3 ∷ 7 ∷ []) t 0

unfoldable pub least : ℕ → ℕ
least t = get_or (44 ∷ 0 ∷ 54 ∷ 54 ∷ 0 ∷ 0 ∷ 0 ∷ 0 ∷ 76 ∷ 0 ∷ 54 ∷ 64 ∷ 34 ∷ []) t 0

unfoldable pub walks : Parsing → Bool
unfolding type_of
walks s = (type_of s == 8) || (type_of s == 0xB)

-- The rules on the header, each at its byte.
unfoldable pub refuses_header : Parsing → Bool
unfolding field type_of code_of least
refuses_header s =
    if s.n == 14
    then not (field 12 2 s == 0x88F7)
    else if s.n == 15
    then not (field 14 1 s / 16 == 1) || (code_of (type_of s) == 0)
    else if s.n == 16
    then not (field 15 1 s == 2)
    else if s.n == 18
    then ltb (field 16 2 s) (least (type_of s))
    else (s.n == 19) && not (field 18 1 s == 0)

abbrev pub writes : (a v : ℕ) → Parsing → Parsing
writes a v s = record s {
  out = record s.out { bank_we_o = true; bank_addr_o = a; bank_wdata_o = v };
}

-- The words at fixed places, each as its last byte arrives.
unfoldable pub write_fixed : Parsing → Parsing
unfolding field type_of
write_fixed s =
    let t = type_of s in
    let announce = t == 0xB in
    let timed = not announce && not (t == 2) && not (t == 0xC) in
    let resp = (t == 3) || (t == 0xA) in
    let n = s.n in
    if n == 30
    then writes 1 (field 22 8 s) s
    else if n == 42
    then writes 2 (field 34 8 s) s
    else if n == 44
    then writes 3 (field 42 2 s) s
    else if n == 48
    then writes 0
        (bit_or
          (bit_or (bit_or (bit_or (t <<< 48) (field 44 2 s <<< 32)) (field 18 1 s <<< 24))
            (field 20 2 s <<< 8))
          (field 47 1 s))
        s
    else if timed && (n == 54)
    then writes 4 (field 48 6 s) s
    else if timed && (n == 58)
    then writes 5 (field 54 4 s) s
    else if resp && (n == 66)
    then writes 6 (field 58 8 s) s
    else if resp && (n == 68)
    then writes 7 (field 66 2 s) s
    else if announce && (n == 67)
    then writes 8
        (bit_or (bit_or (bit_or (field 58 2 s <<< 48) (field 61 1 s <<< 40)) (field 62 4 s <<< 8))
          (field 66 1 s))
        s
    else if announce && (n == 75)
    then writes 9 (field 67 8 s) s
    else if announce && (n == 78)
    then writes 10 (bit_or (field 75 2 s <<< 48) (field 77 1 s <<< 40)) s
    else s

-- The header of the present TLV is complete.
unfoldable pub tlv_header : Parsing → Parsing
unfolding field type_of end_of
tlv_header s =
    let len = field (s.tlv + 2) 2 s in
    let path = (type_of s == 0xB) && (field s.tlv 2 s == 8) in
    record s {
      bad =
          (len % 2 == 1)
          || ltb (end_of s) (s.tlv + 4 + len)
          || (path && (s.met || not (len % 8 == 0)));
      met = s.met || path;
    }

-- A hop of the path, at its last byte.
unfoldable pub tlv_hop : (local : ℕ) → Parsing → Parsing
unfolding field
tlv_hop local s =
    let hop = field (s.n - 8) 8 s in
    let t = record s { hops = s.hops + 1; loop = s.loop || (hop == local) } in
    if ltb s.hops 8 then writes (16 + s.hops) hop t else t

-- The word of the first information TLV.
unfoldable pub tlv_info : Parsing → Parsing
unfolding field
tlv_info s =
    if not s.met
      && (field s.tlv 2 s == 3)
      && (field (s.tlv + 2) 2 s == 28)
      && (field (s.tlv + 4) 6 s == 0x0080C2000001)
    then writes 11 (bit_or (field (s.tlv + 10) 4 s <<< 32) (field (s.tlv + 14) 2 s <<< 16))
        (record s { met = true })
    else s

unfoldable pub tlv_end : Parsing → Parsing
unfolding field
tlv_end s =
    if not s.bad && (s.n == s.tlv + 4 + field (s.tlv + 2) 2 s) then record s { tlv = s.n } else s

unfoldable pub walk : (local : ℕ) → Parsing → Parsing
unfolding field type_of end_of walks tlv_header tlv_hop tlv_info tlv_end
walk local s =
    if s.n == 18
    then record s { tlv = if type_of s == 8 then 58 else 78 }
    else if leb 19 s.n && walks s && leb s.n (end_of s) && leb (s.tlv + 4) s.n
    then tlv_end (
        if s.n == s.tlv + 4
        then tlv_header s
        else if (type_of s == 0xB) && (field s.tlv 2 s == 8) && ((s.n - s.tlv - 4) % 8 == 0)
        then tlv_hop local s
        else if (type_of s == 8) && (s.n == s.tlv + 16)
        then tlv_info s
        else s)
    else s

-- The last byte: the frame is dropped, or its event raised, for an Announce behind word 12.
unfoldable pub finish : Parsing → Parsing
unfolding field type_of end_of code_of walks
finish s =
    let good =
      not s.bad
      && leb 48 s.n
      && leb (end_of s) s.n
      && (not (walks s) || (s.tlv == end_of s))
      && (s.met || not (type_of s == 8)) in
    if not good
    then record s { drops = u16 (s.drops + 1); out = no_out }
    else if type_of s == 0xB
    then record s { later = true }
    else record s {
      out = record s.out {
        ev_valid_o = true;
        ev_code_o = code_of (type_of s);
        ev_seq_o = field 44 2 s;
      };
    }

unfoldable pub at_byte : ParserIn → Parsing → Parsing
unfolding refuses_header write_fixed walk finish
at_byte p s =
    let f =
      if p.rx_sof_i then record no_parsing { drops = s.drops } else record s { out = no_out } in
    let g = record f { rev = p.rx_data_i ∷ f.rev; n = f.n + 1; bad = f.bad || p.rx_err_i } in
    let h = record g { bad = g.bad || refuses_header g } in
    let c = if h.bad || ltb h.n 18 then h else walk p.local_clock_id_i (write_fixed h) in
    if p.rx_eof_i then finish c else c

-- Word 12 and the event of an Announce.
unfoldable pub finish_later : Parsing → Parsing
unfolding field
finish_later s =
    if s.later
    then record s {
      later = false;
      out = record {
        bank_we_o = true;
        bank_addr_o = 12;
        bank_wdata_o = if s.met then bit_or (1 <<< 63) (bit_or (to_nat s.loop <<< 8) s.hops) else 0;
        ev_valid_o = true;
        ev_code_o = 3;
        ev_seq_o = field 44 2 s;
        drop_cnt_o = 0;
      };
    }
    else record s { out = no_out }

unfoldable pub edge : ParserIn → Parsing → Parsing
unfolding at_byte finish_later
edge p s = if p.clk_i && p.rst_n then if p.rx_valid_i then at_byte p s else finish_later s else s

abbrev pub reference : Verilated ParserIn ParserOut
reference = record {
  State = Parsing;
  fresh = no_parsing;
  eval = edge;
  out = λ s. record s.out { drop_cnt_o = s.drops };
}
