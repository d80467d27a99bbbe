-- ===== src/Engine/Face.antt =====
-- The egress result face of the engine suite: a producer that offers one complete tuple and holds it
-- until the engine takes it, and the frames whose result a phase delivers by hand.
pub mod Laws
use fpga_g_ptp.Base.{
  ℕ, ◌+◌, Bool, true, false, not, ◌&&◌, List, [], ◌∷◌, ◌==◌, if◌then◌else◌, snoc, add_u64,
}
use fpga_g_ptp.Harness.Tally.{Tally, expect_eq}
use fpga_g_ptp.Wire.{Frame}
use fpga_g_ptp.Wire.Read.{seq_of, type_of}
use fpga_g_ptp.Engine.Ports.{EngineIn, EngineOut}

pub record Face : Type 0 where
  pub ts_offer : Bool
  pub ts_offer_ns : ℕ
  pub ts_offer_seq : ℕ
  pub ts_offer_type : ℕ
  pub ts_offer_ok : Bool
  pub ts_offer_gen : ℕ
  pub ts_beats : ℕ
  pub ts_offer_waits : ℕ
  pub ts_last_taken_ns : ℕ

abbrev pub initial : Face
initial = record {
  ts_offer = false;
  ts_offer_ns = 0;
  ts_offer_seq = 0;
  ts_offer_type = 0;
  ts_offer_ok = true;
  ts_offer_gen = 1;
  ts_beats = 0;
  ts_offer_waits = 0;
  ts_last_taken_ns = 0;
}

unfoldable pub drive_result_face : Face → EngineIn → EngineIn
drive_result_face face ports = record ports {
  txts_valid_i = face.ts_offer;
  txts_ns_i = face.ts_offer_ns;
  txts_seq_i = face.ts_offer_seq;
  txts_type_i = face.ts_offer_type;
  txts_ok_i = face.ts_offer_ok;
  txts_gen_i = face.ts_offer_gen;
}

-- The tally takes a failed check if an offer is still standing.
unfoldable pub offer_result : (ns seq type : ℕ) (ok : Bool) (gen : ℕ) → Face × Tally → Face × Tally
offer_result ns seq type ok gen (face, tally) = (
  record face {
    ts_offer = true;
    ts_offer_ns = ns;
    ts_offer_seq = seq;
    ts_offer_type = type;
    ts_offer_ok = ok;
    ts_offer_gen = gen;
  },
  (if face.ts_offer then expect_eq 1 0 tally else tally),
)

-- The end of a clock: what the sampled beat means for the offer.
unfoldable pub settle_beat : (ts_beat : Bool) → Face → Face
settle_beat ts_beat face =
    if ts_beat
    then record face {
      ts_offer = false;
      ts_beats = add_u64 face.ts_beats 1;
      ts_last_taken_ns = face.ts_offer_ns;
    }
    else (if face.ts_offer
        then record face { ts_offer_waits = add_u64 face.ts_offer_waits 1 }
        else face)

-- `std::vector<std::pair<uint8_t, uint16_t>> withheld`
abbrev pub Tags : Type 0
Tags = List (ℕ × ℕ)

unfoldable pub withhold : (type seq : ℕ) → Tags → Tags
withhold type seq withheld = snoc withheld (type, seq)

-- `release_withheld()` of no tag, which clears them.
abbrev release_every : Tags → Tags
release_every withheld = []

-- Erases the first entry of that tag.
unfoldable pub release_withheld : (type seq : ℕ) → Tags → Tags
release_withheld type seq [] = []
release_withheld type seq ((t, s) ∷ withheld) =
    if t == type && s == seq then withheld else (t, s) ∷ release_withheld type seq withheld

unfoldable pub tag_withheld : (type seq : ℕ) → Tags → Bool
tag_withheld type seq [] = false
tag_withheld type seq ((t, s) ∷ withheld) =
    if t == type && s == seq then true else tag_withheld type seq withheld

-- Of the transmitted frame `f`.
unfoldable pub is_withheld : Frame → Tags → Bool
unfolding tag_withheld
is_withheld f withheld = tag_withheld (type_of f) (seq_of f) withheld
