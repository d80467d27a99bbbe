-- ===== src/Tsngen/Script/Laws.antt =====
-- The exit status of a script, and the two hexadecimal directions.
use fpga_g_ptp.Base.{
  ℕ, ◌+◌, ◌*◌, ◌/◌, ◌%◌, ◌^◌, ◌<◌, ◌≡◌, refl, ap₂, Bool, true, false, List, [], ◌∷◌, ◌++◌, arith,
  All, u8, suc,
}
use fpga_g_ptp.Harness.Verilated.{Verilated}
use fpga_g_ptp.Wire.{Frame}
use fpga_g_ptp.Engine.Ports.{EngineIn, EngineOut}
use fpga_g_ptp.Tsngen.Clock.{Session}
use fpga_g_ptp.Tsngen.Script.{
  Command, boot, master, unknown, Line, bytes_of_hex, hex_of_bytes, no_pdreq, no_ascapable,
  master_timeout, unknown_command, ok_boot, ok_master,
}

-- A frame of bytes that is dumped and injected again is the same frame, and so is one with an odd digit behind it.
pub bytes_of_hex-hex_of_bytes :
    (f : Frame) (odd : ℕ)
    → All (λ b. b < 2 ^ 8) f
    → (bytes_of_hex (hex_of_bytes f) ≡ f) × (bytes_of_hex (hex_of_bytes f ++ (odd ∷ [])) ≡ f)
unfolding bytes_of_hex hex_of_bytes
bytes_of_hex-hex_of_bytes [] odd h = (refl, refl)
bytes_of_hex-hex_of_bytes (v ∷ vs) odd h =
    let rest = bytes_of_hex-hex_of_bytes vs odd h.1 in
    let byte : u8 (v / 16 * 16 + v % 16) ≡ v = omega (arith, h.0) in
    (ap₂ (λ n t. n ∷ t) byte rest.0, ap₂ (λ n t. n ∷ t) byte rest.1)

-- The commands that the script language has.
abbrev pub is_known : Command → Bool
is_known unknown = false
is_known _ = true

abbrev pub all_known : List Command → Bool
all_known [] = true
all_known (unknown ∷ cs) = false
all_known (_ ∷ cs) = all_known cs

-- What a line says of the script: 0 where it may go on, else the status that it ends with.
abbrev pub verdict : Line → ℕ
verdict no_pdreq = 1
verdict no_ascapable = 1
verdict master_timeout = 1
verdict unknown_command = 2
verdict _ = 0

abbrev pub is_up : Line → ℕ
is_up ok_boot = 1
is_up ok_master = 1
is_up _ = 0

-- How many lines say that a bring-up succeeded, and how many commands ask for one.
abbrev pub ups : List Line → ℕ
ups [] = 0
ups (l ∷ ls) = is_up l + ups ls

abbrev pub bring_ups : List Command → ℕ
bring_ups [] = 0
bring_ups (boot ∷ cs) = suc (bring_ups cs)
bring_ups (master ∷ cs) = suc (bring_ups cs)
bring_ups (_ ∷ cs) = bring_ups cs

-- No line but the last has a verdict, and that is the status.
abbrev pub Tells : (status : ℕ) → List Line → Type 0
Tells status [] = status ≡ 0
Tells status (l ∷ []) = verdict l ≡ status
Tells status (l ∷ m ∷ ls) = (verdict l ≡ 0) × Tells status (m ∷ ls)

-- The status, what was printed, and the commands.
pub record Explains (status : ℕ) (lines : List Line) (cs : List Command) : Type 0 where
  pub tells : Tells status lines
  pub clean : status ≡ 0 → (all_known cs ≡ true) × (ups lines ≡ bring_ups cs)
  pub unknown : status ≡ 2 → all_known cs ≡ false

-- A line of a bring-up says whether it succeeded.
abbrev Says : Bool → Line → Type 0
Says true l = (verdict l ≡ 0) × (is_up l ≡ 1)
Says false l = verdict l ≡ 1

module _ (V : Verilated EngineIn EngineOut) (fuel : ℕ) where
  Explained : ℕ × List Line × Session V.State → List Command → Type 0
  Explained r cs = Explains r.0 r.1 cs
