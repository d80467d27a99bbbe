-- ===== src/Gasket/Clock/Laws.antt =====
-- The interframe gap that the bench measures.
use fpga_g_ptp.Base.{
  ℕ, zero, suc, ◌+◌, ◌^◌, ◌<◌, ◌≡◌, refl, ap, ap₂, ◌∙◌, Bool, true, false, List, [], ◌∷◌, ◌++◌,
  arith, replicate, min, u64_max, u64,
}
use fpga_g_ptp.Gasket.Clock.{Gap, mii_edge, no_gap}

-- The samples of the enable, one MII edge after the other.
unfoldable pub edges : List Bool → Gap → Gap
edges [] g = g
edges (e ∷ es) g = edges es (mii_edge e g)

edges-append : (xs ys : List Bool) (g : Gap) → edges (xs ++ ys) g ≡ edges ys (edges xs g)
unfolding edges
edges-append [] ys g = refl
edges-append (x ∷ xs) ys g = edges-append xs ys (mii_edge x g)

-- A frame of `busy + 1` edges after a gap of `idle + 1`.
pub record Segment : Type 0 where
  pub idle : ℕ
  pub busy : ℕ

-- The enable on the wire in a segment.
abbrev pub wire_of : Segment → List Bool
wire_of s = replicate (s.idle + 1) false ++ replicate (s.busy + 1) true

abbrev pub wire : List Segment → List Bool
wire [] = []
wire (s ∷ ss) = wire_of s ++ wire ss

abbrev pub shortest : ℕ → List Segment → ℕ
shortest m [] = m
shortest m (s ∷ ss) = shortest (min m (s.idle + 1)) ss

abbrev pub AllShort : List Segment → Type 0
AllShort [] = Unit
AllShort (s ∷ ss) = (s.idle + 1 < 2 ^ 64) × AllShort ss

-- Inside or right after a frame, the shortest gap so far being `m`.
abbrev in_frame : (idle m : ℕ) → Gap
in_frame idle m = record { idle_mii = idle; min_gap = m; en_prev = true; seen_first_frame = true }

abbrev in_gap : (idle m : ℕ) → Gap
in_gap idle m = record { idle_mii = idle; min_gap = m; en_prev = false; seen_first_frame = true }

edges_busy : (n idle m : ℕ) → edges (replicate n true) (in_frame idle m) ≡ in_frame idle m
unfolding edges mii_edge
edges_busy zero idle m = refl
edges_busy (suc n) idle m = edges_busy n idle m

edges_idle :
    (n idle m : ℕ)
    → idle + n < 2 ^ 64
    → edges (replicate n false) (in_gap idle m) ≡ in_gap (idle + n) m
unfolding edges mii_edge
edges_idle zero idle m h = ap (λ i. in_gap i m) (omega arith)
edges_idle (suc n) idle m h =
    let one : u64 (idle + 1) ≡ idle + 1 = omega arith in
    let sum : idle + 1 + n ≡ idle + suc n = omega arith in
    ap (λ i. edges (replicate n false) (in_gap i m)) one
    ∙ edges_idle n (idle + 1) m (omega arith)
    ∙ ap (λ i. in_gap i m) sum

gap_ends : (idle m : ℕ) → mii_edge true (in_gap idle m) ≡ in_frame 0 (min m idle)
unfolding mii_edge
gap_ends idle m = ap (λ k. in_frame 0 k) (ground arith)

first_idle : (m : ℕ) → mii_edge false (in_frame 0 m) ≡ in_gap 1 m
unfolding mii_edge
first_idle m = refl

edges_segment :
    (s : Segment) (m : ℕ)
    → s.idle + 1 < 2 ^ 64
    → edges (wire_of s) (in_frame 0 m) ≡ in_frame 0 (min m (s.idle + 1))
unfolding edges
edges_segment s m h =
    let more : s.idle + 1 ≡ suc s.idle = omega arith in
    let again : s.busy + 1 ≡ suc s.busy = omega arith in
    let late : 1 + s.idle ≡ s.idle + 1 = omega arith in
    edges-append (replicate (s.idle + 1) false) (replicate (s.busy + 1) true) (in_frame 0 m)
    ∙ ap₂ (λ (n k : ℕ). edges (replicate k true) (edges (replicate n false) (in_frame 0 m))) more
        again
    ∙ ap (λ g. edges (replicate (suc s.busy) true) (edges (replicate s.idle false) g))
        (first_idle m)
    ∙ ap (λ g. edges (replicate (suc s.busy) true) g) (edges_idle s.idle 1 m (omega arith))
    ∙ ap (λ g. edges (replicate s.busy true) g) (gap_ends (1 + s.idle) m)
    ∙ edges_busy s.busy 0 (min m (1 + s.idle))
    ∙ ap (λ k. in_frame 0 (min m k)) late

edges_segments :
    (ss : List Segment) (m : ℕ)
    → AllShort ss
    → edges (wire ss) (in_frame 0 m) ≡ in_frame 0 (shortest m ss)
unfolding edges
edges_segments [] m h = refl
edges_segments (s ∷ ss) m h =
    edges-append (wire_of s) (wire ss) (in_frame 0 m)
    ∙ ap (λ g. edges (wire ss) g) (edges_segment s m h.0)
    ∙ edges_segments ss (min m (s.idle + 1)) h.1

edges_before : (n : ℕ) → edges (replicate n false) no_gap ≡ no_gap
unfolding edges mii_edge
edges_before zero = refl
edges_before (suc n) = edges_before n

edges_first : (busy : ℕ) → edges (replicate (suc busy) true) no_gap ≡ in_frame 0 u64_max
unfolding edges mii_edge
edges_first busy = edges_busy busy 0 u64_max

-- On a wire that is idle for any time, carries a first frame, and then any sequence of frames each after a gap (shorter than
-- 2^64 clocks), `min_gap` is the length of the shortest of these gaps: the idle time before the first
-- frame does not count.
pub min_gap_lem :
    (before busy : ℕ) (ss : List Segment)
    → AllShort ss
    → (edges (replicate before false ++ (replicate (suc busy) true ++ wire ss)) no_gap).min_gap
      ≡ shortest u64_max ss
min_gap_lem before busy ss h =
    ap (λ (g : Gap). g.min_gap)
      (edges-append (replicate before false) (replicate (suc busy) true ++ wire ss) no_gap
        ∙ ap (λ g. edges (replicate (suc busy) true ++ wire ss) g) (edges_before before)
        ∙ edges-append (replicate (suc busy) true) (wire ss) no_gap
        ∙ ap (λ g. edges (wire ss) g) (edges_first busy)
        ∙ edges_segments ss u64_max h)
