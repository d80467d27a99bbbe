-- ===== src/Engine/Transmit/Stream.antt =====
-- A stream of clocks on the TX face, stalls included, and the frames recorded of it.
use fpga_g_ptp.Base.{
  ℕ, ◌+◌, ◌≡◌, refl, ap, sym, ◌∙◌, Bool, true, false, ◌&&◌, List, [], ◌∷◌, ◌++◌, append_assoc,
  append-nil, if◌then◌else◌, snoc, snoc-append, is_empty, Bool-cases, inl, inr, arith,
}
use fpga_g_ptp.Wire.{Frame}
use fpga_g_ptp.Engine.Transmit.{Transmit, Beat, start_frame, take_byte, end_frame, capture}

-- Clock after clock from the cycle `cyc`.
unfoldable pub captures : (cyc : ℕ) → List Beat → Transmit → Transmit
captures cyc [] t = t
captures cyc (b ∷ bs) t = captures (cyc + 1) bs (capture cyc b t)

-- The clocks in which a byte is accepted.
abbrev pub fired : List Beat → List Beat
fired [] = []
fired (b ∷ bs) = if b.fire then b ∷ fired bs else fired bs

abbrev pub beat_of : (first last : Bool) → ℕ → Beat
beat_of first last byte = record { fire = true; sof = first; eof = last; byte = byte }

-- The accepted clocks of one frame: the first byte marked, and the last.
abbrev pub beats_of : (first : Bool) → Frame → List Beat
beats_of first [] = []
beats_of first (x ∷ xs) = beat_of first (is_empty xs) x ∷ beats_of false xs

-- Several frames, one after the other.
abbrev pub beats_of_all : List Frame → List Beat
beats_of_all [] = []
beats_of_all (f ∷ fs) = beats_of true f ++ beats_of_all fs

abbrev pub no_empty : List Frame → Bool
no_empty [] = true
no_empty ([] ∷ fs) = false
no_empty ((x ∷ xs) ∷ fs) = no_empty fs

-- What the records hold of the frames: those complete, the open one, and whether one is open.
record View : Type 0 where
  txf : List Frame
  cur : Frame
  in_tx : Bool

view : Transmit → View
view t = record { txf = t.txf; cur = t.cur; in_tx = t.in_tx }

-- One accepted clock on the view.
accept : Beat → View → View
accept b v =
    let cur = if b.sof then [] else v.cur in
    let live = if b.sof then true else v.in_tx in
    let cur = if live then snoc cur b.byte else cur in
    if b.eof && live
    then record { txf = snoc v.txf cur; cur = cur; in_tx = false }
    else record { txf = v.txf; cur = cur; in_tx = live }

accepts : List Beat → View → View
accepts [] v = v
accepts (b ∷ bs) v = accepts bs (accept b v)

capture_fires :
    (cyc : ℕ) (b : Beat) (t : Transmit) → b.fire ≡ true → view (capture cyc b t) ≡ accept b (view t)
unfolding view accept capture start_frame take_byte end_frame
capture_fires cyc b t e = elim (Bool-cases b.sof) [
  | inl s ↦ elim (Bool-cases b.eof) [ inl h ↦ rw (e, s, h) refl | inr h ↦ rw (e, s, h) refl ]
  | inr s ↦ elim (Bool-cases t.in_tx) [
    | inl i ↦ elim (Bool-cases b.eof) [
      | inl h ↦ rw (e, s, h, i) refl
      | inr h ↦ rw (e, s, h, i) refl
    ]
    | inr i ↦ elim (Bool-cases b.eof) [
      | inl h ↦ rw (e, s, h, i) refl
      | inr h ↦ rw (e, s, h, i) refl
    ]
  ]
]

capture_stalls : (cyc : ℕ) (b : Beat) (t : Transmit) → b.fire ≡ false → capture cyc b t ≡ t
unfolding capture
capture_stalls cyc b t e = rw e refl

view-captures :
    (cyc : ℕ) (bs : List Beat) (t : Transmit)
    → view (captures cyc bs t) ≡ accepts (fired bs) (view t)
unfolding captures accepts
view-captures cyc [] t = refl
view-captures cyc (b ∷ bs) t = elim (Bool-cases b.fire) [
  | inl e ↦
      view-captures (cyc + 1) bs (capture cyc b t)
      ∙ ap (λ v. accepts (fired bs) v) (capture_fires cyc b t e)
      ∙ sym (ap (λ (c : Bool). accepts (if c then b ∷ fired bs else fired bs) (view t)) e)
  | inr e ↦
      view-captures (cyc + 1) bs (capture cyc b t)
      ∙ ap (λ v. accepts (fired bs) (view v)) (capture_stalls cyc b t e)
      ∙ sym (ap (λ (c : Bool). accepts (if c then b ∷ fired bs else fired bs) (view t)) e)
]

accepts-append : (xs bs : List Beat) (v : View) → accepts (xs ++ bs) v ≡ accepts bs (accepts xs v)
unfolding accepts
accepts-append [] bs v = refl
accepts-append (a ∷ xs) bs v = accepts-append xs bs (accept a v)

-- The rest of an open frame.
accepts_rest :
    (x : ℕ) (xs : Frame) (txf : List Frame) (cur : Frame)
    → accepts (beats_of false (x ∷ xs)) (record { txf = txf; cur = cur; in_tx = true })
      ≡ record { txf = snoc txf (cur ++ (x ∷ xs)); cur = cur ++ (x ∷ xs); in_tx = false }
unfolding accepts accept
accepts_rest x [] txf cur = rw (snoc-append cur x) refl
accepts_rest x (y ∷ xs) txf cur =
    accepts_rest y xs txf (snoc cur x)
    ∙ rw (snoc-append cur x, append_assoc cur (x ∷ []) (y ∷ xs)) refl

accepts_frame :
    (x : ℕ) (xs : Frame) (v : View)
    → accepts (beats_of true (x ∷ xs)) v
      ≡ record { txf = snoc v.txf (x ∷ xs); cur = x ∷ xs; in_tx = false }
unfolding accepts accept
accepts_frame x [] v = refl
accepts_frame x (y ∷ xs) v = accepts_rest y xs v.txf (x ∷ [])

accepts_frames :
    (fs : List Frame) (v : View)
    → no_empty fs ≡ true
    → (accepts (beats_of_all fs) v).txf ≡ v.txf ++ fs
unfolding accepts
accepts_frames [] v e = sym (append-nil v.txf)
accepts_frames ([] ∷ fs) v e = absurd (ground arith)
accepts_frames ((x ∷ xs) ∷ fs) v e =
    ap (λ (w : View). w.txf)
      (accepts-append (beats_of true (x ∷ xs)) (beats_of_all fs) v
        ∙ ap (λ w. accepts (beats_of_all fs) w) (accepts_frame x xs v))
    ∙ accepts_frames fs _ e
    ∙ rw (snoc-append v.txf (x ∷ xs)) (append_assoc v.txf ((x ∷ xs) ∷ []) fs)

-- If the bytes accepted in a stream of clocks, with any stalls among them, are those of frames that are not empty, one after
-- the other, each with its first byte marked and its last, then these frames are recorded, in order
-- and byte for byte, after those recorded before, also when an unfinished frame was open.
pub captures_frames :
    (cyc : ℕ) (bs : List Beat) (fs : List Frame) (t : Transmit)
    → fired bs ≡ beats_of_all fs
    → no_empty fs ≡ true
    → (captures cyc bs t).txf ≡ t.txf ++ fs
unfolding view
captures_frames cyc bs fs t h e =
    ap (λ (v : View). v.txf) (view-captures cyc bs t ∙ ap (λ l. accepts l (view t)) h)
    ∙ accepts_frames fs (view t) e
