-- ===== src/Gasket/Queue/Laws.antt =====
-- What the receive side reads back of the words of a frame.
use fpga_g_ptp.Base.{
  ℕ, suc, ◌+◌, ◌≡◌, refl, ap, ap₂, sym, ◌∙◌, Bool, true, false, ◌||◌, none, some, List, [], ◌∷◌,
  ◌++◌, arith, length, length-append, drop, drop-append_left, is_empty, append_assoc,
}
use fpga_g_ptp.Wire.{Frame}
use fpga_g_ptp.Gasket.Clock.{RxWord}
use fpga_g_ptp.Gasket.Queue.{to_sof, to_eof, bytes_of, any_err, Popped, found, look}

-- The words of a frame as the receiver delivers them, each byte with its error flag.
abbrev pub words_of : (first : Bool) → List (ℕ × Bool) → List RxWord
words_of first [] = []
words_of first (x ∷ xs) =
    record { byte = x.0; sof = first; eof = is_empty xs; err = x.1 } ∷ words_of false xs

abbrev pub bytes : List (ℕ × Bool) → Frame
bytes [] = []
bytes (x ∷ xs) = x.0 ∷ bytes xs

abbrev pub flagged : List (ℕ × Bool) → Bool
flagged [] = false
flagged (x ∷ xs) = x.1 || flagged xs

-- Words that start no frame: the tail of one whose head was lost.
abbrev pub NoSof : List RxWord → Type 0
NoSof [] = Unit
NoSof (w ∷ ws) = (w.sof ≡ false) × NoSof ws

abbrev pub NoEof : List RxWord → Type 0
NoEof [] = Unit
NoEof (w ∷ ws) = (w.eof ≡ false) × NoEof ws

to_sof_skip : (junk ws : List RxWord) → NoSof junk → to_sof (junk ++ ws) ≡ length junk + to_sof ws
unfolding to_sof
to_sof_skip [] ws h = omega arith
to_sof_skip (j ∷ junk) ws h = rw (h.0) (omega (arith, to_sof_skip junk ws h.1))

to_eof_frame :
    (x : ℕ × Bool) (xs : List (ℕ × Bool)) (first : Bool) (rest : List RxWord)
    → to_eof (words_of first (x ∷ xs) ++ rest) ≡ some (words_of first (x ∷ xs))
unfolding to_eof
to_eof_frame x [] first rest = refl
to_eof_frame x (y ∷ xs) first rest = rw (to_eof_frame y xs false rest) refl

to_eof_partial : (ws : List RxWord) → NoEof ws → to_eof ws ≡ none
unfolding to_eof
to_eof_partial [] h = refl
to_eof_partial (w ∷ ws) h = rw (h.0, to_eof_partial ws h.1) refl

bytes_words : (xs : List (ℕ × Bool)) (first : Bool) → bytes_of (words_of first xs) ≡ bytes xs
bytes_words [] first = refl
bytes_words (x ∷ xs) first = ap (λ t. x.0 ∷ t) (bytes_words xs false)

err_words : (xs : List (ℕ × Bool)) (first : Bool) → any_err (words_of first xs) ≡ flagged xs
err_words [] first = refl
err_words (x ∷ xs) first = ap (λ t. x.1 || t) (err_words xs false)

length_words : (xs : List (ℕ × Bool)) (first : Bool) → length (words_of first xs) ≡ length xs
length_words [] first = refl
length_words (x ∷ xs) first = ap suc (length_words xs false)

start_lem :
    (before junk ws : List RxWord)
    → NoSof junk
    → to_sof ws ≡ 0
    → (length before + to_sof (drop (length before) (before ++ (junk ++ ws)))
        ≡ length before + length junk)
      × (drop (length before + length junk) (before ++ (junk ++ ws)) ≡ ws)
start_lem before junk ws h e = (
  ap (λ l. length before + to_sof l) (drop-append_left before (junk ++ ws))
      ∙ omega (arith, to_sof_skip junk ws h),
  ap (λ n. drop n (before ++ (junk ++ ws))) (sym (length-append before junk))
      ∙ ap (λ l. drop (length (before ++ junk)) l) (sym (append_assoc before junk ws))
      ∙ drop-append_left (before ++ junk) ws,
)

starts_at : (w : RxWord) (ws : List RxWord) → w.sof ≡ true → to_sof (w ∷ ws) ≡ 0
unfolding to_sof
starts_at w ws s = rw s refl

starts_lem :
    (x : ℕ × Bool) (xs : List (ℕ × Bool)) (rest : List RxWord)
    → to_sof (words_of true (x ∷ xs) ++ rest) ≡ 0
unfolding to_sof
starts_lem x xs rest = refl

look_at :
    (rxw : List RxWord) (rp : ℕ) {start : ℕ} {ws : List RxWord}
    → rp + to_sof (drop rp rxw) ≡ start
    → drop start rxw ≡ ws
    → look rxw rp ≡ found start (to_eof ws)
unfolding look
look_at rxw rp p q = rw (p, q) refl

-- With the read pointer at the end of `before`, past any words that start no frame, a complete frame is popped byte for byte with
-- whether any of its words carried the error flag, and the pointer moves to its end, whatever words follow.
pub look_frame :
    (before junk : List RxWord) (x : ℕ × Bool) (xs : List (ℕ × Bool)) (rest : List RxWord)
    → NoSof junk
    → look (before ++ (junk ++ (words_of true (x ∷ xs) ++ rest))) (length before) ≡ (
      length before + length junk + length (x ∷ xs),
      some (record { out = bytes (x ∷ xs); err = flagged (x ∷ xs) }),
    )
look_frame before junk x xs rest h =
    let at = start_lem before junk (words_of true (x ∷ xs) ++ rest) h (starts_lem x xs rest) in
    look_at (before ++ (junk ++ (words_of true (x ∷ xs) ++ rest))) (length before) at.0 at.1
    ∙ ap (λ o. found (length before + length junk) o) (to_eof_frame x xs true rest)
    ∙ ap₂ (λ (n : ℕ) (p : Popped). (length before + length junk + n, some p))
        (length_words (x ∷ xs) true)
        (ap₂ (λ (o : Frame) (e : Bool). record { out = o; err = e }) (bytes_words (x ∷ xs) true)
          (err_words (x ∷ xs) true))

-- With a frame begun and not ended, nothing is popped and the pointer stands at its first word.
pub look_partial :
    (before junk : List RxWord) (w : RxWord) (ws : List RxWord)
    → NoSof junk
    → w.sof ≡ true
    → NoEof (w ∷ ws)
    → look (before ++ (junk ++ (w ∷ ws))) (length before) ≡ (length before + length junk, none)
look_partial before junk w ws h s e =
    let at = start_lem before junk (w ∷ ws) h (starts_at w ws s) in
    look_at (before ++ (junk ++ (w ∷ ws))) (length before) at.0 at.1
    ∙ ap (λ o. found (length before + length junk) o) (to_eof_partial (w ∷ ws) e)
