-- ===== src/Engine/Transmit/Laws.antt =====
-- The frames that the bytes on the TX face make.
use fpga_g_ptp.Base.{
  ℕ, ◌+◌, ◌≤◌, ◌<◌, ◌≡◌, true, ◌&&◌, some, [], arith, if◌then◌else◌, snoc, length, length-snoc,
  length-set, if_cases, u64, to_nat, List, ◌∷◌, ◌==◌,
}
use fpga_g_ptp.Wire.{Frame}
use fpga_g_ptp.Wire.Read.{type_of}
use fpga_g_ptp.Engine.Transmit.{Transmit, Beat, start_frame, take_byte, end_frame, capture, stamp}

-- How many frames are Pdelay_Req, which is no more than there are.
abbrev pub requests_in : List Frame → ℕ
requests_in [] = 0
requests_in (f ∷ fs) = to_nat (type_of f == 0x2) + requests_in fs

requests_in-snoc :
    (fs : List Frame) (f : Frame)
    → requests_in (snoc fs f) ≡ requests_in fs + to_nat (type_of f == 0x2)
requests_in-snoc [] f = omega arith
requests_in-snoc (g ∷ fs) f = omega (arith, requests_in-snoc fs f)

-- One entry of each record for each frame, and a pending stamp names a frame.
pub record IsRecorded (t : Transmit) : Type 0 where
  pub stamps : length t.txns ≡ length t.txf
  pub starts : length t.txsof ≡ length t.txf
  pub begun : length t.txf + (if t.in_tx then 1 else 0) ≤ length t.txstarts
  pub requests : t.pd_reqs_sent ≡ u64 (requests_in t.txf)
  pub pending : (i : ℕ) → t.auto_pend ≡ some i → i < length t.txf

start_frame-IsRecorded :
    (cyc : ℕ) (beat : Beat) (t : Transmit) → IsRecorded t → IsRecorded (start_frame cyc beat t)
unfolding start_frame
start_frame-IsRecorded cyc beat t r = if_cases IsRecorded beat.sof (λ e. opened) (λ e. r)
  where
    opened :
        IsRecorded
          (record t { cur = []; in_tx = true; cur_sof = cyc; txstarts = snoc t.txstarts cyc })
    opened = record {
      stamps = r.stamps;
      starts = r.starts;
      begun = ground (arith, r.begun, length-snoc t.txstarts cyc);
      requests = r.requests;
      pending = r.pending;
    }

take_byte-IsRecorded : (beat : Beat) (t : Transmit) → IsRecorded t → IsRecorded (take_byte beat t)
unfolding take_byte
take_byte-IsRecorded beat t r = if_cases IsRecorded t.in_tx (λ e. longer) (λ e. r)
  where
    longer : IsRecorded (record t { cur = snoc t.cur beat.byte })
    longer = record {
      stamps = r.stamps;
      starts = r.starts;
      begun = r.begun;
      requests = r.requests;
      pending = r.pending;
    }

end_frame-IsRecorded : (beat : Beat) (t : Transmit) → IsRecorded t → IsRecorded (end_frame beat t)
unfolding end_frame
end_frame-IsRecorded beat t r =
    if_cases IsRecorded (beat.eof && t.in_tx)
      (λ e. record {
        stamps = omega (arith, r.stamps, length-snoc t.txns 0, length-snoc t.txf t.cur);
        starts = omega (arith, r.starts, length-snoc t.txsof t.cur_sof, length-snoc t.txf t.cur);
        begun = ground (arith, r.begun, length-snoc t.txf t.cur);
        requests = ground (arith, r.requests, requests_in-snoc t.txf t.cur);
        pending = λ i h. ground (arith, r.pending i, length-snoc t.txf t.cur);
      })
      (λ e. r)

pub capture-IsRecorded :
    (cyc : ℕ) (beat : Beat) (t : Transmit) → IsRecorded t → IsRecorded (capture cyc beat t)
unfolding capture
capture-IsRecorded cyc beat t r = if_cases IsRecorded beat.fire (λ e. taken) (λ e. r)
  where
    taken : IsRecorded (end_frame beat (take_byte beat (start_frame cyc beat t)))
    taken =
        end_frame-IsRecorded beat _
          (take_byte-IsRecorded beat _ (start_frame-IsRecorded cyc beat t r))

pub stamp-IsRecorded : (idx ns : ℕ) (t : Transmit) → IsRecorded t → IsRecorded (stamp idx ns t)
unfolding stamp
stamp-IsRecorded idx ns t r = record {
  stamps = omega (arith, r.stamps, length-set t.txns idx ns);
  starts = r.starts;
  begun = r.begun;
  requests = r.requests;
  pending = λ i h. ground arith;
}
