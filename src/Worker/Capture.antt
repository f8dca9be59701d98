-- ===== src/Worker/Capture.antt =====
-- The capture loop of src/worker.rs, from `let mut frame_buf` on: what the device and the clock give
-- is the input, and the end of an inner list is the end of a window.
use propmonitor.Base.{
  ℕ, zero, suc, ◌+◌, ◌-◌, ◌%◌, min, Text, codes, Bool, true, false, ◌&&◌, ltb, leb, if◌then◌else◌,
  Option, none, some, List, [], ◌∷◌, ◌++◌, length, take, drop, set, Result, ok, err, ◌>>=◌,
}
use propmonitor.Float.{Float}
use propmonitor.Signal.{Signal}
use propmonitor.Measure.{SpectrumAnalyzer, fft_size, add_frame, start_window}
use propmonitor.Measure.Finalize.{finalize}
use propmonitor.Worker
use propmonitor.Worker.{Measurement, WorkerEvent}
use propmonitor.Worker.Waterfall.{waterfall_fft_n, compute_waterfall_bins}

-- How `run_inner` ends: `Ok(())`, an error, or a panic on an index.
pub data Outcome : Type 0 where
  stopped : Outcome
  failed : Text → Outcome
  panicked : Outcome

-- The events sent, and the outcome.
pub record Ending (F S : Type 0) : Type 0 where
  pub sent : List (WorkerEvent F S)
  pub outcome : Outcome

-- What stays the same while the loop runs.
pub record Tuning (F S : Type 0) : Type 0 where
  pub mtu : ℕ
  pub offset_hz : F
  pub width_hz : F
  pub wf_emit_every : ℕ
  pub hann : List S
  pub bin_hz : S
  pub f0_hz : S
  pub raw_emit_every : ℕ

-- The variables of the loop, and the events sent so far.
pub record Capture (F S C : Type 0) : Type 0 where
  pub analyzer : SpectrumAnalyzer F S C
  pub frame_buf : List C
  pub wf_ring : List C
  pub wf_pos : ℕ
  pub wf_filled : ℕ
  pub wf_since_emit : ℕ
  pub raw_power_sum : F
  pub raw_power_n : ℕ
  pub sent : List (WorkerEvent F S)

-- What `stream.read` gives.
pub data Read (C : Type 0) : Type 0 where
  samples : List C → Read C
  timeout : Read C
  read_failed : Text → Read C

-- One turn of the inner loop that the clock lets in: the flag `stop`, and the device's answer to a
-- request for so many samples.
pub record Turn (C : Type 0) : Type 0 where
  pub stop : Bool
  pub read : ℕ → Read C

module _ {F S C : Type 0} where
  abbrev pub leave : Capture F S C → Outcome → Ending F S
  leave c outcome = record { sent = c.sent; outcome = outcome }

  -- `tx.send`, and the return if the receiver is gone; `takes i` says that it takes the event after
  -- `i` others.
  unfoldable pub send :
      (ℕ → Bool) → Capture F S C → WorkerEvent F S → Result (Ending F S) (Capture F S C)
  send takes c event =
      if takes (length c.sent)
      then ok (record c { sent = c.sent ++ event ∷ [] })
      else err (leave c stopped)

  -- A value, or the panic of an index out of range.
  abbrev pub or_panic : {A : Type 0} → Capture F S C → Option A → Result (Ending F S) A
  or_panic c none = err (leave c panicked)
  or_panic c (some a) = ok a

  -- The ending of a step, or of what follows it.
  abbrev pub ended : Result (Ending F S) (Capture F S C) → (Capture F S C → Ending F S) → Ending F S
  ended (ok c) next = next c
  ended (err ending) next = ending

  -- `want`
  unfoldable pub asked : ℕ → Capture F S C → ℕ
  asked mtu c = min (fft_size - length c.frame_buf) mtu

module _ (fl : Float) (sg : Signal fl) (tune : Tuning (Float.F fl) (Signal.S sg))
    (takes : ℕ → Bool) where
  open fl use {F, add, div, of_ℕ}
  open sg use {S, C, mul, max, log10, least_power, to_f64, norm_sqr}

  -- The part of the sample loop for the level, and what it does when enough samples are summed.
  unfoldable pub emit_level : Capture F S C → Result (Ending F S) (Capture F S C)
  emit_level c = do
    let mean = div c.raw_power_sum (of_ℕ c.raw_power_n)
    d ← send takes c (Worker.raw_level (mul (of_ℕ 10) (log10 (max mean least_power))))
    ok (record d { raw_power_sum = of_ℕ 0; raw_power_n = 0 })

  unfoldable pub add_level : Capture F S C → C → Result (Ending F S) (Capture F S C)
  add_level c s =
      let d = record c {
        raw_power_sum = add c.raw_power_sum (to_f64 (norm_sqr s));
        raw_power_n = c.raw_power_n + 1;
      } in
      if leb tune.raw_emit_every d.raw_power_n then emit_level d else ok d

  -- The part for the ring.
  unfoldable pub add_to_ring : Capture F S C → C → Result (Ending F S) (Capture F S C)
  add_to_ring c s =
      if ltb c.wf_pos (length c.wf_ring)
      then ok (record c {
        wf_ring = set c.wf_ring c.wf_pos s;
        wf_pos = (c.wf_pos + 1) % waterfall_fft_n;
        wf_filled = if ltb c.wf_filled waterfall_fft_n then c.wf_filled + 1 else c.wf_filled;
        wf_since_emit = c.wf_since_emit + 1;
      })
      else err (leave c panicked)

  -- The part for the row, and the row.
  unfoldable pub send_row : Capture F S C → Result (Ending F S) (Capture F S C)
  send_row c = do
    bins ← or_panic c (compute_waterfall_bins fl sg c.wf_ring c.wf_pos tune.hann)
    send takes (record c { wf_since_emit = 0 }) (Worker.waterfall_row bins tune.f0_hz tune.bin_hz)

  unfoldable pub emit_row : Capture F S C → Result (Ending F S) (Capture F S C)
  emit_row c =
      if leb tune.wf_emit_every c.wf_since_emit && leb waterfall_fft_n c.wf_filled
      then send_row c
      else ok c

  unfoldable pub add_sample : Capture F S C → C → Result (Ending F S) (Capture F S C)
  add_sample c s = do leveled ← add_level c s; ringed ← add_to_ring leveled s; emit_row ringed

  unfoldable pub add_samples : Capture F S C → List C → Result (Ending F S) (Capture F S C)
  add_samples c [] = ok c
  add_samples c (s ∷ ss) = do d ← add_sample c s; add_samples d ss

  -- The loop that takes full frames out of the buffer, on fuel.
  unfoldable pub drain : ℕ → Capture F S C → Result (Ending F S) (Capture F S C)
  drain zero c = ok c
  drain (suc fuel) c = elim (leb fft_size (length c.frame_buf)) [
    | true ↦ or_panic c (add_frame fl sg c.analyzer (take fft_size c.frame_buf)) >>= λ r.
        drain fuel (record c { analyzer = r.1; frame_buf = drop fft_size c.frame_buf })
    | false ↦ ok c
  ]

  -- The loop body after the read.
  unfoldable pub take_read : Capture F S C → Read C → Result (Ending F S) (Capture F S C)
  take_read c timeout = ok c
  take_read c (read_failed e) = err (leave c (failed (codes "stream read failed: " ++ e)))
  take_read c (samples []) = ok c
  take_read c (samples (s ∷ ss)) = do
    d ← add_samples c (s ∷ ss)
    let buf = d.frame_buf ++ s ∷ ss
    drain (length buf) (record d { frame_buf = buf })

  -- The loop body.
  unfoldable pub take_turn : Capture F S C → Turn C → Result (Ending F S) (Capture F S C)
  take_turn c turn =
      if turn.stop then err (leave c stopped) else take_read c (turn.read (asked tune.mtu c))

  unfoldable pub take_turns : Capture F S C → List (Turn C) → Result (Ending F S) (Capture F S C)
  take_turns c [] = ok c
  take_turns c (turn ∷ turns) = do d ← take_turn c turn; take_turns d turns

  unfoldable pub send_measurement :
      Capture F S C → Option (Measurement F) → Result (Ending F S) (Capture F S C)
  send_measurement c none = ok c
  send_measurement c (some m) = send takes c (Worker.period_measurement m)

  -- The start of a window.
  unfoldable pub open_window : Capture F S C → Capture F S C
  open_window c = record c {
    analyzer = start_window fl sg c.analyzer tune.offset_hz tune.width_hz;
    frame_buf = [];
  }

  -- One window.
  unfoldable pub capture_window :
      Capture F S C → List (Turn C) → Result (Ending F S) (Capture F S C)
  capture_window c turns = do
    started ← send takes (open_window c) Worker.period_started
    d ← take_turns started turns
    r ← or_panic d (finalize fl sg d.analyzer)
    send_measurement (record d { analyzer = r.1 }) r.0

  -- The outer loop, until the flag `stop` is set at the end of the list.
  unfoldable pub capture_loop : Capture F S C → List (List (Turn C)) → Ending F S
  capture_loop c [] = leave c stopped
  capture_loop c (turns ∷ windows) = ended (capture_window c turns) λ d. capture_loop d windows
