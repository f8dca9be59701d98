-- ===== src/Worker/Device/Safe.antt =====
-- `run_worker` of src/worker.rs from the first call to the last event.
use propmonitor.Base.{
  ℕ, ◌<◌, Text, Bool, false, List, length, length-map, range, length-range, length-replicate,
  Result, ok, err, get_last?, get_last?-append, some, ◌≡◌, ◌≢◌, refl, ◌∙◌, arith, Bool-cases, inl,
  inr, ◌⊎◌,
}
use propmonitor.Float.{Float}
use propmonitor.Signal.{Signal}
use propmonitor.Config.{Config}
use propmonitor.Measure.Analyze.{new-IsSized}
use propmonitor.Worker
use propmonitor.Worker.{WorkerEvent, DeviceInfo}
use propmonitor.Worker.Waterfall.{waterfall_fft_n, waterfall_hann_window, hann_at}
use propmonitor.Worker.Capture.{Ending, Tuning, Turn, Outcome, stopped, failed, panicked}
use propmonitor.Worker.Reads.{IsReady}
use propmonitor.Worker.Measured.{capture_loop-safe}
use propmonitor.Worker.Device.{
  Device, tuning, fresh_capture, run_stream, run_opened, run_inner, report_failure, run_worker,
}

-- An ended thread was stopped, or its last event is its error, if the receiver took it.
abbrev pub Explains : {F S : Type 0} → Ending F S → (ℕ → Bool) → Type 0
Explains e takes =
    (e.outcome ≡ stopped)
    ⊎ ((message : Text) × (e.outcome ≡ failed message)
        × ((get_last? e.sent ≡ some (Worker.error message)) ⊎ (takes (length e.sent) ≡ false)))

waterfall_fft_n-pos : 0 < waterfall_fft_n
unfolding waterfall_fft_n
waterfall_fft_n-pos = omega arith

module _ (fl : Float) (sg : Signal fl)
    (forward_length : (xs : List (Signal.C sg)) → length (Signal.forward sg xs) ≡ length xs)
    (to_uppercase : Text → Text) where
  open fl use {F}
  open sg use {S, C}

  pub fresh_capture-IsReady :
      (tune : Tuning F S) (takes : ℕ → Bool) (rate : F) (sent : List (WorkerEvent F S))
      → IsReady fl sg tune takes (fresh_capture fl sg to_uppercase rate sent)
  unfolding fresh_capture
  fresh_capture-IsReady tune takes rate sent = record {
    sized = new-IsSized fl sg rate;
    ring = record {
      ring_length = length-replicate waterfall_fft_n _;
      pos_below = waterfall_fft_n-pos;
    };
  }

  pub waterfall_hann_window-length :
      (cfg : Config F) (rate : F) (mtu : ℕ)
      → length (Tuning.hann (tuning fl sg to_uppercase cfg rate mtu)) ≡ waterfall_fft_n
  unfolding tuning waterfall_hann_window
  waterfall_hann_window-length cfg rate mtu =
      length-map (hann_at fl sg) (range 0 waterfall_fft_n) ∙ length-range 0 waterfall_fft_n

  run_stream-safe :
      (takes : ℕ → Bool) (cfg : Config F) (rate : F) (sent : List (WorkerEvent F S))
      (windows : List (List (Turn C))) (mtu : Result Text ℕ)
      → (run_stream fl sg to_uppercase takes cfg rate sent windows mtu).outcome ≢ panicked
  unfolding run_stream
  run_stream-safe takes cfg rate sent windows (err e) = λ q. cc q
  run_stream-safe takes cfg rate sent windows (ok mtu) =
      capture_loop-safe fl sg forward_length (tuning fl sg to_uppercase cfg rate mtu)
        (waterfall_hann_window-length cfg rate mtu) takes
        (fresh_capture fl sg to_uppercase rate sent) windows
        (fresh_capture-IsReady (tuning fl sg to_uppercase cfg rate mtu) takes rate sent)

  run_opened-safe :
      (takes : ℕ → Bool) (cfg : Config F) (dev : Device F) (windows : List (List (Turn C)))
      (r : Result Text (DeviceInfo F))
      → (run_opened fl sg to_uppercase takes cfg dev windows r).outcome ≢ panicked
  unfolding run_opened
  run_opened-safe takes cfg dev windows (err e) = λ q. cc q
  run_opened-safe takes cfg dev windows (ok info) =
      run_stream-safe takes cfg info.actual_sample_rate _ windows _

  report_failure-Explains :
      (takes : ℕ → Bool) (sent : List (WorkerEvent F S)) (outcome : Outcome)
      → outcome ≢ panicked
      → Explains (report_failure fl sg to_uppercase takes sent outcome) takes
  unfolding report_failure
  report_failure-Explains takes sent stopped h = inl refl
  report_failure-Explains takes sent panicked h = absurd (h refl)
  report_failure-Explains takes sent (failed e) h = elim (Bool-cases (takes (length sent))) [
    | inl taken ↦ rw taken (inr (e, refl, inl (get_last?-append sent (Worker.error e))))
    | inr gone ↦ rw gone (inr (e, refl, inr gone))
  ]

  -- Whatever the device answers, the samples are and the receiver takes, the thread does not panic
  -- on an index if the transform keeps the length: it stops, or it fails with a message, which is
  -- then its last event unless the receiver is gone.
  pub run_worker-Explains :
      (takes : ℕ → Bool) (cfg : Config F) (dev : Device F) (windows : List (List (Turn C)))
      → Explains (run_worker fl sg to_uppercase takes cfg dev windows) takes
  unfolding run_worker run_inner
  run_worker-Explains takes cfg dev windows =
      report_failure-Explains takes _ _ (run_opened-safe takes cfg dev windows _)
