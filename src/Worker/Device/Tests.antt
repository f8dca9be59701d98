-- ===== src/Worker/Device/Tests.antt =====
-- The worker of src/worker.rs at concrete inputs.
use propmonitor.Base.{
  length, ℕ, codes, true, false, some, List, [], ◌∷◌, ◌++◌, replicate, turned, drop, set, ok, arith,
  ◌≡◌, refl,
}
use propmonitor.Samples.{natural, natural_signal, node}
use propmonitor.Worker.Waterfall.{compute_waterfall_bins, waterfall_fft_n}
use propmonitor.Worker.Row.{row_of}
use propmonitor.Worker.Samples.{add_samples-newest}
use propmonitor.Worker.Drain.{Drained, drain-Drained}
use propmonitor.Measure.{fft_size}
use propmonitor.Worker.Sound.{Sound}
use propmonitor.Worker.Reads.{Window}
use propmonitor.Worker.Measured.{capture_window-Window}
use propmonitor.Worker.Capture.{
  drain, Capture, samples, timeout, read_failed, Tuning, Turn, capture_window, add_samples,
  add_sample, add_level, add_to_ring, emit_row,
}
use propmonitor.Worker.Device.{
  Device, sample_rate_to, frequency_to, gain_mode_to, tuner_gain_to, set_up, run_worker, tuning,
  fresh_capture, has_tuner, set_up_gain, open_device,
}
use propmonitor.Worker.Device.Safe.{
  Explains, run_worker-Explains, waterfall_hann_window-length, fresh_capture-IsReady,
}

-- A device that answers well.
abbrev dongle : Device ℕ
dongle = record {
  enumerate = ok 1;
  opened = ok tt;
  set_sample_rate = ok tt;
  set_frequency = ok tt;
  list_gains = some (codes "TUNER" ∷ []);
  set_gain_element = ok tt;
  set_gain = ok tt;
  sample_rate = some 250000;
  frequency = some 28330000;
  gain = some 30;
  rx_stream = ok tt;
  activate = ok tt;
  mtu = ok 4096;
}

-- A turn that reads the samples asked for, one that times out, and one on a device that is gone.
abbrev three_turns : List (Turn (ℕ × ℕ))
three_turns =
    record { stop = false; read = λ want. samples (replicate want (3, 4)) }
    ∷ record { stop = false; read = λ want. timeout }
    ∷ record { stop = false; read = λ want. read_failed (codes "gone") }
    ∷ []

run_worker-Explains_example :
    Explains
      (run_worker natural natural_signal (λ t. t) (λ n. true) node dongle (three_turns ∷ []))
      (λ n. true)
run_worker-Explains_example =
    run_worker-Explains natural natural_signal (λ cs. refl) (λ t. t) (λ n. true) node dongle
      (three_turns ∷ [])

capture_window-Window_example :
    Sound
      (Window natural natural_signal
        (tuning natural natural_signal (λ t. t) node 250000 4096)
        (λ n. true)
        three_turns
        (fresh_capture natural natural_signal (λ t. t) 250000 []))
      (capture_window natural natural_signal
        (tuning natural natural_signal (λ t. t) node 250000 4096)
        (λ n. true)
        (fresh_capture natural natural_signal (λ t. t) 250000 [])
        three_turns)
capture_window-Window_example =
    capture_window-Window natural natural_signal (λ cs. refl)
      (tuning natural natural_signal (λ t. t) node 250000 4096)
      (waterfall_hann_window-length natural natural_signal (λ cs. refl) (λ t. t) node 250000 4096)
      (λ n. true) (fresh_capture natural natural_signal (λ t. t) 250000 []) three_turns
      (fresh_capture-IsReady natural natural_signal (λ cs. refl) (λ t. t) _ (λ n. true) 250000 [])

manual_gain :
    (set_up natural natural_signal (λ t. t) node dongle).0
    ≡ sample_rate_to 250000 ∷ frequency_to 28330000 ∷ gain_mode_to false ∷ tuner_gain_to 30 ∷ []
unfolding set_up set_up_gain has_tuner open_device propmonitor.Error.Chain.context
manual_gain = refl

abbrev tuned : Tuning ℕ ℕ
tuned = tuning natural natural_signal (λ t. t) node 250000 4096

abbrev fresh : Capture ℕ ℕ (ℕ × ℕ)
fresh = fresh_capture natural natural_signal (λ t. t) 250000 []

abbrev one_sample : Capture ℕ ℕ (ℕ × ℕ)
one_sample = record fresh {
  wf_ring = set fresh.wf_ring 0 (3, 4);
  wf_pos = 1;
  wf_filled = 1;
  wf_since_emit = 1;
  raw_power_sum = 25;
  raw_power_n = 1;
}

heard : add_samples natural natural_signal tuned (λ n. true) fresh ((3, 4) ∷ []) ≡ ok one_sample
unfolding add_samples add_sample add_level add_to_ring emit_row tuning fresh_capture waterfall_fft_n
heard = refl

add_samples-newest_example :
    compute_waterfall_bins natural natural_signal one_sample.wf_ring one_sample.wf_pos tuned.hann
    ≡ some (
        row_of natural natural_signal
          (drop 1 (turned fresh.wf_pos fresh.wf_ring ++ (3, 4) ∷ []))
          tuned.hann)
add_samples-newest_example =
    add_samples-newest natural natural_signal tuned (λ n. true) (λ cs. refl)
      (waterfall_hann_window-length natural natural_signal (λ cs. refl) (λ t. t) node 250000 4096)
      fresh ((3, 4) ∷ [])
      (fresh_capture-IsReady natural natural_signal (λ cs. refl) (λ t. t) tuned (λ n. true) 250000
        []).ring
      heard

-- A frame and a sample more in the buffer.
abbrev buffered : Capture ℕ ℕ (ℕ × ℕ)
buffered = record fresh { frame_buf = replicate fft_size (3, 4) ++ (1, 2) ∷ [] }

drain-Drained_example :
    (d : Capture ℕ ℕ (ℕ × ℕ)) × (drain natural natural_signal tuned
        (λ n. true)
        (length buffered.frame_buf)
        buffered
      ≡ ok d)
    × Drained natural natural_signal (λ cs. refl) tuned (λ n. true) buffered d
drain-Drained_example =
    drain-Drained natural natural_signal (λ cs. refl) tuned (λ n. true) (length buffered.frame_buf)
      buffered
      (fresh_capture-IsReady natural natural_signal (λ cs. refl) (λ t. t) tuned (λ n. true) 250000
        []).sized
      (omega arith)
