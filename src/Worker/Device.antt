-- ===== src/Worker/Device.antt =====
-- `run_worker`, `open_device` and the set-up of `run_inner` in src/worker.rs. The answers of the
-- crate `soapysdr` are the input, and the commands given to the device are listed.
pub mod Safe
mod Tests
use propmonitor.Base.{
  ℕ, ◌+◌, ◌-◌, ◌/◌, Text, codes, text_eq, Bool, true, false, not, ◌||◌, ◌==◌, if◌then◌else◌, Option,
  none, some, List, [], ◌∷◌, ◌++◌, length, replicate, Result, ok, err, or_default,
}
use propmonitor.Float.{Float}
use propmonitor.Signal.{Signal}
use propmonitor.Config.{Config, passband_for}
use propmonitor.Measure.{new}
use propmonitor.Worker
use propmonitor.Worker.{WorkerEvent, DeviceInfo}
use propmonitor.Worker.Waterfall.{waterfall_fft_n, waterfall_hann_window}
use propmonitor.Worker.Capture.{
  Capture, Ending, Tuning, Turn, Outcome, stopped, failed, panicked, capture_loop,
}
use propmonitor.Error.Chain.{context}

-- The answers of the device, each for the one call that asks for it.
pub record Device (F : Type 0) : Type 0 where
  pub enumerate : Result Text ℕ
  pub opened : Result Text (Unit {0})
  pub set_sample_rate : Result Text (Unit {0})
  pub set_frequency : Result Text (Unit {0})
  pub list_gains : Option (List Text)
  pub set_gain_element : Result Text (Unit {0})
  pub set_gain : Result Text (Unit {0})
  pub sample_rate : Option F
  pub frequency : Option F
  pub gain : Option F
  pub rx_stream : Result Text (Unit {0})
  pub activate : Result Text (Unit {0})
  pub mtu : Result Text ℕ

-- A command to the device.
pub data Command (F : Type 0) : Type 0 where
  sample_rate_to : F → Command F
  frequency_to : F → Command F
  correction_to : F → Command F
  gain_mode_to : Bool → Command F
  tuner_gain_to : F → Command F
  gain_to : F → Command F

-- A step that gives commands, and may fail.
abbrev pub Steps : Type 0 → Type 0 → Type 0
Steps F A = List (Command F) × Result Text A

infixl 5 ◌>>=◌ ◌>>◌
abbrev pub ◌>>=◌ : {F A B : Type 0} → Steps F A → (A → Steps F B) → Steps F B
(commands, err e) >>= next = (commands, err e)
(commands, ok a) >>= next = (commands ++ (next a).0, (next a).1)

abbrev pub ◌>>◌ : {F B : Type 0} → Steps F (Unit {0}) → Steps F B → Steps F B
first >> next = first >>= λ done. next

-- An answer without a command, a command whose answer counts, and one whose answer is ignored.
abbrev pub answer : {F A : Type 0} → Result Text A → Steps F A
answer r = ([], r)

abbrev pub command : {F A : Type 0} → Command F → Result Text A → Steps F A
command c r = (c ∷ [], r)

abbrev pub ignored : {F : Type 0} → Command F → Steps F (Unit {0})
ignored c = (c ∷ [], ok tt)

-- The names contain `TUNER`.
unfoldable pub has_tuner : List Text → Bool
has_tuner [] = false
has_tuner (n ∷ names) = text_eq n (codes "TUNER") || has_tuner names

-- `open_device`; the upper case of a text is that of Unicode.
module _ {F : Type 0} (to_uppercase : Text → Text) where
  unfoldable pub open_device : Text → Device F → Result Text (Unit {0})
  open_device driver dev =
      found (context (codes "SoapySDR enumerate failed for driver=" ++ driver) dev.enumerate)
    where
      found : Result Text ℕ → Result Text (Unit {0})
      found (err e) = err e
      found (ok n) =
          if n == 0
          then err (
              codes "no "
              ++ driver
              ++ codes " device found — is it plugged in and the Soapy"
              ++ to_uppercase driver
              ++ codes " module installed?")
          else context (codes "failed to open device (driver=" ++ driver ++ codes ")") dev.opened

module _ (fl : Float) (sg : Signal fl) (to_uppercase : Text → Text) where
  open fl use {F, eq, div, of_ℕ, to_u64}
  open sg use {S, C, to_f32, of_ℕ32, div32, neg32, complex}

  -- The gain of the configuration, or the automatic one.
  unfoldable pub set_up_gain : Option F → List Text → Device F → Steps F (Unit {0})
  set_up_gain (some g) gain_elements dev = do
    ignored (gain_mode_to false)
    if has_tuner gain_elements
        then command (tuner_gain_to g)
            (context (codes "set_gain_element TUNER failed") dev.set_gain_element)
        else command (gain_to g) (context (codes "set_gain failed") dev.set_gain)
  set_up_gain none gain_elements dev = ignored (gain_mode_to true)

  -- `run_inner` up to the device information.
  unfoldable pub set_up : Config F → Device F → Steps F (DeviceInfo F)
  set_up cfg dev = do
    answer (open_device to_uppercase cfg.driver dev)
    command (sample_rate_to cfg.sample_rate)
        (context (codes "set_sample_rate failed") dev.set_sample_rate)
    command (frequency_to cfg.frequency) (context (codes "set_frequency failed") dev.set_frequency)
    if eq cfg.ppm (of_ℕ 0) then answer (ok tt) else ignored (correction_to cfg.ppm)
    let gain_elements = or_default dev.list_gains []
    set_up_gain cfg.gain gain_elements dev
    answer (
        ok (record {
          actual_sample_rate = or_default dev.sample_rate cfg.sample_rate;
          actual_frequency = or_default dev.frequency cfg.frequency;
          actual_gain = or_default dev.gain (or_default cfg.gain (of_ℕ 0));
          gain_elements = gain_elements;
        }))

  -- The stream, and the samples that it gives at most at once.
  unfoldable pub open_stream : Device F → Steps F ℕ
  open_stream dev = do
    answer (context (codes "failed to create rx stream") dev.rx_stream)
    answer (context (codes "stream activate failed") dev.activate)
    answer (context (codes "stream mtu failed") dev.mtu)

  unfoldable pub tuning : Config F → F → ℕ → Tuning F S
  tuning cfg rate mtu = record {
    mtu = mtu;
    offset_hz = (passband_for fl cfg.mode cfg.beacon).0;
    width_hz = (passband_for fl cfg.mode cfg.beacon).1;
    wf_emit_every = to_u64 (div rate (of_ℕ 10));
    hann = waterfall_hann_window fl sg;
    bin_hz = to_f32 (div rate (of_ℕ waterfall_fft_n));
    f0_hz = neg32 (div32 (to_f32 rate) (of_ℕ32 2));
    raw_emit_every = to_u64 (div rate (of_ℕ 5));
  }

  unfoldable pub fresh_capture : F → List (WorkerEvent F S) → Capture F S C
  fresh_capture rate sent = record {
    analyzer = new fl sg rate;
    frame_buf = [];
    wf_ring = replicate waterfall_fft_n (complex (of_ℕ32 0) (of_ℕ32 0));
    wf_pos = 0;
    wf_filled = 0;
    wf_since_emit = 0;
    raw_power_sum = of_ℕ 0;
    raw_power_n = 0;
    sent = sent;
  }

  -- `let _ = tx.send(event)`
  abbrev pub send_anyway :
      (ℕ → Bool) → List (WorkerEvent F S) → WorkerEvent F S → List (WorkerEvent F S)
  send_anyway takes sent event = if takes (length sent) then sent ++ event ∷ [] else sent

  -- `run_inner` from the stream on.
  unfoldable pub run_stream :
      (ℕ → Bool)
      → Config F
      → F
      → List (WorkerEvent F S)
      → List (List (Turn C))
      → Result Text ℕ
      → Ending F S
  run_stream takes cfg rate sent windows (err e) = record { sent = sent; outcome = failed e }
  run_stream takes cfg rate sent windows (ok mtu) =
      capture_loop fl sg (tuning cfg rate mtu) takes (fresh_capture rate sent) windows

  -- `run_inner`
  unfoldable pub run_opened :
      (ℕ → Bool)
      → Config F
      → Device F
      → List (List (Turn C))
      → Result Text (DeviceInfo F)
      → Ending F S
  run_opened takes cfg dev windows (err e) = record { sent = []; outcome = failed e }
  run_opened takes cfg dev windows (ok info) =
      run_stream takes cfg info.actual_sample_rate (send_anyway takes [] (Worker.device_info info))
        windows (open_stream dev).1

  unfoldable pub run_inner : (ℕ → Bool) → Config F → Device F → List (List (Turn C)) → Ending F S
  run_inner takes cfg dev windows = run_opened takes cfg dev windows (set_up cfg dev).1

  -- The event of a failure.
  unfoldable pub report_failure : (ℕ → Bool) → List (WorkerEvent F S) → Outcome → Ending F S
  report_failure takes sent (failed e) = record {
    sent = send_anyway takes sent (Worker.error e);
    outcome = failed e;
  }
  report_failure takes sent stopped = record { sent = sent; outcome = stopped }
  report_failure takes sent panicked = record { sent = sent; outcome = panicked }

  -- `run_worker`
  unfoldable pub run_worker : (ℕ → Bool) → Config F → Device F → List (List (Turn C)) → Ending F S
  run_worker takes cfg dev windows =
      let e = run_inner takes cfg dev windows in report_failure takes e.sent e.outcome
