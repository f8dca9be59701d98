-- ===== src/Update/Delay.antt =====
-- The delays of src/update.rs between checks that fail.
use propmonitor.Base.{ℕ, zero, suc, ◌*◌, ◌^◌, ◌<◌, min, ◌≡◌, ap, ◌∙◌, none, some, arith}
use propmonitor.Update.{first_retry, retry_delay}

-- The delay after a number of failures in a row, at a constant interval.
unfoldable pub delay_after : ℕ → ℕ → ℕ
delay_after interval zero = retry_delay none interval
delay_after interval (suc k) = retry_delay (some (delay_after interval k)) interval

double :
    (d interval : ℕ)
    → interval < 2 ^ 64
    → retry_delay (some (min d interval)) interval ≡ min (d * 2) interval
unfolding retry_delay
double d interval h = omega arith

power : (k : ℕ) → first_retry * 2 ^ k * 2 ≡ first_retry * 2 ^ (suc k)
power k = omega arith

-- After `k` further failures in a row the delay is 30 seconds doubled `k` times, but no longer than
-- the configured interval.
pub delay_after-min :
    (interval k : ℕ)
    → interval < 2 ^ 64
    → delay_after interval k ≡ min (first_retry * 2 ^ k) interval
unfolding delay_after retry_delay
delay_after-min interval zero h = omega arith
delay_after-min interval (suc k) h =
    ap (λ d. retry_delay (some d) interval) (delay_after-min interval k h)
    ∙ double (first_retry * 2 ^ k) interval h
    ∙ ap (λ d. min d interval) (power k)
