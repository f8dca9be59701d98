-- ===== src/Error.antt =====
-- src/error.rs: the errors of the configuration code. The program formats each as a text; here each
-- place that makes one is a constructor with the values that its message shows.
pub mod Chain
use propmonitor.Base.{ℕ, Text}

pub data Error : Type 0 where
  -- src/yaml.rs, with the line number
  orphan_entry : ℕ → Error
  nested_too_deep : ℕ → Error
  unexpected_indent : ℕ → ℕ → Error
  no_colon : ℕ → Error
  empty_key : ℕ → Error
  unterminated_string : ℕ → Error
  unsupported_escape : ℕ → ℕ → Error
  trailing_backslash : ℕ → Error
  duplicate_key : ℕ → Text → Error
  missing_key : Text → Error
  not_a_scalar : Text → Error
  not_a_mapping : Text → Error
  not_a_number : Text → Text → Error
  not_an_integer : Text → Text → Error
  -- src/config.rs
  unknown_mode : Text → Error
  too_large : Text → Error
  not_a_flag : Text → Error
  not_a_version : Text → Error
  bad_frequency : Error
  bad_sample_rate : Error
  gain_not_finite : Error
  ppm_not_finite : Error
  period_too_short : Error
  beacon_missing : Error
  beacon_offset_not_finite : Error
  bad_beacon_bandwidth : Error
  beacon_bandwidth_too_wide : Error
  beacon_outside_spectrum : Error
  bad_gridsquare : Error
  check_interval_too_short : Error
  -- src/server.rs and src/yaml.rs, on writing a configuration
  bind_failed : Text → Error
  write_failed : Error
  no_microwaveprop_block : Error
