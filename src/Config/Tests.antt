-- ===== src/Config/Tests.antt =====
-- Runs of the configuration's validation.
use propmonitor.Base.{ok, ◌≡◌, ◌↔◌}
use propmonitor.Config.{validate}
use propmonitor.Config.Facts.{IsValid, validate_iff}
use propmonitor.Samples.{natural, node}

validate_iff_example : (validate natural node ≡ ok tt) ↔ IsValid natural node
validate_iff_example = validate_iff natural node
