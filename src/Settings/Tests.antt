-- ===== src/Settings/Tests.antt =====
-- Runs of saving and loading a configuration.
use propmonitor.Base.{none, ok, ◌≡◌, refl, ◌>>=◌}
use propmonitor.Mode.{beacon}
use propmonitor.Config.{validate}
use propmonitor.Config.Load.{from_yaml_str}
use propmonitor.Settings.{cfg_to_update, build_yaml_from_update}
use propmonitor.Settings.RoundTrip.{merge, from_yaml_str-build_yaml}
use propmonitor.Samples.{natural, natural_laws, node, node-IsStorable}

from_yaml_str-build_yaml_example :
    from_yaml_str natural (build_yaml_from_update natural (cfg_to_update node) node none) ≡ (
      validate natural (merge natural beacon (cfg_to_update node) node none) >>= λ _.
      ok (merge natural beacon (cfg_to_update node) node none))
from_yaml_str-build_yaml_example =
    from_yaml_str-build_yaml natural natural_laws beacon (cfg_to_update node) node none
      (unfold cfg_to_update in refl) node-IsStorable
