-- ===== src/Sync/Secret.antt =====
-- The token of the node, and what src/server.rs and src/sync.rs send of the configuration.
use propmonitor.Base.{Text, ◌≡◌, refl, Option, none, some}
use mathlib.Core.Option
use propmonitor.Config.{MicrowavepropConfig, Config}
use propmonitor.View.{cfg_to_view}
use propmonitor.Sync.{from_config, report_body, applied_version}

abbrev pub set_token : Text → MicrowavepropConfig → MicrowavepropConfig
set_token token m = record m { monitor_token = token }

abbrev pub with_token : {F : Type 0} → Text → Config F → Config F
with_token token cfg = record cfg { microwaveprop = Option.map (set_token token) cfg.microwaveprop }

Same : {F : Type 0} → Config F → Config F → Type 0
Same a b =
    (cfg_to_view a ≡ cfg_to_view b)
    × (from_config a ≡ from_config b)
    × (report_body a ≡ report_body b)

Same-block :
    {F : Type 0} (token : Text) (cfg : Config F) (o : Option MicrowavepropConfig)
    → Same
        (record cfg { microwaveprop = Option.map (set_token token) o })
        (record cfg { microwaveprop = o })
unfolding Same cfg_to_view from_config report_body applied_version
Same-block token cfg none = (refl, refl, refl)
Same-block token cfg (some m) = (refl, refl, refl)

-- The settings that leave the node do not depend on its token: two configurations that differ in the token
-- alone have the same view for the browsers, the same settings for the website and the same report.
pub sent-with_token :
    {F : Type 0} (token : Text) (cfg : Config F)
    → (cfg_to_view (with_token token cfg) ≡ cfg_to_view cfg)
      × (from_config (with_token token cfg) ≡ from_config cfg)
      × (report_body (with_token token cfg) ≡ report_body cfg)
unfolding Same
sent-with_token token cfg = Same-block token cfg cfg.microwaveprop
