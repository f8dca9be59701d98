-- ===== src/Sync/Merge.antt =====
-- What a pushed configuration of src/sync.rs makes of the running one.
use propmonitor.Base.{ℕ, ◌≡◌, refl, sym, Option, none, some}
use mathlib.Core.Option
use propmonitor.Float.{Float}
use propmonitor.Mode
use propmonitor.Mode.{Mode}
use propmonitor.Config.{Config}
use propmonitor.Settings.{token_of}
use propmonitor.Settings.Read.{beacon_of}
use propmonitor.Settings.RoundTrip.{merge}
use propmonitor.Sync.{
  SyncBeacon, SyncConfig, to_sync_beacon, of_sync_beacon, from_config, to_config_update,
  applied_version,
}

module _ (fl : Float) where
  open fl use {F}

  beacon_carried :
      (b : Option (SyncBeacon F))
      → Option.map to_sync_beacon (beacon_of fl (Option.map of_sync_beacon b)) ≡ b
  beacon_carried none = refl
  beacon_carried (some b) = refl

  -- The running configuration after a push, if the push can be saved.
  abbrev pub pushed_config : Mode → SyncConfig F → Config F → ℕ → Config F
  pushed_config m pushed current version =
      merge fl m (to_config_update pushed current) current (some version)

  -- What a push whose mode is one of the seven is merged into carries exactly the pushed settings, at
  -- the pushed version, and nothing else is changed: the address of the node's own server, its token
  -- and its update settings are the ones it had.
  pub pushed_config-Carried :
      (m : Mode) (pushed : SyncConfig F) (current : Config F) (version : ℕ)
      → pushed.mode ≡ Mode.as_str m
      → (from_config (pushed_config m pushed current version) ≡ pushed)
        × (applied_version (pushed_config m pushed current version) ≡ version)
        × ((pushed_config m pushed current version).http ≡ current.http)
        × (token_of (pushed_config m pushed current version).microwaveprop
            ≡ token_of current.microwaveprop)
        × ((pushed_config m pushed current version).update ≡ current.update)
  unfolding from_config to_config_update applied_version merge
  pushed_config-Carried m pushed current version e = (
    (λ i. record pushed { mode = sym e i; beacon = beacon_carried pushed.beacon i }),
    refl,
    refl,
    refl,
    refl,
  )
