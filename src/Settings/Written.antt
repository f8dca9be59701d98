-- ===== src/Settings/Written.antt =====
-- The document that `build_yaml_from_update` writes, as its list of items.
use propmonitor.Base.{
  ℕ, Text, codes, text_eq, List, [], ◌∷◌, ◌++◌, Bool, ◌≡◌, refl, sym, ap, ◌∙◌, append-nil,
  append_assoc, Option, none, some, if◌then◌else◌,
}
use propmonitor.Base.Decimal.{show}
use propmonitor.Float.{Float}
use propmonitor.Config.{UpdateConfig, Config}
use propmonitor.Yaml.Document.{Item, leaf, block, bare, quoted, document}
use propmonitor.Yaml.Writer
use propmonitor.Settings.{
  ConfigUpdate, BeaconUpdate, HttpUpdate, MicrowavepropUpdate, redacted, unwrap_or, token_of,
  version_of, bool_text, resolve_update, write_http, write_microwaveprop, write_update, write_gain,
  write_beacon, build_yaml_from_update,
}

-- Each writer call in front of a document is one more item.
scalar-item :
    (w k v : Text) (is : List Item)
    → Writer.scalar w k v ++ document is ≡ w ++ document (leaf k (bare v) ∷ is)
unfolding Writer.scalar document
scalar-item w k v is = simp append_assoc

string-item :
    (w k v : Text) (is : List Item)
    → Writer.string w k v ++ document is ≡ w ++ document (leaf k (quoted v) ∷ is)
unfolding Writer.string Writer.write_quoted document
string-item w k v is = simp append_assoc

abbrev pub bind_of : Option HttpUpdate → Text
bind_of none = codes "0.0.0.0:5760"
bind_of (some h) = h.bind

abbrev pub http_item : Text → Item
http_item bind = block (codes "http") ((codes "bind", quoted bind) ∷ [])

abbrev pub microwaveprop_item : Bool → Text → Text → Text → ℕ → Item
microwaveprop_item enabled token beacon_id gridsquare version = block (codes "microwaveprop") (
    (codes "enabled", bare (bool_text enabled))
    ∷ (codes "monitor_token", quoted token)
    ∷ (codes "beacon_id", quoted beacon_id)
    ∷ (codes "gridsquare", quoted gridsquare)
    ∷ (codes "config_version", bare (show version))
    ∷ [])

abbrev pub microwaveprop_items : Option MicrowavepropUpdate → Text → ℕ → List Item → List Item
microwaveprop_items none kept version is = is
microwaveprop_items (some m) kept version is =
    microwaveprop_item m.enabled
      (if text_eq m.monitor_token redacted then kept else m.monitor_token) m.beacon_id m.gridsquare
      version
    ∷ is

abbrev pub update_item : UpdateConfig → Item
update_item u = block (codes "update") (
    (codes "enabled", bare (bool_text u.enabled))
    ∷ (codes "auto", bare (bool_text u.auto))
    ∷ (codes "check_interval", bare (show u.check_interval))
    ∷ [])

http-item :
    (w : Text) (h : Option HttpUpdate) (is : List Item)
    → write_http w h ++ document is ≡ w ++ document (http_item (bind_of h) ∷ is)
unfolding write_http Writer.nested_open Writer.nested_string Writer.write_quoted document
http-item w none is = simp append_assoc
http-item w (some h) is = simp append_assoc

microwaveprop-items :
    (w : Text) (m : Option MicrowavepropUpdate) (kept : Text) (version : ℕ) (is : List Item)
    → write_microwaveprop w m kept version ++ document is
      ≡ w ++ document (microwaveprop_items m kept version is)
unfolding write_microwaveprop Writer.nested_open Writer.nested_string Writer.nested_scalar
    Writer.write_quoted document
microwaveprop-items w none kept version is = refl
microwaveprop-items w (some m) kept version is = simp append_assoc

update-item :
    (w : Text) (u : UpdateConfig) (is : List Item)
    → write_update w u ++ document is ≡ w ++ document (update_item u ∷ is)
unfolding write_update Writer.nested_open Writer.nested_scalar document
update-item w u is = simp append_assoc

nil-document : [] ≡ document []
unfolding document
nil-document = refl

module _ (fl : Float) where
  open fl use {F, display, of_ℕ}

  abbrev pub gain_items : Option F → List Item → List Item
  gain_items none is = is
  gain_items (some g) is = leaf (codes "gain") (bare (display g)) ∷ is

  abbrev pub beacon_items : Option (BeaconUpdate F) → List Item → List Item
  beacon_items none is = is
  beacon_items (some b) is =
      block (codes "beacon") (
        (codes "offset_hz", bare (display b.offset_hz))
        ∷ (codes "bandwidth_hz", bare (display b.bandwidth_hz))
        ∷ [])
      ∷ is

  gain-items :
      (w : Text) (g : Option F) (is : List Item)
      → write_gain fl w g ++ document is ≡ w ++ document (gain_items g is)
  unfolding write_gain
  gain-items w none is = refl
  gain-items w (some g) is = scalar-item w (codes "gain") (display g) is

  beacon-items :
      (w : Text) (b : Option (BeaconUpdate F)) (is : List Item)
      → write_beacon fl w b ++ document is ≡ w ++ document (beacon_items b is)
  unfolding write_beacon Writer.nested_open Writer.nested_scalar document
  beacon-items w none is = refl
  beacon-items w (some b) is = simp append_assoc

  -- The items, from the values that are written.
  abbrev pub doc_items :
      F
      → Text
      → Text
      → F
      → Option F
      → F
      → ℕ
      → Option (BeaconUpdate F)
      → Text
      → Option MicrowavepropUpdate
      → Text
      → ℕ
      → UpdateConfig
      → List Item
  doc_items frequency mode driver rate gain ppm period beacon bind microwaveprop kept version
        update =
      leaf (codes "frequency") (bare (display frequency))
      ∷ leaf (codes "mode") (bare mode)
      ∷ leaf (codes "driver") (quoted driver)
      ∷ leaf (codes "sample_rate") (bare (display rate))
      ∷ gain_items gain (
          leaf (codes "ppm") (bare (display ppm))
          ∷ leaf (codes "period_seconds") (bare (show period))
          ∷ beacon_items beacon (
              http_item bind
              ∷ microwaveprop_items microwaveprop kept version (update_item update ∷ [])))

  unfoldable pub update_items : ConfigUpdate F → Config F → Option ℕ → List Item
  update_items body current version =
      doc_items body.frequency body.mode body.driver body.sample_rate body.gain
        (unwrap_or body.ppm (of_ℕ 0)) (unwrap_or body.period_seconds current.period_seconds)
        body.beacon (bind_of body.http) body.microwaveprop (token_of current.microwaveprop)
        (unwrap_or version (version_of current.microwaveprop))
        (resolve_update body.update current.update)

  pub build_yaml-document :
      (body : ConfigUpdate F) (current : Config F) (version : Option ℕ)
      → build_yaml_from_update fl body current version
        ≡ document (update_items body current version)
  unfolding build_yaml_from_update update_items
  build_yaml-document body current version =
      sym (append-nil _)
      ∙ (ap (λ t. build_yaml_from_update fl body current version ++ t) nil-document
          ∙ simp (
            update-item, microwaveprop-items, http-item, beacon-items, scalar-item, gain-items,
            string-item,
          ))
