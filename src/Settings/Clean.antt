-- ===== src/Settings/Clean.antt =====
-- The written document has good keys and fields, and no key twice.
use propmonitor.Base.{
  ℕ, Text, all, [], ◌∷◌, Bool, true, false, ◌≡◌, refl, Option, none, some, if◌then◌else◌, text_eq,
  arith, &&_split,
}
use propmonitor.Base.Decimal.{show, is_digit, digit-show, nonempty-show}
use propmonitor.Float.{Float}
use propmonitor.Mode
use propmonitor.Mode.{Mode, usb, lsb, am, nfm, wfm, cw, beacon}
use propmonitor.Config.{UpdateConfig}
use propmonitor.Yaml.{empty, is_whitespace}
use propmonitor.Yaml.Scan.{is_bare, is_key, is_one_line, is_bare_char}
use propmonitor.Yaml.Document.{are_items}
use propmonitor.Settings.{BeaconUpdate, MicrowavepropUpdate, redacted, bool_text}
use propmonitor.Settings.Written.{doc_items}

digit_is_bare : (c : ℕ) → is_digit c ≡ true → is_bare_char c ≡ true
unfolding is_whitespace
digit_is_bare c h = ground arith

digits_are_bare : (s : Text) → all is_digit s ≡ true → all is_bare_char s ≡ true
digits_are_bare [] h = refl
digits_are_bare (c ∷ s) h =
    let p = &&_split (is_digit c) (all is_digit s) h in
    rw (digit_is_bare c p.0) (digits_are_bare s p.1)

pub bare-show : (n : ℕ) → is_bare (show n) ≡ true
unfolding is_bare
bare-show n = rw (nonempty-show n, digits_are_bare (show n) (digit-show n))

bare-bool_text : (b : Bool) → is_bare (bool_text b) ≡ true
unfolding is_bare is_whitespace
bare-bool_text true = refl
bare-bool_text false = refl

pub bare-as_str : (m : Mode) → is_bare (Mode.as_str m) ≡ true
unfolding is_bare is_whitespace Mode.as_str
bare-as_str usb = refl
bare-as_str lsb = refl
bare-as_str am = refl
bare-as_str nfm = refl
bare-as_str wfm = refl
bare-as_str cw = refl
bare-as_str beacon = refl

module _ (fl : Float) where
  open fl use {F, display}

  -- The number is written without blanks, quotes and comments.
  abbrev pub Bare : F → Type 0
  Bare x = is_bare (display x) ≡ true

  abbrev pub BareGain : Option F → Type 0
  BareGain none = Unit
  BareGain (some g) = Bare g

  abbrev pub BareBeacon : Option (BeaconUpdate F) → Type 0
  BareBeacon none = Unit
  BareBeacon (some b) = Bare b.offset_hz × Bare b.bandwidth_hz

  -- The texts of the block are on one line.
  abbrev pub OneLine : Option MicrowavepropUpdate → Text → Type 0
  OneLine none kept = Unit
  OneLine (some m) kept =
      (is_one_line (if text_eq m.monitor_token redacted then kept else m.monitor_token) ≡ true)
      × (is_one_line m.beacon_id ≡ true)
      × (is_one_line m.gridsquare ≡ true)

  pub are_items-doc_items :
      (frequency : F) (mode driver : Text) (rate : F) (gain : Option F) (ppm : F) (period : ℕ)
      (beacon : Option (BeaconUpdate F)) (bind : Text) (microwaveprop : Option MicrowavepropUpdate)
      (kept : Text) (version : ℕ) (update : UpdateConfig)
      → Bare frequency
      → is_bare mode ≡ true
      → is_one_line driver ≡ true
      → Bare rate
      → BareGain gain
      → Bare ppm
      → BareBeacon beacon
      → is_one_line bind ≡ true
      → OneLine microwaveprop kept
      → are_items empty (
          doc_items fl frequency mode driver rate gain ppm period beacon bind microwaveprop kept
            version update)
        ≡ true
  unfolding is_key is_whitespace
  are_items-doc_items f m d r none p n none bind none kept v u hf hm hd hr hg hp hb hbind hw =
      simp (bare-show, bare-bool_text, hf, hm, hd, hr, hp, hbind)
  are_items-doc_items f m d r none p n none bind (some w) kept v u hf hm hd hr hg hp hb hbind hw =
      simp (bare-show, bare-bool_text, hf, hm, hd, hr, hp, hbind, hw.0, hw.1, hw.2)
  are_items-doc_items f m d r none p n (some b) bind none kept v u hf hm hd hr hg hp hb hbind hw =
      simp (bare-show, bare-bool_text, hf, hm, hd, hr, hp, hbind, hb.0, hb.1)
  are_items-doc_items f m d r none p n (some b) bind (some w) kept v u hf hm hd hr hg hp hb hbind
        hw =
      simp (bare-show, bare-bool_text, hf, hm, hd, hr, hp, hbind, hb.0, hb.1, hw.0, hw.1, hw.2)
  are_items-doc_items f m d r (some g) p n none bind none kept v u hf hm hd hr hg hp hb hbind hw =
      simp (bare-show, bare-bool_text, hf, hm, hd, hr, hp, hbind, hg)
  are_items-doc_items f m d r (some g) p n none bind (some w) kept v u hf hm hd hr hg hp hb hbind
        hw =
      simp (bare-show, bare-bool_text, hf, hm, hd, hr, hp, hbind, hg, hw.0, hw.1, hw.2)
  are_items-doc_items f m d r (some g) p n (some b) bind none kept v u hf hm hd hr hg hp hb hbind
        hw =
      simp (bare-show, bare-bool_text, hf, hm, hd, hr, hp, hbind, hg, hb.0, hb.1)
  are_items-doc_items f m d r (some g) p n (some b) bind (some w) kept v u hf hm hd hr hg hp hb
        hbind hw =
      simp (bare-show, bare-bool_text, hf, hm, hd, hr, hp, hbind, hg, hb.0, hb.1, hw.0, hw.1, hw.2)
