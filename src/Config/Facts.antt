-- ===== src/Config/Facts.antt =====
-- What loading a configuration guarantees.
use propmonitor.Base.{
  ℕ, ◌≤◌, Text, byte_len, ◌≡◌, refl, ◌↔◌, ◌⊎◌, inl, inr, subst, Option, none, some, ok, >>=-eq-ok,
  Bool, true, false, [], ◌∷◌, is_empty, not, ◌&&◌, ◌||◌, ltb, if◌then◌else◌, Result, >>-eq-ok,
  arith,
}
use propmonitor.Error.{Error, bad_gridsquare}
use propmonitor.Mode.{Mode, usb, beacon, is_beacon}
use propmonitor.Float.{Float}
use propmonitor.Config.{
  BeaconConfig, MicrowavepropConfig, Config, reject, validate, validate_gain, validate_beacon,
  validate_gridsquare,
}
use propmonitor.Config.Load.{from_map, from_yaml_str}
use propmonitor.Yaml.{parse}

module _ (fl : Float) where
  open fl use {F, is_finite, lt, le, add, div, abs, of_ℕ}

  -- A configuration that was loaded is valid.
  pub validate_of_loads :
      (text : Text) {cfg : Config F} → from_yaml_str fl text ≡ ok cfg → validate fl cfg ≡ ok tt
  unfolding from_yaml_str
  validate_of_loads text {cfg} h =
      let (top, parsed, read) = >>=-eq-ok (parse text) _ h in
      let (c, mapped, checked) = >>=-eq-ok (from_map fl top) _ read in
      let (u, valid, same) = >>=-eq-ok (validate fl c) _ checked in
      subst (λ x. validate fl x ≡ ok tt) (cc same) valid

  pub record IsValidBeacon (sample_rate : F) (b : BeaconConfig F) : Type 0 where
    pub offset_finite : is_finite b.offset_hz ≡ true
    pub width_finite : is_finite b.bandwidth_hz ≡ true
    pub width_positive : le b.bandwidth_hz (of_ℕ 0) ≡ false
    pub width_fits : lt (div sample_rate (of_ℕ 2)) b.bandwidth_hz ≡ false
    pub band_fits :
        lt (div sample_rate (of_ℕ 2)) (add (abs b.offset_hz) (div b.bandwidth_hz (of_ℕ 2))) ≡ false

  -- The rules of a configuration, one by one.
  pub record IsValid (cfg : Config F) : Type 0 where
    pub frequency_finite : is_finite cfg.frequency ≡ true
    pub frequency_positive : le cfg.frequency (of_ℕ 0) ≡ false
    pub rate_finite : is_finite cfg.sample_rate ≡ true
    pub rate_floor : lt cfg.sample_rate (of_ℕ 250000) ≡ false
    pub gain_finite : (g : F) → cfg.gain ≡ some g → is_finite g ≡ true
    pub ppm_finite : is_finite cfg.ppm ≡ true
    pub period_floor : 5 ≤ cfg.period_seconds
    pub beacon_given :
        cfg.mode ≡ beacon
        → (b : BeaconConfig F) × (cfg.beacon ≡ some b) × IsValidBeacon cfg.sample_rate b
    pub gridsquare_length :
        (mw : MicrowavepropConfig)
        → cfg.microwaveprop ≡ some mw
        → (mw.gridsquare ≡ []) ⊎ ((4 ≤ byte_len mw.gridsquare) × (byte_len mw.gridsquare ≤ 20))
    pub interval_floor : 60 ≤ cfg.update.check_interval

  validate_gain_iff :
      (o : Option F) → (validate_gain fl o ≡ ok tt) ↔ ((g : F) → o ≡ some g → is_finite g ≡ true)
  unfolding validate_gain
  validate_gain_iff none = (λ h g e. cc, λ h. refl)
  validate_gain_iff (some g) = (λ h x e. ground arith, λ h. rw (h g refl))

  validate_beacon_iff :
      (rate : F) (o : Option (BeaconConfig F))
      → (validate_beacon fl rate o ≡ ok tt)
        ↔ ((b : BeaconConfig F) × (o ≡ some b) × IsValidBeacon rate b)
  unfolding validate_beacon
  validate_beacon_iff rate none = (λ h. cc, λ h. cc (h.1))
  validate_beacon_iff rate (some b) =
      (λ h. (b, refl, ground arith), λ h. let same : h.0 ≡ b = cc (h.1) in ground (arith, h.2))

  abbrev GridLength : Text → Type 0
  GridLength g = (g ≡ []) ⊎ ((4 ≤ byte_len g) × (byte_len g ≤ 20))

  grid_iff :
      (g : Text)
      → (reject (not (is_empty g) && (ltb (byte_len g) 4 || ltb 20 (byte_len g))) bad_gridsquare
          ≡ ok tt)
        ↔ GridLength g
  grid_iff [] = (λ h. inl refl, λ h. refl)
  grid_iff (c ∷ s) = (λ h. inr (ground arith, ground arith), λ h. ground arith)

  beacon_only_iff :
      (m : Mode) (k : Result Error (Unit {0}))
      → ((if is_beacon m then k else ok tt) ≡ ok tt) ↔ (m ≡ beacon → k ≡ ok tt)
  beacon_only_iff beacon k = (λ h e. h, λ h. h refl)
  beacon_only_iff usb k = (λ h e. cc, λ h. refl)
  beacon_only_iff _ k = (λ h e. cc, λ h. refl)

  reject_either_iff :
      (finite b : Bool) (e : Error)
      → (reject (not finite || b) e ≡ ok tt) ↔ ((finite ≡ true) × (b ≡ false))
  reject_either_iff true false e = (λ h. (refl, refl), λ h. refl)
  reject_either_iff true true e = (λ h. cc, λ h. cc (h.1))
  reject_either_iff false b e = (λ h. cc, λ h. cc (h.0))

  reject_unless_iff : (b : Bool) (e : Error) → (reject (not b) e ≡ ok tt) ↔ (b ≡ true)
  reject_unless_iff true e = (λ h. refl, λ h. refl)
  reject_unless_iff false e = (λ h. cc, λ h. cc)

  reject_below_iff : (n k : ℕ) (e : Error) → (reject (ltb n k) e ≡ ok tt) ↔ (k ≤ n)
  reject_below_iff n k e = (λ h. ground arith, λ h. ground arith)

  validate_gridsquare_iff :
      (o : Option MicrowavepropConfig)
      → (validate_gridsquare fl o ≡ ok tt) ↔ (
          (mw : MicrowavepropConfig)
          → o ≡ some mw
          → (mw.gridsquare ≡ []) ⊎ ((4 ≤ byte_len mw.gridsquare) × (byte_len mw.gridsquare ≤ 20)))
  unfolding validate_gridsquare
  validate_gridsquare_iff none = (λ h mw e. cc, λ h. refl)
  validate_gridsquare_iff (some mw) = (
    λ h x e.
        let same : mw ≡ x = cc e in
        subst {A = MicrowavepropConfig} (λ y. GridLength y.gridsquare) same
          ((grid_iff mw.gridsquare).0 h),
    λ h. (grid_iff mw.gridsquare).1 (h mw refl),
  )

  -- A configuration passes `validate` exactly when it keeps every rule of `IsValid`.
  pub validate_iff : (cfg : Config F) → (validate fl cfg ≡ ok tt) ↔ IsValid cfg
  unfolding validate
  validate_iff cfg = (
    λ h.
        let (a, h) = (>>-eq-ok _ _).0 h in
        let (b, h) = (>>-eq-ok _ _).0 h in
        let (c, h) = (>>-eq-ok _ _).0 h in
        let (d, h) = (>>-eq-ok _ _).0 h in
        let (e, h) = (>>-eq-ok _ _).0 h in
        let (f, h) = (>>-eq-ok _ _).0 h in
        let (g, h) = (>>-eq-ok _ _).0 h in
        record {
          frequency_finite = ((reject_either_iff _ _ _).0 a).0;
          frequency_positive = ((reject_either_iff _ _ _).0 a).1;
          rate_finite = ((reject_either_iff _ _ _).0 b).0;
          rate_floor = ((reject_either_iff _ _ _).0 b).1;
          gain_finite = (validate_gain_iff cfg.gain).0 c;
          ppm_finite = (reject_unless_iff _ _).0 d;
          period_floor = (reject_below_iff _ _ _).0 e;
          beacon_given = λ m.
              (validate_beacon_iff cfg.sample_rate cfg.beacon).0
                ((beacon_only_iff cfg.mode _).0 f m);
          gridsquare_length = (validate_gridsquare_iff cfg.microwaveprop).0 g;
          interval_floor = (reject_below_iff _ _ _).0 h;
        },
    λ v. (>>-eq-ok _ _).1 (
      (reject_either_iff _ _ _).1 (v.frequency_finite, v.frequency_positive),
      (>>-eq-ok _ _).1 (
        (reject_either_iff _ _ _).1 (v.rate_finite, v.rate_floor),
        (>>-eq-ok _ _).1 (
          (validate_gain_iff cfg.gain).1 v.gain_finite,
          (>>-eq-ok _ _).1 (
            (reject_unless_iff _ _).1 v.ppm_finite,
            (>>-eq-ok _ _).1 (
              (reject_below_iff _ _ _).1 v.period_floor,
              (>>-eq-ok _ _).1 (
                (beacon_only_iff cfg.mode _).1
                    (λ m. (validate_beacon_iff cfg.sample_rate cfg.beacon).1 (v.beacon_given m)),
                (>>-eq-ok _ _).1 (
                  (validate_gridsquare_iff cfg.microwaveprop).1 v.gridsquare_length,
                  (reject_below_iff _ _ _).1 v.interval_floor,
                ),
              ),
            ),
          ),
        ),
      ),
    ),
  )
