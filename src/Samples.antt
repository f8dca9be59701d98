-- ===== src/Samples.antt =====
-- Concrete values for the witnesses: a number type in the place of `f64`, a configuration and the
-- state of a node that runs it.
use propmonitor.Base.{
  ℕ, ◌+◌, ◌-◌, ◌*◌, max, ◌/◌, ◌^◌, codes, ltb, leb, ◌==◌, ltb→lt, ==_refl, true, false, ◌≡◌, refl,
  ◌∙◌, none, some, [], ok, arith,
}
use propmonitor.Base.Decimal.{show, parse_uint, parse_uint-show}
use propmonitor.Float.{Float, FloatLaws}
use propmonitor.Base.Ints.{pos}
use propmonitor.Signal.{Signal}
use propmonitor.Mode.{beacon}
use propmonitor.Config.{
  Config, default_update, validate, validate_beacon, validate_gain, validate_gridsquare,
}
use propmonitor.Settings.{cfg_to_update, build_yaml_from_update}
use propmonitor.Settings.Clean.{bare-show}
use propmonitor.Settings.RoundTrip.{merge, from_yaml_str-build_yaml}
use propmonitor.Yaml.Scan.{is_one_line}
use propmonitor.App.{App, Outcome}
use propmonitor.App.Apply.{IsConsistent}
use propmonitor.App.Persist.{IsStorable}

-- The natural numbers as the numbers of the program, those below 2 ^ 64 counting as finite.
abbrev pub natural : Float
natural = record {
  F = ℕ;
  parse = parse_uint (2 ^ 64);
  display = show;
  is_finite = λ n. ltb n (2 ^ 64);
  lt = ltb;
  le = leb;
  eq = ◌==◌;
  add = ◌+◌;
  div = ◌/◌;
  neg = λ n. n;
  abs = λ n. n;
  of_ℕ = λ n. n;
  to_u64 = λ n. n;
}

pub natural_laws : FloatLaws natural
natural_laws = record {
  parse_display = λ n h. parse_uint-show (2 ^ 64) n (ltb→lt n (2 ^ 64) h);
  bare_display = λ n h. bare-show n;
  eq_refl = λ n h. ==_refl n;
}

abbrev pub node : Config ℕ
node = record {
  frequency = 28330000;
  mode = beacon;
  sample_rate = 250000;
  gain = some 30;
  driver = codes "rtlsdr";
  ppm = 0;
  period_seconds = 60;
  beacon = some (record { offset_hz = 700; bandwidth_hz = 50 });
  http = record { bind = codes "0.0.0.0:5760" };
  microwaveprop = some (record {
    enabled = true;
    monitor_token = codes "se#cret\"";
    beacon_id = codes "b-1";
    gridsquare = codes "EM12";
    config_version = 4;
  });
  update = default_update;
}

pub node-IsStorable : IsStorable natural node
unfolding is_one_line cfg_to_update
node-IsStorable = record {
  frequency = refl;
  sample_rate = refl;
  gain = refl;
  ppm = refl;
  beacon = (refl, refl);
  driver = refl;
  bind = refl;
  texts = (refl, refl, refl);
  period = omega arith;
  version_fits = omega arith;
  interval = omega arith;
}

pub validate-node : validate natural node ≡ ok tt
unfolding validate validate_beacon validate_gain validate_gridsquare
validate-node = refl

abbrev pub running : App ℕ
running = record {
  config = node;
  disk = build_yaml_from_update natural (cfg_to_update node) node none;
  listening = codes "0.0.0.0:5760";
  worker = some node;
  sent = [];
  edits = 0;
}

merge-node : merge natural beacon (cfg_to_update node) node none ≡ node
unfolding merge cfg_to_update
merge-node = refl

pub running-IsConsistent : IsConsistent natural running
running-IsConsistent = record {
  loads =
      from_yaml_str-build_yaml natural natural_laws beacon (cfg_to_update node) node none
        (unfold cfg_to_update in refl) node-IsStorable
      ∙ simp (merge-node, validate-node);
  listening = refl;
}

abbrev pub all_well : Outcome
all_well = record { bind_ok = true; write_ok = true }

abbrev pub full_disk : Outcome
full_disk = record { bind_ok = true; write_ok = false }

-- Samples of two natural numbers, and a transform that leaves them as they are.
abbrev pub natural_signal : Signal natural
natural_signal = record {
  mul = ◌*◌;
  max = max;
  log10 = λ n. n;
  round = λ n. n;
  to_isize = pos;
  least_power = 1;
  S = ℕ;
  to_f64 = λ n. n;
  to_f32 = λ n. n;
  of_ℕ32 = λ n. n;
  add32 = ◌+◌;
  sub32 = ◌-◌;
  mul32 = ◌*◌;
  div32 = ◌/◌;
  neg32 = λ n. n;
  cos32 = λ n. n;
  pi32 = 3;
  half32 = 1;
  C = ℕ × ℕ;
  complex = λ re im. (re, im);
  re = λ c. c.0;
  im = λ c. c.1;
  scale = λ c s. (c.0 * s, c.1 * s);
  norm_sqr = λ c. c.0 * c.0 + c.1 * c.1;
  forward = λ cs. cs;
}
