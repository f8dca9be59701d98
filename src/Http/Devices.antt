-- ===== src/Http/Devices.antt =====
-- `enumerate_devices` of src/server.rs. The arguments of a device are a function from keys, as
-- SoapySDR gives them.
pub mod Distinct
mod Tests
use propmonitor.Base.{
  codes, Text, List, [], ◌∷◌, ◌++◌, is_empty, Bool, true, false, Option, none, some, if◌then◌else◌,
}

pub record DeviceOption : Type 0 where
  pub value : Text
  pub label : Text

abbrev pub Args : Type 0
Args = Text → Option Text

abbrev non_empty : Option Text → Option Text
non_empty none = none
non_empty (some s) = if is_empty s then none else some s

-- The closure `get`.
abbrev pub get : Args → Text → Option Text
get args k = non_empty (args k)

abbrev pub value_of : Text → Option Text → Text
value_of driver none = driver
value_of driver (some s) = driver ++ (codes ",serial=" ++ s)

abbrev made_by : Option Text → Option Text → Text → Text
made_by (some m) (some p) driver = m ++ codes " " ++ p
made_by (some m) none driver = m
made_by none (some p) driver = p
made_by none none driver = driver

abbrev display : Option Text → Option Text → Option Text → Text → Text
display (some label) manufacturer product driver = label
display none manufacturer product driver = made_by manufacturer product driver

abbrev label_of : Text → Option Text → Text
label_of shown (some s) = shown ++ codes " (" ++ s ++ codes ")"
label_of shown none = shown

unfoldable pub option_of : Args → Text → DeviceOption
option_of args driver =
    let serial = get args (codes "serial") in
    let shown =
      display (get args (codes "label")) (get args (codes "manufacturer"))
        (get args (codes "product")) driver in
    record { value = value_of driver serial; label = label_of shown serial }

-- An entry without a driver is left out.
abbrev pub push_option : Args → Option Text → List DeviceOption → List DeviceOption
push_option args none rest = rest
push_option args (some driver) rest = option_of args driver ∷ rest

unfoldable pub options_of : List Args → List DeviceOption
options_of [] = []
options_of (args ∷ more) = push_option args (get args (codes "driver")) (options_of more)

-- With the answer of `soapysdr::enumerate`, if it did not fail.
unfoldable pub enumerate_devices : Option (List Args) → List DeviceOption
enumerate_devices none = []
enumerate_devices (some args_list) = options_of args_list
