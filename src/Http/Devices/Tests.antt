-- ===== src/Http/Devices/Tests.antt =====
-- The devices of a host for src/server.rs: one with a label, one without a driver, one with no more
-- than a product.
use propmonitor.Base.{codes, text_eq, [], ◌∷◌, none, some, if◌then◌else◌, ◌≡◌, refl}
use propmonitor.Http.Devices.{Args, option_of, options_of, enumerate_devices}

abbrev rtl : Args
rtl k =
    if text_eq k (codes "driver")
    then some (codes "rtlsdr")
    else if text_eq k (codes "serial")
    then some (codes "01")
    else if text_eq k (codes "label")
    then some (codes "Generic RTL")
    else none

abbrev nameless : Args
nameless k = if text_eq k (codes "driver") then some (codes "") else none

abbrev airspy : Args
airspy k =
    if text_eq k (codes "driver")
    then some (codes "airspy")
    else if text_eq k (codes "product")
    then some (codes "Mini")
    else none

three_devices :
    enumerate_devices (some (rtl ∷ nameless ∷ airspy ∷ []))
    ≡ record { value = codes "rtlsdr,serial=01"; label = codes "Generic RTL (01)" }
      ∷ record { value = codes "airspy"; label = codes "Mini" }
      ∷ []
unfolding enumerate_devices options_of option_of
three_devices = refl

no_devices : enumerate_devices none ≡ []
unfolding enumerate_devices
no_devices = refl
