-- ===== src/Mode.antt =====
-- `Mode` of src/config.rs.
use propmonitor.Base.{Text, codes, text_eq, Bool, true, false, if◌then◌else◌, Result, ok, err}
use propmonitor.Error.{Error, unknown_mode}

pub data Mode : Type 0 where
  usb lsb am nfm wfm cw beacon : Mode

unfoldable pub parse : Text → Result Error Mode
parse s =
    if text_eq s (codes "usb")
    then ok usb
    else if text_eq s (codes "lsb")
    then ok lsb
    else if text_eq s (codes "am")
    then ok am
    else if text_eq s (codes "nfm")
    then ok nfm
    else if text_eq s (codes "wfm")
    then ok wfm
    else if text_eq s (codes "cw")
    then ok cw
    else if text_eq s (codes "beacon")
    then ok beacon
    else err (unknown_mode s)

unfoldable pub as_str : Mode → Text
as_str usb = codes "usb"
as_str lsb = codes "lsb"
as_str am = codes "am"
as_str nfm = codes "nfm"
as_str wfm = codes "wfm"
as_str cw = codes "cw"
as_str beacon = codes "beacon"

abbrev pub is_beacon : Mode → Bool
is_beacon beacon = true
is_beacon usb = false
is_beacon lsb = false
is_beacon am = false
is_beacon nfm = false
is_beacon wfm = false
is_beacon cw = false
