-- ===== src/Sync/Session/Reports/Tests.antt =====
-- Runs of a session of src/sync.rs.
use propmonitor.Base.{ℕ, codes, List, [], ◌∷◌, Bool, true, some, ◌≡◌, refl}
use propmonitor.Base.Decimal.{parse_uint, digits_from}
use propmonitor.Yaml.{trim, trim_start, trim_end, is_whitespace}
use propmonitor.Sync.{hello_ack, config_accepted}
use propmonitor.Sync.Session.{
  SessionEvent, incoming, text, edited, ping_tick, port_from_bind, after_colon,
}
use propmonitor.Samples.{all_well}

-- Two edits before the first acknowledgement.
abbrev events : List (Bool × Bool × SessionEvent ℕ)
events =
    (true, true, incoming all_well (text (some (hello_ack 4))))
    ∷ (true, true, edited)
    ∷ (true, true, edited)
    ∷ (true, true, incoming all_well (text (some (config_accepted 5))))
    ∷ (true, true, ping_tick)
    ∷ []

ipv6 : port_from_bind (codes "[::]:5760 ") ≡ some 5760
unfolding port_from_bind after_colon trim trim_start trim_end is_whitespace parse_uint digits_from
ipv6 = refl
