-- ===== src/Http/Listener/Tests.antt =====
-- The HTTP server of src/server.rs is moved, also to addresses that are taken or wrong.
use propmonitor.Base.{
  ℕ, codes, Text, List, [], ◌∷◌, length, Bool, true, false, Option, none, some, err, if◌then◌else◌,
  is_empty, ◌≡◌, refl,
}
use propmonitor.Http.Listener.{
  invalid_bind, cannot_bind, take_server, spawn_server, commit_server, bind_listener,
  restart_server,
}
use propmonitor.Http.Listener.Single.{
  served, idle, restarts, last_bound, at_most_one, restarts-served,
}

abbrev parse : Text → Option ℕ
parse bind = if is_empty bind then none else some (length bind)

abbrev moves : List (Text × Bool)
moves =
    (codes "a", true)
    ∷ (codes "bb", true)
    ∷ (codes "", true)
    ∷ (codes "ccc", true)
    ∷ (codes "dddd", false)
    ∷ []

restarts-served_example :
    served (restarts parse idle moves).tasks ≡ at_most_one parse (last_bound parse none moves)
restarts-served_example = restarts-served parse moves

moved_twice : restarts parse idle moves ≡ record {
  tasks =
      record { addr = 1; shutdown = true }
      ∷ record { addr = 2; shutdown = true }
      ∷ record { addr = 3; shutdown = false }
      ∷ [];
  http_server = some 2;
}
unfolding restarts restart_server bind_listener commit_server take_server spawn_server
moved_twice = refl

no_address : (restart_server parse idle (codes "") true).1 ≡ err (invalid_bind (codes ""))
unfolding restart_server bind_listener
no_address = refl

taken : (restart_server parse idle (codes "a") false).1 ≡ err (cannot_bind (codes "a"))
unfolding restart_server bind_listener
taken = refl
