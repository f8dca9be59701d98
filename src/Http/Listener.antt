-- ===== src/Http/Listener.antt =====
-- `restart_server` of src/server.rs and what it calls. A task that serves is an entry of a list, and
-- its handle is the index. The parser of addresses and whether an address can be bound are inputs.
pub mod Single
mod Tests
use propmonitor.Base.{
  ℕ, zero, suc, Text, List, [], ◌∷◌, ◌++◌, length, Bool, true, false, Option, none, some, Result,
  ok, err, if◌then◌else◌,
}

pub data ListenError : Type 0 where
  invalid_bind : Text → ListenError
  cannot_bind : Text → ListenError

-- A task that serves at an address, until it is notified.
pub record Server (A : Type 0) : Type 0 where
  pub addr : A
  pub shutdown : Bool

-- The tasks, the newest one last, and `http_server` of the state.
pub record Servers (A : Type 0) : Type 0 where
  pub tasks : List (Server A)
  pub http_server : Option ℕ

module _ {A : Type 0} where
  -- `shutdown.notify_one()`
  abbrev pub notify_one : ℕ → List (Server A) → List (Server A)
  notify_one i [] = []
  notify_one zero (t ∷ ts) = record t { shutdown = true } ∷ ts
  notify_one (suc i) (t ∷ ts) = t ∷ notify_one i ts

  unfoldable pub take_server : Servers A → Servers A × Option ℕ
  take_server s = (record s { http_server = none }, s.http_server)

  unfoldable pub spawn_server : Servers A → A → Servers A
  spawn_server s addr = record {
    tasks = s.tasks ++ record { addr = addr; shutdown = false } ∷ [];
    http_server = some (length s.tasks);
  }

  abbrev pub stop_old : Servers A × Option ℕ → Servers A
  stop_old (s, none) = s
  stop_old (s, some old) = record s { tasks = notify_one old s.tasks }

  unfoldable pub commit_server : Servers A → A → Servers A
  commit_server s addr = spawn_server (stop_old (take_server s)) addr

  module _ (parse : Text → Option A) where
    abbrev pub bind_parsed : Text → Bool → Option A → Result ListenError A
    bind_parsed bind can_bind none = err (invalid_bind bind)
    bind_parsed bind can_bind (some addr) = if can_bind then ok addr else err (cannot_bind bind)

    unfoldable pub bind_listener : Text → Bool → Result ListenError A
    bind_listener bind can_bind = bind_parsed bind can_bind (parse bind)

    abbrev pub commit_bound :
        Servers A → Result ListenError A → Servers A × Result ListenError (Unit {0})
    commit_bound s (err e) = (s, err e)
    commit_bound s (ok addr) = (commit_server s addr, ok tt)

    unfoldable pub restart_server :
        Servers A → Text → Bool → Servers A × Result ListenError (Unit {0})
    restart_server s bind can_bind = commit_bound s (bind_listener bind can_bind)
