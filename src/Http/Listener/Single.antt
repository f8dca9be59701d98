-- ===== src/Http/Listener/Single.antt =====
-- How many servers `restart_server` of src/server.rs leaves running.
use propmonitor.Base.{
  Text, List, [], ◌∷◌, ◌++◌, length, Bool, true, false, all, &&_split, Option, none, some, Result,
  ok, err, if◌then◌else◌, ◌≡◌, refl, ap, ap₂, ◌&&◌, ◌∙◌,
}
use propmonitor.Http.Listener.{
  ListenError, Server, Servers, notify_one, take_server, spawn_server, commit_server, bind_listener,
  commit_bound, restart_server,
}

module _ {A : Type 0} where
  -- The addresses at which a task serves that was not told to stop.
  abbrev pub served : List (Server A) → List A
  served [] = []
  served (t ∷ ts) = if t.shutdown then served ts else t.addr ∷ served ts

  -- The server before any `restart_server`.
  abbrev pub idle : Servers A
  idle = record { tasks = []; http_server = none }

  -- The handle is that of the newest task, which serves; the others stand in `old`.
  abbrev single : List (Server A) → A → Servers A
  single old addr = record {
    tasks = old ++ record { addr = addr; shutdown = false } ∷ [];
    http_server = some (length old);
  }

  abbrev IsSingle : Option A → Servers A → Type 0
  IsSingle none s = s ≡ idle
  IsSingle (some addr) s =
      (old : List (Server A)) × (all (λ t. t.shutdown) old ≡ true) × (s ≡ single old addr)

  served-old :
      (old : List (Server A)) (addr : A)
      → all (λ t. t.shutdown) old ≡ true
      → served (old ++ record { addr = addr; shutdown = false } ∷ []) ≡ addr ∷ []
  served-old [] addr h = refl
  served-old (t ∷ ts) addr h =
      let (stopped, rest) = &&_split t.shutdown (all (λ t. t.shutdown) ts) h in
      ap
        (λ b.
          if b
          then served (ts ++ record { addr = addr; shutdown = false } ∷ [])
          else t.addr ∷ served (ts ++ record { addr = addr; shutdown = false } ∷ []))
        stopped
      ∙ served-old ts addr rest

  notify_one-last :
      (old : List (Server A)) (t : Server A)
      → notify_one (length old) (old ++ t ∷ []) ≡ old ++ record t { shutdown = true } ∷ []
  notify_one-last [] t = refl
  notify_one-last (o ∷ old) t = ap (λ ts. o ∷ ts) (notify_one-last old t)

  all-stopped :
      (old : List (Server A)) (addr : A)
      → all (λ t. t.shutdown) old ≡ true
      → all (λ t. t.shutdown) (old ++ record { addr = addr; shutdown = true } ∷ []) ≡ true
  all-stopped [] addr h = refl
  all-stopped (t ∷ ts) addr h =
      let (stopped, rest) = &&_split t.shutdown (all (λ t. t.shutdown) ts) h in
      ap₂ ◌&&◌ stopped (all-stopped ts addr rest)

  commit_server-IsSingle :
      (o : Option A) (s : Servers A) (addr : A)
      → IsSingle o s
      → IsSingle (some addr) (commit_server s addr)
  unfolding commit_server take_server spawn_server
  commit_server-IsSingle none s addr h = ([], refl, ap (λ s. commit_server s addr) h)
  commit_server-IsSingle (some before) s addr (old, stopped, h) = (
    old ++ record { addr = before; shutdown = true } ∷ [],
    all-stopped old before stopped,
    ap (λ s. commit_server s addr) h
        ∙ ap (λ ts. spawn_server (record { tasks = ts; http_server = none }) addr)
            (notify_one-last old (record { addr = before; shutdown = false })),
  )

  module _ (parse : Text → Option A) where
    -- The addresses asked for one after another, each with whether it can be bound.
    unfoldable pub restarts : Servers A → List (Text × Bool) → Servers A
    restarts s [] = s
    restarts s ((bind, can_bind) ∷ rs) = restarts (restart_server parse s bind can_bind).0 rs

    abbrev bound : Option A → Result ListenError A → Option A
    bound o (err e) = o
    bound o (ok addr) = some addr

    -- The last address that could be bound.
    abbrev pub last_bound : Option A → List (Text × Bool) → Option A
    last_bound o [] = o
    last_bound o ((bind, can_bind) ∷ rs) =
        last_bound (bound o (bind_listener parse bind can_bind)) rs

    abbrev pub at_most_one : Option A → List A
    at_most_one none = []
    at_most_one (some addr) = addr ∷ []

    commit_bound-IsSingle :
        (o : Option A) (s : Servers A) (r : Result ListenError A)
        → IsSingle o s
        → IsSingle (bound o r) (commit_bound parse s r).0
    commit_bound-IsSingle o s (err e) h = h
    commit_bound-IsSingle o s (ok addr) h = commit_server-IsSingle o s addr h

    restarts-IsSingle :
        (rs : List (Text × Bool)) (o : Option A) (s : Servers A)
        → IsSingle o s
        → IsSingle (last_bound o rs) (restarts s rs)
    unfolding restarts restart_server
    restarts-IsSingle [] o s h = h
    restarts-IsSingle ((bind, can_bind) ∷ rs) o s h =
        let r = bind_listener parse bind can_bind in
        restarts-IsSingle rs (bound o r) (commit_bound parse s r).0 (commit_bound-IsSingle o s r h)

    served-IsSingle : (o : Option A) (s : Servers A) → IsSingle o s → served s.tasks ≡ at_most_one o
    served-IsSingle none s h = ap (λ s. served s.tasks) h
    served-IsSingle (some addr) s (old, stopped, h) =
        ap (λ s. served s.tasks) h ∙ served-old old addr stopped

    -- However often the server is moved, from the start on: exactly one task serves that was not told
    -- to stop, and it serves at the last address that could be parsed and bound. An address that
    -- cannot be leaves the running server alone, and there is none before the first that can.
    pub restarts-served :
        (rs : List (Text × Bool))
        → served (restarts idle rs).tasks ≡ at_most_one (last_bound none rs)
    restarts-served rs =
        served-IsSingle (last_bound none rs) (restarts idle rs)
          (restarts-IsSingle rs none idle refl)
