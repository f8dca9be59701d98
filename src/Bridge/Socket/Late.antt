-- ===== src/Bridge/Socket/Late.antt =====
-- A browser that connects to `handle_ws` of src/server.rs while the bridge is running.
use propmonitor.Base.{
  Text, List, [], ◌∷◌, ◌++◌, append-nil, Bool, true, all, Option, none, ◌≡◌, refl, sym, ap, ◌∙◌,
}
use propmonitor.Config.{Config}
use propmonitor.Store.{new, last}
use propmonitor.Uploader.{UploaderStatus}
use propmonitor.Timefmt.{format_utc_iso8601}
use propmonitor.Events
use propmonitor.Events.{WsEvent}
use propmonitor.Bridge.{Bridge}
use propmonitor.Bridge.Snapshot.{page, fresh, snapshot_events, snapshot-page, IsDevice}
use propmonitor.Bridge.Socket.{received, lagged, closed, Turn, recv, tick, frames_of, handle_ws}
use propmonitor.Bridge.Socket.Sends.{is_open, texts_of, handle_ws-taken}
use propmonitor.Bridge.Socket.Newest.{
  newest, newest-append, or_old, device_of, level_of, measured_of, page-newest,
}
use propmonitor.Bridge.Socket.Hub.{connecting, store_read, Hub, Action, run}
use propmonitor.Bridge.Socket.Shown.{pending, has_device, has_level, has_store, Shown}
use propmonitor.Bridge.Socket.Linked.{IsLinked, run-IsLinked}

module _ {F S : Type 0} where
  -- The hub when the process starts, and the browser's receiver has not been made.
  abbrev pub start : Hub F S
  start = record { bridge = fresh; unsent = none; place = connecting; seen = fresh; queue = [] }

  start-IsLinked : IsLinked start
  unfolding last new
  start-IsLinked = record {
    device = record { d = none; known = (λ e. absurd (cc e)); leads = refl };
    level = record { d = none; known = (λ e. absurd (cc e)); leads = refl };
    measured = record { d = none; known = (λ e. absurd (cc e)); leads = refl };
    is_device = tt;
    seen_device = tt;
    idle = refl;
  }

  -- What the loop of the handler takes from its receiver.
  abbrev pub taken : List (Turn F S) → List (WsEvent F S)
  taken [] = []
  taken (recv (received ev) ∷ ts) = ev ∷ taken ts
  taken (recv lagged ∷ ts) = taken ts
  taken (recv closed ∷ ts) = taken ts
  taken (tick now ∷ ts) = taken ts

  newest-frames_of :
      {A : Type 0} (pick : WsEvent F S → Option A)
      → ((t : Text) → pick (Events.heartbeat t) ≡ none)
      → (ts : List (Turn F S)) (d : Option A)
      → newest pick d (frames_of ts) ≡ newest pick d (taken ts)
  newest-frames_of pick h [] d = refl
  newest-frames_of pick h (recv (received ev) ∷ ts) d =
      newest-frames_of pick h ts (or_old pick (pick ev) d)
  newest-frames_of pick h (recv lagged ∷ ts) d = newest-frames_of pick h ts d
  newest-frames_of pick h (recv closed ∷ ts) d = newest-frames_of pick h ts d
  newest-frames_of pick h (tick now ∷ ts) d =
      ap (λ o. newest pick (or_old pick o d) (frames_of ts)) (h (format_utc_iso8601 now))
      ∙ newest-frames_of pick h ts d

  -- A field of the page when all frames are sent and taken.
  settled-Shown :
      {A : Type 0} (pick : WsEvent F S → Option A)
      → ((t : Text) → pick (Events.heartbeat t) ≡ none)
      → (read : Bool) (r f : Option A) (q : List (WsEvent F S)) (u : Option (WsEvent F S))
        (snapshot : List (WsEvent F S)) (ts : List (Turn F S))
      → read ≡ true
      → u ≡ none
      → taken ts ≡ q
      → newest pick none snapshot ≡ r
      → Shown pick read r q u f
      → newest pick none (snapshot ++ frames_of ts) ≡ f
  settled-Shown pick h read r f q u snapshot ts done sent all_taken shown s =
      newest-append pick none snapshot (frames_of ts)
      ∙ ap (λ o. newest pick o (frames_of ts)) (shown ∙ sym (s.known done))
      ∙ newest-frames_of pick h ts s.d
      ∙ ap (newest pick s.d) (all_taken ∙ sym (append-nil q))
      ∙ ap (λ u. newest pick s.d (q ++ pending u)) (sym sent)
      ∙ s.leads

  snapshot_newest :
      (b : Bridge F S) (uploader : UploaderStatus) (cfg : Config F)
      → IsDevice b.device_info
      → let fs = snapshot_events b uploader cfg in
        (newest device_of none fs ≡ b.device_info)
        × (newest level_of none fs ≡ b.last_raw_dbfs)
        × (newest measured_of none fs ≡ last b.store)
  unfolding snapshot_events
  snapshot_newest b uploader cfg device =
      let p = sym (page-newest (snapshot_events b uploader cfg)) in
      let (d, r, m) =
        snapshot-page b.device_info b.last_raw_dbfs (last b.store) uploader.last_post_at
          uploader.last_status uploader.queued cfg device in
      (ap (λ q. q.0) p ∙ d, ap (λ q. q.1) p ∙ r, ap (λ q. q.2) p ∙ m)

  -- Nothing is lost between the snapshot and the events, if the receiver does not lag. The bridge and
  -- the handler of a browser run side by side from the start of the process, in any interleaving of
  -- their steps with the sends of the other tasks: the bridge writes the state of a turn and then
  -- sends its frame; the handler subscribes and then reads the device, the level and the store, each
  -- on its own. When the store is read and the bridge has sent what it wrote, and if the handler's
  -- loop has taken all that its receiver got, among heartbeats, the channel stays open and the peer
  -- takes every text, then the texts sent are those of a list of frames after which the page shows
  -- the device, the level and the newest measurement of the state.
  pub handle_ws-page :
      (to_string : WsEvent F S → Option Text) (takes : List Text → Text → Bool)
      (actions : List (Action F S)) (uploader : UploaderStatus) (cfg : Config F)
      (turns : List (Turn F S))
      → ((sent : List Text) (s : Text) → takes sent s ≡ true)
      → all is_open turns ≡ true
      → (run start actions).place ≡ store_read
      → (run start actions).unsent ≡ none
      → taken turns ≡ (run start actions).queue
      → let h = run start actions in
        (fs : List (WsEvent F S)) × (handle_ws to_string takes
            (snapshot_events h.seen uploader cfg)
            turns
          ≡ (texts_of to_string fs, true))
        × (page fs ≡ (h.bridge.device_info, h.bridge.last_raw_dbfs, last h.bridge.store))
  handle_ws-page to_string takes actions uploader cfg turns live open_channel done sent all_taken =
      let h = run start actions in
      let l = run-IsLinked actions start start-IsLinked in
      let snapshot = snapshot_events h.seen uploader cfg in
      let (d, r, m) = snapshot_newest h.seen uploader cfg l.seen_device in
      let device =
        settled-Shown device_of (λ t. refl) _ _ _ _ _ snapshot turns (ap has_device done) sent
          all_taken d l.device in
      let level =
        settled-Shown level_of (λ t. refl) _ _ _ _ _ snapshot turns (ap has_level done) sent
          all_taken r l.level in
      let measured =
        settled-Shown measured_of (λ t. refl) _ _ _ _ _ snapshot turns (ap has_store done) sent
          all_taken m l.measured in
      (
        snapshot ++ frames_of turns,
        handle_ws-taken to_string takes live snapshot turns open_channel,
        page-newest (snapshot ++ frames_of turns) ∙ (λ i. (device i, level i, measured i)),
      )
