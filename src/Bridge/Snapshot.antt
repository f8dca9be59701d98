-- ===== src/Bridge/Snapshot.antt =====
-- `snapshot_events` of src/server.rs: what a browser that connects is sent first.
mod Tests
use propmonitor.Base.{
  ℕ, Text, List, [], ◌∷◌, ◌++◌, Option, none, some, get_last?, ◌≡◌, refl, sym, ap, ap₂, subst, ◌∙◌,
}
use propmonitor.Config.{Config}
use propmonitor.View.{cfg_to_view}
use propmonitor.Store.{StoredMeasurement, MeasurementStore, new, last}
use propmonitor.Store.History.{pushes, recent-pushes}
use propmonitor.Uploader.{UploaderStatus}
use propmonitor.Worker.{WorkerEvent}
use propmonitor.Events
use propmonitor.Events.{WsEvent}
use propmonitor.Bridge.{Bridge, bridge_loop}
use propmonitor.Bridge.Run.{
  measurements_in, device_after, level_after, Follows, bridge_loop-Follows,
}

-- What a page shows of the receiver: the device, the level and the newest measurement.
abbrev pub Page : Type 0 → Type 0 → Type 0
Page F S = Option (WsEvent F S) × Option F × Option (StoredMeasurement F)

module _ {F S : Type 0} where
  abbrev device_frames : Option (WsEvent F S) → List (WsEvent F S)
  device_frames none = []
  device_frames (some ev) = ev ∷ []

  abbrev level_frames : Option F → List (WsEvent F S)
  level_frames none = []
  level_frames (some dbfs) = Events.raw_level dbfs ∷ []

  abbrev measurement_frames : Option (StoredMeasurement F) → List (WsEvent F S)
  measurement_frames none = []
  measurement_frames (some m) = Events.measurement m ∷ []

  -- With the time and the status of the last post, if there are both.
  abbrev upload_frames : Option Text → Option Text → ℕ → List (WsEvent F S)
  upload_frames none status queued = []
  upload_frames (some at) none queued = []
  upload_frames (some at) (some status) queued = Events.upload at status queued ∷ []

  unfoldable pub snapshot_events : Bridge F S → UploaderStatus → Config F → List (WsEvent F S)
  snapshot_events b uploader cfg =
      device_frames b.device_info
      ++ (level_frames b.last_raw_dbfs
          ++ (measurement_frames (last b.store)
              ++ (upload_frames uploader.last_post_at uploader.last_status uploader.queued
                  ++ Events.config (cfg_to_view cfg) ∷ [])))

  -- The page after a list of frames.
  abbrev pub page : List (WsEvent F S) → Page F S
  page fs = (device_after none fs, level_after none fs, get_last? (measurements_in fs))

  abbrev pub IsDevice : Option (WsEvent F S) → Type 0
  IsDevice none = Unit
  IsDevice (some (Events.device_info i)) = Unit
  IsDevice (some _) = ⊥

  pub device_after-IsDevice :
      (d : Option (WsEvent F S)) (fs : List (WsEvent F S))
      → IsDevice d
      → IsDevice (device_after d fs)
  device_after-IsDevice d [] h = h
  device_after-IsDevice d (Events.device_info i ∷ fs) h =
      device_after-IsDevice (some (Events.device_info i)) fs tt
  device_after-IsDevice d (Events.raw_level l ∷ fs) h = device_after-IsDevice d fs h
  device_after-IsDevice d (Events.waterfall x y z ∷ fs) h = device_after-IsDevice d fs h
  device_after-IsDevice d (Events.period_started a ∷ fs) h = device_after-IsDevice d fs h
  device_after-IsDevice d (Events.measurement m ∷ fs) h = device_after-IsDevice d fs h
  device_after-IsDevice d (Events.upload x y z ∷ fs) h = device_after-IsDevice d fs h
  device_after-IsDevice d (Events.error e ∷ fs) h = device_after-IsDevice d fs h
  device_after-IsDevice d (Events.update x y z ∷ fs) h = device_after-IsDevice d fs h
  device_after-IsDevice d (Events.config c ∷ fs) h = device_after-IsDevice d fs h
  device_after-IsDevice d (Events.heartbeat a ∷ fs) h = device_after-IsDevice d fs h

  -- The page from a device, a level and the measurements so far.
  abbrev PageFrom :
      Option (WsEvent F S) → Option F → Option (StoredMeasurement F) → List (WsEvent F S) → Type 0
  PageFrom d r m fs =
      (device_after d fs ≡ d) × (level_after r fs ≡ r) × (get_last? (measurements_in fs) ≡ m)

  tail-page :
      (d : Option (WsEvent F S)) (r : Option F) (at st : Option Text) (n : ℕ) (cfg : Config F)
      → PageFrom d r none (upload_frames at st n ++ Events.config (cfg_to_view cfg) ∷ [])
  tail-page d r none st n cfg = (refl, refl, refl)
  tail-page d r (some at) none n cfg = (refl, refl, refl)
  tail-page d r (some at) (some st) n cfg = (refl, refl, refl)

  measured-page :
      (d : Option (WsEvent F S)) (r : Option F) (m : Option (StoredMeasurement F))
      (at st : Option Text) (n : ℕ) (cfg : Config F)
      → PageFrom d r m
          (measurement_frames m ++ (upload_frames at st n ++ Events.config (cfg_to_view cfg) ∷ []))
  measured-page d r none at st n cfg = tail-page d r at st n cfg
  measured-page d r (some m) none st n cfg = (refl, refl, refl)
  measured-page d r (some m) (some at) none n cfg = (refl, refl, refl)
  measured-page d r (some m) (some at) (some st) n cfg = (refl, refl, refl)

  levelled-page :
      (d : Option (WsEvent F S)) (r : Option F) (m : Option (StoredMeasurement F))
      (at st : Option Text) (n : ℕ) (cfg : Config F)
      → let fs =
          level_frames r
          ++ (measurement_frames m
              ++ (upload_frames at st n ++ Events.config (cfg_to_view cfg) ∷ [])) in
        (device_after d fs ≡ d) × (level_after none fs ≡ r) × (get_last? (measurements_in fs) ≡ m)
  levelled-page d none m at st n cfg = measured-page d none m at st n cfg
  levelled-page d (some r) m at st n cfg = measured-page d (some r) m at st n cfg

  pub snapshot-page :
      (d : Option (WsEvent F S)) (r : Option F) (m : Option (StoredMeasurement F))
      (at st : Option Text) (n : ℕ) (cfg : Config F)
      → IsDevice d
      → let fs =
          device_frames d
          ++ (level_frames r
              ++ (measurement_frames m
                  ++ (upload_frames at st n ++ Events.config (cfg_to_view cfg) ∷ []))) in
        (device_after none fs ≡ d)
        × (level_after none fs ≡ r)
        × (get_last? (measurements_in fs) ≡ m)
  snapshot-page none r m at st n cfg h = levelled-page none r m at st n cfg
  snapshot-page (some (Events.device_info i)) r m at st n cfg h =
      levelled-page (some (Events.device_info i)) r m at st n cfg
  snapshot-page (some (Events.raw_level l)) r m at st n cfg h = absurd h
  snapshot-page (some (Events.waterfall x y z)) r m at st n cfg h = absurd h
  snapshot-page (some (Events.period_started a)) r m at st n cfg h = absurd h
  snapshot-page (some (Events.measurement a)) r m at st n cfg h = absurd h
  snapshot-page (some (Events.upload x y z)) r m at st n cfg h = absurd h
  snapshot-page (some (Events.error e)) r m at st n cfg h = absurd h
  snapshot-page (some (Events.update x y z)) r m at st n cfg h = absurd h
  snapshot-page (some (Events.config c)) r m at st n cfg h = absurd h
  snapshot-page (some (Events.heartbeat a)) r m at st n cfg h = absurd h

  -- The bridge thread when it starts, in a process that has captured nothing.
  abbrev pub fresh : Bridge F S
  fresh = record {
    period_start = none;
    device_info = none;
    last_raw_dbfs = none;
    store = new;
    sent = [];
  }

  -- A browser that connects late catches up: whatever the worker has sent since the start, the
  -- snapshot shows the same device, level and newest measurement as all the frames that the bridge
  -- sent would have.
  pub snapshot_events-page :
      (events : List (Text × WorkerEvent F S)) (uploader : UploaderStatus) (cfg : Config F)
      → page (snapshot_events (bridge_loop fresh events) uploader cfg)
        ≡ page (bridge_loop fresh events).sent
  unfolding snapshot_events
  snapshot_events-page events uploader cfg =
      let b = bridge_loop fresh events in
      let (frames, h, _) = bridge_loop-Follows fresh events in
      let device : IsDevice b.device_info =
        subst IsDevice (sym h.device_info) (device_after-IsDevice none frames tt) in
      let (d, r, m) =
        snapshot-page b.device_info b.last_raw_dbfs (last b.store) uploader.last_post_at
          uploader.last_status uploader.queued cfg device in
      let newest : last b.store ≡ get_last? (measurements_in frames) =
        ap last h.store ∙ (recent-pushes (measurements_in frames) 0).1 in
      let sent : frames ≡ b.sent = sym h.sent in
      let page_device = d ∙ h.device_info in
      let page_level = r ∙ h.last_raw_dbfs in
      let page_measurement = m ∙ newest in
      (λ i. (page_device i, page_level i, page_measurement i)) ∙ ap page sent
