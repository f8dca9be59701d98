-- ===== src/Events.antt =====
-- `WsEvent` of src/server.rs: the frames for the browsers, which the uploader reads as well.
use propmonitor.Base.{ℕ, Text, List, Option}
use propmonitor.Store.{StoredMeasurement}
use propmonitor.View.{ConfigView}
use propmonitor.Update.{Phase, Manifest, Failure}
use propmonitor.Worker.{DeviceInfo}

pub data WsEvent (F S : Type 0) : Type 0 where
  device_info : DeviceInfo F → WsEvent F S
  raw_level : F → WsEvent F S
  waterfall : S → S → List S → WsEvent F S
  period_started : Text → WsEvent F S
  measurement : StoredMeasurement F → WsEvent F S
  upload : Text → Text → ℕ → WsEvent F S
  error : Text → WsEvent F S
  update : Phase → Option Manifest → Option Failure → WsEvent F S
  config : ConfigView F → WsEvent F S
  heartbeat : Text → WsEvent F S
