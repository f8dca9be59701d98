-- ===== src/Lib.antt =====
-- Verification library of propmonitor, a headless daemon that listens to a beacon through an SDR,
-- measures its strength once a minute, shows the measurements on a web page and posts them to a
-- website that can also push settings down to it.
--
-- The parts and how they interact. A worker thread captures and measures; a bridge thread turns its
-- events into frames for the browsers and keeps the newest measurements in a store. The upload task
-- reads the same frames and posts the measurements, with a retry queue. The settings are a document
-- in a small subset of YAML; a change of them, from the web page or pushed by the website, is
-- validated by loading the document that would be saved, then written, then activated. The sync task
-- exchanges settings with the website, and the update task replaces the program by newer builds.
--
-- Which file models which part (the code is in src/):
--   Yaml, Yaml/Writer: yaml.rs, `parse` line by line with its state, the accessors and `YamlWriter`;
--     Yaml/Atomic: `write_atomic` with the states that the disk passes through.
--     Yaml/Document and its neighbours say what a written document is and relate it to `parse`.
--   Mode, Config, Config/Load: config.rs, `Mode`, the structures, `passband_for`, `validate` and
--     `from_yaml_str`, with one function for each block of the document.
--   Settings, View: server.rs, the bodies of the settings API, `build_yaml_from_update`,
--     `cfg_to_update` and `cfg_to_view`.
--   App: server.rs, `apply_config`, `put_config` and `persist_config_version` over the part of
--     `AppState` that they change, with the file; `Outcome` says what the system answers. One
--     operation is one step, since a mutex serialises the writers; the configuration that a push reads
--     before it takes the mutex is an argument of its own (Sync/Push).
--   Measure, Measure/Finalize: measure.rs, `SpectrumAnalyzer`; Measure/Description says what the
--     measurement of a window is, from its frames.
--   Worker, Worker/Capture: worker.rs, the events and the loop of `run_inner`, by windows, turns and
--     samples; Worker/Waterfall: `compute_waterfall_bins`; Worker/Device: `open_device`, the set-up and
--     `run_worker`, with the commands given to the device.
--   Error, Error/Chain: error.rs, the messages as constructors; the contexts and `chain` on texts.
--   Store: store.rs. Timefmt: timefmt.rs. Events: the frames of server.rs.
--   Bridge: server.rs, `convert_worker_event`, `stamp_event` and `bridge_loop`; Bridge/Snapshot:
--     `snapshot_events`; Bridge/Socket: `handle_ws`, with the texts that the peer took, and
--     `forward_upload_events`; Bridge/Socket/Hub: the bridge and a browser's handler side by side, one
--     lock or send at a time.
--   Http/Listener: server.rs, `restart_server` with `bind_listener`, `commit_server` and the tasks that
--     serve; Http/Devices: `enumerate_devices`.
--   Uploader, Uploader/Loop: uploader.rs, `run` as turns, each with the answer to the post and what
--     was received; `backoff_and_drain`, `enqueue_measurement`, `emit` and the wire measurement.
--   Sync, Sync/Push: sync.rs, `SyncConfig`, `decide_push`, `apply_push`, `handle_server_frame`.
--   Sync/Report: sync.rs, `ReportState`, and the task as a step relation that edits, sessions,
--     acknowledgements, polls and the wait for a token may take in any order.
--   Sync/Poll: sync.rs, `poll_cycle` with its requests; Sync/Reconnect: the rounds of `run`.
--   Sync/Session: sync.rs, `run_session` as turns with the frames that it sends, `hello_frame`,
--     `status_body`, `port_from_bind`. Sync/Secret compares what is sent under different tokens.
--   Update, Update/Channel: update.rs, `check`, the decisions of `run`, `retry_delay` and the assets;
--     Update/Install: `install`, `download_and_verify` and `activate`; Update/Probe: `preflight` and
--     `run_probe`; Update/Digest: `hex_of` and `file_sha256`; Update/Swap: `swap`; Update/ExePath:
--     `resolve_install_path`.
--   Base: Booleans, lists, texts, results, and decimal numbers as Rust prints and parses them.
--   Samples: a concrete node for the runs in the Tests modules.
--
-- Conventions and bounds. A text is a list of code points. `f64` is a parameter (Float), with laws on
-- printing and parsing that a theorem takes as a hypothesis where it needs them; so are `f32`,
-- `Complex32` and the transform (Signal). `isize` is an integer with the wrap of 64 bits. `usize` has 64 bits.
-- `u32` and `u64` values are natural numbers whose bounds are hypotheses, and the parsers check them
-- as the source does. A `BTreeMap` is an association list, since the program never walks one. An
-- error is a constructor with the values that its message shows. Printing a number recurses on fuel
-- one above the number, which is more than its digits; the loop that takes frames out of a buffer and
-- `chunks_exact` recurse on the length of the list, which each round shortens; every other recursion
-- is structural. In the model of the analyzer and the worker an index out of range ends the run. Durations
-- are whole seconds. What the network, the clock and the file system answer is an input of the step
-- that asks; `write_atomic` replaces the file as a whole or leaves it.
--
-- Not modelled: the routes of the HTTP server and its pages, which are glue of axum, the entry point, the diagnosis tool, and the JSON encodings.
pub mod Base
pub mod Samples
pub mod Error
pub mod Timefmt
pub mod Yaml
pub mod Float
pub mod Measure
pub mod Mode
pub mod Config
pub mod Settings
pub mod View
pub mod Signal
pub mod Store
pub mod Sync
pub mod Update
pub mod Worker
pub mod Events
pub mod Http
pub mod Bridge
pub mod Uploader
pub mod App
