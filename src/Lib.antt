-- ===== src/Lib.antt =====
-- FlightdeckOS: the deterministic core of the flight deck runtime, and what is proved of it.
--
-- The program reads snapshots from a simulator adapter, infers the flight phase, takes cockpit
-- actions through a pipeline of validation, dispatch and verification, drives flows of standard
-- operating procedures (SOP) with them, and writes every event to a numbered trace.
--
-- - Core: crates/fd-core. Core/Telemetry (the snapshot), Core/Events, Core/Delta (`diff`),
--   Core/Actions (the closed catalogue), Core/Adapter (the trait `SimulatorAdapter`, a record of
--   functions over the adapter's own state), Core/Phase (the `FlightPhaseEngine`), Core/Geo (the
--   great-circle formulas) and Core/Capability (the `CapabilityReport`).
-- - Aircraft: crates/fd-aircraft, the fields (`state_field.rs`) and the conditions over them with
--   their evaluation in three values (`condition.rs`); Aircraft/Condition/Raw validates them.
-- - Sop: crates/fd-sop/src. Sop/Package resolves flows (`package.rs`, `resolve_flow`), with the
--   search for dependency cycles in Sop/Package/Cycles; Sop/Engine (`engine.rs`) has the state of a
--   `FlowEngine` and the report of outcomes, Sop/Engine/Process the pass `process`.
-- - Runtime: crates/fd-runtime/src. Runtime/Executor (`executor.rs`, with `advance` in
--   Runtime/Executor/Advance), Runtime/Session, Runtime/Ingest, Runtime/PhaseTracker, Runtime/Trace
--   (the events and the trait `TraceSink`), Runtime/Replay (the scripted adapter) and Runtime/Loop
--   (`runtime.rs`: `start`, `start_flow`, `submit_action`, `tick`, `finish`).
-- - Mission: crates/fd-mission/src. Mission/Route (`route.rs`), Mission/Monitor and Mission/OffRoute
--   (`monitor.rs`: `RouteMonitor` and `OffRouteDetector`), Mission/Controller (`controller.rs`),
--   Mission/Intents (`intents.rs`) and Mission/Shadow (`shadow.rs`: the recorder `MissionShadow`, its
--   report and summary, and the observability counters).
-- - Fdm: crates/fd-fdm/src. Fdm/Session (`session.rs`), Fdm/Fdr (the samples of `fdr.rs`) and
--   Fdm/Analyzer (`fdm.rs`).
-- - Virtual: crates/fd-virtual/src. Virtual/Systems (`systems.rs`), Virtual/Kinematics
--   (`kinematics.rs`), Virtual/Faults (`faults.rs`) and Virtual/Adapter (`adapter.rs`, with the clock
--   of `lib.rs`): the simulator with its injected faults.
-- - Xplane: crates/fd-xplane/src. Xplane/Protocol (`protocol.rs`, packets as lists of bytes),
--   Xplane/Client (`client.rs`: the value board, and the receive loop as a function of what arrives),
--   Xplane/Guard (`guard.rs`), Xplane/Refs (`refs.rs`), and `adapter.rs` in Xplane/Adapter (the
--   snapshot with its quality marks), Xplane/Adapter/Health and Xplane/Adapter/Control (the guarded
--   writes, over the socket and the Web API client as an interface that changes a world).
-- - Simconnect: crates/fd-simconnect/src, as compiled on Windows. Simconnect/Parse (`parse.rs`),
--   Simconnect/Mapping (`mapping.rs`), Simconnect/Bindings (`bindings.rs`), Simconnect/Client
--   (`client.rs`, `write.rs`) and Simconnect/Adapter (`adapter.rs`).
-- - Base: lists over native numbers, options, results, strings, and the records `Float` and `Trig`.
-- - Examples: the theorems at concrete inputs.
--
-- How the parts interact: `tick` polls the adapter and takes each snapshot through ingestion, the
-- phase tracker, the executor's `advance` and the flow's `report_outcomes` and `process`; the flow's
-- requests are submitted to the executor, and the events are numbered and appended at the end. The
-- outcomes that the executor has completed reach the flow in the next tick.
--
-- A mission's controller and its intents read the same tick; its route monitor feeds the off-route
-- detector, and shadow mode replays the controller's decision beside the autopilot's settings. The
-- recorder's samples feed the exceedance analysis. The SimConnect adapter fills the interface of
-- Core/Adapter once its polls are proved to return; it takes the decoder's records, and the entry
-- points of SimConnect.dll are parameters over a world that they change.
--
-- Conventions. A method that changes `self` returns the changed record. An outer `Option` is a
-- panic: `none` stands for an `expect`, an `unreachable!`, an index out of bounds, a failed assertion
-- or a checked addition that overflows, or for a read through a pointer outside its slice, or a loop that its fuel would cut short. Three loops have
-- fuel, and for each a theorem says that it is enough. `advance` makes at most three passes for each
-- pending record and one more, since each pass with progress takes a record a stage further. A route
-- monitor's `update` makes at most a pass for each waypoint and one more. The search for cycles makes
-- at most an iteration for each dependency of each step, one for each step, and one more.
-- `f64` is a parameter: a type with the operations that the code uses. Texts that the code only
-- prints (the evidence of a phase, the reason of a failed step, the names on a cycle) are their
-- templates with the values printed into them. Numbers are unsigned and bounded where the code checks
-- or wraps.
--
-- Bytes are numbers; an `i32`, `u32`, `f32` or `f64` in a packet is its bit pattern.
--
-- Not modelled: the JSONL files of the trace and of fixtures, TOML loading, sockets and threads, the
-- loading of SimConnect.dll, X-Plane's web API, bridge and packet rate, the mission's runways, the quality
-- reports of a flight, the streamed recordings, the crew assistant, navigation data, debriefs,
-- scenarios and the command line.
pub mod Base
pub mod Core
pub mod Runtime
pub mod Aircraft
pub mod Sop
pub mod Mission
pub mod Fdm
pub mod Virtual
pub mod Xplane
pub mod Simconnect
pub mod Examples
