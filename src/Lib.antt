-- ===== src/Lib.antt =====
-- A dynamic warm-up system for service instances (DWSS), modelled from its Go sources.
--
-- The parts. A loaded service embeds the warmkit engine (warmkit/), which registers the instance in
-- ZooKeeper, counts the mirrored requests that it serves and reports itself ready. The coordinator
-- (cmd/warmup-coordinator/) runs a session for each warm-up: it raises the ratio of mirrored traffic
-- in the mirror configuration, holds it until the instance is ready or a deadline is past, and promotes
-- the instance when it is told to. The proxy (cmd/mirror-proxy/) reads that configuration, sends each
-- request to the active instance, and copies of some to the one that warms up. The bench
-- (benchmark/) measures all this: it reads a manifest from the environment, runs scenarios and
-- reports on them.
--
-- The files.
-- Base: the routes of net/http, lists, integers of 64 bits with their wrap-around, text,
--   dictionaries, results, float64 as a record of operations, and the exchange sort that two of the
--   sources spell out.
-- Warmkit/Types, Fsm, Metrics: warmkit/types.go and warmkit/fsm.go.
-- Warmkit/Registry, ZkRegistry: warmkit/registry.go, over the client interface of Zk; Zk/Tree is a
--   service on which the hypotheses about ZooKeeper hold.
-- Warmkit/Engine: warmkit/engine.go. Each method is a function from state to state; the goroutine of
--   runMirrorWatch is the calls that its select loop makes, and Engine/Calls runs any sequence of
--   calls, one after the other, where the handler behind the middleware returns or panics.
--   Engine/Race cuts a method in two where another goroutine can come between.
-- Workload, Mmapstore: LoadedService/internal/workload/engine.go and mmapstore/store.go.
--   Mmapstore/Reads has the reads of the mapped bytes.
-- Httpserver: LoadedService/internal/httpserver/server.go, the routes and handlers over a workload
--   and an engine, inside the engine's middleware; Httpserver/Warming puts the three together.
-- LoadedService: LoadedService/cmd/server/main.go, from the settings to what is attached to
--   ZooKeeper, and the order of its deferred calls.
-- Pprofserver: internal/pprofserver/pprofserver.go.
-- Coordinator: cmd/warmup-coordinator/main.go, its settings and routes in Coordinator/Main. The
--   handlers are functions on the sessions and ZooKeeper; Coordinator/Ramp is the goroutine runRamp
--   as a program counter with one step per access to shared state.
-- Proxy: cmd/mirror-proxy/main.go, its settings in Proxy/Main; Proxy/Watch interleaves the rounds
--   of its two watch loops, and Proxy/Copies hands a copy on to the loaded service.
-- System: the processes together. One event is one atomic step of an engine, the coordinator, a ramp,
--   the proxy or a copy that arrives or fails, all on one state of ZooKeeper; the handler of a
--   request may panic, and the reverse proxy may answer 502 or break off. Sound has what holds
--   between the steps, Steps and Events that each step keeps it. Warmkit/ZkRegistry/Frames and
--   Coordinator/Frames say which nodes a write of warmkit/registry.go leaves as they are.
-- Envcfg, Settings, Manifest: internal/envcfg/envcfg.go, LoadedService/internal/config/config.go,
--   benchmark/internal/profile/manifest.go.
-- Loadgen, Experiment, Stats, Report, Bench: benchmark/internal/loadgen/profile.go and blocks.go,
--   benchmark/internal/experiment/, benchmark/internal/stats/stats.go,
--   benchmark/internal/report/report.go, benchmark/cmd/bench/main.go.
-- Examples: concrete inputs for the theorems.
--
-- Panics. A handler whose answer is none has panicked, and net/http drops the connection: the answers
-- of the mux, of Record behind it and of the middleware are so. State that was changed stays.
--
-- Bounds and fuel. An int is a whole number with the wrap-around of 64 bits written out where the
-- source adds or multiplies; the deadline of a ramp is a sum of a time, without a bound, as
-- time.Time has a wider range; the numbers of runs of the collection loops are natural numbers, below
-- 2^62 in the source. The collection loops run for the number of attempts that the source
-- computes; the blocks of BlockMedians get the length of the list as fuel, which is enough since a
-- block takes at least one element; the ramp takes a number of steps as fuel, of which two
-- for each ratio, two for each reading of the clock before its deadline and six more are enough;
-- the loops of the mmap store over pages get the length in bytes, which is enough since a page takes
-- at least one.
--
-- Parameters. float64, strconv, math/rand, the system calls and mmap-go, the JSON encodings,
-- ZooKeeper, url.Parse, http.NewRequest, the outcome of the reverse proxy, what net/http delivers of
-- a copy, sort.Slice, the clock and what a measurement returns are arguments; what a theorem
-- needs of them is a hypothesis.
--
-- Not modelled: the end of a ZooKeeper session, which removes the node of an instance, the
-- interleaving inside one handler of the coordinator or one method of an engine beyond Engine/Race,
-- the listening, signals and shutdown of the HTTP servers, the logs, the network clients
-- of the bench with its main function, and the estimates of progress.
pub mod Base
pub mod Zk
pub mod Warmkit
pub mod Coordinator
pub mod Proxy
pub mod Experiment
pub mod Loadgen
pub mod Envcfg
pub mod Manifest
pub mod Settings
pub mod Bench
pub mod Report
pub mod Stats
pub mod System
pub mod Examples
pub mod Workload
pub mod Httpserver
pub mod Pprofserver
pub mod LoadedService
pub mod Mmapstore
