-- ===== src/Lib.antt =====
-- Verification library of paperminer, a program that asks plugins for facts about the documents of a
-- Paperless server and writes those facts back to the server.
--
-- The parts and how they interact. The program (internal/core) validates its workflows, opens a
-- temporary store and serves. The cataloger workflow (internal/cataloger) is polled (internal/poller):
-- it walks over all documents with the todo tag (walk.go), loads for each the record of earlier
-- attempts (task.go, internal/store), and runs an updater (updater.go) on it, which downloads the
-- document's variants (internal/document), has plugins extract facts (internal/facter, pkg/sketchfacts),
-- resolves the names in the facts (internal/objectresolver), and patches the document
-- (patchbuilder.go), or marks it as failed. A second workflow prunes old records.
--
-- Which file models what; functions keep the names of the source, in snake case, and each file says at
-- its top which code it is about:
--   Base, Io, Errors, Slices: what the parts share. Code that calls out of the program takes the state
--     of what it calls and returns a result beside the state after the calls (Io). Errors are values
--     that errors.Is and errors.As look into.
--   Paperless: the data of the client library. An ID pointer has an address, since pointers are
--     compared.
--   Facts: facts.go.
--   Resolver: internal/objectresolver, with Resolver.Flight (calls at the same time), Resolver.Memory
--     (memprovider.go), Resolver.Memory.All (the in-memory resolvers of all.go),
--     Resolver.Permissions (all.go, permissions.go) and Resolver.Providers (the six providers, and the setup in all.go).
--   Patch: internal/cataloger/patchbuilder.go. Patch.Values says what a patch does to a document.
--   Facter: internal/facter. Documents: internal/document and internal/fsutil.
--   Sketch: pkg/sketchfacts. Invoice: example/myminer/invoice. Updater: internal/cataloger/updater.go.
--   Store: internal/store; Store.Key has a reader for the keys, which is no code of the program.
--   Task: internal/cataloger/task.go. Walk: internal/cataloger/walk.go, with Walk.Pool (the walk
--     beside its goroutines).
--   Poller: internal/poller, with Poller.Channel (the loop beside notifications).
--   Workflow: internal/cataloger/workflow.go, with Workflow.Walks (a walk with its handler).
--   Httpsrv: internal/httpsrv, as a step relation.
--   Core: internal/core, with Core.Serve (the group of goroutines as a step relation over Httpsrv),
--     Core.Environment (workflowenv.go) and Core.Mux (the notification route).
--   Core.Pollers: the group with workflows that run the loop of the poller, over Core.Serve and
--     Poller.Channel.
--   Core.Setup: NewProgram (used by Command) and the environment of the workflows that it makes.
--   Flags: internal/kpflagvalue, with Flags.Registration (the flags of all parts).
--   Logging: internal/core/logging.go. Command: pkg/paperminercmd, the process from start to end.
--   Paths: the functions of path/filepath that are used. Factertest: pkg/factertest.
--   Tests: concrete inputs.
--
-- Parameters stand for the code that the repository only calls: the Paperless client, the database
-- (bolthold), the file system, the clock, singleflight, errgroup, the pool and the stream of conc, golang.org/x/exp,
-- dossier and the JSON comparison. What is documented of them is a named hypothesis of the theorems
-- that need it, and Tests has an instance of each.
--
-- Bounds. IDs and counts are natural numbers; times and durations are integers of nanoseconds, which
-- wrap at 64 bits in the product of a retry delay only. The power 1.5^n is exact, as float64 has it
-- for n up to 33. The jitter of a delay is computed exactly, where float64 rounds. The walk recurses on
-- fuel, one for each listing: one more than the number of IDs is enough.
--
-- Not modelled: log lines, metrics, the parsing of the command line but for list values, cancellation
-- inside a call, helpers that only the repository's tests use, the JSON text of facts, and numbers and
-- names that are formatted into error messages. What strconv.ParseFloat and %.2f do
-- with a text that the sketch of the example plugin cannot match is a parameter of that plugin. In
-- process_documents the documents are handled after the listings; Workflow.Walks has every order.
pub mod Base
pub mod Slices
pub mod Errors
pub mod Io
pub mod Paperless
pub mod Facts
pub mod Httpsrv
pub mod Resolver
pub mod Patch
pub mod Paths
pub mod Facter
pub mod Factertest
pub mod Documents
pub mod Sketch
pub mod Invoice
pub mod Updater
pub mod Store
pub mod Task
pub mod Poller
pub mod Walk
pub mod Workflow
pub mod Core
pub mod Logging
pub mod Command
pub mod Flags
pub mod Tests
