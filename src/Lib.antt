-- ===== src/Lib.antt =====
-- A model of the daemon of deconstruct (Go, daemon/internal) and proofs about it. The daemon records
-- HTTP exchanges as flows, shows them with the secrets hidden, sends a captured request again, and
-- compiles captured flows to workflows that it can run.
--
-- The parts, and the files that model them:
--   Store       The records of daemon/internal/store/store.go that the other parts exchange.
--   Queries     QueryFlows of daemon/internal/store/inspector.go: build_flow_where is buildFlowWhere,
--               select_statement and count_statement are the statements it prepares. Shape and
--               Prepared hold the proofs.
--   Redact      daemon/internal/redact/redact.go: redact_header is Header, redact_json is JSON,
--               redact_body is Body, sensitive_name is SensitiveName. Names, Headers and Values hold
--               the proofs.
--   BodyParse   daemon/internal/bodyparse/bodyparse.go: Varint is readVarint, Protobuf is
--               parseProtobuf, Sse is parseSSE, Formats the readers of GraphQL and gRPC, and Parse is
--               Parse, Decode and Tags. A panic of a slice expression is an outcome of its own.
--   Replay      daemon/internal/replay/replay.go: Engine is prepare and recordReplayFlow, Run is
--               Engine.Run and RunVariations, Headers the methods of http.Header. Attempts, Reports
--               and Sends hold the proofs on a run.
--   Workflow    daemon/internal/workflow/modeler.go: Sources and Paths are jsonPrimitiveSources and
--               jsonPathValue, Templates and AuthMaterial fill a request, Asserts checks and reads a
--               response, Run is Builder.Run, and Compiler is Suggest with the inferred bindings.
--   Blobstore   daemon/internal/blobstore/blobstore.go: put is Put and get is Get.
--   Exporter    daemon/internal/exporter/curl.go: export_curl is Curl; Shell is how a shell reads it.
--   Capture     daemon/internal/browsercapture/manager.go: handle_event is handleEvent, persist is
--               persist, capture_events the loop of capture; start, stop and status_of are Start, Stop
--               and Status. Pending and Secrets hold the proofs.
--   Fidelity    daemon/internal/fidelity/fidelity.go: diagnose is Diagnose.
--   Har         daemon/internal/harimport/harimport.go: import is Import, import_entry is importEntry.
--   Analyzer    daemon/internal/auth/analyzer.go: Artifacts finds the tokens in headers and bodies,
--               Classify is refreshEndpoint, interactiveCheckpoint and ClassifyFailure, Indexing the
--               index of artifacts, Trace is Trace.
--   SystemProxy daemon/internal/systemproxy/systemproxy.go: enable and disable are Enable and Disable,
--               Reports reads what networksetup prints, Documented says what its commands do.
--   Warming     daemon/internal/auth/warming.go: run_profile is RunProfile, profile_due is profileDue.
--   Json        The values of encoding/json.
--   Action      Functions that return a value or an error and act on the outside, for do blocks.
--   Base        Strings, slices, maps and prints of Go, and the names that all modules share.
--
-- How they interact: the runner of workflows calls the replay engine for each step (Workflow/Run calls
-- Replay.Run.run), the engine redacts what it shows with Redact, and what it reads and writes goes
-- through the record Backend of Replay/Engine: the store, the blob store, fresh identifiers, the
-- network. Services of Workflow/Asserts adds what only the runner asks for; the importer and the
-- capture of a browser store their flows through the same Backend (Archive, Browser). The state of the
-- outside is a type W, and every call passes it on. A theorem on what a run does takes the laws of the
-- outside as a record (KeepsSecrets, CountsFlows, Documented), with instances in
-- Replay/Lab and SystemProxy/Lab.
--
-- How the code is read:
--   - A string or a slice of bytes is a list of numbers (Text). Every literal of the code is ASCII, and
--     so is the case mapping: to_lower changes the letters A to Z only. Values in proofs are arbitrary.
--   - A map is a list of entries with insert as its assignment. Where Go walks a map in no fixed order
--     the model takes the order of the list.
--   - An int is 64 bits wide; a sum that can exceed it wraps in the model, too. Status codes and
--     lengths are natural numbers.
--   - A value of encoding/json is a tree whose numbers are kept as the text that fmt.Sprint prints.
--     Decoder and encoder are parameters; a theorem that needs a law of them names it.
--   - nil and empty slices, maps and strings are one value where the code does not tell them apart.
--   - Times, durations and contexts are left out where no modelled code decides on them. In Warming and
--     Analyzer, which do, an instant is a natural number.
--   - A goroutine is a run of its loop over the events that come before it is stopped.
--
-- Loops are structural recursion, but for two. The loop over the fields of a protobuf message runs on
-- fuel, one more than the length of the body: every round reads a byte at least, and the list of
-- results below says that the fuel is never used up. The print of a number runs on the number itself
-- as fuel, and a tenth of a number is smaller. The loop over the attempts of a replay counts down.
--
-- Not modelled: the adapters (network), the SQL of the store, the key vault, the proxy with its
-- certificates, the websocket client of the capture, protocol buffers by reflection, the templates of
-- exported scripts and projects, the command line, and the services that only pass requests on
-- (jsonrpc, mcp). They do I/O, call libraries, or build texts from templates.
pub mod Action
pub mod Analyzer
pub mod Base
pub mod Blobstore
pub mod BodyParse
pub mod Capture
pub mod Exporter
pub mod Fidelity
pub mod Har
pub mod Json
pub mod Queries
pub mod Redact
pub mod Replay
pub mod Store
pub mod SystemProxy
pub mod Warming
pub mod Workflow
