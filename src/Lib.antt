-- ===== src/Lib.antt =====
-- A model of xnode-agent, the program that runs on a proxy node beside an Xray core. In each round
-- (`Agent.sync` of internal/agent/agent.go) it collects traffic, asks the panel for the desired state
-- of the node, restricts that state by its own policy, writes the limits for the core's data path,
-- brings the running core to the state, and reports sessions and health.
--
-- The parts, in the order of a round:
--   * Agent.Sync is the round as one function over the other parts, from the state of the agent
--     (`Agent.Round.Agent`) and the answers of the panel, the core and the disk (`Agent.Round.Round`) to the
--     new state and the list of its actions. Its stages follow the early returns of `sync`;
--     `Agent.Report` has how a round ends: sendHeartbeat and reportSessions.
--   * Traffic: `Traffic.Spool` is the directory of undelivered batches of internal/traffic/spool.go
--     (Enqueue, List, Delete, PendingUsage), `Traffic.Deliver` are retryTraffic and collectTraffic of
--     internal/agent/agent.go. A directory is a map from names to entries; a failing system call is an
--     argument. What the panel answers is the record `World`.
--   * Session: `Session.Tracker` is the tracker of internal/session/tracker.go (Add, Records, Counts),
--     `Session.AccessLine` ParseAccessLine with what it uses of Go's strings and net packages
--     (`Session.Address`), and `Session.LogFile` ConsumeFile with its place in the log. `Agent.Snapshot` is
--     sessionSnapshot and `Agent.Sessions` mergeSessionReports of internal/agent/agent.go.
--   * Agent.Mode: validateMode, the traffic threshold and the drain in sync, and setNodeMetadata.
--   * Policy, of internal/policy/evaluator.go: `Policy.Check` is the first loop of Evaluate over the
--     users of an inbound, `Policy.Device` the loops for the device limit, `Policy.Evaluate` the whole;
--     `Policy.Drain` is ApplyDrain, `Policy.Usage` are PendingUsage and MergeUsage.
--   * Limits: `Limits.PolicyFile` is internal/limits/policyfile.go, the file that the patched core reads,
--     and `Limits.Backend` the external limiter's interface of internal/limits/limits.go, which
--     `Agent.External` (applyExternalLimits) calls.
--   * Xray: `Xray.Email` has the accounting names of internal/xray/builder.go, and `Xray.Config` its builder
--     (BuildConfig, buildInbound in `Inbound`, statsLevels in `Levels`, buildRouting in `Routing`), which
--     makes a JSON document. `Xray.Plan` is the hot-reload plan of internal/xray/runtime.go with the
--     comparisons in `Xray.Plan.Equal`, and `Xray.Plan.Apply` ApplyRuntime over the interface `Core` of the
--     running core, whose laws say what the API documents of adding and removing inbounds and users. How the
--     core reads an inbound's document is in `Xray.Config.Document`. `Xray.Plan.Users` and `Xray.Plan.Hot`
--     follow the operations for the users of one inbound, `Xray.Plan.Step` those for one inbound, and
--     `Xray.Plan.Loops` and `Xray.Plan.Whole` the plan; `Xray.TableCore` is a core that behaves so.
--     `Xray.Manager` is the manager of the core's process of internal/xray/process.go, over the stored
--     configuration, its backup and the process; `Xray.Manager.Wait` is the loop of stopLocked on a clock,
--     `Xray.Manager.Reach` all sequences of operations. `Xray.Stats` are the parsers of the core's answers
--     of internal/xray/stats.go and online.go, `Xray.Command` the command lines of the core with their
--     temporary files, over a shell as a parameter, and `Xray.Version` Version of internal/xray/process.go.
--   * Agent.Reload: the part of sync that carries the plan out, as the sequence of calls of the core's
--     manager, with what they return as an argument; `Agent.Bring` carries the same part out on
--     `Xray.Manager`.
-- Around the round, `Agent.Run` is Run of internal/agent/agent.go: the first round and one for each tick,
-- until the agent is cancelled or the admin server ends, with New and preparePaths before; `Admin` are the
-- handlers of internal/admin/server.go, which read the last heartbeat. `Panel` is the client of
-- internal/panel/client.go and `Limits.Service` HTTPBackend of internal/limits/limits.go, both over `Web`, the
-- net/http that they use; `Panel.Delivery` joins the client to the delivery of traffic.
-- Outside the round, `Settings` is Load of internal/config/config.go, `Health` and `Health.Rates` are the
-- parsers of /proc and the sampler of internal/health/health.go, and `Files` is the atomic replacement of a
-- file by atomicWrite (internal/xray/process.go) and persistState (internal/agent/agent.go).
-- `Model` has the records of internal/model/model.go and Go's values for JSON, `Prelude` what all modules
-- share, `Samples` and the modules whose names end in Tests a small node on which the definitions run.
--
-- Numbers: Go's `int` and `int64` are the integers `ℤ` over the native numbers, `uint64` a natural number
-- with its wrap-around written out, a rate the fraction that its float64 stands for. Sums of traffic wrap
-- around (`add64`); the other sums of the modelled code are of a Unix time and five minutes, of a time
-- and a window, and of counts of list elements, and are taken to fit, as are the nanoseconds of a window.
-- Strings are lists of bytes; ToLower changes ASCII letters. A Go map is an association list without repeated
-- keys. A JSON number is one that int64 and float64 hold exactly.
--
-- Fuel: stopLocked polls every 100 ms for 5 s, and 51 rounds are enough on a clock that advances with the
-- sleeps. The other loops on fuel have a unit for each byte of the text that they shorten (TrimSpace,
-- Fields, the runes of the version line), or for each of the eight groups of an IPv6 address. All other
-- recursion is on a list.
--
-- Not modelled: JSON decoding and encoding (what json.Unmarshal makes of a text and json.Marshal of a value
-- is a parameter, and a file is what is decoded from it), the time zone of the node (what
-- time.ParseInLocation makes of a time is a parameter), url.Parse, url.PathEscape and strconv.ParseFloat
-- (parameters), and the programs outside: what the core, the panel and the limiter answer is an argument of
-- a round, a shell or a web. A round is one step, so that a cancellation or a request of the admin server
-- falls between two; mutexes and contexts have no counterpart, and the period of the ticker is not followed.
-- The overlay under patches/ is for the sources of the core, which the repository does not hold.
pub mod Prelude
pub mod Model
pub mod Samples
pub mod Admin
pub mod Agent
pub mod Files
pub mod Health
pub mod Limits
pub mod Panel
pub mod Policy
pub mod Session
pub mod Settings
pub mod Traffic
pub mod Web
pub mod Xray
