-- ===== src/Lib.antt =====
-- Callstorm: a load-testing harness that replays scripted callers against a voice agent.
--
-- The program, by its Go packages under internal/. `scenario` is the caller's script, a graph of
-- nodes. `worker` places one call: it walks the graph and measures each turn. `loadgen` places many
-- calls at each level of concurrency and makes the report; run distributed, it keeps a window of
-- assignments in flight over a fleet. `bus` carries assignments and results over Kafka with manual
-- commits. `judge` scores what was said, among others by the word error rate.
--
-- Prelude: Boolean tests, lists over the native numbers, signed integers, text, Go's errors.
-- Metrics/Turn: the record of a turn (metrics/metrics.go, `TurnMetric`).
-- Bus/Worker: `Next`, `Complete`, `CommitBatch` (bus/dispatch.go). What the broker answers is an
--   argument; what it holds, the published results and the committed records, is part of the state.
--   Commit and Trace hold what commits mean, and the behaviour over sequences of calls.
-- Bus/Fleet: the loop of a worker over its batches (cmd/worker/main.go), with the order in which a
--   batch's goroutines finish; Answers holds its proofs, and Bus/Worker/Jobs lemmas for it.
-- Bus/Dispatcher: `ensureTopics` and `Results` (bus/dispatch.go), with the cluster's administration as
--   an interface; Wide holds its proofs.
-- Judge/Wer: `Score` and `align` (judge/wer.go); Table and Walk hold its proofs. The walk back takes
--   the sum of both lengths as fuel, since each round lowers the sum of its indices.
-- Loadgen/Outcome, Loadgen/Dispatch: `dispatchStep` (loadgen/distributed.go) over a list of rounds,
--   each with what the fleet, the clock and the context did in it. The inner loop takes the calls
--   not yet dispatched as fuel. Pigeonhole, Window and Account hold its proofs.
-- Scenario: the data and queries of scenario/scenario.go, and `validate`; Checked has what it gives.
-- Worker/Walk: the walk of `Run` (worker/worker.go) over the graph, with the turn limit as fuel.
--   Total and Order hold its proofs.
-- Worker/Turn: the event loop of `runTurn` (worker/turn.go) over the sequence of what its `select`
--   receives, and the durations it measures; Instants holds its proofs.
-- Loadgen/Profile: `validate` of a load profile (loadgen/profile.go); Checked has what it gives.
-- Audio/Onset: the detector of the first sound in a reply (audio/onset.go), with its proof.
-- Audio/Recorder: `Add` (audio/recorder.go); Mixed holds its proof.
-- Judge/Agreement: `Agree` (judge/agreement.go), with its proof.
-- Judge/Correlate: `Correlate` (judge/correlate.go); Split holds its proof.
-- Impair: the network conditions (impair/impair.go), with the answers of `tc` as an argument;
--   Cohorts has what a matrix is and what applying a profile proves.
-- Metrics/Percentile, Metrics/Mirror: `Percentile` at the percents in use, and `Finalize` and
--   `Rehydrate` (metrics/metrics.go), with their proofs.
-- Loadgen/Budget: the slots of `runStep` (loadgen/run.go) as interleaved ticks; Spending holds its
--   proofs.
-- Loadgen/Summary, Conversation, Waits, Timeline, Phase, Nodes: the parts of a step's report
--   (loadgen/report.go, conversation.go, callshape.go, timeline.go, phase.go, nodes.go). Bands,
--   Recovery, Nodes/Visited and Nodes/Counts hold proofs.
-- Loadgen/StepReport: `buildStepReportAt` (loadgen/report.go); its child Counts has what its counts
--   mean. Loadgen/Score: `scoreAgainst` and `Breakpoint`; Verdicts holds their proofs.
-- Loadgen/Quality: `qualityOf` and `QualityBreakpoint` (loadgen/quality.go); Reasons holds the proofs.
-- Loadgen/Tasks: the tallies of the judge's verdicts and `waitOutcome` (loadgen/tasks.go); Groups
--   holds the proofs. Loadgen/Tasks/Join: the rest of `SummarizeJudgements`; Ranks holds its proofs.
-- Worker/Rtt: the log of round trips and its median (worker/rtt.go), with its proof.
-- Worker/Pump: the audio pump (worker/pump.go) over rounds; Frames holds its proofs.
-- Loadgen/Distributed: `RunDistributed` (loadgen/distributed.go), which composes the dispatch, the
--   report of each step and the scoring; Whole holds its proofs.
-- Worker/Reader: `readLoop` (worker/worker.go) over the reads of the socket; Playout holds its proofs.
-- Worker/Handshake: `connect` (worker/worker.go) and the settings (worker/protocol.go); Reads
--   and Shaken hold the proofs.
-- Worker/Speech: the sentences of a line (worker/speech.go); Kept holds its proofs.
-- Metrics/Log: the event log of a call (metrics/metrics.go), with its proof.
-- Config/DotEnv: environment files (config/dotenv.go); Written holds the round trip.
-- Insights/Verify: the numbers of a text against the data (insights/verify.go); Insights/Generate:
--   what `Generate` keeps (insights/insights.go). Held and Kept hold the proofs. The scan of a text
--   takes its length as fuel, since each round uses up a character.
-- Judge/Grade: `Score` (judge/judge.go) over what the model replied; Once holds its proofs.
-- Judge/Retry: the loop of `Complete` (judge/groq.go), with its proof. It takes fuel, and six requests
--   are as many as it makes.
-- Loadgen/Run: `Run` (loadgen/run.go). Loadgen/Matrix: `RunMatrix` (loadgen/matrix.go), which runs the
--   profile under each network condition; Compared holds its proofs.
-- Insights/Digest: `callStats` (insights/digest.go); Alone holds its proofs.
-- Tests: runs on concrete input.
--
-- Durations are nanoseconds in ℤ. Go's library (Unicode, substring search, duration parsing) and the
-- texts that fmt builds are parameters; rounded floats are integers of the unit that they keep, with
-- the quotient rounded exactly; formatted errors are constructors with their values. Files,
-- JSON, sockets, the Kafka client and printing are not modelled.
--
-- Not modelled: cmd/callstorm (flags, files and printing around these parts), cmd/dashboard and
-- internal/chart (HTTP and drawing), cmd/collector and internal/telemetry (Kafka and Prometheus
-- clients), internal/tts and the models of insights (web services), and cmd/refagent and
-- cmd/fakekafka, which stand in for an agent and a broker in local runs.
pub mod Prelude
pub mod Metrics
pub mod Audio
pub mod Config
pub mod Bus
pub mod Impair
pub mod Insights
pub mod Judge
pub mod Loadgen
pub mod Scenario
pub mod Worker
mod Tests
