-- ===== src/Lib.antt =====
-- Conflux FL, a server for federated learning: what its core does, and theorems on it.
--
-- A server runs one experiment. Clients register, fetch the round's task, train, and submit their
-- weights in chunks; the server collects the updates in a buffer until a quorum is there or time
-- is up, puts the batch in order, drops what may not enter, aggregates, saves a checkpoint and
-- starts over. The files follow the crates:
--
-- Base: the shared helpers. Lists over the native numbers, strings and byte strings as lists of
--   bytes (Base/Strings), Rust's `Result` with `?` as bind (Base/Fallible), hash maps as association
--   lists (Base/Dict), the stable sort (Base/Sort), positions (Base/Positions), Boolean tests
--   (Base/Tests), bits (Base/Bits).
-- Float: f32 and f64 as bit patterns. Classification and comparison are written out; the
--   arithmetic of the hardware is the parameter `Arithmetic`, `Arithmetic64`.
-- Proto: crates/conflux-proto, the messages, and in Proto/Codec encode_weights and decode_weights.
-- Buffer: crates/conflux-buffer, RoundBuffer. Buffer/Schedule is await_flush as a task whose steps
--   interleave with pushes, wake-ups, the timer and the clock; Buffer/Closing and Buffer/Wakeup hold
--   the proofs.
-- Registry: crates/conflux-registry, InMemoryRegistry; Registry/Lifecycle on sequences of its
--   calls; Registry/Allowlist is src/node_allowlist.rs of that crate.
-- Config: what the server reads of crates/conflux-config. Config/Preconditions is its
--   src/preconditions.rs, beside byzantine_count of crates/conflux-core/src/robust.rs, and
--   Config/Defaults the builtin topologies and modes of src/types.rs. Config/Resolve is
--   resolve_with_profiles of src/lib.rs: Resolve/Layer the order of the tiers,
--   Resolve/Participation, Resolve/Methods and Resolve/Privacy the parameters one by one,
--   Resolve/Whole the whole, and Resolve/Parameter and Resolve/Precedence what they have in common.
--   Config/Environment is src/env.rs, Config/Validate the check of src/validate.rs, with proofs in
--   Environment/Reading, Validate/Numeric and Validate/Admissible. Config/Profile is src/profile.rs:
--   the loader of both axes over the interface Config/Axis, which Axis/Topologies and Axis/Modes
--   fill; Profile/Chain, Profile/Nearest and Profile/Loaded are its proofs, Profile/Named its two
--   instances by name, and Profile/Credited follows a loaded profile into the resolved
--   configuration.
-- Core: crates/conflux-core, the errors, and in Core/Batch decode_and_validate of src/weights.rs.
--   Core/Averaging is src/averaging.rs. Of src/robust.rs, Core/Extrema holds the comparisons of f32
--   values, Core/Robust the filters (Krum, Multi-Krum, FABA, Bulyan, Divide-and-Conquer) and
--   FilteredAggregator, and Core/Coordinate the statistics by coordinate (trimmed mean, median,
--   median of means). A panic is a result of its own there, `panics`, beside the errors of
--   AggregatorError; what IEEE 754 says of the hardware's operations is the parameter `Ieee` of the
--   theorems. Core/Optimizer is FedOpt and FedAvgM of src/optimization.rs, with the state behind the
--   mutex made explicit; of src/trusted.rs, Core/Zeno is ZenoAggregator and Core/FlTrust
--   FlTrustAggregator, with proofs in Zeno/Scores, Zeno/Ranking and FlTrust/Influence.
-- Store: crates/conflux-store, StoreError and InMemoryStore.
-- Net: crates/conflux-net, the errors and their statuses; Net/Service is submit_delta of
--   src/service.rs over the stream of chunks; Net/Jwt is src/jwt.rs.
-- Reputation: crates/conflux-reputation, CosineScorer and filter_by_threshold.
-- Privacy: crates/conflux-privacy; Privacy/Rdp is epsilon_from_rounds and what it calls,
--   Privacy/Accountant is RdpAccountant.
-- Server: crates/conflux-server. Server/State is AppState of src/app_state.rs and the Environment
--   of backends and strategies it is given. Server/Dispatcher is src/dispatcher.rs, with proofs in
--   Dispatcher/Chunks and Dispatcher/Registration; Server/Auth is src/auth_enforcement.rs,
--   Server/AdminAuth src/admin_auth.rs. Server/Admission and Server/Round are src/round.rs:
--   open_round is run_round up to await_flush, close_round is the rest; Admission/Origin,
--   Admission/Intact, Round/Opening, Round/Order and Round/Progress hold their proofs.
--   Round/Interleaved is what clients call while a round waits, Round/Whole the two halves with
--   those calls between them; Round/Validated leads from the check of the configuration at startup
--   to the opening of a round. Server/Loop is the task in src/serve.rs that calls run_round;
--   Server/Health, Server/History, Server/Verdict and Server/Error are src/round_health.rs,
--   src/round_history.rs, src/round_verdict.rs and src/error.rs.
-- Tests: a small deployment, and each theorem at a concrete input.
--
-- State is passed explicitly: an operation takes a state and gives the new one with its result, a
-- `Result` where the code returns one. A method that holds a mutex from start to end is one step;
-- `push` gives it back before it notifies, and the steps of other tasks can come between. A Rust
-- map is an association list with one entry per key. Time is a number that the caller gives.
-- Integers wrap where the code's own arithmetic can: the failure counter at 2 ^ 32, the received
-- bytes saturate at 2 ^ 64 - 1, the round counter wraps at 2 ^ 64, the quorum is cut to 32 bits
-- for the check of the requirement. The loops are structural recursion, but for two on fuel: the
-- printing of a number is given one more than the number itself and needs a step per digit, and
-- the chain of profile files is given one more than the directory has files. The loop of
-- await_flush is a transition system, and that it ends is a theorem.
--
-- Not modelled: network, database and file I/O (a backend is an operation of Environment, which
-- may fail), log lines and the wording of errors that `thiserror` generates, the cryptography of
-- jsonwebtoken, random sampling and noise (operations of Environment), the other aggregation
-- methods (the server takes its method as `aggregate` of Environment), the experiment file and the
-- log lines of the configuration, the node process and the experiments in crates/conflux-attacks
-- and crates/conflux-baselines.
pub mod Base
pub mod Float
pub mod Proto
pub mod Buffer
pub mod Registry
pub mod Config
pub mod Core
pub mod Store
pub mod Net
pub mod Reputation
pub mod Privacy
pub mod Server
pub mod Tests
