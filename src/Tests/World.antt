-- ===== src/Tests/World.antt =====
-- A deployment with the in-memory backends of crates/conflux-store and crates/conflux-registry, an
-- aggregator that answers with the first update, and integer arithmetic in place of the hardware's.
use conflux_fl.Base.{
  ℕ, ◌+◌, ◌-◌, ◌*◌, ◌/◌, true, false, none, some, List, [], ◌∷◌, Result, ok, err, take, Text, text,
  ltb, ◌==◌, min, max,
}
use conflux_fl.Float.{F32, Arithmetic, Arithmetic64}
use conflux_fl.Proto.{ClientDelta}
use conflux_fl.Config.{ResolvedConfig, research, jwt, global, halt, changes}
use conflux_fl.Core.{AggregatorError, empty_batch}
use conflux_fl.Core.Batch.{decode_and_validate}
use conflux_fl.Net.Jwt.{Jsonwebtoken}
use conflux_fl.Registry.{Registry}
use conflux_fl.Registry
use conflux_fl.Registry.Allowlist
use conflux_fl.Server.State.{Environment, AppState}
use conflux_fl.Store.{InMemoryStore}
use conflux_fl.Store

abbrev pub total : List ℕ → ℕ
total [] = 0
total (x ∷ xs) = x + total xs

abbrev pub integers : Arithmetic
integers = record {
  add = λ a b. a + b;
  sub = λ a b. a - b;
  mul = λ a b. a * b;
  div = λ a b. a / b;
  sqrt = λ a. a;
  sum = total;
  of_nat = λ n. n;
  floor_nat = λ a. a;
}

abbrev pub integers64 : Arithmetic64
integers64 = record {
  add = λ a b. a + b;
  sub = λ a b. a - b;
  mul = λ a b. a * b;
  div = λ a b. a / b;
  sum = total;
  ln = λ a. a;
  exp = λ a. a;
  sqrt = λ a. a;
  fract = λ a. 0;
  minimum = min;
  maximum = max;
  less = ltb;
  equal = λ a b. a == b;
  finite = λ a. true;
  of_f32 = λ a. a;
  of_nat = λ n. n;
  to_nat = λ a. a;
  to_f32 = λ a. a;
}

-- A token is its own subject.
abbrev pub plain_tokens : Jsonwebtoken
plain_tokens = record {
  Key = Text;
  algorithm = λ key. text "ES256";
  decode = λ key token. ok (record { sub = token });
  presented_algorithm = λ token. text "ES256";
}

abbrev pub first_update :
    Result AggregatorError (List (List F32)) → Result AggregatorError (List F32)
first_update (ok []) = err empty_batch
first_update (ok (w ∷ ws)) = ok w
first_update (err e) = err e

abbrev pub world : Environment
world = record {
  Store = InMemoryStore;
  load_latest_weights = Store.load_latest_weights;
  save_checkpoint = Store.save_checkpoint;
  Registry = Registry;
  register = λ id r. Registry.register id 0 r;
  heartbeat = λ id r. Registry.heartbeat id 0 r;
  active_clients = Registry.active_clients;
  NodeAllowlist = Allowlist.NodeAllowlist;
  check = Allowlist.check;
  RoundLog = Unit {0};
  append_round = λ noise rate log. (log, ok tt);
  append_round_for_client = λ id noise rate log. (log, ok tt);
  Aggregator = Unit {0};
  aggregate = λ batch a. (a, first_update (decode_and_validate batch));
  control_variate = λ a. none;
  requires_trusted_reference = λ a. false;
  requires_candidate_scores = λ a. false;
  set_trusted_reference = λ global reference a. a;
  set_candidate_scores = λ global scores a. a;
  select = λ candidates n round. take n candidates;
  transform = λ round n w. w;
  Sidecar = Unit {0};
  reference_update = λ round bytes sidecar. err [];
  score_updates = λ round bytes batch sidecar. err [];
  jsonwebtoken = plain_tokens;
  arithmetic = integers;
  arithmetic64 = integers64;
  iteration = λ tallies. tallies;
  store_error_text = λ e. [];
  registry_error_text = λ e. [];
  node_auth_error_text = λ e. [];
  jwt_error_text = λ e. [];
  buffer_error_text = λ e. [];
}

abbrev pub config : ResolvedConfig
config = record {
  mode = research;
  auth = jwt;
  require_node_auth = false;
  quorum = some 2;
  round_timeout_secs = 60;
  aggregator = text "fedavg";
  robust_byzantine_fraction = 0;
  accounting_scope = global;
  budget_exhausted_action = halt;
  target_epsilon = 1000;
  delta = 1;
  noise_multiplier = 1;
  reputation_filter_enabled = false;
  min_reputation_score = 0;
  round_log_detail = changes;
}

abbrev pub ann : Text
ann = text "ann"

abbrev pub jo : Text
jo = text "jo"

abbrev pub idle : AppState world
idle = record {
  config = config;
  registry = [];
  round_verdict = record { last = none };
  round_history = record { records = []; capacity = 4 };
  store = record { round = 0; weights = 1 ∷ 2 ∷ [] };
  node_allowlist = [];
  aggregator = tt;
  trusted_reference = none;
  accountant = record { rounds = []; client_rounds = [] };
  accountant_log = none;
  round = 1;
  current_buffer = none;
  pushed = [];
  jwt_key = none;
}

-- One weight, of the bit pattern `w`.
abbrev pub update : Text → ℕ → ClientDelta
update id w = record {
  client_id = id;
  round = 1;
  weights = w ∷ 0 ∷ 0 ∷ 0 ∷ [];
  num_samples = 5;
  local_steps = none;
  local_loss = none;
  control_variate = none;
}
