-- ===== src/Tests/Fixtures.antt =====
-- A small cluster: three nodes, a float64 in thousandths, and a store that refuses document 7.
use optimusdb.Base.{
  ℕ, ◌+◌, ◌-◌, ◌*◌, ◌/◌, ◌^◌, ◌==◌, Bool, true, none, some, List, [], ◌∷◌, ◌++◌, ltb, leb,
  if◌then◌else◌,
}
use optimusdb.Base.Text.{Str, codes}
use optimusdb.Base.Int.{pos, pos_part}
use optimusdb.Base.Float.{Float64}
use optimusdb.Election.Reputation.{NodeReputation, Peers}
use optimusdb.Election.Node.{Node, VoteMessage, Env, coordinator, new_node}
use optimusdb.Store.Batch.{DocumentStore, Settings}
use optimusdb.Base.{false}
use optimusdb.Base.{◌||◌}

abbrev pub milli : Float64
milli = record {
  Float = ℕ;
  lt = ltb;
  le = leb;
  add = λ a b. a + b;
  sub = λ a b. a - b;
  mul = λ a b. a * b / 1000;
  div = λ a b. a * 1000 / b;
  log10 = λ a. a;
  of_int = λ n. pos_part n * 1000;
  lit = λ n k. n * 1000 / 10 ^ k;
}

abbrev pub a_id : Str
a_id = codes "a"

abbrev pub b_id : Str
b_id = codes "b"

abbrev pub c_id : Str
c_id = codes "c"

abbrev pub peer : Str → Str → NodeReputation ℕ
peer id name = record {
  node_id = id;
  uptime = 100000;
  leadership_count = pos 1;
  latency = 10000;
  user_cpu = 10000;
  system_cpu = 10000;
  idle_cpu = 80000;
  memory_available = 50000;
  memory_allocation_total = 10000;
  memory_system = 100000;
  avg_read_mbs = 5000;
  avg_write_mbs = 5000;
  geography_score = 1000;
  container_name = name;
}

abbrev pub cluster : Peers milli
cluster =
    peer a_id (codes "optimusdb1")
    ∷ peer b_id (codes "optimusdb2")
    ∷ peer c_id (codes "optimusdb3")
    ∷ []

abbrev pub env_at : ℕ → Env milli
env_at now = record {
  now = now;
  reputations = some cluster;
  rand_index = 0;
  rand_float = 0;
  publish_ok = λ i. true;
  decode = λ id. some id;
}

abbrev pub node_a : Node
node_a = new_node a_id (codes "optimusdb1")

abbrev pub node_b : Node
node_b = new_node b_id (codes "optimusdb2")

abbrev pub leader_a : Node
leader_a = record (new_node a_id (codes "optimusdb1")) {
  id = a_id;
  role = coordinator;
  current_term = pos 3;
}

abbrev pub leader_b : Node
leader_b = record (new_node b_id (codes "optimusdb2")) {
  id = b_id;
  role = coordinator;
  current_term = pos 3;
}

abbrev pub vote_of : Str → Str → VoteMessage
vote_of id choice = record { node_id = id; vote = choice; election_id = codes "e"; term = pos 1 }

-- The state is the log, and document 7 cannot be written, alone or with others.
abbrev pub has_seven : List ℕ → Bool
has_seven [] = false
has_seven (d ∷ docs) = d == 7 || has_seven docs

abbrev pub store : DocumentStore ℕ (List ℕ) Str
store = record {
  put = λ log d. if d == 7 then (log, some (codes "bad")) else (log ++ d ∷ [], none);
  put_all = λ log docs. if has_seven docs then (log, some (codes "bad")) else (log ++ docs, none);
}

abbrev pub settings : Settings
settings = record {
  batch_put_enabled = true;
  group_commit_enabled = true;
  group_commit_max_docs = 2;
  batch_max_docs = 2;
  batch_max_bytes = 100;
}
