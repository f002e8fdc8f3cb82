-- ===== src/Election/Node.antt =====
-- election/reputationBasedElection.go: the state of a node, the messages, and what a handler asks
-- of its surroundings. The host, the topic, the mutexes and the context are left out: a handler is
-- one step under its lock, and what it sends, logs or starts is a list of effects. A peer.ID is
-- kept as the text that its String() gives, "" for none. Of the fields of Node those are left out
-- that no function reads (votedForInTerm, announcedLeaderForElection, lastElection).
use optimusdb.Base.{ℕ, Bool, false, Option, []}
use optimusdb.Base.Text.{Str}
use optimusdb.Base.Dict.{Dict}
use optimusdb.Base.Int.{ℤ, pos}
use optimusdb.Base.Float.{Float64}
use optimusdb.Election.RateLimit.{RateLimiter, new_rate_limiter}
use optimusdb.Election.Reputation.{NodeReputation, Peers}

-- the strings "idle", "voting", "completed" and "Coordinator", "Follower" of the code
pub data Phase : Type 0 where
  idle voting completed : Phase

pub data Role : Type 0 where
  coordinator follower : Role

pub record VoteMessage : Type 0 where
  pub node_id : Str
  pub vote : Str
  pub election_id : Str
  pub term : ℤ

pub record HeartbeatMessage : Type 0 where
  pub leader_id : Str
  pub time : ℕ
  pub term : ℤ

pub record Node : Type 0 where
  pub id : Str
  pub leader : Str
  pub role : Role
  pub leadership_count : ℕ
  pub last_heartbeat : ℕ
  pub heartbeat_missed : ℕ
  pub votes : Dict ℕ
  pub voted_nodes : Dict Str
  pub current_election_id : Str
  pub current_term : ℤ
  pub election_phase : Phase
  pub election_deadline : ℕ
  pub peer_count : ℕ
  pub is_electing : Bool
  pub rate_limiter : RateLimiter
  pub consecutive_heartbeat_failures : ℕ
  pub required_consecutive_failures : ℕ
  pub mesh_healthy : Bool
  pub last_mesh_healing_attempt : ℕ
  pub consecutive_empty_mesh_checks : ℕ
  pub container_name : Str
  pub consecutive_election_failures : ℕ
  pub last_message_from_peer : Dict ℕ
  pub peer_container_names : Dict Str

unfoldable pub new_node : Str → Str → Node
unfolding new_rate_limiter
new_node id container_name = record {
  id = id;
  leader = [];
  role = follower;
  leadership_count = 0;
  last_heartbeat = 0;
  heartbeat_missed = 0;
  votes = [];
  voted_nodes = [];
  current_election_id = [];
  current_term = pos 0;
  election_phase = idle;
  election_deadline = 0;
  peer_count = 0;
  is_electing = false;
  rate_limiter = new_rate_limiter;
  consecutive_heartbeat_failures = 0;
  required_consecutive_failures = 3;
  mesh_healthy = false;
  last_mesh_healing_attempt = 0;
  consecutive_empty_mesh_checks = 0;
  container_name = container_name;
  consecutive_election_failures = 0;
  last_message_from_peer = [];
  peer_container_names = [];
}

-- what the code sends, writes to the reputation database, or starts with `go`
pub data Effect (Float : Type 0) : Type 0 where
  publish_vote : VoteMessage → Effect Float
  publish_announcement : Str → ℤ → Effect Float
  publish_heartbeat : HeartbeatMessage → Effect Float
  publish_failed : Effect Float
  start_heartbeats : ℤ → Effect Float
  log_election : Str → Str → ℤ → Dict ℕ → Effect Float
  upsert_reputation : NodeReputation Float → Effect Float
  heal_mesh : Effect Float
  start_election : Effect Float
  check_divergence : Effect Float

-- What a handler reads of its surroundings: the clock, the rows of the reputation table (`none` if
-- the query fails), the random numbers, and whether each attempt to publish succeeds.
module _ (fl : Float64) where
  open fl use {Float}

  pub record Env : Type 0 where
    pub now : ℕ
    pub reputations : Option (Peers fl)
    pub rand_index : ℕ
    pub rand_float : Float
    pub publish_ok : ℕ → Bool
    pub decode : Str → Option Str
