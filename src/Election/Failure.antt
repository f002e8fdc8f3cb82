-- ===== src/Election/Failure.antt =====
-- election/reputationBasedElection.go: one tick of CheckLeaderFailure, and one of sendHeartbeats.
-- The re-election that a tick starts is an effect here. It comes after a random pause, at whose end the code
-- reads whether an election runs: that reading, `busy`, is an argument, since other handlers run meanwhile.
-- The zero time of `lastHeartbeat` is 0.
pub mod Confirmed
use optimusdb.Base.{
  ℕ, ◌+◌, ◌-◌, ◌*◌, Bool, ◌&&◌, List, [], ◌∷◌, if◌then◌else◌, leb, ltb, ◌==◌, ◌++◌,
}
use optimusdb.Base.Float.{Float64}
use optimusdb.Election.Names.{is_default_coordinator_node}
use optimusdb.Election.RateLimit.{second}
use optimusdb.Election.Node.{
  Role, coordinator, follower, Node, Effect, Env, heal_mesh, start_election,
}
use optimusdb.Election.Roles.{promote_as_default_coordinator}
use optimusdb.Election.Messages.{has_recent_message_peers}

abbrev pub heartbeat_timeout : ℕ
heartbeat_timeout = 15 * second

abbrev pub heartbeat_retry_limit : ℕ
heartbeat_retry_limit = 3

unfoldable pub reset_misses : Node → Node
reset_misses n = record n { heartbeat_missed = 0; consecutive_heartbeat_failures = 0 }

unfoldable pub miss : Node → Node
miss n = record n {
  heartbeat_missed = n.heartbeat_missed + 1;
  consecutive_heartbeat_failures = n.consecutive_heartbeat_failures + 1;
}

unfoldable pub is_confirmed : Node → Bool
is_confirmed n =
    leb heartbeat_retry_limit n.heartbeat_missed
    && leb n.required_consecutive_failures n.consecutive_heartbeat_failures

module _ (fl : Float64) where
  open fl use {Float}

  -- What follows a confirmed failure; the two sizes are those of the mesh and of the discovery.
  unfoldable pub leader_failed : Env fl → ℕ → ℕ → Bool → Node → Node × List (Effect Float)
  leader_failed env mesh_peers discovered_peers busy n =
      let recent = has_recent_message_peers n env.now (60 * second) in
      let failed = record n {
        consecutive_election_failures = n.consecutive_election_failures + 1;
      } in
      if (mesh_peers == 0 && recent == 0) && ltb 0 discovered_peers
      then if is_default_coordinator_node n.container_name
          && leb 2 failed.consecutive_election_failures
        then promote_as_default_coordinator fl env (reset_misses failed)
        else (reset_misses failed, heal_mesh ∷ [])
      else (reset_misses n, if busy then [] else start_election ∷ [])

  unfoldable pub follower_tick : Env fl → ℕ → ℕ → Bool → Node → Node × List (Effect Float)
  follower_tick env mesh_peers discovered_peers busy n =
      if n.last_heartbeat == 0
      then (record n { last_heartbeat = env.now }, [])
      else if ltb heartbeat_timeout (env.now - n.last_heartbeat)
      then if is_confirmed (miss n)
        then leader_failed env mesh_peers discovered_peers busy (miss n)
        else (miss n, [])
      else (reset_misses n, [])

  unfoldable pub tick_as : Role → Env fl → ℕ → ℕ → Bool → Node → Node × List (Effect Float)
  tick_as coordinator env mesh_peers discovered_peers busy n =
      (record n { consecutive_heartbeat_failures = 0 }, [])
  tick_as follower env mesh_peers discovered_peers busy n =
      follower_tick env mesh_peers discovered_peers busy n

  unfoldable pub check_leader_failure : Env fl → ℕ → ℕ → Bool → Node → Node × List (Effect Float)
  unfolding tick_as
  check_leader_failure env mesh_peers discovered_peers busy n =
      tick_as n.role env mesh_peers discovered_peers busy n

  -- a run of ticks with the surroundings of each
  unfoldable pub ticks : List (Env fl × ℕ × ℕ × Bool) → Node → Node × List (Effect Float)
  ticks [] n = (n, [])
  ticks ((env, mesh, discovered, busy) ∷ rest) n =
      let (next, sent) = check_leader_failure env mesh discovered busy n in
      let (last, later) = ticks rest next in (last, sent ++ later)
