-- ===== src/Election/Heartbeats.antt =====
-- election/reputationBasedElection.go: one tick of sendHeartbeats. Each of its three attempts is a
-- publishMessage with three attempts of its own: attempt `i` of the outer loop takes the attempts
-- 3 i, 3 i + 1 and 3 i + 2 of the surroundings. The Boolean says whether the loop goes on.
pub mod Sent
use optimusdb.Base.{ℕ, zero, suc, ◌*◌, ◌/◌, Bool, true, false, List, [], ◌∷◌, if◌then◌else◌}
use optimusdb.Base.Int.{ℤ}
use optimusdb.Base.Float.{Float64}
use optimusdb.Election.RateLimit.{second}
use optimusdb.Election.Node.{
  Role, coordinator, follower, Node, HeartbeatMessage, Effect, publish_heartbeat, heal_mesh, Env,
}
use optimusdb.Election.Roles.{publish_from}

-- the loop over the attempts from `i`, with `left` to go
unfoldable pub heartbeat_from : ℕ → ℕ → (ℕ → Bool) → Bool
heartbeat_from i zero publish_ok = false
heartbeat_from i (suc left) publish_ok =
    let rest = heartbeat_from (suc i) left publish_ok in
    if publish_from (i * 3) 3 publish_ok then true else rest

module _ (fl : Float64) where
  open fl use {Float}

  unfoldable pub beat : Env fl → Node → ℤ → List (Effect Float)
  beat env n term =
      let hb : HeartbeatMessage = record {
        leader_id = n.id;
        time = env.now / second;
        term = term;
      } in
      if heartbeat_from 0 3 env.publish_ok then publish_heartbeat hb ∷ [] else heal_mesh ∷ []

  unfoldable pub send_heartbeats_as : Role → Env fl → Node → ℤ → Bool × List (Effect Float)
  send_heartbeats_as coordinator env n term = (true, beat env n term)
  send_heartbeats_as follower env n term = (false, [])

  unfoldable pub send_heartbeats : Env fl → Node → ℤ → Bool × List (Effect Float)
  unfolding send_heartbeats_as
  send_heartbeats env n term = send_heartbeats_as n.role env n term
