-- ===== src/Tests/Leaders.antt =====
-- Heartbeats, announcements and promotions.
use optimusdb.Base.{
  ℕ, Bool, ◌+◌, ◌-◌, ◌*◌, ◌≡◌, ◌≢◌, ◌≤◌, ◌<◌, ◌⊎◌, refl, true, false, [], ◌∷◌, arith,
}
use mathlib.Core.List.{Memᴰ}
use optimusdb.Election.Node.{Node, coordinator, follower, idle, new_node, start_election, heal_mesh}
use optimusdb.Base.Int.{pos, ◌≤ℤ◌, ◌<ℤ◌, max_int, ltb_ℤ}
use optimusdb.Election.RateLimit.{second}
use optimusdb.Election.Roles.{publish_from, handle_heartbeat, handle_announcement, publish_message}
use optimusdb.Election.Roles.Conflict.{
  heartbeat_of, coordinators_resolve, handle_announcement_agrees,
}
use optimusdb.Election.Roles.Terms.{handle_heartbeat-term-le}
use optimusdb.Election.Failure.{
  heartbeat_timeout, heartbeat_retry_limit, check_leader_failure, ticks, reset_misses,
}
use optimusdb.Election.Failure.Confirmed.{check_leader_failure_elects, ticks_elect}
use optimusdb.Election.Divergence.{check_term_divergence, is_leader_empty}
use optimusdb.Election.Divergence.Reset.{check_term_divergence_resets}
use optimusdb.Tests.Fixtures.{milli, a_id, b_id, env_at, node_a, node_b, leader_a, leader_b}

ids_differ : a_id ≢ b_id
ids_differ e = ground arith

coordinators_resolve_example :
    let a' = handle_heartbeat milli (env_at 5) leader_a (heartbeat_of 5 leader_b) in
    let b' = handle_heartbeat milli (env_at 6) leader_b (heartbeat_of 4 leader_a) in
    (a' ≡ leader_a) × (b'.role ≡ follower) × (b'.current_term ≡ leader_a.current_term)
    ⊎ (b' ≡ leader_b) × (a'.role ≡ follower) × (a'.current_term ≡ leader_b.current_term)
coordinators_resolve_example =
    coordinators_resolve milli (env_at 5) (env_at 6) leader_a leader_b 5 4 refl refl ids_differ

nodes_differ : node_a.id ≢ node_b.id
unfolding new_node
nodes_differ = ids_differ

handle_announcement_agrees_example :
    let a' = handle_announcement milli (env_at 5) node_a a_id (pos 4) in
    let b' = handle_announcement milli (env_at 6) node_b a_id (pos 4) in
    (a'.leader ≡ b'.leader)
    × (a'.current_term ≡ b'.current_term)
    × ((a'.role ≡ follower) ⊎ (b'.role ≡ follower))
    × (a_id ≡ node_a.id → (a'.role ≡ coordinator) × (b'.role ≡ follower))
handle_announcement_agrees_example =
    handle_announcement_agrees milli (env_at 5) (env_at 6) node_a node_b a_id a_id (pos 4)
      nodes_differ refl refl

handle_heartbeat-term-le_example :
    leader_b.current_term
    ≤ℤ (handle_heartbeat milli (env_at 5) leader_b (heartbeat_of 5 leader_a)).current_term
handle_heartbeat-term-le_example =
    handle_heartbeat-term-le milli (env_at 5) leader_b (heartbeat_of 5 leader_a)

published : publish_message (env_at 5).publish_ok ≡ true
unfolding publish_message publish_from
published = refl

below : leader_a.current_term <ℤ max_int
below = omega arith

-- A follower that heard its leader at one second.
abbrev silent : Node
silent = record node_b {
  role = follower;
  is_electing = false;
  heartbeat_missed = 0;
  consecutive_heartbeat_failures = 0;
  last_heartbeat = second;
  required_consecutive_failures = 3;
}

ticks_elect_example :
    ticks milli
      ((env_at (17 * second), 0, 2, false)
        ∷ (env_at (20 * second), 0, 2, true)
        ∷ (env_at (23 * second), 1, 2, false)
        ∷ [])
      silent
    ≡ (reset_misses silent, start_election ∷ [])
ticks_elect_example =
    ticks_elect milli (env_at (17 * second)) (env_at (20 * second)) (env_at (23 * second)) 0 0 1 2
      false true silent refl refl refl refl (omega arith) (omega arith) (omega arith) (omega arith)
      (omega arith)

-- The same follower before the tick that confirms the failure.
abbrev waiting : Node
waiting = record silent {
  role = follower;
  is_electing = false;
  heartbeat_missed = 2;
  consecutive_heartbeat_failures = 2;
}

abbrev not_busy : Bool
not_busy = false

it_elects :
    (check_leader_failure milli (env_at (23 * second)) 1 2 not_busy waiting).1 ≡ start_election ∷ []
unfolding check_leader_failure optimusdb.Election.Failure.follower_tick
    optimusdb.Election.Failure.is_confirmed optimusdb.Election.Failure.miss
    optimusdb.Election.Failure.leader_failed
it_elects = refl

it_asks :
    Memᴰ start_election (check_leader_failure milli (env_at (23 * second)) 1 2 not_busy waiting).1
it_asks = rw it_elects (Memᴰ.head refl)

check_leader_failure_elects_example :
    (waiting.role ≡ follower)
    × (not_busy ≡ false)
    × (heartbeat_timeout < (env_at (23 * second)).now - waiting.last_heartbeat)
    × (heartbeat_retry_limit ≤ waiting.heartbeat_missed + 1)
    × (waiting.required_consecutive_failures ≤ waiting.consecutive_heartbeat_failures + 1)
check_leader_failure_elects_example =
    check_leader_failure_elects milli (env_at (23 * second)) 1 2 not_busy waiting it_asks

abbrev no_mesh : ℕ
no_mesh = 0

-- A node alone in a high term.
abbrev stray : Node
stray = record node_b { current_term = pos 40; leader = [] }

check_term_divergence_resets_example :
    let (after, sent) = check_term_divergence milli (env_at 5) no_mesh 2 stray in
    (sent ≡ []) × (after ≡ stray)
    ⊎ (sent ≡ heal_mesh ∷ [])
      × (is_leader_empty stray ≡ true)
      × (ltb_ℤ (pos 15) stray.current_term ≡ true)
      × (no_mesh ≡ 0)
      × (0 < 2)
      × ((t : ℕ) × (after.current_term ≡ pos t) × (1 ≤ t) × (t ≤ 30))
      × (after.election_phase ≡ idle)
      × (after.role ≡ follower)
      × (after.leader ≡ [])
      × (after.votes ≡ [])
      × (after.voted_nodes ≡ [])
check_term_divergence_resets_example = check_term_divergence_resets milli (env_at 5) no_mesh 2 stray
