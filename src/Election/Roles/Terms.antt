-- ===== src/Election/Roles/Terms.antt =====
-- How the handlers move the term of a node.
use optimusdb.Base.{◌+◌, ◌≡◌, refl, true, some, [], ◌∷◌, ◌++◌, arith}
use optimusdb.Base.Text.{Str, codes, str_eq_refl}
use optimusdb.Base.Int.{inc, ◌≤ℤ◌, ◌<ℤ◌, max_int, lt-inc}
use optimusdb.Base.Float.{Float64}
use optimusdb.Election.Node.{
  Role, coordinator, follower, completed, Node, HeartbeatMessage, Env, publish_announcement,
  start_heartbeats, log_election,
}
use optimusdb.Election.Roles.Conflict.{announced}
use optimusdb.Election.Roles.{
  announced_node, step_down_locked, coordinator_hears, follower_hears, hears, handle_heartbeat,
  publish_message, announce_leader, promote_as_default_coordinator,
}

module _ (fl : Float64) where
  hears-term-le :
      (r : Role) (env : Env fl) (n : Node) (hb : HeartbeatMessage)
      → n.current_term ≤ℤ (hears fl r env n hb).current_term
  unfolding hears coordinator_hears follower_hears step_down_locked
  hears-term-le coordinator env n hb = ground arith
  hears-term-le follower env n hb = ground arith

  -- No heartbeat lowers the term of a node.
  pub handle_heartbeat-term-le :
      (env : Env fl) (n : Node) (hb : HeartbeatMessage)
      → n.current_term ≤ℤ (handle_heartbeat fl env n hb).current_term
  unfolding handle_heartbeat
  handle_heartbeat-term-le env n hb = hears-term-le n.role env n hb

  -- The node that promotes itself is the coordinator of the next term, with its leadership counted
  -- once more, if the announcement is published, its own id decodes and the term is not the largest.
  pub promote_as_default_coordinator_lem :
      (env : Env fl) (n : Node) (leader : Str)
      → publish_message env.publish_ok ≡ true
      → env.decode n.id ≡ some leader
      → n.current_term <ℤ max_int
      → let (after, sent) = promote_as_default_coordinator fl env n in
        (after.role ≡ coordinator)
        × (after.leader ≡ leader)
        × (n.current_term <ℤ after.current_term)
        × (after.election_phase ≡ completed)
        × (after.leadership_count ≡ n.leadership_count + 1)
        × (sent
            ≡ publish_announcement n.id after.current_term
              ∷ start_heartbeats after.current_term
              ∷ log_election
                  (codes "default-coordinator-" ++ n.container_name)
                  n.id
                  after.current_term
                  ((n.id, 1) ∷ [])
              ∷ [])
  unfolding promote_as_default_coordinator announce_leader announced_node
  promote_as_default_coordinator_lem env n leader published decoded room =
      rw
        (
          published,
          announced fl env
              (record n { current_term = inc n.current_term; election_phase = completed }) n.id
              leader (inc n.current_term) decoded,
          str_eq_refl n.id,
        )
        (refl, refl, (lt-inc n.current_term room).0, refl, refl, refl)
