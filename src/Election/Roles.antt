-- ===== src/Election/Roles.antt =====
-- election/reputationBasedElection.go: heartbeats, announcements and how a node takes or leaves the
-- role of the coordinator. `env.decode` stands for peer.Decode followed by String; `env.publish_ok i`
-- says whether attempt i to publish succeeds (encoding the payload as JSON does not fail).
pub mod Conflict
pub mod Terms
use optimusdb.Base.{
  ℕ, zero, suc, ◌+◌, Bool, true, false, none, some, List, [], ◌∷◌, ◌++◌, if◌then◌else◌,
}
use optimusdb.Base.Text.{Str, codes, str_eq, str_lt}
use optimusdb.Base.Int.{ℤ, ltb_ℤ, eqb_ℤ, inc}
use optimusdb.Base.Float.{Float64}
use optimusdb.Election.Reputation.{Peers, calculate_reputation}
use optimusdb.Election.Node.{
  Role, coordinator, follower, completed, Node, HeartbeatMessage, Effect, publish_announcement,
  publish_failed, start_heartbeats, log_election, Env,
}

-- the loop of publishMessage from attempt `i`, with `left` attempts to go
unfoldable pub publish_from : ℕ → ℕ → (ℕ → Bool) → Bool
publish_from i zero publish_ok = false
publish_from i (suc left) publish_ok =
    let rest = publish_from (suc i) left publish_ok in if publish_ok i then true else rest

unfoldable pub publish_message : (ℕ → Bool) → Bool
unfolding publish_from
publish_message publish_ok = publish_from 0 3 publish_ok

unfoldable pub follow : ℕ → Node → Node
follow now n = record n {
  role = follower;
  last_heartbeat = now;
  heartbeat_missed = 0;
  consecutive_heartbeat_failures = 0;
}

-- handleAnnouncement with the decoded id
unfoldable pub announced_node : ℕ → Node → Str → Str → ℤ → Node
unfolding follow
announced_node now n leader_id leader term =
    if str_eq leader_id n.id
    then record n {
      role = coordinator;
      leader = leader;
      leadership_count = n.leadership_count + 1;
      current_term = term;
    }
    else record (follow now n) { leader = leader; current_term = term }

module _ (fl : Float64) where
  open fl use {Float, lit, sub, lt}

  -- the leader, where its id decodes
  unfoldable pub with_leader : Env fl → Str → Node → Node
  with_leader env leader_id n = elim (env.decode leader_id) [
    | none ↦ n
    | some leader ↦ record n { leader = leader }
  ]

  unfoldable pub step_down_locked : Env fl → Node → Str → ℤ → Node
  unfolding follow with_leader
  step_down_locked env n new_leader_id term =
      with_leader env new_leader_id (record (follow env.now n) { current_term = term })

  unfoldable pub coordinator_hears : Env fl → Node → HeartbeatMessage → Node
  coordinator_hears env n hb =
      if str_eq hb.leader_id n.id
      then n
      else if ltb_ℤ n.current_term hb.term
      then step_down_locked env n hb.leader_id hb.term
      else if eqb_ℤ hb.term n.current_term
      then (if str_lt hb.leader_id n.id then step_down_locked env n hb.leader_id hb.term else n)
      else n

  unfoldable pub follower_hears : Env fl → Node → HeartbeatMessage → Node
  unfolding follow
  follower_hears env n hb =
      let heard = follow env.now n in
      elim (env.decode hb.leader_id) [
        | none ↦ heard
        | some leader ↦ record heard {
          leader = leader;
          current_term = if ltb_ℤ n.current_term hb.term then hb.term else n.current_term;
        }
      ]

  unfoldable pub hears : Role → Env fl → Node → HeartbeatMessage → Node
  hears coordinator env n hb = coordinator_hears env n hb
  hears follower env n hb = follower_hears env n hb

  unfoldable pub handle_heartbeat : Env fl → Node → HeartbeatMessage → Node
  unfolding hears coordinator_hears follower_hears
  handle_heartbeat env n hb = hears n.role env n hb

  unfoldable pub handle_announcement : Env fl → Node → Str → ℤ → Node
  handle_announcement env n leader_id term = elim (env.decode leader_id) [
    | none ↦ n
    | some leader ↦ announced_node env.now n leader_id leader term
  ]

  unfoldable pub announce_leader : Env fl → Node → Str → ℤ → Node × List (Effect Float)
  announce_leader env n leader_id term =
      if publish_message env.publish_ok
      then (
        handle_announcement env n leader_id term,
        publish_announcement leader_id term
            ∷ (if str_eq leader_id n.id then start_heartbeats term ∷ [] else []),
      )
      else (n, publish_failed ∷ [])

  -- The id of the log's row is the text default-coordinator-<container>-term<n>; its container part
  -- is kept and the term stands in the row beside it.
  unfoldable pub promote_as_default_coordinator : Env fl → Node → Node × List (Effect Float)
  promote_as_default_coordinator env n =
      let term = inc n.current_term in
      let promoted = record n { current_term = term; election_phase = completed } in
      let (after, sent) = announce_leader env promoted n.id term in
      (
        after,
        sent
            ++ log_election (codes "default-coordinator-" ++ n.container_name) n.id term
                ((n.id, 1) ∷ [])
              ∷ [],
      )

  -- the loop for the best score, on (best.NodeID, maxScore)
  unfoldable pub best_reputation : Str × Float → Peers fl → Str × Float
  best_reputation best [] = best
  best_reputation (best, max_score) (p ∷ ps) =
      let score = calculate_reputation fl p in
      best_reputation (if lt max_score score then (p.node_id, score) else (best, max_score)) ps

  unfoldable pub fallback_election : Env fl → Node → Node × List (Effect Float)
  fallback_election env n = elim env.reputations [
    | none ↦ announce_leader env n n.id (inc n.current_term)
    | some peers ↦ elim peers [
      | [] ↦ announce_leader env n n.id (inc n.current_term)
      | p ∷ ps ↦
          announce_leader env n (best_reputation ([], sub (lit 0 0) (lit 10 1)) (p ∷ ps)).0
            (inc n.current_term)
    ]
  ]
