-- ===== src/Election/Divergence.antt =====
-- election/reputationBasedElection.go: isLeaderEmpty, checkTermDivergence, checkMeshHealth and the
-- check of validateStartupTerm. The sizes of the mesh and of the discovery are arguments; what is
-- only logged is left out.
pub mod Reset
use optimusdb.Base.{
  ℕ, ◌+◌, ◌*◌, Bool, true, false, not, ◌&&◌, ◌||◌, none, some, List, [], ◌∷◌, if◌then◌else◌, length,
  leb, ltb, ◌==◌, ◌++◌,
}
use optimusdb.Base.Text.{Str, codes, str_eq}
use optimusdb.Base.Int.{ℤ, pos, ltb_ℤ, times}
use optimusdb.Base.Float.{Float64}
use optimusdb.Election.RateLimit.{second}
use optimusdb.Election.Reputation.{Peers}
use optimusdb.Election.Node.{idle, Node, Effect, Env, heal_mesh, check_divergence}
use optimusdb.Election.Roles.{follow}
use optimusdb.Election.Messages.{has_recent_message_peers}

unfoldable pub is_leader_empty : Node → Bool
is_leader_empty n =
    str_eq n.leader []
    || (str_eq n.leader (codes "<peer.ID  >")
        || (str_eq n.leader (codes "<peer.ID >")
            || (str_eq n.leader (codes "<peer.ID>") || ltb (length n.leader) 10)))

-- what the sizes that the host reports say about the mesh
unfoldable pub is_cut_off : Node → ℕ → ℕ → Bool
is_cut_off n mesh_peers discovered_peers =
    ltb_ℤ (pos 15) n.current_term && (mesh_peers == 0 && ltb 0 discovered_peers)

-- `if n.currentTerm < 1 { n.currentTerm = 1 }` and the resets that follow
unfoldable pub reset_term : ℕ → ℤ → Node → Node
reset_term now cluster_term n = record (follow now n) {
  current_term = if ltb_ℤ cluster_term (pos 1) then pos 1 else cluster_term;
  election_phase = idle;
  votes = [];
  voted_nodes = [];
  leader = [];
}

-- checkMeshHealth as far as the mesh itself; the recent peers, the mesh and the discovery are sizes
unfoldable pub note_mesh : ℕ → ℕ → ℕ → Node → Node × Bool
note_mesh recent mesh_peers discovered_peers n =
    let healthy = record n { consecutive_empty_mesh_checks = 0; mesh_healthy = true } in
    let checks = n.consecutive_empty_mesh_checks + 1 in
    if ltb 0 recent
    then (healthy, false)
    else if mesh_peers == 0 && ltb 0 discovered_peers
    then (
      record n { consecutive_empty_mesh_checks = if leb 2 checks then 0 else checks },
      leb 2 checks,
    )
    else (if ltb 0 mesh_peers then healthy else n, false)

module _ (fl : Float64) where
  open fl use {Float}

  -- clusterTerm = maxLeadership * 3, with its cap
  unfoldable pub capped_term : ℤ → ℤ
  capped_term max_leadership =
      let cluster_term = times max_leadership 3 in
      if ltb_ℤ (pos 30) cluster_term then pos 30 else cluster_term

  -- the loop over the rows, on (maxLeadership, clusterTerm)
  unfoldable pub estimate_from : Str → ℤ → ℤ → Peers fl → ℤ
  estimate_from id max_leadership cluster_term [] = cluster_term
  estimate_from id max_leadership cluster_term (p ∷ peers) =
      if not (str_eq p.node_id id) && ltb_ℤ max_leadership p.leadership_count
      then estimate_from id p.leadership_count (capped_term p.leadership_count) peers
      else estimate_from id max_leadership cluster_term peers

  unfoldable pub estimated_term : Env fl → Str → ℤ
  estimated_term env id = elim env.reputations [
    | none ↦ pos 1
    | some peers ↦ estimate_from id (pos 0) (pos 1) peers
  ]

  unfoldable pub check_term_divergence : Env fl → ℕ → ℕ → Node → Node × List (Effect Float)
  check_term_divergence env mesh_peers discovered_peers n =
      if is_cut_off n mesh_peers discovered_peers && is_leader_empty n
      then (reset_term env.now (estimated_term env n.id) n, heal_mesh ∷ [])
      else (n, [])

  unfoldable pub check_mesh_health : Env fl → ℕ → ℕ → Node → Node × List (Effect Float)
  check_mesh_health env mesh_peers discovered_peers n =
      let recent = has_recent_message_peers n env.now (60 * second) in
      let (noted, heals) = note_mesh recent mesh_peers discovered_peers n in
      (
        noted,
        (if heals then heal_mesh ∷ [] else [])
            ++ (if is_cut_off noted mesh_peers discovered_peers then check_divergence ∷ [] else []),
      )

  unfoldable pub validate_startup_term : Env fl → ℕ → ℕ → Node → Node × List (Effect Float)
  validate_startup_term env mesh_peers discovered_peers n =
      if is_cut_off n mesh_peers discovered_peers
      then check_term_divergence env mesh_peers discovered_peers n
      else (n, [])
