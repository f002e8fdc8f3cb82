-- ===== src/Election/Divergence/Reset.antt =====
-- What a forced reset of the term leaves.
use optimusdb.Election.Reputation.{Peers}
use optimusdb.Election.Node.{follower, idle, Node, Env, heal_mesh}
use optimusdb.Election.Roles.{follow}
use optimusdb.Election.Divergence.{
  capped_term, estimate_from, estimated_term, check_term_divergence, is_cut_off, is_leader_empty,
  reset_term,
}
use optimusdb.Base.Text.{Str, str_eq}
use optimusdb.Base.Int.{ℤ, pos, negsuc, ◌≤ℤ◌, ltb_ℤ, times}
use optimusdb.Base.{
  ℕ, zero, suc, not, ◌≤◌, ◌<◌, ◌⊎◌, [], ◌∷◌, inl, inr, refl, Bool-cases, Option-cases, ◌&&◌, ◌≡◌,
  arith, true,
}
use optimusdb.Base.Float.{Float64}

module _ (fl : Float64) where
  open fl use {Float}

  capped_term_le : (most : ℤ) → capped_term fl most ≤ℤ pos 30
  unfolding capped_term
  capped_term_le most = elim (Bool-cases (ltb_ℤ (pos 30) (times most 3))) [
    | inl over ↦ rw over (omega arith)
    | inr under ↦ rw under (ground arith)
  ]

  pub estimate_from_le :
      (id : Str) (most term : ℤ) (peers : Peers fl)
      → term ≤ℤ pos 30
      → estimate_from fl id most term peers ≤ℤ pos 30
  unfolding estimate_from
  estimate_from_le id most term [] h = h
  estimate_from_le id most term (p ∷ peers) h =
      elim (Bool-cases (not (str_eq p.node_id id) && ltb_ℤ most p.leadership_count)) [
        | inl more ↦ rw more (
            estimate_from_le id p.leadership_count (capped_term fl p.leadership_count) peers
              (capped_term_le p.leadership_count))
        | inr same ↦ rw same (estimate_from_le id most term peers h)
      ]

  estimated_term_le : (env : Env fl) (id : Str) → estimated_term fl env id ≤ℤ pos 30
  estimated_term_le env id = elim (Option-cases env.reputations) [
    | inl e ↦ unfold estimated_term in rw e (omega arith)
    | inr (peers, e) ↦
        unfold estimated_term in rw e (estimate_from_le id (pos 0) (pos 1) peers (omega arith))
  ]

  reset_term_at :
      (now : ℕ) (t : ℤ) (n : Node)
      → t ≤ℤ pos 30
      → (u : ℕ) × ((reset_term now t n).current_term ≡ pos u) × (1 ≤ u) × (u ≤ 30)
  unfolding reset_term
  reset_term_at now (pos zero) n h = (1, refl, omega arith, omega arith)
  reset_term_at now (pos (suc t)) n h = (suc t, ground arith, omega arith, ground arith)
  reset_term_at now (negsuc t) n h = (1, ground arith, omega arith, omega arith)

  -- A reset leaves a follower without a leader and without votes, idle, in a term from 1 to 30, and
  -- asks for the mesh to be healed. It comes only to a node that knows no leader, in a term above
  -- 15, with peers discovered and none in the mesh; any other node is left as it is.
  pub check_term_divergence_resets :
      (env : Env fl) (mesh_peers discovered_peers : ℕ) (n : Node)
      → let (after, sent) = check_term_divergence fl env mesh_peers discovered_peers n in
        ((sent ≡ []) × (after ≡ n))
        ⊎ ((sent ≡ heal_mesh ∷ [])
            × (is_leader_empty n ≡ true)
            × (ltb_ℤ (pos 15) n.current_term ≡ true)
            × (mesh_peers ≡ 0)
            × (0 < discovered_peers)
            × ((t : ℕ) × (after.current_term ≡ pos t) × (1 ≤ t) × (t ≤ 30))
            × (after.election_phase ≡ idle)
            × (after.role ≡ follower)
            × (after.leader ≡ [])
            × (after.votes ≡ [])
            × (after.voted_nodes ≡ []))
  check_term_divergence_resets env mesh_peers discovered_peers n =
      elim (Bool-cases (is_cut_off n mesh_peers discovered_peers && is_leader_empty n)) [
        | inl cut ↦
            unfold check_term_divergence in
            rw cut (
              inr (
                refl,
                ground arith,
                unfold is_cut_off in ground arith,
                unfold is_cut_off in ground arith,
                unfold is_cut_off in ground arith,
                reset_term_at env.now (estimated_term fl env n.id) n (estimated_term_le env n.id),
                unfold reset_term in refl,
                unfold reset_term follow in refl,
                unfold reset_term in refl,
                unfold reset_term in refl,
                unfold reset_term in refl,
              ))
        | inr fine ↦ unfold check_term_divergence in rw fine (inl (refl, refl))
      ]
