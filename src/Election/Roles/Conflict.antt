-- ===== src/Election/Roles/Conflict.antt =====
-- Two coordinators that hear one another end as one, and an announcement makes at most one.
use mathlib.Core.Path.{subst}
use optimusdb.Base.{
  ℕ, ◌≡◌, ◌≢◌, ◌⊎◌, inl, inr, refl, sym, Bool, true, false, not, some, if◌then◌else◌, arith,
  Bool-cases,
}
use optimusdb.Base.Text.{Str, str_eq, str_lt, str_eq_iff, str_lt_asymm, str_lt_total}
use optimusdb.Base.Int.{ℤ, ltb_ℤ, eqb_ℤ}
use optimusdb.Base.Float.{Float64}
use optimusdb.Election.Node.{coordinator, follower, Node, HeartbeatMessage, Env}
use optimusdb.Election.Roles.{
  step_down_locked, coordinator_hears, hears, handle_heartbeat, handle_announcement, announced_node,
}

-- The heartbeat that a coordinator sends in its current term.
abbrev pub heartbeat_of : ℕ → Node → HeartbeatMessage
heartbeat_of now n = record { leader_id = n.id; time = now; term = n.current_term }

module _ (fl : Float64) where
  -- Whether a coordinator gives way to a heartbeat.
  yields : Node → HeartbeatMessage → Bool
  yields n hb =
      if str_eq hb.leader_id n.id
      then false
      else if ltb_ℤ n.current_term hb.term
      then true
      else if eqb_ℤ hb.term n.current_term
      then str_lt hb.leader_id n.id
      else false

  step_down_locked_lem :
      (env : Env fl) (n : Node) (id : Str) (term : ℤ)
      → ((step_down_locked fl env n id term).role ≡ follower)
        × ((step_down_locked fl env n id term).current_term ≡ term)
  unfolding step_down_locked
  step_down_locked_lem env n id term = ground arith

  coordinator_hears_lem :
      (env : Env fl) (n : Node) (hb : HeartbeatMessage)
      → coordinator_hears fl env n hb
        ≡ (if yields n hb then step_down_locked fl env n hb.leader_id hb.term else n)
  unfolding coordinator_hears yields
  coordinator_hears_lem env n hb = ground arith

  one_yields :
      (a b : Node) (s t : ℕ)
      → a.id ≢ b.id
      → yields a (heartbeat_of s b) ≡ not (yields b (heartbeat_of t a))
  unfolding yields
  one_yields a b s t ne = ground (
    arith,
    str_eq_iff a.id b.id,
    str_eq_iff b.id a.id,
    str_lt_asymm a.id b.id,
    str_lt_total a.id b.id,
  )

  hears_as_coordinator :
      (env : Env fl) (n : Node) (hb : HeartbeatMessage)
      → n.role ≡ coordinator
      → handle_heartbeat fl env n hb
        ≡ (if yields n hb then step_down_locked fl env n hb.leader_id hb.term else n)
  unfolding handle_heartbeat hears
  hears_as_coordinator env n hb e =
      subst
        (λ r.
          hears fl r env n hb
          ≡ (if yields n hb then step_down_locked fl env n hb.leader_id hb.term else n))
        (sym e) (unfold hears in coordinator_hears_lem env n hb)

  -- Of two coordinators with different ids that hear one another's heartbeat, each in its current
  -- term, exactly one becomes a follower, and it takes the term of the other.
  pub coordinators_resolve :
      (env_a env_b : Env fl) (a b : Node) (s t : ℕ)
      → a.role ≡ coordinator
      → b.role ≡ coordinator
      → a.id ≢ b.id
      → let a' = handle_heartbeat fl env_a a (heartbeat_of s b) in
        let b' = handle_heartbeat fl env_b b (heartbeat_of t a) in
        (a' ≡ a) × (b'.role ≡ follower) × (b'.current_term ≡ a.current_term)
        ⊎ (b' ≡ b) × (a'.role ≡ follower) × (a'.current_term ≡ b.current_term)
  coordinators_resolve env_a env_b a b s t ra rb ne =
      elim (Bool-cases (yields b (heartbeat_of t a))) [
        | inl gives ↦
            let stays : yields a (heartbeat_of s b) ≡ false = rw (one_yields a b s t ne, gives) in
            rw (hears_as_coordinator env_a a _ ra, hears_as_coordinator env_b b _ rb, stays, gives)
              (let (r, c) = step_down_locked_lem env_b b a.id a.current_term in inl (refl, r, c))
        | inr stays ↦
            let gives : yields a (heartbeat_of s b) ≡ true = rw (one_yields a b s t ne, stays) in
            rw (hears_as_coordinator env_a a _ ra, hears_as_coordinator env_b b _ rb, stays, gives)
              (let (r, c) = step_down_locked_lem env_a a b.id b.current_term in inr (refl, r, c))
      ]

  pub announced :
      (env : Env fl) (n : Node) (leader_id leader : Str) (term : ℤ)
      → env.decode leader_id ≡ some leader
      → handle_announcement fl env n leader_id term ≡ announced_node env.now n leader_id leader term
  unfolding handle_announcement
  announced env n leader_id leader term d = rw (d, handle_announcement)

  -- Two nodes with different ids that handle the same announcement, of a leader whose id decodes,
  -- follow the same leader in the same term, and at most one of them is the coordinator.
  pub handle_announcement_agrees :
      (env_a env_b : Env fl) (a b : Node) (leader_id leader : Str) (term : ℤ)
      → a.id ≢ b.id
      → env_a.decode leader_id ≡ some leader
      → env_b.decode leader_id ≡ some leader
      → let a' = handle_announcement fl env_a a leader_id term in
        let b' = handle_announcement fl env_b b leader_id term in
        (a'.leader ≡ b'.leader)
        × (a'.current_term ≡ b'.current_term)
        × ((a'.role ≡ follower) ⊎ (b'.role ≡ follower))
        × (leader_id ≡ a.id → (a'.role ≡ coordinator) × (b'.role ≡ follower))
  unfolding announced_node
  handle_announcement_agrees env_a env_b a b leader_id leader term ne da db =
      rw (announced env_a a leader_id leader term da, announced env_b b leader_id leader term db)
        (ground (arith, str_eq_iff leader_id a.id, str_eq_iff leader_id b.id))
