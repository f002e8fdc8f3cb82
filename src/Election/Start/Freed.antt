-- ===== src/Election/Start/Freed.antt =====
-- What an election does to the flag of a running election.
use mathlib.Core.Path.{subst}
use mathlib.Core.Option.{some-injective}
use optimusdb.Base.{
  ℕ, ◌+◌, ◌≡◌, refl, ◌∙◌, Option, none, some, List, [], arith, Bool-cases, inl, inr,
}
use optimusdb.Base.Text.{Str, str_eq}
use optimusdb.Base.Int.{ℤ, inc}
use optimusdb.Base.Float.{Float64}
use optimusdb.Election.Reputation.{Peers}
use optimusdb.Election.Node.{completed, Node, Effect, Env}
use optimusdb.Election.Start.{
  start_election, concluded, conclude, election_blocked, is_truly_isolated, Surroundings, Round,
}
use optimusdb.Election.Roles.{promote_as_default_coordinator}
use optimusdb.Election.Start.{is_default_coordinator_node}
use optimusdb.Base.{false}
use optimusdb.Base.{◌&&◌}
use optimusdb.Base.{leb}
use optimusdb.Election.Start.{run_rounds}
use optimusdb.Base.{◌-◌}
use optimusdb.Base.{true}
use mathlib.Core.Path.{sym}
use optimusdb.Election.Start.Outcome.{announce_leader-SameVoters}

module _ (fl : Float64) where
  open fl use {Float}

  promotion_keeps :
      (env : Env fl) (n : Node)
      → (promote_as_default_coordinator fl env n).0.is_electing ≡ n.is_electing
  unfolding promote_as_default_coordinator
  promotion_keeps env n =
      let promoted : Node = record n {
        current_term = inc n.current_term;
        election_phase = completed;
      } in
      let (voters, size, busy) =
        announce_leader-SameVoters fl env promoted n.id (inc n.current_term) in
      busy

  election_blocked_keeps :
      (s : Surroundings fl) (n : Node) → (election_blocked fl s n).0.is_electing ≡ n.is_electing
  unfolding election_blocked
  election_blocked_keeps s n =
      let failed : Node = record n {
        consecutive_election_failures = n.consecutive_election_failures + 1;
      } in
      elim (Bool-cases (
        is_default_coordinator_node n.container_name
        && leb 2 (n.consecutive_election_failures + 1))) [
          | inl chosen ↦ rw chosen (promotion_keeps s.env failed)
          | inr other ↦ rw other refl
        ]

  concluded_frees :
      (s : Surroundings fl) (r : Node × Str × List (Effect Float))
      → (concluded fl s r).0.is_electing ≡ false
  unfolding concluded
  concluded_frees s (n, winner, sent) = elim (Bool-cases (str_eq winner [])) [
    | inl nobody ↦ rw nobody refl
    | inr somebody ↦ rw somebody refl
  ]

  conclude_frees :
      (s : Surroundings fl) (o : Option (Node × Str × List (Effect Float))) {after : Node}
      {sent : List (Effect Float)}
      → conclude fl s o ≡ some (after, sent)
      → after.is_electing ≡ false
  unfolding conclude
  conclude_frees s none e = ground arith
  conclude_frees s (some r) {after = after} {sent = sent} e =
      subst (λ q. q.0.is_electing ≡ false) (some-injective _ _ e) (concluded_frees s r)

  module _ (election_id_of : ℤ → ℕ → List Str → Str) (s : Surroundings fl) (rounds : ℕ → Round fl)
      (peers : Peers fl) (attempt : ℕ) (n : Node) where
    start_cut :
        is_truly_isolated fl s n ≡ true
        → start_election fl election_id_of s rounds peers attempt n ≡ some (election_blocked fl s n)
    unfolding start_election
    start_cut cut = simp cut refl

    start_busy :
        is_truly_isolated fl s n ≡ false
        → n.is_electing ≡ true
        → start_election fl election_id_of s rounds peers attempt n ≡ some (n, [])
    unfolding start_election
    start_busy joined busy = simp (joined, busy) refl

    start_free :
        is_truly_isolated fl s n ≡ false
        → n.is_electing ≡ false
        → start_election fl election_id_of s rounds peers attempt n
          ≡ conclude fl s (
              run_rounds fl election_id_of
                (3 - attempt)
                attempt
                rounds
                peers
                (record n { is_electing = true }))
    unfolding start_election
    start_free joined free = simp (joined, free) refl

  -- An election that does not crash leaves the flag of a running election as it was: a node that ran
  -- none is free for the next one, whatever the rounds brought, and a node that runs one still does.
  pub start_election_frees :
      (election_id_of : ℤ → ℕ → List Str → Str) (s : Surroundings fl) (rounds : ℕ → Round fl)
      (peers : Peers fl) (attempt : ℕ) (n : Node) {after : Node} {sent : List (Effect Float)}
      → start_election fl election_id_of s rounds peers attempt n ≡ some (after, sent)
      → after.is_electing ≡ n.is_electing
  start_election_frees election_id_of s rounds peers attempt n {after = after} {sent = sent} e =
      elim (Bool-cases (is_truly_isolated fl s n)) [
        | inl cut ↦
            subst (λ r. r.0.is_electing ≡ n.is_electing)
              (some-injective _ _ (sym (start_cut election_id_of s rounds peers attempt n cut) ∙ e))
              (election_blocked_keeps s n)
        | inr joined ↦ elim (Bool-cases n.is_electing) [
          | inl busy ↦
              subst (λ r. r.0.is_electing ≡ n.is_electing)
                (some-injective _ _
                  (sym (start_busy election_id_of s rounds peers attempt n joined busy) ∙ e))
                refl
          | inr free ↦
              conclude_frees s _
                (sym (start_free election_id_of s rounds peers attempt n joined free) ∙ e)
              ∙ sym free
        ]
      ]
