-- ===== src/Election/Start.antt =====
-- election/reputationBasedElection.go: StartElection with its rounds, and finalizeElectionInline.
-- The lock is free between the new term, the opening of the election and the own vote, and while a round
-- waits for its timeout: `before_opening`, `before_vote` and `arriving` are what other handlers get then. The
-- id of an election is a hash of the sorted peer ids with the term and the attempt: it is the
-- argument `election_id_of`. Where a handler crashes the process during the wait, so does the run.
pub mod Outcome
pub mod Freed
use optimusdb.Base.{
  ℕ, zero, suc, ◌+◌, ◌-◌, ◌*◌, Bool, true, false, not, ◌&&◌, ◌||◌, Option, none, some, List, [],
  ◌∷◌, ◌++◌, if◌then◌else◌, length, leb, ltb, ◌==◌,
}
use optimusdb.Base.Text.{Str, str_eq}
use optimusdb.Base.Int.{ℤ, pos, eqb_ℤ, inc}
use optimusdb.Base.Float.{Float64}
use optimusdb.Election.Names.{is_default_coordinator_node}
use optimusdb.Election.RateLimit.{second}
use optimusdb.Election.Reputation.{NodeReputation, Peers}
use optimusdb.Election.Tally.{determine_winner}
use optimusdb.Election.Node.{
  voting, completed, Node, VoteMessage, Effect, publish_vote, publish_failed, log_election,
  heal_mesh, Env,
}
use optimusdb.Election.Voting.{cast, own_choice}
use optimusdb.Election.Roles.{
  publish_message, announce_leader, promote_as_default_coordinator, fallback_election,
}
use optimusdb.Election.Messages.{Message, deliver, has_recent_message_peers}

module _ (fl : Float64) where
  open fl use {Float, lit}

  pub record Round : Type 0 where
    pub discovered : List Str
    pub begins : Env fl
    pub before_opening : List (Env fl × Str × Message Float)
    pub before_vote : List (Env fl × Str × Message Float)
    pub arriving : List (Env fl × Str × Message Float)
    pub ends : Env fl

  -- NodeReputation{NodeID: id}
  unfoldable pub bare_reputation : Str → NodeReputation Float
  bare_reputation id = record {
    node_id = id;
    uptime = lit 0 0;
    leadership_count = pos 0;
    latency = lit 0 0;
    user_cpu = lit 0 0;
    system_cpu = lit 0 0;
    idle_cpu = lit 0 0;
    memory_available = lit 0 0;
    memory_allocation_total = lit 0 0;
    memory_system = lit 0 0;
    avg_read_mbs = lit 0 0;
    avg_write_mbs = lit 0 0;
    geography_score = lit 0 0;
    container_name = [];
  }

  -- if len(peers) == 0 { peers = … }
  unfoldable pub candidates : Peers fl → Str → Peers fl
  candidates [] id = bare_reputation id ∷ []
  candidates (p ∷ ps) id = p ∷ ps

  -- n.currentTerm++; n.peerCount = totalPeers
  unfoldable pub next_term : Round → Node → Node
  next_term round n = record n {
    current_term = inc n.current_term;
    peer_count = length round.discovered + 1;
  }

  unfoldable pub open_round : Round → Str → Node → Node
  open_round round election_id n = record n {
    current_election_id = election_id;
    election_phase = voting;
    election_deadline = round.begins.now + 10 * second;
    votes = [];
    voted_nodes = [];
  }

  -- the own vote, which is counted without a look at `votedNodes`
  unfoldable pub vote_own : Round → Peers fl → ℤ → Str → Node → Node × List (Effect Float)
  vote_own round peers term election_id n =
      let choice = own_choice fl round.begins n (candidates peers n.id) in
      let own : VoteMessage = record {
        node_id = n.id;
        vote = choice;
        election_id = election_id;
        term = term;
      } in
      (
        cast n n.id choice,
        (if publish_message round.begins.publish_ok then publish_vote own else publish_failed) ∷ [],
      )

  -- The winner, or "" for none, comes beside the state.
  unfoldable pub finalize_election_inline :
      Env fl → Node → ℤ → Str → Node × Str × List (Effect Float)
  finalize_election_inline env n term election_id =
      if not (str_eq n.current_election_id election_id) || not (eqb_ℤ n.current_term term)
      then (n, [], [])
      else (let done = record n { election_phase = completed } in
          let winner = determine_winner n.votes n.voted_nodes n.peer_count in
          let (after, sent) = announce_leader fl env done winner term in
          if str_eq winner []
          then (done, [], [])
          else (after, winner, sent ++ log_election election_id winner term n.votes ∷ []))

  unfoldable pub with_sent :
      List (Effect Float)
      → Option (Node × Str × List (Effect Float))
      → Option (Node × Str × List (Effect Float))
  with_sent sent none = none
  with_sent sent (some (n, winner, later)) = some (n, winner, sent ++ later)

  -- what follows a run of handlers, which may crash
  unfoldable pub and_next :
      Option (Node × List (Effect Float))
      → (Node → Option (Node × Str × List (Effect Float)))
      → Option (Node × Str × List (Effect Float))
  and_next none next = none
  and_next (some (n, sent)) next = with_sent sent (next n)

  unfoldable pub end_round : Round → ℤ → Str → Node → Option (Node × Str × List (Effect Float))
  end_round round term election_id n = some (finalize_election_inline round.ends n term election_id)

  unfoldable pub vote_round :
      Round → Peers fl → ℤ → Str → Node → Option (Node × Str × List (Effect Float))
  vote_round round peers term election_id n =
      let (voted, sent) = vote_own round peers term election_id n in
      with_sent sent (and_next (deliver fl voted round.arriving) (end_round round term election_id))

  -- one round of the loop, as far as its winner; `none` is a crash
  unfoldable pub run_round :
      (ℤ → ℕ → List Str → Str)
      → ℕ
      → Round
      → Peers fl
      → Node
      → Option (Node × Str × List (Effect Float))
  run_round election_id_of attempt round peers n =
      let term = inc n.current_term in
      let election_id = election_id_of term attempt (n.id ∷ round.discovered) in
      and_next (deliver fl (next_term round n) round.before_opening) (λ waited.
        and_next (deliver fl (open_round round election_id waited) round.before_vote)
          (vote_round round peers term election_id))

  -- `for currentAttempt := attempt; currentAttempt < maxAttempts; …` with `left` rounds to go
  unfoldable pub run_rounds :
      (ℤ → ℕ → List Str → Str)
      → ℕ
      → ℕ
      → (ℕ → Round)
      → Peers fl
      → Node
      → Option (Node × Str × List (Effect Float))
  run_rounds election_id_of zero attempt rounds peers n = some (n, [], [])
  run_rounds election_id_of (suc left) attempt rounds peers n =
      elim (run_round election_id_of attempt (rounds attempt) (candidates peers n.id) n) [
        | none ↦ none
        | some (after, winner, sent) ↦ elim (str_eq winner []) [
          | false ↦ some (after, winner, sent)
          | true ↦
              elim (run_rounds election_id_of left (suc attempt) rounds (candidates peers n.id)
                after) [
                  | none ↦ none
                  | some (final, chosen, later) ↦ some (final, chosen, sent ++ later)
                ]
        ]
      ]

  -- what the surroundings show when the election starts
  pub record Surroundings : Type 0 where
    pub env : Env fl
    pub mesh_peers : ℕ
    pub discovered_peers : ℕ

  unfoldable pub is_truly_isolated : Surroundings → Node → Bool
  is_truly_isolated s n =
      s.mesh_peers == 0
      && (has_recent_message_peers n s.env.now (60 * second) == 0 && ltb 0 s.discovered_peers)

  unfoldable pub election_blocked : Surroundings → Node → Node × List (Effect Float)
  election_blocked s n =
      let failed = record n {
        consecutive_election_failures = n.consecutive_election_failures + 1;
      } in
      let (promoted, sent) = promote_as_default_coordinator fl s.env failed in
      if is_default_coordinator_node n.container_name && leb 2 failed.consecutive_election_failures
      then (promoted, heal_mesh ∷ sent)
      else (failed, heal_mesh ∷ [])

  unfoldable pub election_exhausted : Surroundings → Node → Node × List (Effect Float)
  election_exhausted s n =
      let failed = record n {
        consecutive_election_failures = n.consecutive_election_failures + 1;
      } in
      if is_default_coordinator_node n.container_name && leb 2 failed.consecutive_election_failures
      then promote_as_default_coordinator fl s.env failed
      else fallback_election fl s.env failed

  unfoldable pub concluded :
      Surroundings → Node × Str × List (Effect Float) → Node × List (Effect Float)
  concluded s (n, winner, sent) =
      let (after, later) = election_exhausted s n in
      if str_eq winner []
      then (record after { is_electing = false }, sent ++ later)
      else (record n { consecutive_election_failures = 0; is_electing = false }, sent)

  unfoldable pub conclude :
      Surroundings → Option (Node × Str × List (Effect Float)) → Option (Node × List (Effect Float))
  conclude s none = none
  conclude s (some result) = some (concluded s result)

  unfoldable pub start_election :
      (ℤ → ℕ → List Str → Str)
      → Surroundings
      → (ℕ → Round)
      → Peers fl
      → ℕ
      → Node
      → Option (Node × List (Effect Float))
  start_election election_id_of s rounds peers attempt n =
      if is_truly_isolated s n
      then some (election_blocked s n)
      else if n.is_electing
      then some (n, [])
      else conclude s (
          run_rounds election_id_of (3 - attempt) attempt rounds peers
            (record n { is_electing = true }))
