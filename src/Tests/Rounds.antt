-- ===== src/Tests/Rounds.antt =====
-- Messages as they come, and a round of an election.
use optimusdb.Base.{ℕ, ◌+◌, ◌≡◌, ◌≢◌, ◌≤◌, refl, Option, none, some, List, [], ◌∷◌, arith, length}
use optimusdb.Base.Text.{Str, codes, contains, has_prefix, str_eq, str_lt}
use optimusdb.Base.Dict.{get, put, read_or, remove}
use optimusdb.Base.Int.{inc, eqb_ℤ, ltb_ℤ, ℤ}
use optimusdb.Election.RateLimit.{
  admit, ensure_peer, accept, lift_ban, violate, min_interval, allow_message, new_rate_limiter,
}
use optimusdb.Election.Node.{Node, new_node, Effect, Env}
use optimusdb.Election.Tally.{determine_winner, best_from, better, required_votes}
use optimusdb.Election.Voting.{
  cast, add_vote, handle_vote, join_election, should_join, is_idle, open_election, record_vote,
  ignores, is_voting, own_choice, known_peers,
}
use optimusdb.Election.Names.{is_default_coordinator_node}
use optimusdb.Election.Roles.{publish_message, publish_from}
use optimusdb.Election.Reputation.{
  select_candidate, get_preferred_coordinator_peer_id, preferred_by_broadcast, preferred_by_mapping,
  has_broadcast, preferred_by_name, find_peer, calculate_reputation, weighted_score, cpu_score,
  memory_score, disk_score, latency_score, uptime_score, leadership_score, geography_score_of,
  total_reputation, pick, node_id_at, weighted_choice,
}
use optimusdb.Election.Voting.Tallied.{IsTallied, ballots}
use optimusdb.Election.Messages.{
  has_recent_message_peers, recent_message_peers, receive, dispatch, Message, vote, handle_message,
  deliver,
}
use optimusdb.Election.Messages.Dispatch.{SameSelf, deliver-keeps}
use optimusdb.Election.Start.{
  end_round, next_term, open_round, vote_own, with_sent, and_next, vote_round,
  finalize_election_inline, candidates, Round, run_round,
}
use optimusdb.Election.Start.{Surroundings, start_election, is_truly_isolated, election_blocked}
use optimusdb.Election.Start.Freed.{start_election_frees}
use optimusdb.Election.Start.Outcome.{run_round-quorum}
use optimusdb.Tests.Fixtures.{milli, a_id, b_id, cluster, env_at, node_a, vote_of}
use optimusdb.Tests.Fixtures.{node_b}

abbrev arriving : List (Env milli × Str × Message ℕ)
arriving = (env_at 5, b_id, vote (vote_of b_id a_id)) ∷ []

abbrev final : Option (Node × List (Effect ℕ)) → Node × List (Effect ℕ)
final none = (node_a, [])
final (some r) = r

no_crash : deliver milli node_a arriving ≡ some (final (deliver milli node_a arriving))
unfolding deliver optimusdb.Election.Messages.receive handle_message allow_message get str_eq
    new_node read_or put optimusdb.Election.Messages.dispatch
no_crash = refl

deliver-keeps_example :
    (IsTallied node_a → IsTallied (final (deliver milli node_a arriving)).0)
    × SameSelf milli (final (deliver milli node_a arriving)).0 node_a
deliver-keeps_example = deliver-keeps milli node_a arriving no_crash

abbrev round : Round milli
round = record {
  discovered = b_id ∷ [];
  begins = env_at 1;
  before_opening = [];
  before_vote = (env_at 2, b_id, vote (vote_of b_id a_id)) ∷ [];
  arriving = (env_at 5, b_id, vote (vote_of b_id a_id)) ∷ [];
  ends = env_at 9;
}

abbrev election_id_of : ℤ → ℕ → List Str → Str
election_id_of term attempt peers = codes "e"

abbrev ended : Option (Node × Str × List (Effect ℕ)) → Node × Str × List (Effect ℕ)
ended none = (node_a, [], [])
ended (some r) = r

abbrev result : Node × Str × List (Effect ℕ)
result = ended (run_round milli election_id_of 0 round cluster node_a)

completes :
    run_round milli election_id_of 0 round cluster node_a ≡ some (result.0, result.1, result.2)
unfolding run_round optimusdb.Election.Start.end_round deliver optimusdb.Election.Messages.receive
    handle_message allow_message get str_eq next_term open_round vote_own with_sent and_next
    vote_round optimusdb.Election.Voting.cast new_node read_or put
    optimusdb.Election.Messages.dispatch handle_vote join_election should_join is_idle ltb_ℤ eqb_ℤ
    inc record_vote ignores is_voting open_election admit ensure_peer accept lift_ban violate
    min_interval new_rate_limiter remove optimusdb.Election.Messages.type_of
completes = refl

a_wins_round : result.1 ≡ a_id
unfolding run_round end_round next_term open_round vote_own with_sent and_next vote_round
    finalize_election_inline deliver receive handle_message dispatch allow_message admit ensure_peer
    accept lift_ban violate min_interval new_rate_limiter get put remove read_or str_eq str_lt cast
    add_vote new_node handle_vote join_election should_join is_idle open_election record_vote
    ignores is_voting own_choice known_peers inc eqb_ℤ ltb_ℤ determine_winner best_from better
    required_votes select_candidate get_preferred_coordinator_peer_id preferred_by_broadcast
    preferred_by_mapping has_broadcast preferred_by_name find_peer is_default_coordinator_node
    contains has_prefix calculate_reputation weighted_score cpu_score memory_score disk_score
    latency_score uptime_score leadership_score geography_score_of total_reputation pick node_id_at
    weighted_choice publish_message publish_from candidates optimusdb.Election.Messages.type_of
a_wins_round = refl

somebody_wins : result.1 ≢ []
somebody_wins e = let h : a_id ≡ [] = rw a_wins_round at e in ground arith

opened :
    deliver milli
      (open_round milli round (codes "e") (next_term milli round node_a))
      round.before_vote
    ≡ some (
        final (
          deliver milli
            (open_round milli round (codes "e") (next_term milli round node_a))
            round.before_vote))
unfolding deliver receive handle_message allow_message get str_eq new_node read_or put dispatch
    next_term open_round
opened = refl

waits :
    deliver milli (next_term milli round node_a) round.before_opening
    ≡ some (next_term milli round node_a, [])
unfolding deliver
waits = refl

abbrev open_node : Node
open_node =
    (final (
      deliver milli (open_round milli round (codes "e") (next_term milli round node_a))
        round.before_vote)).0

has_no_vote : get open_node.voted_nodes open_node.id ≡ none
unfolding deliver receive handle_message dispatch allow_message admit ensure_peer accept lift_ban
    violate min_interval new_rate_limiter get put remove read_or str_eq cast add_vote new_node
    handle_vote join_election should_join is_idle open_election record_vote ignores is_voting
    next_term open_round inc
has_no_vote = refl

run_round-quorum_example :
    (required_votes (length round.discovered + 1) ≤ ballots result.1 result.0.voted_nodes)
    × (required_votes (length round.discovered + 1) ≤ length result.0.voted_nodes)
run_round-quorum_example =
    run_round-quorum milli election_id_of 0 round cluster node_a (next_term milli round node_a)
      open_node []
      (final (
        deliver milli (open_round milli round (codes "e") (next_term milli round node_a))
          round.before_vote)).1
      waits opened has_no_vote completes somebody_wins

-- A node that has discovered two peers and hears none.
abbrev cut_off : Surroundings milli
cut_off = record { env = env_at 1; mesh_peers = 0; discovered_peers = 2 }

is_blocked :
    start_election milli election_id_of cut_off (λ i. round) cluster 0 node_b
    ≡ some ((election_blocked milli cut_off node_b).0, (election_blocked milli cut_off node_b).1)
unfolding start_election is_truly_isolated has_recent_message_peers recent_message_peers new_node
is_blocked = refl

start_election_frees_example :
    (election_blocked milli cut_off node_b).0.is_electing ≡ node_b.is_electing
start_election_frees_example =
    start_election_frees milli election_id_of cut_off (λ i. round) cluster 0 node_b is_blocked
