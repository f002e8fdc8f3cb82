-- ===== src/Election/Voting.antt =====
-- election/reputationBasedElection.go: handleVote. Between joining an election and recording the
-- vote that came the lock is released to publish the own vote; the two halves are functions of
-- their own, so what is proved of each holds whatever runs between them.
pub mod Tallied
use optimusdb.Base.{
  ℕ, ◌+◌, ◌*◌, Bool, true, false, not, ◌&&◌, ◌||◌, Option, none, some, List, [], ◌∷◌, if◌then◌else◌,
}
use optimusdb.Base.Text.{Str, str_eq}
use optimusdb.Base.Dict.{Dict, get, put, read_or}
use optimusdb.Base.Int.{pos, ltb_ℤ, eqb_ℤ}
use optimusdb.Base.Float.{Float64}
use optimusdb.Election.RateLimit.{second}
use optimusdb.Election.Reputation.{NodeReputation, Peers, select_candidate}
use optimusdb.Election.Node.{Phase, idle, voting, Node, VoteMessage, Effect, publish_vote, Env}

unfoldable pub is_idle : Phase → Bool
is_idle idle = true
is_idle _ = false

unfoldable pub is_voting : Phase → Bool
is_voting voting = true
is_voting _ = false

-- votes[c]++
unfoldable pub add_vote : Dict ℕ → Str → Dict ℕ
add_vote votes c = put votes c (read_or votes c 0 + 1)

-- votedNodes[node] = c; votes[c]++
unfoldable pub cast : Node → Str → Str → Node
unfolding add_vote
cast n node c = record n { voted_nodes = put n.voted_nodes node c; votes = add_vote n.votes c }

unfoldable pub should_join : Node → VoteMessage → Bool
unfolding is_idle
should_join n vote =
    is_idle n.election_phase
    || (ltb_ℤ n.current_term vote.term
        || eqb_ℤ vote.term n.current_term && not (str_eq vote.election_id n.current_election_id))

unfoldable pub open_election : Node → ℕ → VoteMessage → Node
open_election n now vote = record n {
  election_phase = voting;
  current_election_id = vote.election_id;
  current_term = vote.term;
  election_deadline = now + 10 * second;
  votes = [];
  voted_nodes = [];
}

-- the vote is for another election than the one that is open here
unfoldable pub ignores : Node → VoteMessage → Bool
unfolding is_voting
ignores n vote =
    not (is_voting n.election_phase)
    || (not (str_eq vote.election_id n.current_election_id) || not (eqb_ℤ vote.term n.current_term))

unfoldable pub record_vote : Node → VoteMessage → Node
record_vote n vote =
    if ignores n vote
    then n
    else elim (get n.voted_nodes vote.node_id) [ none ↦ cast n vote.node_id vote.vote | some _ ↦ n ]

module _ (fl : Float64) where
  open fl use {Float, lit, of_int}

  -- the NodeReputation literal with an id, uptime 1 and geography score 0.5, all else zero
  unfoldable pub self_reputation : Str → NodeReputation Float
  self_reputation id = record {
    node_id = id;
    uptime = lit 10 1;
    leadership_count = pos 0;
    latency = lit 0 0;
    user_cpu = lit 0 0;
    system_cpu = lit 0 0;
    idle_cpu = lit 0 0;
    memory_available = lit 0 0;
    memory_allocation_total = lit 0 0;
    memory_system = lit 0 0;
    avg_read_mbs = lit 0 0;
    avg_write_mbs = lit 0 0;
    geography_score = lit 5 1;
    container_name = [];
  }

  -- peers, err := QueryAllReputations(…); if err != nil || len(peers) == 0 { … }
  unfoldable pub known_peers : Option (Peers fl) → Str → Peers fl
  known_peers none id = self_reputation id ∷ []
  known_peers (some []) id = self_reputation id ∷ []
  known_peers (some (p ∷ ps)) id = p ∷ ps

  unfoldable pub own_choice : Env fl → Node → Peers fl → Str
  own_choice env n peers =
      select_candidate fl n.id n.container_name n.peer_container_names env.rand_index env.rand_float
        peers

  unfoldable pub join_election : Env fl → Node → VoteMessage → Node × List (Effect Float)
  join_election env n vote =
      let joined = open_election n env.now vote in
      let choice = own_choice env n (known_peers env.reputations n.id) in
      let own_vote : VoteMessage = record {
        node_id = n.id;
        vote = choice;
        election_id = vote.election_id;
        term = vote.term;
      } in
      if should_join n vote
      then elim (get joined.voted_nodes n.id) [
        | some _ ↦ (joined, [])
        | none ↦ (cast joined n.id choice, publish_vote own_vote ∷ [])
      ]
      else (n, [])

  unfoldable pub handle_vote : Env fl → Node → VoteMessage → Node × List (Effect Float)
  handle_vote env n vote =
      let (joined, sent) = join_election env n vote in (record_vote joined vote, sent)
