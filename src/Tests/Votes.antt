-- ===== src/Tests/Votes.antt =====
-- Votes, the tally and the choice of a candidate.
use optimusdb.Base.{ℕ, ◌≡◌, ◌≢◌, refl, true, false, [], ◌∷◌, arith, ltb}
use optimusdb.Base.Text.{Str, codes, str_eq, str_lt}
use optimusdb.Base.Dict.{Dict}
use optimusdb.Election.Tally.{better, best_from}
use mathlib.Core.List.{Permᴰ}
use optimusdb.Election.Reputation.{calculate_reputation}
use optimusdb.Election.Reputation.Laws.{HasBounds, calculate_reputation_bounds}
use optimusdb.Election.Node.{new_node}
use optimusdb.Election.Names.{is_default_coordinator_node}
use optimusdb.Election.Reputation.{weighted_score}
use optimusdb.Election.Tally.{required_votes, determine_winner}
use optimusdb.Election.Tally.Winner.{Wins, determine_winner-Wins}
use optimusdb.Election.Tally.Order.{determine_winner-perm}
use optimusdb.Election.Voting.{handle_vote}
use optimusdb.Election.Voting.Tallied.{IsTallied, empty-IsTallied, handle_vote-IsTallied}
use optimusdb.Tests.Fixtures.{milli, a_id, b_id, c_id, peer, env_at, node_a, vote_of}
use optimusdb.Election.Reputation.Laws.{is_preferred}

abbrev votes : Dict ℕ
votes = (a_id, 2) ∷ (b_id, 1) ∷ []

abbrev turned : Dict ℕ
turned = (b_id, 1) ∷ (a_id, 2) ∷ []

abbrev voters : Dict Str
voters = (a_id, a_id) ∷ (b_id, a_id) ∷ (c_id, b_id) ∷ []

a_is_chosen : determine_winner votes voters 3 ≡ a_id
unfolding determine_winner best_from better required_votes str_lt
a_is_chosen = refl

a_is_named : determine_winner votes voters 3 ≢ []
a_is_named e = let h : a_id ≡ [] = rw a_is_chosen at e in ground arith

determine_winner-Wins_example : Wins (determine_winner votes voters 3) votes voters 3
determine_winner-Wins_example = determine_winner-Wins votes voters 3 a_is_named

a_conditions : Wins a_id votes voters 3
a_conditions = rw a_is_chosen at (determine_winner-Wins votes voters 3 a_is_named)

determine_winner-perm_example : determine_winner votes voters 3 ≡ determine_winner turned voters 3
determine_winner-perm_example =
    determine_winner-perm votes turned voters voters 3 (Permᴰ.swap refl refl) refl

milli-HasBounds : HasBounds milli
milli-HasBounds = record { zero_irrefl = refl; hundred_irrefl = refl; hundred_zero = refl }

calculate_reputation_bounds_example :
    (ltb (calculate_reputation milli (peer a_id (codes "optimusdb1"))) 0 ≡ false)
    × (ltb 100000 (calculate_reputation milli (peer a_id (codes "optimusdb1"))) ≡ false)
calculate_reputation_bounds_example =
    calculate_reputation_bounds milli (peer a_id (codes "optimusdb1")) milli-HasBounds

third_is_plain : is_default_coordinator_node (codes "optimusdb3") ≡ false
unfolding is_default_coordinator_node str_eq
third_is_plain = refl

second_is_plain : is_preferred milli (peer b_id (codes "optimusdb2")) ≡ false
unfolding is_default_coordinator_node str_eq
second_is_plain = refl

first_is_preferred : is_preferred milli (peer a_id (codes "optimusdb1")) ≡ true
unfolding is_default_coordinator_node str_eq
first_is_preferred = refl

others_differ : b_id ≢ a_id
others_differ e = ground arith

a_is_no_blank : str_eq a_id [] ≡ false
unfolding str_eq
a_is_no_blank = refl

first_is_healthy : ltb 10000 (calculate_reputation milli (peer a_id (codes "optimusdb1"))) ≡ true
unfolding calculate_reputation weighted_score
first_is_healthy = refl

node_a-IsTallied : IsTallied node_a
unfolding new_node
node_a-IsTallied = empty-IsTallied node_a refl refl

handle_vote-IsTallied_example :
    IsTallied (handle_vote milli (env_at 5) node_a (vote_of b_id a_id)).0
handle_vote-IsTallied_example =
    handle_vote-IsTallied milli (env_at 5) node_a (vote_of b_id a_id) node_a-IsTallied
