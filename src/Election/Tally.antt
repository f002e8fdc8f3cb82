-- ===== src/Election/Tally.antt =====
-- election/reputationBasedElection.go: determineWinner. The votes are a Go map, so the loop meets
-- its entries in an order that the program does not choose.
pub mod Winner
pub mod Order
use optimusdb.Base.{
  ℕ, ◌+◌, ◌*◌, ◌/◌, Bool, ◌&&◌, ◌||◌, List, [], ◌∷◌, ltb, leb, ◌==◌, if◌then◌else◌, length,
}
use optimusdb.Base.Text.{Str, str_lt}
use optimusdb.Base.Dict.{Dict}

-- one round of the loop over `n.votes`, on (winner, maxVotes)
unfoldable pub better : Str × ℕ → Str × ℕ → Bool
better (node, count) (winner, max_votes) =
    ltb max_votes count || count == max_votes && str_lt node winner

unfoldable pub best_from : Str × ℕ → List (Str × ℕ) → Str × ℕ
best_from acc [] = acc
best_from acc (e ∷ votes) = best_from (if better e acc then e else acc) votes

unfoldable pub required_votes : ℕ → ℕ
required_votes peer_count =
    if peer_count == 1
    then 1
    else if leb peer_count 3
    then (let half = (peer_count + 1) / 2 in if ltb half 2 then 2 else half)
    else if leb peer_count 8
    then (peer_count + 1) / 2
    else let share = peer_count * 3 / 10 in if ltb share 3 then 3 else share

unfoldable pub determine_winner : Dict ℕ → Dict Str → ℕ → Str
unfolding required_votes
determine_winner [] voted_nodes peer_count = []
determine_winner (v ∷ votes) voted_nodes peer_count =
    let (winner, max_votes) = best_from ([], 0) (v ∷ votes) in
    let required = required_votes peer_count in
    if leb required (length voted_nodes) && leb required max_votes then winner else []
