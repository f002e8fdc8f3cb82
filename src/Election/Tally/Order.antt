-- ===== src/Election/Tally/Order.antt =====
-- The result of an election does not hang on the order in which the map's entries are met, the
-- winner is unique, and how large the quorum is.
use mathlib.Core.List.{Permᴰ}
use optimusdb.Base.{
  ℕ, ◌+◌, ◌*◌, ◌≤◌, ◌<◌, ◌≡◌, inl, inr, refl, ap, ◌∙◌, false, List, [], ◌∷◌, if◌then◌else◌, length,
  arith, Bool-cases,
}
use optimusdb.Base.Text.{Str}
use optimusdb.Base.Dict.{Dict}
use optimusdb.Election.Tally.{better, best_from, required_votes, determine_winner}
use optimusdb.Election.Tally.Winner.{
  Entry, not_better_trans, better_asymm, better_total, start, quorum, determine_winner_lem,
  best_from_step, best_from-Unbeaten, best_from-mem, beaten_by_none, Wins,
}

abbrev keep : Entry → Entry → Entry
keep acc e = if better e acc then e else acc

keep_comm : (acc a b : Entry) → keep (keep acc a) b ≡ keep (keep acc b) a
keep_comm acc a b = ground (
  arith,
  better_asymm b a,
  better_total a b,
  not_better_trans b acc a,
  not_better_trans a acc b,
  better_asymm a acc,
  better_asymm b acc,
)

best_from-perm :
    (l₁ l₂ : List Entry) → Permᴰ l₁ l₂ → (acc : Entry) → best_from acc l₁ ≡ best_from acc l₂
best_from-perm _ _ Permᴰ.nil acc = refl
best_from-perm _ _ (Permᴰ.cons {a = a} {b = b} {l₁ = l₁} {l₂ = l₂} e p) acc =
    rw (e, best_from_step, best_from_step) (best_from-perm l₁ l₂ p (keep acc b))
best_from-perm _ _ (Permᴰ.swap {a = a} {b = b} {l = l} e f) acc =
    rw (← e, ← f, best_from_step, best_from_step, best_from_step, best_from_step)
      (ap (λ s. best_from s l) (keep_comm acc a b))
best_from-perm _ _ (Permᴰ.trans {l₁ = x} {l₂ = y} {l₃ = z} p q) acc =
    best_from-perm x y p acc ∙ best_from-perm y z q acc

determine_winner_any :
    (votes : Dict ℕ) (voted : Dict Str) (n : ℕ)
    → determine_winner votes voted n
      ≡ (if quorum (best_from start votes) voted n then (best_from start votes).0 else [])
determine_winner_any [] voted n =
    unfold determine_winner start best_from in
    elim (Bool-cases (quorum ([], 0) voted n)) [ inl met ↦ rw met | inr missed ↦ rw missed ]
determine_winner_any (v ∷ votes) voted n = determine_winner_lem v votes voted n

-- The winner does not hang on the order in which the loops meet the entries of the two maps: nodes
-- that hold the same votes and know the same cluster size name the same winner.
pub determine_winner-perm :
    (v₁ v₂ : Dict ℕ) (voted₁ voted₂ : Dict Str) (peer_count : ℕ)
    → Permᴰ v₁ v₂
    → length voted₁ ≡ length voted₂
    → determine_winner v₁ voted₁ peer_count ≡ determine_winner v₂ voted₂ peer_count
determine_winner-perm v₁ v₂ voted₁ voted₂ n p same =
    rw (determine_winner_any v₁, determine_winner_any v₂, best_from-perm v₁ v₂ p start)
      (unfold quorum in rw same)

required_votes_pos : (n : ℕ) → 0 < required_votes n
unfolding required_votes
required_votes_pos n = ground arith

start_loses : (w : Str) (count : ℕ) → 0 < count → better start (w, count) ≡ false
unfolding better start
start_loses w count h = ground arith

-- Whoever meets the conditions of winning, by its id and votes, is the node that is returned.
pub determine_winner_of_Wins :
    (w : Str) (votes : Dict ℕ) (voted : Dict Str) (peer_count : ℕ)
    → Wins w votes voted peer_count
    → determine_winner votes voted peer_count ≡ w
determine_winner_of_Wins w [] voted n h = elim h.voted_for [ ]
determine_winner_of_Wins w (v ∷ votes) voted n h =
    rw (determine_winner_lem, is_best)
      (unfold quorum in ground (arith, h.enough_votes, h.enough_voters))
  where
    positive : 0 < h.count
    positive = omega (arith, required_votes_pos n, h.enough_votes)

    is_best : best_from start (v ∷ votes) ≡ (w, h.count)
    is_best =
        better_total (best_from start (v ∷ votes)) (w, h.count)
          (beaten_by_none _ (w, h.count) (start ∷ v ∷ votes)
            (start_loses w h.count positive, h.unbeaten) (best_from-mem start (v ∷ votes)))
          (beaten_by_none (w, h.count) _ (v ∷ votes) (best_from-Unbeaten start (v ∷ votes)).1
            h.voted_for)

-- The quorum: at least two votes in a cluster of more than one node, at least half of a cluster of up
-- to eight, at least three tenths, rounded down, of a larger one, and never more than the cluster
-- has nodes if it has two.
pub required_votes_bounds :
    (n : ℕ)
    → 2 ≤ n
    → (2 ≤ required_votes n)
      × (n ≤ 8 → n ≤ 2 * required_votes n)
      × (9 ≤ n → n * 3 < 10 * required_votes n + 10)
      × (required_votes n ≤ n)
unfolding required_votes
required_votes_bounds n h = ground arith
