-- ===== src/Election/Tally/Winner.antt =====
-- Who wins: a candidate with the most votes, with the quorum behind it.
use mathlib.Core.Path.{subst}
use optimusdb.Base.{ℕ, ◌≡◌, true, false, arith}
use optimusdb.Base.Text.{Str, str_lt_asymm, str_lt_trans, str_lt_total}
use optimusdb.Election.Tally.{better}
use optimusdb.Election.Tally.{determine_winner}
use optimusdb.Election.Tally.{best_from}
use optimusdb.Election.Tally.{Dict}
use optimusdb.Base.Text.{str_lt_irrefl}
use optimusdb.Base.{[]}
use optimusdb.Base.{List}
use optimusdb.Base.{◌≢◌}
use optimusdb.Base.{Bool}
use optimusdb.Base.{All}
use optimusdb.Base.{◌∷◌}
use optimusdb.Base.{leb}
use optimusdb.Election.Tally.{required_votes}
use optimusdb.Base.{Bool-cases}
use optimusdb.Base.{length}
use optimusdb.Base.{inl}
use optimusdb.Base.{if◌then◌else◌}
use mathlib.Core.List.{Memᴰ}
use optimusdb.Base.{◌≤◌}
use optimusdb.Base.{◌&&◌}
use optimusdb.Base.{inr}
use optimusdb.Base.{refl}
use mathlib.Core.Path.{sym}
use mathlib.Core.Path.{ap}

abbrev pub Entry : Type 0
Entry = Str × ℕ

pub better_trans : (a b c : Entry) → better a b ≡ true → better b c ≡ true → better a c ≡ true
unfolding better
better_trans (a, m) (b, n) (c, k) h l = ground (arith, str_lt_trans a b c)

-- What is not better than `b` is not better than what is better than `b`, or as good.
pub not_better_trans :
    (a b c : Entry) → better a b ≡ false → better b c ≡ false → better a c ≡ false
unfolding better
not_better_trans (a, m) (b, n) (c, k) h l = ground (
  arith,
  str_lt_trans c b a,
  str_lt_asymm c a,
  str_lt_total a b,
  str_lt_total b c,
  str_lt_asymm a c,
  str_lt_trans a c b,
  str_lt_trans b a c,
)

pub better_asymm : (a b : Entry) → better a b ≡ true → better b a ≡ false
unfolding better
better_asymm (a, m) (b, n) h = ground (arith, str_lt_asymm a b)

better_irrefl : (a : Entry) → better a a ≡ false
unfolding better
better_irrefl (a, m) = ground (arith, str_lt_irrefl a)

pub better_total : (a b : Entry) → better a b ≡ false → better b a ≡ false → a ≡ b
unfolding better
better_total (a, m) (b, n) h k = ground (arith, str_lt_total a b)

abbrev pub Unbeaten : Entry → List Entry → Type 0
Unbeaten best = All (λ e. better e best ≡ false)

pub beaten_by_none :
    (a best : Entry) (votes : List Entry)
    → Unbeaten best votes
    → Memᴰ a votes
    → better a best ≡ false
beaten_by_none a best [] h m = elim m [ ]
beaten_by_none a best (e ∷ votes) h (Memᴰ.head p) = rw p (h.0)
beaten_by_none a best (e ∷ votes) h (Memᴰ.tail m) = beaten_by_none a best votes h.1 m

pub best_from_step :
    (acc e : Entry) (votes : List Entry)
    → best_from acc (e ∷ votes) ≡ best_from (if better e acc then e else acc) votes
unfolding best_from
best_from_step acc e votes = refl

best_from_wins :
    (acc e : Entry) (votes : List Entry)
    → better e acc ≡ true
    → best_from acc (e ∷ votes) ≡ best_from e votes
best_from_wins acc e votes wins = rw (best_from_step, wins)

best_from_loses :
    (acc e : Entry) (votes : List Entry)
    → better e acc ≡ false
    → best_from acc (e ∷ votes) ≡ best_from acc votes
best_from_loses acc e votes loses = rw (best_from_step, loses)

-- The loop ends on an entry that no entry beats.
pub best_from-Unbeaten :
    (acc : Entry) (votes : List Entry) → Unbeaten (best_from acc votes) (acc ∷ votes)
best_from-Unbeaten acc [] = (unfold best_from in better_irrefl acc, tt)
best_from-Unbeaten acc (e ∷ votes) = elim (Bool-cases (better e acc)) [
  | inl wins ↦
      let ih = best_from-Unbeaten e votes in
      subst (λ b. Unbeaten b (acc ∷ e ∷ votes)) (sym (best_from_wins acc e votes wins))
        (not_better_trans acc e (best_from e votes) (better_asymm e acc wins) ih.0, ih)
  | inr loses ↦
      let ih = best_from-Unbeaten acc votes in
      subst (λ b. Unbeaten b (acc ∷ e ∷ votes)) (sym (best_from_loses acc e votes loses))
        (ih.0, (not_better_trans e acc (best_from acc votes) loses ih.0, ih.1))
]

pub best_from-mem : (acc : Entry) (votes : List Entry) → Memᴰ (best_from acc votes) (acc ∷ votes)
unfolding best_from
best_from-mem acc [] = Memᴰ.head refl
best_from-mem acc (e ∷ votes) = elim (Bool-cases (better e acc)) [
  | inl wins ↦ rw (wins, best_from) (Memᴰ.tail (best_from-mem e votes))
  | inr loses ↦ rw (loses, best_from) (skip (best_from-mem acc votes))
]
  where
    skip : {a : Entry} → Memᴰ a (acc ∷ votes) → Memᴰ a (acc ∷ e ∷ votes)
    skip (Memᴰ.head p) = Memᴰ.head p
    skip (Memᴰ.tail m) = Memᴰ.tail (Memᴰ.tail m)

unfoldable pub start : Entry
start = ([], 0)

unfoldable pub quorum : Entry → Dict Str → ℕ → Bool
quorum best voted peer_count =
    leb (required_votes peer_count) (length voted) && leb (required_votes peer_count) best.1

pub determine_winner_lem :
    (v : Entry) (votes : Dict ℕ) (voted : Dict Str) (n : ℕ)
    → determine_winner (v ∷ votes) voted n ≡ (
        if quorum (best_from start (v ∷ votes)) voted n
        then (best_from start (v ∷ votes)).0
        else [])
unfolding determine_winner start quorum
determine_winner_lem v votes voted n = refl

-- What it takes to win: an entry of the votes with the quorum, which no entry beats.
pub record Wins (w : Str) (votes : Dict ℕ) (voted : Dict Str) (peer_count : ℕ) : Type 0 where
  pub count : ℕ
  pub voted_for : Memᴰ (w, count) votes
  pub unbeaten : Unbeaten (w, count) votes
  pub enough_votes : required_votes peer_count ≤ count
  pub enough_voters : required_votes peer_count ≤ length voted

-- The node that is returned wins: it has an entry among the votes that no entry beats, neither by
-- more votes nor by as many and a smaller id, and both its votes and the voters reach the quorum.
pub determine_winner-Wins :
    (votes : Dict ℕ) (voted : Dict Str) (peer_count : ℕ)
    → determine_winner votes voted peer_count ≢ []
    → Wins (determine_winner votes voted peer_count) votes voted peer_count
unfolding start
determine_winner-Wins [] voted n h = absurd (h (unfold determine_winner in refl))
determine_winner-Wins (v ∷ votes) voted n h = rw (determine_winner_lem v votes voted n) (
    go (best_from start (v ∷ votes)) (best_from-mem start (v ∷ votes))
      (best_from-Unbeaten start (v ∷ votes)) (rw (determine_winner_lem v votes voted n) at h))
  where
    in_votes : (best : Entry) → Memᴰ best (start ∷ v ∷ votes) → best.0 ≢ [] → Memᴰ best (v ∷ votes)
    in_votes best (Memᴰ.head p) named = absurd (named (ap (λ b. b.0) p))
    in_votes best (Memᴰ.tail m) named = m

    go :
        (best : Entry)
        → Memᴰ best (start ∷ v ∷ votes)
        → Unbeaten best (start ∷ v ∷ votes)
        → (if quorum best voted n then best.0 else []) ≢ []
        → Wins (if quorum best voted n then best.0 else []) (v ∷ votes) voted n
    go best m u ne = elim (Bool-cases (quorum best voted n)) [
      | inl met ↦ rw met (record {
        count = best.1;
        voted_for = in_votes best m (λ e. ne (rw met e));
        unbeaten = u.1;
        enough_votes = unfold quorum in ground arith;
        enough_voters = unfold quorum in ground arith;
      })
      | inr missed ↦ absurd (ne (rw missed refl))
    ]
