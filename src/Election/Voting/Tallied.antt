-- ===== src/Election/Voting/Tallied.antt =====
-- The tally agrees with the voters: every voter counts once, for the candidate it named first.
use optimusdb.Election.Voting.{ignores}
use optimusdb.Base.{◌≤◌}
use optimusdb.Base.{
  ℕ, ◌+◌, ◌≡◌, refl, true, false, none, some, [], ◌∷◌, if◌then◌else◌, length, arith, Bool-cases,
  inl, inr, Option-cases,
}
use optimusdb.Base.Text.{Str, str_eq, str_eq_iff}
use optimusdb.Base.Dict.{Distinct, put-Distinct, Dict, get, put, read_or, get-put, read_or-put}
use optimusdb.Base.Float.{Float64}
use optimusdb.Election.Node.{Node, VoteMessage, publish_vote, Env}
use optimusdb.Election.Voting.{
  add_vote, cast, should_join, open_election, record_vote, own_choice, known_peers, join_election,
  handle_vote,
}

-- how many voters named the candidate
pub ballots : Str → Dict Str → ℕ
ballots c [] = 0
ballots c ((k, v) ∷ m) = if str_eq v c then ballots c m + 1 else ballots c m

pub record IsTallied (n : Node) : Type 0 where
  pub at : (c : Str) → read_or n.votes c 0 ≡ ballots c n.voted_nodes
  pub distinct : Distinct n.votes

pub empty-IsTallied : (n : Node) → n.votes ≡ [] → n.voted_nodes ≡ [] → IsTallied n
unfolding read_or get ballots
empty-IsTallied n v e = record { at = λ c. rw (v, e) refl; distinct = rw v tt }

ballots-put :
    (c k v : Str) (m : Dict Str)
    → get m k ≡ none
    → ballots c (put m k v) ≡ (if str_eq v c then ballots c m + 1 else ballots c m)
unfolding ballots put get
ballots-put c k v [] h = refl
ballots-put c k v ((j, w) ∷ m) h = ground (arith, ballots-put c k v m)

-- A vote that is cast by a node that has not voted is counted.
pub cast-IsTallied :
    (n : Node) (node c : Str)
    → get n.voted_nodes node ≡ none
    → IsTallied n
    → IsTallied (cast n node c)
unfolding cast add_vote
cast-IsTallied n node c free h = record {
  at = λ d. ground (
    arith,
    read_or-put n.votes c d (read_or n.votes c 0 + 1) 0,
    ballots-put d node c n.voted_nodes free,
    str_eq_iff c d,
    h.at d,
  );
  distinct = put-Distinct n.votes c (read_or n.votes c 0 + 1) h.distinct;
}

pub record_vote-IsTallied :
    (n : Node) (vote : VoteMessage) → IsTallied n → IsTallied (record_vote n vote)
record_vote-IsTallied n vote h = elim (Bool-cases (ignores n vote)) [
  | inl skip ↦ unfold record_vote in rw skip h
  | inr heard ↦ elim (Option-cases (get n.voted_nodes vote.node_id)) [
    | inl new ↦
        unfold record_vote in rw (heard, new) (cast-IsTallied n vote.node_id vote.vote new h)
    | inr (c, old) ↦ unfold record_vote in rw (heard, old) h
  ]
]

-- A voter keeps the vote that was recorded first.
pub record_vote-kept :
    (n : Node) (vote : VoteMessage) (node : Str) {c : Str}
    → get n.voted_nodes node ≡ some c
    → get (record_vote n vote).voted_nodes node ≡ some c
unfolding record_vote cast
record_vote-kept n vote node e =
    ground (arith, get-put n.voted_nodes vote.node_id node vote.vote, str_eq_iff vote.node_id node)

length-put : (m : Dict Str) (k v : Str) → length (put m k v) ≤ length m + 1
unfolding put
length-put [] k v = omega arith
length-put ((j, w) ∷ m) k v = ground (arith, length-put m k v)

length-record_vote :
    (n : Node) (vote : VoteMessage)
    → length (record_vote n vote).voted_nodes ≤ length n.voted_nodes + 1
unfolding record_vote cast
length-record_vote n vote = ground (arith, length-put n.voted_nodes vote.node_id vote.vote)

open_election-IsTallied :
    (n : Node) (now : ℕ) (vote : VoteMessage) → IsTallied (open_election n now vote)
unfolding open_election read_or get ballots
open_election-IsTallied n now vote = record { at = λ c. refl; distinct = tt }

open_election_free :
    (n : Node) (now : ℕ) (vote : VoteMessage) (node : Str)
    → get (open_election n now vote).voted_nodes node ≡ none
unfolding open_election get
open_election_free n now vote node = refl

module _ (fl : Float64) where
  open fl use {Float}

  -- what a node votes that joins now
  abbrev pub own_vote : Env fl → Node → VoteMessage → VoteMessage
  own_vote env n vote = record {
    node_id = n.id;
    vote = own_choice fl env n (known_peers fl env.reputations n.id);
    election_id = vote.election_id;
    term = vote.term;
  }

  join_election_joins :
      (env : Env fl) (n : Node) (vote : VoteMessage)
      → should_join n vote ≡ true
      → join_election fl env n vote ≡ (
        cast (open_election n env.now vote) n.id (own_vote env n vote).vote,
        publish_vote (own_vote env n vote) ∷ [],
      )
  unfolding join_election
  join_election_joins env n vote j = rw (j, open_election_free n env.now vote n.id)

  join_election_stays :
      (env : Env fl) (n : Node) (vote : VoteMessage)
      → should_join n vote ≡ false
      → join_election fl env n vote ≡ (n, [])
  unfolding join_election
  join_election_stays env n vote j = rw j

  pub join_election-IsTallied :
      (env : Env fl) (n : Node) (vote : VoteMessage)
      → IsTallied n
      → IsTallied (join_election fl env n vote).0
  join_election-IsTallied env n vote h = elim (Bool-cases (should_join n vote)) [
    | inl j ↦ rw (join_election_joins env n vote j) (
        cast-IsTallied (open_election n env.now vote) n.id (own_vote env n vote).vote
          (open_election_free n env.now vote n.id) (open_election-IsTallied n env.now vote))
    | inr j ↦ rw (join_election_stays env n vote j) h
  ]

  -- After any vote message the votes of each candidate are as many as the voters that named it.
  pub handle_vote-IsTallied :
      (env : Env fl) (n : Node) (vote : VoteMessage)
      → IsTallied n
      → IsTallied (handle_vote fl env n vote).0
  unfolding handle_vote
  handle_vote-IsTallied env n vote h =
      record_vote-IsTallied (join_election fl env n vote).0 vote
        (join_election-IsTallied env n vote h)
