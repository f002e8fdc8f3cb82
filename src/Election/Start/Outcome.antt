-- ===== src/Election/Start/Outcome.antt =====
-- What an election leaves behind.
use mathlib.Core.Path.{subst}
use mathlib.Core.Option.{some-injective}
use optimusdb.Base.{
  ℕ, ◌+◌, ◌≤◌, ◌≡◌, ◌≢◌, refl, ap, ◌∙◌, not, ◌||◌, Option, none, some, List, [], ◌∷◌, arith,
  Bool-cases, inl, inr, length,
}
use optimusdb.Base.Text.{Str, str_eq}
use optimusdb.Base.Dict.{get, read_or, get_of_mem}
use optimusdb.Base.Int.{ℤ, inc, eqb_ℤ}
use optimusdb.Base.Float.{Float64}
use optimusdb.Election.Reputation.{Peers}
use optimusdb.Election.Tally.{determine_winner, required_votes}
use optimusdb.Election.Tally.Winner.{Wins, determine_winner-Wins}
use optimusdb.Election.Node.{completed, Node, Effect, Env}
use optimusdb.Election.Voting.{cast, own_choice}
use optimusdb.Election.Voting.Tallied.{IsTallied, ballots, cast-IsTallied}
use optimusdb.Election.Roles.{announce_leader, announced_node, handle_announcement}
use optimusdb.Election.Messages.{deliver}
use optimusdb.Election.Messages.Dispatch.{deliver-keeps}
use optimusdb.Election.Start.{
  Round, candidates, next_term, open_round, vote_own, with_sent, and_next, vote_round,
  finalize_election_inline, run_round,
}
use optimusdb.Election.Voting.Tallied.{empty-IsTallied}
use optimusdb.Election.Start.{end_round}

-- In an agreeing tally the entry of a winner counts the voters that named it.
ballots_of_Wins :
    (n : Node) (w : Str)
    → IsTallied n
    → Wins w n.votes n.voted_nodes n.peer_count
    → required_votes n.peer_count ≤ ballots w n.voted_nodes
unfolding read_or
ballots_of_Wins n w h x =
    let e : get n.votes w ≡ some x.count = get_of_mem n.votes w x.count h.distinct x.voted_for in
    let c : x.count ≡ ballots w n.voted_nodes = ground (arith, h.at w) in rw (← c) x.enough_votes

resized :
    {a b x y : ℕ}
    → a ≡ b
    → (required_votes a ≤ x) × (required_votes a ≤ y)
    → (required_votes b ≤ x) × (required_votes b ≤ y)
resized e (p, q) = (rw e at p, rw e at q)

module _ (fl : Float64) where
  open fl use {Float}

  -- announcing touches neither the voters nor the size of the cluster
  abbrev pub SameVoters : Node → Node → Type 0
  SameVoters a b =
      (a.voted_nodes ≡ b.voted_nodes)
      × (a.peer_count ≡ b.peer_count)
      × (a.is_electing ≡ b.is_electing)

  pub announce_leader-SameVoters :
      (env : Env fl) (n : Node) (w : Str) (term : ℤ)
      → SameVoters (announce_leader fl env n w term).0 n
  unfolding announce_leader handle_announcement announced_node
  announce_leader-SameVoters env n w term = ground arith

  finalize-elected :
      (env : Env fl) (n : Node) (term : ℤ) (id : Str)
      → let (after, w, sent) = finalize_election_inline fl env n term id in
        IsTallied n
        → w ≢ []
        → (required_votes n.peer_count ≤ ballots w after.voted_nodes)
          × (required_votes n.peer_count ≤ length after.voted_nodes)
  finalize-elected env n term id h =
      elim (Bool-cases (not (str_eq n.current_election_id id) || not (eqb_ℤ n.current_term term))) [
        | inl changed ↦ unfold finalize_election_inline in rw changed (λ ne. absurd (ne refl))
        | inr same ↦
            elim (Bool-cases (str_eq (determine_winner n.votes n.voted_nodes n.peer_count) [])) [
              | inl nobody ↦
                  unfold finalize_election_inline in rw (same, nobody) (λ ne. absurd (ne refl))
              | inr somebody ↦
                  unfold finalize_election_inline in
                  rw (same, somebody)
                    (λ ne.
                      let w = determine_winner n.votes n.voted_nodes n.peer_count in
                      let won = determine_winner-Wins n.votes n.voted_nodes n.peer_count ne in
                      let (voters, size, busy) =
                        announce_leader-SameVoters env (record n { election_phase = completed }) w
                          term in
                      rw voters (ballots_of_Wins n w h won, won.enough_voters))
            ]
      ]

  with_sent-some :
      (s : List (Effect Float)) (o : Option (Node × Str × List (Effect Float))) {after : Node}
      {winner : Str} {sent : List (Effect Float)}
      → with_sent fl s o ≡ some (after, winner, sent)
      → (later : List (Effect Float)) × (o ≡ some (after, winner, later))
  unfolding with_sent
  with_sent-some s none e = ground arith
  with_sent-some s (some (n, w, later)) {after = after} {winner = winner} {sent = sent} e =
      (later, ap (λ r. some (r.0, r.1, later)) (some-injective _ _ e))

  and_next-some :
      (o : Option (Node × List (Effect Float)))
      (next : Node → Option (Node × Str × List (Effect Float))) {after : Node} {winner : Str}
      {sent : List (Effect Float)}
      → and_next fl o next ≡ some (after, winner, sent)
      → (n : Node) × (s : List (Effect Float)) × (later : List (Effect Float)) × (o ≡ some (n, s))
        × (next n ≡ some (after, winner, later))
  unfolding and_next
  and_next-some none next e = ground arith
  and_next-some (some (n, s)) next e =
      let (later, is) = with_sent-some s (next n) e in (n, s, later, refl, is)

  and_next-from :
      (o : Option (Node × List (Effect Float)))
      (next : Node → Option (Node × Str × List (Effect Float))) (n : Node) (s : List (Effect Float))
      {after : Node} {winner : Str} {sent : List (Effect Float)}
      → o ≡ some (n, s)
      → and_next fl o next ≡ some (after, winner, sent)
      → (later : List (Effect Float)) × (next n ≡ some (after, winner, later))
  unfolding and_next
  and_next-from o next n s h e = with_sent-some s (next n) (rw h at e)

  -- A round from its own vote on: where the node has none recorded yet, the tally agrees with the voters.
  vote_round-quorum :
      (round : Round fl) (peers : Peers fl) (term : ℤ) (id : Str) (n : Node) {after : Node}
      {winner : Str} {sent : List (Effect Float)}
      → IsTallied n
      → get n.voted_nodes n.id ≡ none
      → vote_round fl round peers term id n ≡ some (after, winner, sent)
      → winner ≢ []
      → (required_votes n.peer_count ≤ ballots winner after.voted_nodes)
        × (required_votes n.peer_count ≤ length after.voted_nodes)
  unfolding vote_round vote_own end_round
  vote_round-quorum round peers term id n {after = after} {winner = winner} {sent = sent} h first e
        named =
      let choice = own_choice fl round.begins n (candidates fl peers n.id) in
      let voted = cast n n.id choice in
      let (later, ran) = with_sent-some _ _ e in
      let (waited, s, last, heard, ended) =
        and_next-some (deliver fl voted round.arriving) (end_round fl round term id) ran in
      let (keeps, self) = deliver-keeps fl voted round.arriving heard in
      let (is, busy, name, grown, failures) = self in
      let size : waited.peer_count ≡ n.peer_count = grown ∙ unfold cast in refl in
      let q =
        finalize-elected round.ends waited term id (keeps (cast-IsTallied n n.id choice first h)) in
      let result = some-injective _ _ ended in
      resized size (
        subst
          (λ r.
            r.1 ≢ []
            → (required_votes waited.peer_count ≤ ballots r.1 r.0.voted_nodes)
              × (required_votes waited.peer_count ≤ length r.0.voted_nodes))
          result q named)

  -- A round that names a winner ends with the quorum of the cluster behind it, as many of the voters that
  -- the node recorded naming this winner as the size of the cluster requires, whatever messages come before
  -- the election is opened, before the own vote and while the round waits, where the node still has no vote
  -- of its own recorded when it casts it.
  pub run_round-quorum :
      (election_id_of : ℤ → ℕ → List Str → Str) (attempt : ℕ) (round : Round fl) (peers : Peers fl)
      (n waiting opened : Node) (s s' : List (Effect Float)) {after : Node} {winner : Str}
      {sent : List (Effect Float)}
      → let id = election_id_of (inc n.current_term) attempt (n.id ∷ round.discovered) in
        deliver fl (next_term fl round n) round.before_opening ≡ some (waiting, s)
        → deliver fl (open_round fl round id waiting) round.before_vote ≡ some (opened, s')
        → get opened.voted_nodes opened.id ≡ none
        → run_round fl election_id_of attempt round peers n ≡ some (after, winner, sent)
        → winner ≢ []
        → (required_votes (length round.discovered + 1) ≤ ballots winner after.voted_nodes)
          × (required_votes (length round.discovered + 1) ≤ length after.voted_nodes)
  unfolding run_round
  run_round-quorum election_id_of attempt round peers n waiting opened s s' ran ran' first e named =
      let term = inc n.current_term in
      let id = election_id_of term attempt (n.id ∷ round.discovered) in
      let start = open_round fl round id waiting in
      let (keeps, self) = deliver-keeps fl (next_term fl round n) round.before_opening ran in
      let (keeps', self') = deliver-keeps fl start round.before_vote ran' in
      let (is, busy, name, grown, failures) = self in
      let (is', busy', name', grown', failures') = self' in
      let resumed : start.peer_count ≡ waiting.peer_count = unfold open_round in refl in
      let counted : (next_term fl round n).peer_count ≡ length round.discovered + 1 =
        unfold next_term in refl in
      let size : opened.peer_count ≡ length round.discovered + 1 =
        grown' ∙ (resumed ∙ (grown ∙ counted)) in
      let empty : IsTallied start =
        empty-IsTallied start (unfold open_round in refl) (unfold open_round in refl) in
      let (l, e') = and_next-from _ _ waiting s ran e in
      let (l', e'') = and_next-from _ _ opened s' ran' e' in
      resized size (vote_round-quorum round peers term id opened (keeps' empty) first e'' named)
