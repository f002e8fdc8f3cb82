-- ===== src/Query/Peers/Quorum.antt =====
-- app/query_handler.go: where the loop of queryPeersUntilQuorum over the answers of the peers stops.
use optimusdb.Base.{
  ℕ, zero, suc, Bool, true, false, List, [], ◌∷◌, ◌++◌, ◌≡◌, ◌⊎◌, inl, inr, refl, ap, ◌∙◌, arith,
  Bool-cases, length, map, take, leb, ◌≤◌, ◌<◌,
}
use optimusdb.Base.Text.{Str}
use optimusdb.Base.Dict.{Dict}
use optimusdb.Document.{Fields}
use optimusdb.Base.Int.{pos}
use optimusdb.Base.{append_nil, append_assoc}
use optimusdb.Query.Local.{Result}
use optimusdb.Query.Rows.{dedupe_by_id}
use optimusdb.Query.Options.{QOptions}
use optimusdb.Query.Peers.{
  Network, respond, rows_of_chunk, until_quorum, until_quorum_of, query_peers_until_quorum, ask_any,
  answer_of,
}

module _ {F Err : Type 0} where
  unfoldable pub rows_of_answers : List (Str × Result Err (List (Fields F))) → List (Fields F)
  rows_of_answers [] = []
  rows_of_answers ((id, r) ∷ answers) = rows_of_chunk r ++ rows_of_answers answers

module _ {F Peer Err : Type 0} (net : Network F Peer Err) where
  -- the peers that have answered with rows, after these answers
  unfoldable pub responders_of : Dict Bool → List (Str × Result Err (List (Fields F))) → Dict Bool
  responders_of responders [] = responders
  responders_of responders ((id, r) ∷ answers) = responders_of (respond net responders id r) answers

  -- The loop, with `left` answers to come, stops after `n` of them: before, they make no quorum, and there
  -- they do or there is none to wait for.
  unfoldable pub StopsAt :
      ℕ → List (Fields F) → Dict Bool → ℕ → List (Str × Result Err (List (Fields F))) → ℕ → Type 0
  StopsAt quorum_n merged responders left answers n =
      (until_quorum net quorum_n merged responders left answers
        ≡ dedupe_by_id (merged ++ rows_of_answers (take n answers)))
      × (((m : ℕ) → 0 < m → m < n → length (responders_of responders (take m answers)) < quorum_n)
          × ((quorum_n ≤ length (responders_of responders (take n answers)))
              ⊎ ((n ≡ left) ⊎ (n ≡ length answers))))

  quorum_at :
      (q : ℕ) (rs : Dict Bool) (id : Str) (r : Result Err (List (Fields F)))
      (answers : List (Str × Result Err (List (Fields F))))
      → leb q (length (respond net rs id r)) ≡ true
      → q ≤ length (responders_of rs (take 1 ((id, r) ∷ answers)))
  unfolding responders_of
  quorum_at q rs id r answers full = ground arith

  before_suc :
      (q : ℕ) (rs : Dict Bool) (id : Str) (r : Result Err (List (Fields F)))
      (answers : List (Str × Result Err (List (Fields F)))) (n : ℕ)
      → leb q (length (respond net rs id r)) ≡ false
      → ((m : ℕ)
          → 0 < m
          → m < n
          → length (responders_of (respond net rs id r) (take m answers)) < q)
      → (m : ℕ) → 0 < m
      → m < suc n
      → length (responders_of rs (take m ((id, r) ∷ answers))) < q
  unfolding responders_of
  before_suc q rs id r answers n short before zero above below = omega arith
  before_suc q rs id r answers n short before (suc zero) above below = ground arith
  before_suc q rs id r answers n short before (suc (suc m)) above below =
      before (suc m) (omega arith) (omega arith)

  later :
      (q : ℕ) (rs : Dict Bool) (id : Str) (r : Result Err (List (Fields F)))
      (answers : List (Str × Result Err (List (Fields F)))) (left n : ℕ)
      → (q ≤ length (responders_of (respond net rs id r) (take n answers)))
        ⊎ ((n ≡ left) ⊎ (n ≡ length answers))
      → (q ≤ length (responders_of rs (take (suc n) ((id, r) ∷ answers))))
        ⊎ ((suc n ≡ suc left) ⊎ (suc n ≡ suc (length answers)))
  unfolding responders_of
  later q rs id r answers left n (inl enough) = inl enough
  later q rs id r answers left n (inr (inl all)) = inr (inl (ap suc all))
  later q rs id r answers left n (inr (inr all)) = inr (inr (ap suc all))

  until_quorum-stops :
      (quorum_n : ℕ) (merged : List (Fields F)) (responders : Dict Bool) (left : ℕ)
      (answers : List (Str × Result Err (List (Fields F))))
      → (n : ℕ) × StopsAt quorum_n merged responders left answers n
  unfolding until_quorum StopsAt rows_of_answers
  until_quorum-stops q merged rs zero answers =
      (0, (rw append_nil refl, (λ m a b. omega arith, inr (inl refl))))
  until_quorum-stops q merged rs (suc left) [] =
      (0, (rw append_nil refl, (λ m a b. omega arith, inr (inr refl))))
  until_quorum-stops q merged rs (suc left) ((id, r) ∷ answers) =
      elim (Bool-cases (leb q (length (respond net rs id r)))) [
        | inl full ↦ (
          1,
          (
            rw (full, append_nil) refl,
            ((λ m above below. omega arith), inl (quorum_at q rs id r answers full)),
          ),
        )
        | inr short ↦
            let (n, (result, (before, final))) =
              until_quorum-stops q (merged ++ rows_of_chunk r) (respond net rs id r) left answers in
            (
              suc n,
              (
                rw short (result ∙ ap dedupe_by_id (append_assoc merged (rows_of_chunk r) _)),
                (before_suc q rs id r answers n short before, later q rs id r answers left n final),
              ),
            )
      ]

  -- Where queryPeersUntilQuorum is asked for a quorum of at least one, there is a number `n` of answers
  -- such that it gives the rows of the first `n` answers without repeated ids; after any smaller number
  -- of them, from one on, fewer peers than the quorum have answered with rows; and after `n` as many as
  -- the quorum have, or `n` is the number of connected peers or of all answers before the deadline.
  pub query_peers_until_quorum-stops :
      (criteria : List (Fields F)) (trace_id : Str) (trace_path : List Str) (opts : QOptions)
      (q : ℕ)
      → opts.quorum_n ≡ pos (suc q)
      → let answers =
          map
            (answer_of net (ask_any net criteria trace_id trace_path))
            (net.arrivals net.connected) in
        (n : ℕ) × ((query_peers_until_quorum net criteria trace_id trace_path opts
            ≡ dedupe_by_id (rows_of_answers (take n answers)))
          × (((m : ℕ) → 0 < m → m < n → length (responders_of [] (take m answers)) < suc q)
              × ((suc q ≤ length (responders_of [] (take n answers)))
                  ⊎ ((n ≡ length net.connected) ⊎ (n ≡ length answers)))))
  unfolding query_peers_until_quorum until_quorum_of StopsAt
  query_peers_until_quorum-stops criteria trace_id trace_path opts q h =
      let answers =
        map (answer_of net (ask_any net criteria trace_id trace_path))
          (net.arrivals net.connected) in
      rw h (until_quorum-stops (suc q) [] [] (length net.connected) answers)
