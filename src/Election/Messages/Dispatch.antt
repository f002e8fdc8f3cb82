-- ===== src/Election/Messages/Dispatch.antt =====
-- What the dispatch of messages keeps.
use optimusdb.Base.{
  ℕ, ◌≡◌, refl, ◌∙◌, Bool, true, false, Option, none, some, List, [], ◌∷◌, ◌++◌, if◌then◌else◌,
  arith,
}
use optimusdb.Base.Text.{Str, str_eq}
use optimusdb.Base.Dict.{Dict, put}
use optimusdb.Base.Int.{ℤ}
use optimusdb.Base.Float.{Float64}
use optimusdb.Election.RateLimit.{RateLimiter, allow_message}
use optimusdb.Election.Reputation.{NodeReputation}
use optimusdb.Election.Node.{
  Role, coordinator, follower, Node, VoteMessage, HeartbeatMessage, Effect, Env,
}
use optimusdb.Election.Voting.{handle_vote, join_election, record_vote, cast, open_election}
use optimusdb.Election.Voting.Tallied.{IsTallied, handle_vote-IsTallied}
use optimusdb.Election.Roles.{
  handle_heartbeat, handle_announcement, announced_node, hears, coordinator_hears, follower_hears,
  step_down_locked,
}
use optimusdb.Election.Messages.{
  Message, vote, heartbeat, reputation, announcement, election_result, malformed, type_of,
  learn_name, handle_reputation, dispatch, handle_message, deliver,
}
use optimusdb.Election.Messages.{receive}

module _ (fl : Float64) where
  open fl use {Float}

  -- What a step keeps that is not for messages to change: who the node is, and whether it electing.
  abbrev pub SameSelf : Node → Node → Type 0
  SameSelf a b =
      (a.id ≡ b.id)
      × (a.is_electing ≡ b.is_electing)
      × (a.container_name ≡ b.container_name)
      × (a.peer_count ≡ b.peer_count)
      × (a.consecutive_election_failures ≡ b.consecutive_election_failures)

  handle_vote-SameSelf :
      (env : Env fl) (n : Node) (v : VoteMessage) → SameSelf (handle_vote fl env n v).0 n
  unfolding handle_vote join_election record_vote cast open_election
  handle_vote-SameSelf env n v = ground arith

  hears-SameSelf :
      (r : Role) (env : Env fl) (n : Node) (hb : HeartbeatMessage)
      → SameSelf (hears fl r env n hb) n
  unfolding hears coordinator_hears follower_hears step_down_locked
  hears-SameSelf coordinator env n hb = ground arith
  hears-SameSelf follower env n hb = ground arith

  handle_announcement-SameSelf :
      (env : Env fl) (n : Node) (leader : Str) (term : ℤ)
      → SameSelf (handle_announcement fl env n leader term) n
  unfolding handle_announcement announced_node
  handle_announcement-SameSelf env n leader term = ground arith

  -- The tally and the voters are not touched.
  abbrev SameTally : Node → Node → Type 0
  SameTally a b = (a.votes ≡ b.votes) × (a.voted_nodes ≡ b.voted_nodes)

  hears-SameTally :
      (r : Role) (env : Env fl) (n : Node) (hb : HeartbeatMessage)
      → SameTally (hears fl r env n hb) n
  unfolding hears coordinator_hears follower_hears step_down_locked
  hears-SameTally coordinator env n hb = ground arith
  hears-SameTally follower env n hb = ground arith

  handle_announcement-SameTally :
      (env : Env fl) (n : Node) (leader : Str) (term : ℤ)
      → SameTally (handle_announcement fl env n leader term) n
  unfolding handle_announcement announced_node
  handle_announcement-SameTally env n leader term = ground arith

  handle_reputation-SameTally :
      (n : Node) (rep : NodeReputation Float)
      → SameTally (handle_reputation fl n rep).0 n × SameSelf (handle_reputation fl n rep).0 n
  unfolding handle_reputation learn_name
  handle_reputation-SameTally n rep = ground arith

  -- a crash keeps everything, since nothing runs after it
  abbrev Holds : (Node → Type 0) → Option (Node × List (Effect Float)) → Type 0
  Holds P none = Unit
  Holds P (some (n, sent)) = P n

  abbrev Keeps : Node → Node → Type 0
  Keeps a b = (IsTallied a → IsTallied b) × SameSelf b a

  moved : (a b : Node) → SameTally b a → IsTallied a → IsTallied b
  moved a b same h =
      let (votes, voters) = same in
      record { at = λ c. rw (votes, voters) (h.at c); distinct = rw votes h.distinct }

  dispatch-Keeps :
      (env : Env fl) (n : Node) (msg : Message Float) → Holds (Keeps n) (dispatch fl env n msg)
  unfolding dispatch handle_heartbeat
  dispatch-Keeps env n (vote v) = (handle_vote-IsTallied fl env n v, handle_vote-SameSelf env n v)
  dispatch-Keeps env n (heartbeat hb) =
      (moved n _ (hears-SameTally n.role env n hb), hears-SameSelf n.role env n hb)
  dispatch-Keeps env n (reputation rep) =
      let (tally, self) = handle_reputation-SameTally n rep in (moved n _ tally, self)
  dispatch-Keeps env n (announcement leader none) = tt
  dispatch-Keeps env n (announcement leader (some term)) = (
    moved n _ (handle_announcement-SameTally env n leader term),
    handle_announcement-SameSelf env n leader term,
  )
  dispatch-Keeps env n election_result = (λ h. h, (refl, refl, refl, refl, refl))
  dispatch-Keeps env n (malformed t) = (λ h. h, (refl, refl, refl, refl, refl))

  Keeps-trans : {a b c : Node} → Keeps a b → Keeps b c → Keeps a c
  Keeps-trans (f, p) (g, q) =
      (λ h. g (f h), (q.0 ∙ p.0, q.1 ∙ p.1, q.2 ∙ p.2, q.3 ∙ p.3, q.4 ∙ p.4))

  Holds-after :
      {a b : Node} (r : Option (Node × List (Effect Float)))
      → Keeps a b
      → Holds (Keeps b) r
      → Holds (Keeps a) r
  Holds-after none k h = tt
  Holds-after (some (c, sent)) k h = Keeps-trans k h

  limited-Keeps : (n : Node) (rl : RateLimiter) → Keeps n (record n { rate_limiter = rl })
  limited-Keeps n rl =
      (λ h. record { at = h.at; distinct = h.distinct }, (refl, refl, refl, refl, refl))

  seen-Keeps :
      (n : Node) (m : Dict ℕ) (b : Bool)
      → Keeps n (if b then n else record n { last_message_from_peer = m })
  seen-Keeps n m true = (λ h. h, (refl, refl, refl, refl, refl))
  seen-Keeps n m false =
      (λ h. record { at = h.at; distinct = h.distinct }, (refl, refl, refl, refl, refl))

  handle_message-Keeps :
      (env : Env fl) (n : Node) (from : Str) (msg : Message Float)
      → Holds (Keeps n) (handle_message fl env n from msg)
  unfolding handle_message
  handle_message-Keeps env n from msg = go (allow_message n.rate_limiter env.now from (type_of msg))
    where
      go :
          (r : RateLimiter × Bool)
          → Holds (Keeps n) (
              if r.1
              then dispatch fl env (record n { rate_limiter = r.0 }) msg
              else some (record n { rate_limiter = r.0 }, []))
      go (rl, true) =
          Holds-after (dispatch fl env (record n { rate_limiter = rl }) msg) (limited-Keeps n rl)
            (dispatch-Keeps env (record n { rate_limiter = rl }) msg)
      go (rl, false) = limited-Keeps n rl

  receive-Keeps :
      (env : Env fl) (n : Node) (from : Str) (msg : Message Float)
      → Holds (Keeps n) (receive fl env n from msg)
  unfolding receive
  receive-Keeps env n from msg =
      let b = str_eq from n.id in
      let m = put n.last_message_from_peer from env.now in
      let n' : Node = if b then n else record n { last_message_from_peer = m } in
      Holds-after (handle_message fl env n' from msg) (seen-Keeps n m b)
        (handle_message-Keeps env n' from msg)

  deliver-Holds :
      (n : Node) (msgs : List (Env fl × Str × Message Float)) → Holds (Keeps n) (deliver fl n msgs)
  unfolding deliver
  deliver-Holds n [] = (λ h. h, (refl, refl, refl, refl, refl))
  deliver-Holds n ((env, from, msg) ∷ rest) =
      go (receive fl env n from msg) (receive-Keeps env n from msg) (λ n'. deliver-Holds n' rest)
    where
      go :
          (r : Option (Node × List (Effect Float)))
          → Holds (Keeps n) r
          → ((n' : Node) → Holds (Keeps n') (deliver fl n' rest))
          → Holds (Keeps n) (elim r [
            | none ↦ none
            | some (n', sent) ↦ elim (deliver fl n' rest) [
              | none ↦ none
              | some (n'', later) ↦ some (n'', sent ++ later)
            ]
          ])
      go none h ih = tt
      go (some (n', sent)) h ih = step (deliver fl n' rest) (ih n')
        where
          step :
              (r : Option (Node × List (Effect Float)))
              → Holds (Keeps n') r
              → Holds
                  (Keeps n)
                  (elim r [ none ↦ none | some (n'', later) ↦ some (n'', sent ++ later) ])
          step none k = tt
          step (some (n'', later)) k = Keeps-trans h k

  -- Any run of messages that ends without a crash keeps the tally in agreement with the voters,
  -- and leaves the id, the container name, the cluster size, the failure count and the flag of a
  -- running election as they were.
  pub deliver-keeps :
      (n : Node) (msgs : List (Env fl × Str × Message Float)) {after : Node}
      {sent : List (Effect Float)}
      → deliver fl n msgs ≡ some (after, sent)
      → (IsTallied n → IsTallied after) × SameSelf after n
  deliver-keeps n msgs e = rw e at (deliver-Holds n msgs)
