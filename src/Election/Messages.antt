-- ===== src/Election/Messages.antt =====
-- election/reputationBasedElection.go: handleMessage, the dispatch of a message that came by the
-- topic. A payload stands here as json.Unmarshal gives it; `malformed` is a payload that it rejects.
-- An announcement whose "term" is no number has no term: the type assertion on it panics, and the
-- panic ends the process, which is `none` here.
pub mod Dispatch
use optimusdb.Base.{ℕ, ◌-◌, ◌++◌, not, ◌&&◌, Option, none, some, List, [], ◌∷◌, ltb, if◌then◌else◌}
use optimusdb.Base.Text.{Str, str_eq}
use optimusdb.Base.Dict.{Dict, put}
use optimusdb.Base.Int.{ℤ}
use optimusdb.Base.Float.{Float64}
use optimusdb.Election.RateLimit.{
  type_vote, type_heartbeat, type_reputation, type_announcement, type_election_result,
  allow_message,
}
use optimusdb.Election.Reputation.{NodeReputation, validate_reputation_data}
use optimusdb.Election.Node.{Node, VoteMessage, HeartbeatMessage, Effect, upsert_reputation, Env}
use optimusdb.Election.Voting.{handle_vote}
use optimusdb.Election.Roles.{handle_heartbeat, handle_announcement}

pub data Message (Float : Type 0) : Type 0 where
  vote : VoteMessage → Message Float
  heartbeat : HeartbeatMessage → Message Float
  reputation : NodeReputation Float → Message Float
  announcement : Str → Option ℤ → Message Float
  election_result : Message Float
  malformed : Str → Message Float

unfoldable pub type_of : {Float : Type 0} → Message Float → Str
type_of (vote v) = type_vote
type_of (heartbeat hb) = type_heartbeat
type_of (reputation rep) = type_reputation
type_of (announcement leader term) = type_announcement
type_of election_result = type_election_result
type_of (malformed t) = t

-- The peers from which a message came within the duration: `cutoff` is `now` less `within`.
unfoldable pub recent_message_peers : ℕ → Dict ℕ → ℕ
recent_message_peers cutoff [] = 0
recent_message_peers cutoff ((peer, last_seen) ∷ m) =
    let rest = recent_message_peers cutoff m in if ltb cutoff last_seen then ℕ.suc rest else rest

unfoldable pub has_recent_message_peers : Node → ℕ → ℕ → ℕ
unfolding recent_message_peers
has_recent_message_peers n now within = recent_message_peers (now - within) n.last_message_from_peer

module _ (fl : Float64) where
  open fl use {Float}

  unfoldable pub learn_name : Node → NodeReputation Float → Node
  learn_name n rep =
      if not (str_eq rep.container_name []) && not (str_eq rep.node_id [])
      then record n {
        peer_container_names = put n.peer_container_names rep.node_id rep.container_name;
      }
      else n

  unfoldable pub handle_reputation : Node → NodeReputation Float → Node × List (Effect Float)
  handle_reputation n rep =
      if str_eq rep.node_id n.id
      then (learn_name n rep, [])
      else elim (validate_reputation_data fl rep) [
        | some _ ↦ (learn_name n rep, [])
        | none ↦ (learn_name n rep, upsert_reputation rep ∷ [])
      ]

  unfoldable pub dispatch : Env fl → Node → Message Float → Option (Node × List (Effect Float))
  dispatch env n (vote v) = some (handle_vote fl env n v)
  dispatch env n (heartbeat hb) = some (handle_heartbeat fl env n hb, [])
  dispatch env n (reputation rep) = some (handle_reputation n rep)
  dispatch env n (announcement leader none) = none
  dispatch env n (announcement leader (some term)) =
      some (handle_announcement fl env n leader term, [])
  dispatch env n election_result = some (n, [])
  dispatch env n (malformed t) = some (n, [])

  unfoldable pub handle_message :
      Env fl → Node → Str → Message Float → Option (Node × List (Effect Float))
  handle_message env n from msg =
      let (rl, ok) = allow_message n.rate_limiter env.now from (type_of msg) in
      let n' = record n { rate_limiter = rl } in if ok then dispatch env n' msg else some (n', [])

  -- one round of the loop of ListenForElectionEvents with a message from the topic
  unfoldable pub receive : Env fl → Node → Str → Message Float → Option (Node × List (Effect Float))
  receive env n from msg =
      handle_message env
        (if str_eq from n.id
          then n
          else record n { last_message_from_peer = put n.last_message_from_peer from env.now })
        from msg

  -- a run of messages, in the order in which they come
  unfoldable pub deliver :
      Node → List (Env fl × Str × Message Float) → Option (Node × List (Effect Float))
  deliver n [] = some (n, [])
  deliver n ((env, from, msg) ∷ rest) = elim (receive env n from msg) [
    | none ↦ none
    | some (n', sent) ↦ elim (deliver n' rest) [
      | none ↦ none
      | some (n'', later) ↦ some (n'', sent ++ later)
    ]
  ]
