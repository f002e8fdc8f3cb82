-- ===== src/Election/RateLimit.antt =====
-- election/reputationBasedElection.go: MessageRateLimiter. Instants and durations are nanoseconds.
-- One call of AllowMessage reads the clock once here; the lock makes calls follow one another.
pub mod Spacing
pub mod Bans
use optimusdb.Base.{ℕ, ◌+◌, ◌-◌, ◌*◌, Bool, true, false, none, some, [], ltb, leb, if◌then◌else◌}
use optimusdb.Base.Text.{Str, codes, str_eq}
use optimusdb.Base.Dict.{Dict, get, put, remove, read_or}

abbrev pub type_vote : Str
type_vote = codes "vote"

abbrev pub type_heartbeat : Str
type_heartbeat = codes "heartbeat"

abbrev pub type_reputation : Str
type_reputation = codes "reputation"

abbrev pub type_announcement : Str
type_announcement = codes "announcement"

abbrev pub type_election_result : Str
type_election_result = codes "election_result"

abbrev pub second : ℕ
second = 1_000_000_000

pub record RateLimiter : Type 0 where
  pub last_message : Dict (Dict ℕ)
  pub violators : Dict ℕ
  pub banned_peers : Dict ℕ

unfoldable pub new_rate_limiter : RateLimiter
new_rate_limiter = record { last_message = []; violators = []; banned_peers = [] }

unfoldable pub min_interval : Str → ℕ
min_interval t =
    if str_eq t type_vote
    then 5 * second
    else if str_eq t type_heartbeat
    then 4 * second
    else if str_eq t type_reputation
    then 25 * second
    else 2 * second

-- the expired ban is cleared
unfoldable pub lift_ban : RateLimiter → Str → RateLimiter
lift_ban rl from = record rl {
  banned_peers = remove rl.banned_peers from;
  violators = remove rl.violators from;
}

-- the map of the peer is made if it is nil
unfoldable pub ensure_peer : RateLimiter → Str → RateLimiter
ensure_peer rl from = elim (get rl.last_message from) [
  | none ↦ record rl { last_message = put rl.last_message from [] }
  | some _ ↦ rl
]

unfoldable pub violate : RateLimiter → ℕ → Str → RateLimiter
violate rl now from =
    let count = read_or rl.violators from 0 + 1 in
    let counted = record rl { violators = put rl.violators from count } in
    if leb 10 count
    then record counted { banned_peers = put rl.banned_peers from (now + 120 * second) }
    else counted

unfoldable pub accept : RateLimiter → ℕ → Str → Str → RateLimiter
accept rl now from msg_type =
    let count = read_or rl.violators from 0 in
    record rl {
      violators = if ltb 0 count then put rl.violators from (count - 1) else rl.violators;
      last_message = put rl.last_message from (put (read_or rl.last_message from []) msg_type now);
    }

-- the part of AllowMessage behind the test of the ban
unfoldable pub admit : RateLimiter → ℕ → Str → Str → RateLimiter × Bool
admit rl now from msg_type = elim (get (read_or rl.last_message from []) msg_type) [
  | none ↦ (accept rl now from msg_type, true)
  | some last ↦
      if ltb (now - last) (min_interval msg_type)
      then (violate rl now from, false)
      else (accept rl now from msg_type, true)
]

unfoldable pub allow_message : RateLimiter → ℕ → Str → Str → RateLimiter × Bool
unfolding lift_ban ensure_peer violate accept admit
allow_message rl now from msg_type = elim (get rl.banned_peers from) [
  | none ↦ admit (ensure_peer rl from) now from msg_type
  | some until ↦
      if ltb now until
      then (rl, false)
      else admit (ensure_peer (lift_ban rl from) from) now from msg_type
]
