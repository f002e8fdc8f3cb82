-- ===== src/Tests/Limits.antt =====
-- The rate limiter.
use optimusdb.Base.{ℕ, ◌*◌, ◌≡◌, refl, some, List, [], ◌∷◌}
use optimusdb.Base.Text.{codes, str_eq}
use optimusdb.Base.Dict.{get, put, read_or}
use optimusdb.Election.RateLimit.{
  RateLimiter, min_interval, allow_message, new_rate_limiter, second, type_vote,
}
use optimusdb.Election.RateLimit.Spacing.{
  Call, accepted_at, stamp, SpacedFrom, accepted_at-SpacedFrom,
}
use optimusdb.Election.RateLimit.Bans.{ban, run, IsCounted, run-IsCounted}

abbrev vote_at : ℕ → Call
vote_at now = record { now = now; from = codes "a"; msg_type = type_vote }

abbrev burst : List Call
burst = vote_at second ∷ vote_at (2 * second) ∷ vote_at (6 * second) ∷ []

-- The message that comes within five seconds of the first is refused.
burst_run : accepted_at (codes "a") type_vote new_rate_limiter burst ≡ second ∷ 6 * second ∷ []
unfolding accepted_at allow_message new_rate_limiter min_interval read_or put str_eq
burst_run = refl

accepted_at-SpacedFrom_example :
    SpacedFrom
      (min_interval type_vote)
      (stamp new_rate_limiter (codes "a") type_vote)
      (accepted_at (codes "a") type_vote new_rate_limiter burst)
accepted_at-SpacedFrom_example = accepted_at-SpacedFrom (codes "a") type_vote new_rate_limiter burst

abbrev banned : RateLimiter
banned = record {
  last_message = [];
  violators = (codes "a", 10) ∷ [];
  banned_peers = (codes "a", 9 * second) ∷ [];
}

a_is_banned : ban banned (codes "a") ≡ some (9 * second)
unfolding get str_eq
a_is_banned = refl

run-IsCounted_example : IsCounted (run new_rate_limiter burst)
run-IsCounted_example = run-IsCounted burst
