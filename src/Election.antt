-- ===== src/Election.antt =====
-- election/reputationBasedElection.go: the leader election of the cluster.
pub mod Names
pub mod RateLimit
pub mod Reputation
pub mod Tally
pub mod Node
pub mod Voting
pub mod Roles
pub mod Messages
pub mod Start
pub mod Failure
pub mod Heartbeats
pub mod Divergence
