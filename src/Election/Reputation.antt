-- ===== src/Election/Reputation.antt =====
-- election/reputationBasedElection.go: what a node broadcasts of itself, its validation and its
-- score, and the choice of the candidate that a node votes for.
pub mod Laws
use optimusdb.Base.{
  ℕ, Bool, false, not, ◌&&◌, ◌||◌, Option, none, some, List, [], ◌∷◌, if◌then◌else◌,
}
use optimusdb.Base.Text.{Str, str_eq}
use optimusdb.Base.Dict.{Dict, get}
use optimusdb.Base.Int.{ℤ}
use optimusdb.Base.Float.{Float64, cap, floor_at}
use optimusdb.Election.Names.{is_default_coordinator_node}

pub record NodeReputation (Float : Type 0) : Type 0 where
  pub node_id : Str
  pub uptime : Float
  pub leadership_count : ℤ
  pub latency : Float
  pub user_cpu : Float
  pub system_cpu : Float
  pub idle_cpu : Float
  pub memory_available : Float
  pub memory_allocation_total : Float
  pub memory_system : Float
  pub avg_read_mbs : Float
  pub avg_write_mbs : Float
  pub geography_score : Float
  pub container_name : Str

-- the errors of validateReputationData, named for the reading that each rejects
pub data InvalidReading : Type 0 where
  user_cpu system_cpu idle_cpu memory_system memory_allocation_total memory uptime geography_score
        avg_read_mbs avg_write_mbs latency :
      InvalidReading

module _ (fl : Float64) where
  open fl use {Float, lt, le, add, sub, mul, div, log10, of_int, lit}

  unfoldable pub outside : Float → Float → Float → Bool
  outside lo hi x = lt x lo || lt hi x

  unfoldable pub validate_reputation_data : NodeReputation Float → Option InvalidReading
  unfolding outside
  validate_reputation_data rep =
      if outside (lit 0 0) (lit 100 0) rep.user_cpu
      then some InvalidReading.user_cpu
      else if outside (lit 0 0) (lit 100 0) rep.system_cpu
      then some InvalidReading.system_cpu
      else if outside (lit 0 0) (lit 100 0) rep.idle_cpu
      then some InvalidReading.idle_cpu
      else if lt rep.memory_system (lit 0 0)
      then some InvalidReading.memory_system
      else if lt rep.memory_allocation_total (lit 0 0)
      then some InvalidReading.memory_allocation_total
      else if lt (lit 0 0) rep.memory_system
          && lt (mul rep.memory_system (lit 2 0)) rep.memory_allocation_total
      then some InvalidReading.memory
      else if outside (lit 0 0) (lit 1 0) rep.uptime
      then some InvalidReading.uptime
      else if outside (lit 0 0) (lit 1 0) rep.geography_score
      then some InvalidReading.geography_score
      else if outside (lit 0 0) (lit 10000 0) rep.avg_read_mbs
      then some InvalidReading.avg_read_mbs
      else if outside (lit 0 0) (lit 10000 0) rep.avg_write_mbs
      then some InvalidReading.avg_write_mbs
      else if outside (lit 0 0) (lit 1000 0) rep.latency
      then some InvalidReading.latency
      else none

  -- the scores of calculateReputation, by the names of its variables
  unfoldable pub cpu_score : NodeReputation Float → Float
  cpu_score nr = sub (lit 100 0) (cap fl (lit 100 0) (add nr.user_cpu nr.system_cpu))

  unfoldable pub memory_score : NodeReputation Float → Float
  memory_score nr =
      if lt (lit 0 0) nr.memory_system
      then sub (lit 100 0)
          (cap fl (lit 100 0) (mul (div nr.memory_allocation_total nr.memory_system) (lit 100 0)))
      else lit 100 0

  unfoldable pub disk_score : NodeReputation Float → Float
  disk_score nr =
      let disk_io = add nr.avg_read_mbs nr.avg_write_mbs in
      if lt (lit 0 0) disk_io
      then cap fl (lit 100 0)
          (floor_at fl (lit 0 0) (sub (lit 100 0) (mul (log10 disk_io) (lit 25 0))))
      else lit 100 0

  unfoldable pub latency_score : NodeReputation Float → Float
  latency_score nr = sub (lit 100 0) (cap fl (lit 100 0) nr.latency)

  unfoldable pub uptime_score : NodeReputation Float → Float
  uptime_score nr = cap fl (lit 100 0) (mul nr.uptime (lit 100 0))

  unfoldable pub leadership_score : NodeReputation Float → Float
  leadership_score nr = cap fl (lit 100 0) (mul (of_int nr.leadership_count) (lit 10 0))

  unfoldable pub geography_score_of : NodeReputation Float → Float
  geography_score_of nr = cap fl (lit 100 0) (mul nr.geography_score (lit 100 0))

  -- the sum with the weights of getReputationWeights
  unfoldable pub weighted_score : NodeReputation Float → Float
  weighted_score nr =
      add
        (add
          (add
            (add
              (add (add (mul (lit 20 2) (uptime_score nr)) (mul (lit 10 2) (leadership_score nr)))
                (mul (lit 20 2) (cpu_score nr)))
              (mul (lit 20 2) (memory_score nr)))
            (mul (lit 10 2) (disk_score nr)))
          (mul (lit 10 2) (latency_score nr)))
        (mul (lit 10 2) (geography_score_of nr))

  unfoldable pub calculate_reputation : NodeReputation Float → Float
  unfolding weighted_score uptime_score leadership_score cpu_score memory_score disk_score
      latency_score geography_score_of
  calculate_reputation nr =
      let score = weighted_score nr in
      if lt score (lit 0 0) then lit 0 0 else if lt (lit 100 0) score then lit 100 0 else score

  abbrev pub Peers : Type 0
  Peers = List (NodeReputation Float)

  -- the first peer with the id
  unfoldable pub find_peer : Str → Peers → Option (NodeReputation Float)
  find_peer id [] = none
  find_peer id (p ∷ ps) = if str_eq p.node_id id then some p else find_peer id ps

  unfoldable pub preferred_by_broadcast : Peers → Str
  preferred_by_broadcast [] = []
  preferred_by_broadcast (p ∷ ps) =
      if not (str_eq p.container_name []) && is_default_coordinator_node p.container_name
      then p.node_id
      else preferred_by_broadcast ps

  unfoldable pub preferred_by_mapping : Dict Str → Peers → Str
  preferred_by_mapping names [] = []
  preferred_by_mapping names (p ∷ ps) = elim (get names p.node_id) [
    | none ↦ preferred_by_mapping names ps
    | some cname ↦
        if is_default_coordinator_node cname then p.node_id else preferred_by_mapping names ps
  ]

  -- the two later searches of getPreferredCoordinatorPeerID. Its second loop returns the id of the
  -- peer that it finds even if that id is "".
  unfoldable pub has_broadcast : Peers → Bool
  has_broadcast [] = false
  has_broadcast (p ∷ ps) =
      not (str_eq p.container_name []) && is_default_coordinator_node p.container_name
      || has_broadcast ps

  unfoldable pub preferred_by_name : Dict Str → Peers → Str
  preferred_by_name names peers =
      if has_broadcast peers then preferred_by_broadcast peers else preferred_by_mapping names peers

  unfoldable pub get_preferred_coordinator_peer_id : Str → Str → Dict Str → Peers → Str
  get_preferred_coordinator_peer_id my_id container_name names peers =
      if is_default_coordinator_node container_name
      then elim (find_peer my_id peers) [ some _ ↦ my_id | none ↦ preferred_by_name names peers ]
      else preferred_by_name names peers

  -- `rand.Intn(len(peers))` and `rand.Float64()` are the arguments `rand_index` and `rand_float`.
  unfoldable pub total_reputation : Float → Peers → Float
  total_reputation total [] = total
  total_reputation total (p ∷ ps) = total_reputation (add total (calculate_reputation p)) ps

  -- the loop over the cumulative scores; past its end the last peer is taken
  unfoldable pub pick : Float → Float → Peers → Str → Str
  pick rand_val cumulative [] last = last
  pick rand_val cumulative (p ∷ ps) last =
      let reached = add cumulative (calculate_reputation p) in
      let rest = pick rand_val reached ps p.node_id in
      if le rand_val reached then p.node_id else rest

  unfoldable pub node_id_at : Peers → ℕ → Str
  node_id_at [] i = []
  node_id_at (p ∷ []) i = p.node_id
  node_id_at (p ∷ q ∷ ps) i = elim i [ ℕ.zero ↦ p.node_id | ℕ.suc j ↦ node_id_at (q ∷ ps) j ]

  unfoldable pub weighted_choice : ℕ → Float → Peers → Str
  unfolding total_reputation pick node_id_at
  weighted_choice rand_index rand_float peers =
      let total = total_reputation (lit 0 0) peers in
      if le total (lit 0 0)
      then node_id_at peers rand_index
      else pick (mul rand_float total) (lit 0 0) peers []

  unfoldable pub select_candidate : Str → Str → Dict Str → ℕ → Float → Peers → Str
  select_candidate my_id container_name names rand_index rand_float [] = my_id
  select_candidate my_id container_name names rand_index rand_float (p ∷ ps) =
      let peers = p ∷ ps in
      let preferred = get_preferred_coordinator_peer_id my_id container_name names peers in
      let weighted = weighted_choice rand_index rand_float peers in
      if str_eq preferred [] then weighted else elim (find_peer preferred peers) [
        | none ↦ weighted
        | some q ↦ if lt (lit 10 0) (calculate_reputation q) then preferred else weighted
      ]
