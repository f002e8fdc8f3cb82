-- ===== src/Election/Failure/Confirmed.antt =====
-- What a confirmed failure of the leader takes.
use mathlib.Core.List.{Memᴰ}
use optimusdb.Base.{
  ℕ, ◌+◌, ◌-◌, ◌*◌, ◌≡◌, ◌≤◌, ◌<◌, refl, Bool, true, false, ◌&&◌, List, [], ◌∷◌, arith, Bool-cases,
  inl, inr, ltb, leb, ◌==◌, if◌then◌else◌,
}
use optimusdb.Base.Text.{str_eq_refl}
use optimusdb.Base.Float.{Float64}
use optimusdb.Election.Names.{is_default_coordinator_node}
use optimusdb.Election.RateLimit.{second}
use optimusdb.Election.Node.{
  Role, coordinator, follower, Node, Effect, Env, heal_mesh, start_election,
}
use optimusdb.Election.Roles.{promote_as_default_coordinator}
use optimusdb.Election.Messages.{has_recent_message_peers}
use optimusdb.Election.Failure.{
  tick_as, heartbeat_timeout, heartbeat_retry_limit, reset_misses, miss, is_confirmed,
  leader_failed, follower_tick, check_leader_failure, ticks,
}
use optimusdb.Election.Roles.{announce_leader}
use optimusdb.Base.{All}
use optimusdb.Election.Roles.{publish_message}

not_yet : (n : Node) {k : ℕ} → n.heartbeat_missed ≡ k → k < 2 → is_confirmed (miss n) ≡ false
unfolding is_confirmed miss
not_yet n e h = ground arith

at_limits :
    (n : Node)
    → 2 ≤ n.heartbeat_missed
    → n.required_consecutive_failures ≤ n.consecutive_heartbeat_failures + 1
    → is_confirmed (miss n) ≡ true
unfolding is_confirmed miss
at_limits n h k = ground arith

module _ (fl : Float64) where
  open fl use {Float}

  -- What a tick does to a follower whose leader has been silent for longer than the timeout, with
  -- the misses counted: below the limits it only counts; at the limits, where the mesh has a peer or
  -- a message came within the last minute, it starts an election, unless one runs, and counts afresh.
  abbrev Silent : Env fl → Node → Type 0
  Silent env n =
      (n.role ≡ follower)
      × (0 < n.last_heartbeat)
      × (n.last_heartbeat + heartbeat_timeout < env.now)

  late_tick :
      (env : Env fl) (mesh discovered : ℕ) (busy : Bool) (n : Node)
      → Silent env n
      → check_leader_failure fl env mesh discovered busy n ≡ (
          if is_confirmed (miss n)
          then leader_failed fl env mesh discovered busy (miss n)
          else (miss n, []))
  unfolding check_leader_failure tick_as follower_tick
  late_tick env mesh discovered busy n (role, heard, late) =
      let a : n.last_heartbeat == 0 ≡ false = ground arith in
      let b : ltb heartbeat_timeout (env.now - n.last_heartbeat) ≡ true = ground arith in
      rw (role, a, b) refl

  counts :
      (env : Env fl) (mesh discovered : ℕ) (busy : Bool) (n : Node)
      → Silent env n
      → is_confirmed (miss n) ≡ false
      → check_leader_failure fl env mesh discovered busy n ≡ (miss n, [])
  counts env mesh discovered busy n s c = rw (late_tick env mesh discovered busy n s, c) refl

  elects :
      (env : Env fl) (mesh discovered : ℕ) (n : Node)
      → Silent env n
      → is_confirmed (miss n) ≡ true
      → 0 < mesh
      → check_leader_failure fl env mesh discovered false n
        ≡ (reset_misses (miss n), start_election ∷ [])
  unfolding leader_failed
  elects env mesh discovered n s c m =
      let a : mesh == 0 ≡ false = ground arith in
      rw (late_tick env mesh discovered false n s, c, a) refl

  -- A follower that has missed nothing so far and hears no leader for three ticks,
  -- each later than the timeout, asks for one election in the third, where the mesh has a peer and no
  -- election runs after the pause, and the count starts afresh.
  pub ticks_elect :
      (a b c : Env fl) (mesh_a mesh_b mesh_c discovered : ℕ) (busy_a busy_b : Bool) (n : Node)
      → n.role ≡ follower
      → n.heartbeat_missed ≡ 0
      → n.consecutive_heartbeat_failures ≡ 0
      → n.required_consecutive_failures ≡ 3
      → 0 < n.last_heartbeat
      → n.last_heartbeat + heartbeat_timeout < a.now
      → a.now ≤ b.now
      → b.now ≤ c.now
      → 0 < mesh_c
      → ticks fl
          ((a, mesh_a, discovered, busy_a)
            ∷ (b, mesh_b, discovered, busy_b)
            ∷ (c, mesh_c, discovered, false)
            ∷ [])
          n
        ≡ (reset_misses n, start_election ∷ [])
  unfolding ticks miss reset_misses
  ticks_elect a b c mesh_a mesh_b mesh_c discovered busy_a busy_b n role missed failed limit heard
        late ab bc m =
      let first =
        counts a mesh_a discovered busy_a n (role, heard, late) (not_yet n missed (ground arith)) in
      let n' = miss n in
      let second' =
        counts b mesh_b discovered busy_b n' (role, heard, ground arith)
          (not_yet n' refl (ground arith)) in
      let n'' = miss n' in
      let third =
        elects c mesh_c discovered n'' (role, heard, ground arith)
          (at_limits n'' (ground arith) (ground arith)) m in
      rw (first, second', third) refl

  asks : Effect Float → Bool
  asks start_election = true
  asks _ = false

  quiet :
      (sent : List (Effect Float)) → All (λ e. asks e ≡ false) sent → Memᴰ start_election sent → ⊥
  unfolding asks
  quiet [] h m = elim m [ ]
  quiet (e ∷ sent) (h, hs) (Memᴰ.head p) =
      let h' : asks start_election ≡ false = rw (← p) at h in ground arith
  quiet (e ∷ sent) (h, hs) (Memᴰ.tail m) = quiet sent hs m

  promotion_quiet :
      (env : Env fl) (n : Node)
      → All (λ e. asks e ≡ false) (promote_as_default_coordinator fl env n).1
  unfolding promote_as_default_coordinator announce_leader asks
  promotion_quiet env n = elim (Bool-cases (publish_message env.publish_ok)) [
    | inl ok ↦ rw (ok, str_eq_refl n.id) (refl, (refl, (refl, tt)))
    | inr failed ↦ rw failed (refl, (refl, tt))
  ]

  leader_failed_elects :
      (env : Env fl) (mesh discovered : ℕ) (busy : Bool) (n : Node)
      → Memᴰ start_election (leader_failed fl env mesh discovered busy n).1
      → busy ≡ false
  unfolding leader_failed asks
  leader_failed_elects env mesh discovered busy n m =
      let recent = has_recent_message_peers n env.now (60 * second) in
      elim (Bool-cases ((mesh == 0 && recent == 0) && ltb 0 discovered)) [
        | inl isolated ↦
            elim (Bool-cases (
              is_default_coordinator_node n.container_name
              && leb 2 (n.consecutive_election_failures + 1))) [
                | inl chosen ↦ absurd (quiet _ (promotion_quiet env _) (rw (isolated, chosen) at m))
                | inr other ↦ absurd (quiet (heal_mesh ∷ []) (refl, tt) (rw (isolated, other) at m))
              ]
        | inr joined ↦ elim (Bool-cases busy) [
          | inl runs ↦ absurd (quiet [] tt (rw (joined, runs) at m))
          | inr free ↦ free
        ]
      ]

  follower_tick_elects :
      (env : Env fl) (mesh discovered : ℕ) (busy : Bool) (n : Node)
      → Memᴰ start_election (follower_tick fl env mesh discovered busy n).1
      → (busy ≡ false)
        × (heartbeat_timeout < env.now - n.last_heartbeat)
        × (is_confirmed (miss n) ≡ true)
  unfolding follower_tick
  follower_tick_elects env mesh discovered busy n m = elim (Bool-cases (n.last_heartbeat == 0)) [
    | inl new ↦ absurd (quiet [] tt (rw new at m))
    | inr heard ↦ elim (Bool-cases (ltb heartbeat_timeout (env.now - n.last_heartbeat))) [
      | inl late ↦ elim (Bool-cases (is_confirmed (miss n))) [
        | inl confirmed ↦ (
          leader_failed_elects env mesh discovered busy (miss n) (rw (heard, late, confirmed) at m),
          ground arith,
          confirmed,
        )
        | inr early ↦ absurd (quiet [] tt (rw (heard, late, early) at m))
      ]
      | inr fresh ↦ absurd (quiet [] tt (rw (heard, fresh) at m))
    ]
  ]

  -- A tick asks for an election only at a follower that runs none when its pause is over, whose leader
  -- has been silent at the tick for longer than the timeout, and that counts with this tick at least as
  -- many misses as both limits.
  pub check_leader_failure_elects :
      (env : Env fl) (mesh discovered : ℕ) (busy : Bool) (n : Node)
      → Memᴰ start_election (check_leader_failure fl env mesh discovered busy n).1
      → (n.role ≡ follower)
        × (busy ≡ false)
        × (heartbeat_timeout < env.now - n.last_heartbeat)
        × (heartbeat_retry_limit ≤ n.heartbeat_missed + 1)
        × (n.required_consecutive_failures ≤ n.consecutive_heartbeat_failures + 1)
  unfolding check_leader_failure tick_as is_confirmed miss
  check_leader_failure_elects env mesh discovered busy n m = go n.role refl m
    where
      limits :
          is_confirmed (miss n) ≡ true
          → (heartbeat_retry_limit ≤ n.heartbeat_missed + 1)
            × (n.required_consecutive_failures ≤ n.consecutive_heartbeat_failures + 1)
      limits c = ground arith

      go :
          (r : Role)
          → n.role ≡ r
          → Memᴰ start_election (tick_as fl r env mesh discovered busy n).1
          → (n.role ≡ follower)
            × (busy ≡ false)
            × (heartbeat_timeout < env.now - n.last_heartbeat)
            × (heartbeat_retry_limit ≤ n.heartbeat_missed + 1)
            × (n.required_consecutive_failures ≤ n.consecutive_heartbeat_failures + 1)
      go coordinator role m = absurd (quiet [] tt m)
      go follower role m =
          let (free, late, confirmed) = follower_tick_elects env mesh discovered busy n m in
          let (missed, failed) = limits confirmed in (role, free, late, missed, failed)
