-- ===== src/Election/Reputation/Laws.antt =====
-- What the score and the choice of a candidate guarantee.
use mathlib.Core.List.{Memᴰ}
use optimusdb.Base.{
  ℕ, zero, suc, Bool, true, false, not, ◌≡◌, ◌≢◌, refl, sym, ◌&&◌, Option, none, some, List, [],
  ◌∷◌, ◌++◌, map, if◌then◌else◌, Bool-cases, inl, inr, arith, All,
}
use optimusdb.Base.Text.{Str, str_eq, str_eq_iff, str_eq_refl}
use optimusdb.Base.Dict.{Dict}
use optimusdb.Base.Float.{Float64}
use optimusdb.Election.Names.{is_default_coordinator_node}
use optimusdb.Election.Reputation.{
  NodeReputation, Peers, calculate_reputation, weighted_score, find_peer, preferred_by_broadcast,
  has_broadcast, preferred_by_name, get_preferred_coordinator_peer_id, total_reputation, pick,
  node_id_at, weighted_choice, select_candidate,
}

module _ (fl : Float64) where
  open fl use {Float, lt, le, lit}

  abbrev pub ids : Peers fl → List Str
  ids = map (λ p. p.node_id)

  -- Two facts of IEEE 754 on the bounds of the score: neither is below itself, and 100 is not below 0.
  pub record HasBounds : Type 0 where
    pub zero_irrefl : lt (lit 0 0) (lit 0 0) ≡ false
    pub hundred_irrefl : lt (lit 100 0) (lit 100 0) ≡ false
    pub hundred_zero : lt (lit 100 0) (lit 0 0) ≡ false

  -- Where float64 orders 0 and 100 as IEEE 754 does, the score of a node is never below 0 and never above
  -- 100, whatever it broadcasts, a negative count of leaderships included.
  pub calculate_reputation_bounds :
      (nr : NodeReputation Float)
      → HasBounds
      → (lt (calculate_reputation fl nr) (lit 0 0) ≡ false)
        × (lt (lit 100 0) (calculate_reputation fl nr) ≡ false)
  unfolding calculate_reputation
  calculate_reputation_bounds nr b =
      go (weighted_score fl nr) b.zero_irrefl b.hundred_irrefl b.hundred_zero
    where
      go :
          (s : Float)
          → lt (lit 0 0) (lit 0 0) ≡ false
          → lt (lit 100 0) (lit 100 0) ≡ false
          → lt (lit 100 0) (lit 0 0) ≡ false
          → let r = if lt s (lit 0 0) then lit 0 0 else if lt (lit 100 0) s then lit 100 0 else s in
            (lt r (lit 0 0) ≡ false) × (lt (lit 100 0) r ≡ false)
      go s z h hz = elim (Bool-cases (lt s (lit 0 0))) [
        | inl low ↦ rw low (z, hz)
        | inr fine ↦ elim (Bool-cases (lt (lit 100 0) s)) [
          | inl high ↦ rw (fine, high) (hz, h)
          | inr good ↦ rw (fine, good) (fine, good)
        ]
      ]

  node_id_at-mem :
      (p : NodeReputation Float) (ps : Peers fl) (i : ℕ)
      → Memᴰ (node_id_at fl (p ∷ ps) i) (ids (p ∷ ps))
  unfolding node_id_at
  node_id_at-mem p [] i = Memᴰ.head refl
  node_id_at-mem p (q ∷ ps) zero = Memᴰ.head refl
  node_id_at-mem p (q ∷ ps) (suc i) = Memᴰ.tail (node_id_at-mem q ps i)

  pick-mem :
      (rand_val cumulative : Float) (ps : Peers fl) (last : Str)
      → Memᴰ (pick fl rand_val cumulative ps last) (last ∷ ids ps)
  unfolding pick
  pick-mem rand_val cumulative [] last = Memᴰ.head refl
  pick-mem rand_val cumulative (p ∷ ps) last =
      elim (Bool-cases (le rand_val (fl.add cumulative (calculate_reputation fl p)))) [
        | inl reached ↦ rw reached (Memᴰ.tail (Memᴰ.head refl))
        | inr further ↦ rw further (
            Memᴰ.tail
              (pick-mem rand_val (fl.add cumulative (calculate_reputation fl p)) ps p.node_id))
      ]

  pick_nonempty-mem :
      (rand_val cumulative : Float) (p : NodeReputation Float) (ps : Peers fl) (last : Str)
      → Memᴰ (pick fl rand_val cumulative (p ∷ ps) last) (ids (p ∷ ps))
  unfolding pick
  pick_nonempty-mem rand_val cumulative p ps last =
      elim (Bool-cases (le rand_val (fl.add cumulative (calculate_reputation fl p)))) [
        | inl reached ↦ rw reached (Memᴰ.head refl)
        | inr further ↦
            rw further
              (pick-mem rand_val (fl.add cumulative (calculate_reputation fl p)) ps p.node_id)
      ]

  weighted_choice-mem :
      (rand_index : ℕ) (rand_float : Float) (p : NodeReputation Float) (ps : Peers fl)
      → Memᴰ (weighted_choice fl rand_index rand_float (p ∷ ps)) (ids (p ∷ ps))
  unfolding weighted_choice
  weighted_choice-mem rand_index rand_float p ps =
      elim (Bool-cases (le (total_reputation fl (lit 0 0) (p ∷ ps)) (lit 0 0))) [
        | inl nothing ↦ rw nothing (node_id_at-mem p ps rand_index)
        | inr some_weight ↦ rw some_weight (pick_nonempty-mem _ _ p ps [])
      ]

  find_peer-mem :
      (id : Str) (ps : Peers fl) (q : NodeReputation Float)
      → find_peer fl id ps ≡ some q
      → Memᴰ id (ids ps)
  unfolding find_peer
  find_peer-mem id [] q e = cc
  find_peer-mem id (p ∷ ps) q e = elim (Bool-cases (str_eq p.node_id id)) [
    | inl same ↦ Memᴰ.head (sym ((str_eq_iff p.node_id id).0 same))
    | inr other ↦ Memᴰ.tail (find_peer-mem id ps q (rw other at e))
  ]

  -- The vote goes to one of the peers that are known, whatever the scores and the random numbers.
  pub select_candidate-mem :
      (my_id container_name : Str) (names : Dict Str) (rand_index : ℕ) (rand_float : Float)
      (p : NodeReputation Float) (ps : Peers fl)
      → Memᴰ
          (select_candidate fl my_id container_name names rand_index rand_float (p ∷ ps))
          (ids (p ∷ ps))
  unfolding select_candidate
  select_candidate-mem my_id container_name names rand_index rand_float p ps =
      go (get_preferred_coordinator_peer_id fl my_id container_name names (p ∷ ps)) _ refl
    where
      go :
          (preferred : Str) (found : Option (NodeReputation Float))
          → find_peer fl preferred (p ∷ ps) ≡ found
          → Memᴰ
              (if str_eq preferred []
                then weighted_choice fl rand_index rand_float (p ∷ ps)
                else elim found [
                  | none ↦ weighted_choice fl rand_index rand_float (p ∷ ps)
                  | some q ↦
                      if lt (lit 10 0) (calculate_reputation fl q)
                      then preferred
                      else weighted_choice fl rand_index rand_float (p ∷ ps)
                ])
              (ids (p ∷ ps))
      go preferred none e = elim (Bool-cases (str_eq preferred [])) [
        | inl nobody ↦ rw nobody (weighted_choice-mem rand_index rand_float p ps)
        | inr somebody ↦ rw somebody (weighted_choice-mem rand_index rand_float p ps)
      ]
      go preferred (some q) e = elim (Bool-cases (str_eq preferred [])) [
        | inl nobody ↦ rw nobody (weighted_choice-mem rand_index rand_float p ps)
        | inr somebody ↦ elim (Bool-cases (lt (lit 10 0) (calculate_reputation fl q))) [
          | inl healthy ↦ rw (somebody, healthy) (find_peer-mem preferred (p ∷ ps) q e)
          | inr weak ↦ rw (somebody, weak) (weighted_choice-mem rand_index rand_float p ps)
        ]
      ]

  -- A peer that broadcasts the name of the default coordinator.
  abbrev pub is_preferred : NodeReputation Float → Bool
  is_preferred p = not (str_eq p.container_name []) && is_default_coordinator_node p.container_name

  has_broadcast_at :
      (before : Peers fl) (q : NodeReputation Float) (after : Peers fl)
      → is_preferred q ≡ true
      → has_broadcast fl (before ++ q ∷ after) ≡ true
  unfolding has_broadcast
  has_broadcast_at [] q after h = ground arith
  has_broadcast_at (p ∷ before) q after h = ground (arith, has_broadcast_at before q after h)

  preferred_by_broadcast_at :
      (before : Peers fl) (q : NodeReputation Float) (after : Peers fl)
      → All (λ p. is_preferred p ≡ false) before
      → is_preferred q ≡ true
      → preferred_by_broadcast fl (before ++ q ∷ after) ≡ q.node_id
  unfolding preferred_by_broadcast
  preferred_by_broadcast_at [] q after none_before h = rw h
  preferred_by_broadcast_at (p ∷ before) q after none_before h =
      rw (none_before.0) (preferred_by_broadcast_at before q after none_before.1 h)

  find_peer_at :
      (before : Peers fl) (q : NodeReputation Float) (after : Peers fl)
      → All (λ p. p.node_id ≢ q.node_id) before
      → find_peer fl q.node_id (before ++ q ∷ after) ≡ some q
  unfolding find_peer
  find_peer_at [] q after distinct = rw (str_eq_refl q.node_id)
  find_peer_at (p ∷ before) q after distinct = elim (Bool-cases (str_eq p.node_id q.node_id)) [
    | inl same ↦ absurd (distinct.0 ((str_eq_iff p.node_id q.node_id).0 same))
    | inr other ↦ rw other (find_peer_at before q after distinct.1)
  ]

  module _ (my_id container_name : Str) (names : Dict Str) (rand_index : ℕ)
      (rand_float : Float) where
    preferred_found :
        (before : Peers fl) (q : NodeReputation Float) (after : Peers fl)
        → is_default_coordinator_node container_name ≡ false
        → All (λ p. is_preferred p ≡ false) before
        → is_preferred q ≡ true
        → get_preferred_coordinator_peer_id fl my_id container_name names (before ++ q ∷ after)
          ≡ q.node_id
    unfolding get_preferred_coordinator_peer_id preferred_by_name
    preferred_found before q after ordinary none_before pref =
        rw (ordinary, has_broadcast_at before q after pref)
          (preferred_by_broadcast_at before q after none_before pref)

    select_candidate_found :
        (peers : Peers fl) (id : Str) (q : NodeReputation Float)
        → get_preferred_coordinator_peer_id fl my_id container_name names peers ≡ id
        → str_eq id [] ≡ false
        → find_peer fl id peers ≡ some q
        → lt (lit 10 0) (calculate_reputation fl q) ≡ true
        → select_candidate fl my_id container_name names rand_index rand_float peers ≡ id
    unfolding select_candidate
    select_candidate_found [] id q pref named found healthy = unfold find_peer in cc
    select_candidate_found (p ∷ ps) id q pref named found healthy =
        rw (pref, named, found, healthy) pref

  -- Every node that is not itself a default coordinator votes for the first peer `q` that broadcasts
  -- the default coordinator's name and whose score is above 10, whatever its random numbers and
  -- whatever names it has learnt before, if `q` has an id that no peer before it shares.
  pub select_candidate_preferred :
      (my_id container_name : Str) (names : Dict Str) (rand_index : ℕ) (rand_float : Float)
      (before : Peers fl) (q : NodeReputation Float) (after : Peers fl)
      → is_default_coordinator_node container_name ≡ false
      → All (λ p. is_preferred p ≡ false) before
      → All (λ p. p.node_id ≢ q.node_id) before
      → is_preferred q ≡ true
      → str_eq q.node_id [] ≡ false
      → lt (lit 10 0) (calculate_reputation fl q) ≡ true
      → select_candidate fl my_id container_name names rand_index rand_float (before ++ q ∷ after)
        ≡ q.node_id
  select_candidate_preferred my_id container_name names rand_index rand_float before q after
        ordinary none_before distinct pref named healthy =
      select_candidate_found my_id container_name names rand_index rand_float (before ++ q ∷ after)
        q.node_id q
        (preferred_found my_id container_name names rand_index rand_float before q after ordinary
          none_before pref)
        named (find_peer_at before q after distinct) healthy
