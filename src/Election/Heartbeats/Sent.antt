-- ===== src/Election/Heartbeats/Sent.antt =====
-- When a heartbeat is sent.
use optimusdb.Base.{
  ℕ, zero, suc, ◌+◌, ◌*◌, ◌/◌, ◌≤◌, ◌<◌, ◌≡◌, refl, Bool, true, false, [], ◌∷◌, if◌then◌else◌,
  arith, Bool-cases, inl, inr, ◌==◌, ltb,
}
use optimusdb.Base.Int.{ℤ}
use optimusdb.Base.Float.{Float64}
use optimusdb.Election.RateLimit.{second}
use optimusdb.Election.Node.{
  coordinator, follower, Node, HeartbeatMessage, publish_heartbeat, heal_mesh, Env,
}
use optimusdb.Election.Roles.{publish_from}
use optimusdb.Election.Heartbeats.{heartbeat_from, beat, send_heartbeats_as, send_heartbeats}

publish_from_step :
    (i left : ℕ) (ok : ℕ → Bool)
    → publish_from i (suc left) ok ≡ (if ok i then true else publish_from (suc i) left ok)
unfolding publish_from
publish_from_step i left ok = refl

publish_from_finds :
    (i left k : ℕ) (ok : ℕ → Bool)
    → i ≤ k
    → k < i + left
    → ok k ≡ true
    → publish_from i left ok ≡ true
publish_from_finds i zero k ok h l e = absurd (omega arith)
publish_from_finds i (suc left) k ok h l e = elim (Bool-cases (ok i)) [
  | inl now ↦ rw (publish_from_step i left ok, now) refl
  | inr later ↦
      rw (publish_from_step i left ok, later)
        (publish_from_finds (suc i) left k ok (next later) (omega arith) e)
]
  where
    next : ok i ≡ false → suc i ≤ k
    next later = elim (Bool-cases (k == i)) [
      | inl same ↦
          let k_is : k ≡ i = ground arith in let e' : ok i ≡ true = rw k_is at e in ground arith
      | inr other ↦ ground arith
    ]

publish_from_fails :
    (i left : ℕ) (ok : ℕ → Bool)
    → ((k : ℕ) → i ≤ k → k < i + left → ok k ≡ false)
    → publish_from i left ok ≡ false
publish_from_fails i zero ok h = unfold publish_from in refl
publish_from_fails i (suc left) ok h =
    rw (publish_from_step i left ok, h i (omega arith) (omega arith))
      (publish_from_fails (suc i) left ok (λ k a b. h k (omega arith) (omega arith)))

heartbeat_from_step :
    (i left : ℕ) (ok : ℕ → Bool)
    → heartbeat_from i (suc left) ok
      ≡ (if publish_from (i * 3) 3 ok then true else heartbeat_from (suc i) left ok)
unfolding heartbeat_from
heartbeat_from_step i left ok = refl

heartbeat_from_finds :
    (i left k : ℕ) (ok : ℕ → Bool)
    → i * 3 ≤ k
    → k < (i + left) * 3
    → ok k ≡ true
    → heartbeat_from i left ok ≡ true
heartbeat_from_finds i zero k ok h l e = absurd (omega arith)
heartbeat_from_finds i (suc left) k ok h l e = elim (Bool-cases (publish_from (i * 3) 3 ok)) [
  | inl now ↦ rw (heartbeat_from_step i left ok, now) refl
  | inr later ↦
      rw (heartbeat_from_step i left ok, later)
        (heartbeat_from_finds (suc i) left k ok (next later) (omega arith) e)
]
  where
    next : publish_from (i * 3) 3 ok ≡ false → suc i * 3 ≤ k
    next later = elim (Bool-cases (ltb k (i * 3 + 3))) [
      | inl near ↦ let found = publish_from_finds (i * 3) 3 k ok h (ground arith) e in ground arith
      | inr far ↦ ground arith
    ]

heartbeat_from_fails :
    (i left : ℕ) (ok : ℕ → Bool)
    → ((k : ℕ) → i * 3 ≤ k → k < (i + left) * 3 → ok k ≡ false)
    → heartbeat_from i left ok ≡ false
heartbeat_from_fails i zero ok h = unfold heartbeat_from in refl
heartbeat_from_fails i (suc left) ok h =
    rw
      (
        heartbeat_from_step i left ok,
        publish_from_fails (i * 3) 3 ok (λ k a b. h k a (omega arith)),
      )
      (heartbeat_from_fails (suc i) left ok (λ k a b. h k (omega arith) (omega arith)))

module _ (fl : Float64) where
  open fl use {Float}

  abbrev pub own_heartbeat : Env fl → Node → ℤ → HeartbeatMessage
  own_heartbeat env n term = record { leader_id = n.id; time = env.now / second; term = term }

  -- The tick of a coordinator sends its own heartbeat, once, if one of nine attempts to publish
  -- succeeds; if all nine fail it asks for the mesh to be healed. Any other node stops and sends
  -- nothing.
  pub send_heartbeats_lem :
      (env : Env fl) (n : Node) (term : ℤ)
      → let (goes_on, sent) = send_heartbeats fl env n term in
        (n.role ≡ coordinator
          → (goes_on ≡ true)
            × ((k : ℕ)
                → k < 9
                → env.publish_ok k ≡ true
                → sent ≡ publish_heartbeat (own_heartbeat env n term) ∷ [])
            × (((k : ℕ) → k < 9 → env.publish_ok k ≡ false) → sent ≡ heal_mesh ∷ []))
        × (n.role ≡ follower → (goes_on ≡ false) × (sent ≡ []))
  unfolding send_heartbeats send_heartbeats_as beat
  send_heartbeats_lem env n term = (
    λ role. rw role (
      refl,
      λ k l e. rw (heartbeat_from_finds 0 3 k env.publish_ok (omega arith) (omega arith) e) refl,
      λ h. rw (heartbeat_from_fails 0 3 env.publish_ok (λ k a b. h k (omega arith))) refl,
    ),
    λ role. rw role (refl, refl),
  )
