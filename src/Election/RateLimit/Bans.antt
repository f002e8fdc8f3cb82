-- ===== src/Election/RateLimit/Bans.antt =====
-- How violations are counted, and what a ban refuses.
use optimusdb.Base.{
  ℕ, ◌+◌, ◌-◌, ◌≤◌, ◌<◌, ◌≡◌, ◌≢◌, refl, ◌∙◌, false, Option, none, some, List, [], ◌∷◌, ltb, arith,
  Bool-cases, inl, inr, All,
}
use optimusdb.Base.Text.{Str, str_eq, str_eq_iff, str_eq_refl}
use optimusdb.Base.Dict.{get, read_or, get-put, get-remove, read_or-put, read_or-remove}
use optimusdb.Election.RateLimit.{
  RateLimiter, lift_ban, ensure_peer, violate, accept, admit, allow_message, new_rate_limiter,
}
use optimusdb.Election.RateLimit.Spacing.{Call, accepted_at}

abbrev pub count : RateLimiter → Str → ℕ
count rl p = read_or rl.violators p 0

abbrev pub ban : RateLimiter → Str → Option ℕ
ban rl p = get rl.banned_peers p

-- A count stays at 10 or below, and a peer at 10 is banned.
abbrev CountedAt : RateLimiter → Str → Type 0
CountedAt rl p = (count rl p ≤ 10) × (count rl p ≡ 10 → ban rl p ≢ none)

pub record IsCounted (rl : RateLimiter) : Type 0 where
  pub at : (p : Str) → CountedAt rl p

ensure_peer-CountedAt :
    (rl : RateLimiter) (from p : Str) → CountedAt rl p → CountedAt (ensure_peer rl from) p
unfolding ensure_peer
ensure_peer-CountedAt rl from p h = ground arith

lift_ban-CountedAt :
    (rl : RateLimiter) (from p : Str) → CountedAt rl p → CountedAt (lift_ban rl from) p
unfolding lift_ban
lift_ban-CountedAt rl from p h =
    ground (arith, read_or-remove rl.violators from p 0, get-remove rl.banned_peers from p)

accept-CountedAt :
    (rl : RateLimiter) (now : ℕ) (from u p : Str)
    → CountedAt rl from
    → CountedAt rl p
    → CountedAt (accept rl now from u) p
unfolding accept
accept-CountedAt rl now from u p k h =
    ground (arith, read_or-put rl.violators from p (count rl from - 1) 0, str_eq_iff from p)

-- A violation is counted only for a peer that is not banned.
violate-CountedAt :
    (rl : RateLimiter) (now : ℕ) (from p : Str)
    → ban rl from ≡ none
    → CountedAt rl from
    → CountedAt rl p
    → CountedAt (violate rl now from) p
unfolding violate
violate-CountedAt rl now from p free k h = ground (
  arith,
  read_or-put rl.violators from p (count rl from + 1) 0,
  get-put rl.banned_peers from p (now + 120_000_000_000),
  str_eq_iff from p,
)

admit-CountedAt :
    (rl : RateLimiter) (now : ℕ) (from u p : Str)
    → ban rl from ≡ none
    → CountedAt rl from
    → CountedAt rl p
    → CountedAt (admit rl now from u).0 p
unfolding admit
admit-CountedAt rl now from u p free k h =
    ground (arith, accept-CountedAt rl now from u p k h, violate-CountedAt rl now from p free k h)

ban-ensure_peer : (rl : RateLimiter) (from p : Str) → ban (ensure_peer rl from) p ≡ ban rl p
unfolding ensure_peer
ban-ensure_peer rl from p = ground arith

ban-lift_ban : (rl : RateLimiter) (from : Str) → ban (lift_ban rl from) from ≡ none
unfolding lift_ban
ban-lift_ban rl from = ground (arith, get-remove rl.banned_peers from from, str_eq_refl from)

-- A call keeps every count at 10 or below, and every peer at 10 banned.
pub allow_message-IsCounted :
    (rl : RateLimiter) (now : ℕ) (from u : Str)
    → IsCounted rl
    → IsCounted (allow_message rl now from u).0
unfolding allow_message
allow_message-IsCounted rl now from u h = record { at = λ p. go p (ban rl from) refl }
  where
    entered :
        (r : RateLimiter) (p : Str)
        → ban r from ≡ none
        → CountedAt r from
        → CountedAt r p
        → CountedAt (admit (ensure_peer r from) now from u).0 p
    entered r p free k l =
        admit-CountedAt (ensure_peer r from) now from u p (ban-ensure_peer r from from ∙ free)
          (ensure_peer-CountedAt r from from k) (ensure_peer-CountedAt r from p l)

    go : (p : Str) (o : Option ℕ) → ban rl from ≡ o → CountedAt (allow_message rl now from u).0 p
    go p none e = rw (e, allow_message) (entered rl p e (h.at from) (h.at p))
    go p (some until) e = elim (Bool-cases (ltb now until)) [
      | inl banned ↦ rw (e, allow_message, banned) (h.at p)
      | inr expired ↦
          rw (e, allow_message, expired)
            (entered (lift_ban rl from) p (ban-lift_ban rl from)
              (lift_ban-CountedAt rl from from (h.at from)) (lift_ban-CountedAt rl from p (h.at p)))
    ]

pub run : RateLimiter → List Call → RateLimiter
run rl [] = rl
run rl (c ∷ cs) = run (allow_message rl c.now c.from c.msg_type).0 cs

run_from-IsCounted : (rl : RateLimiter) (cs : List Call) → IsCounted rl → IsCounted (run rl cs)
unfolding run
run_from-IsCounted rl [] h = h
run_from-IsCounted rl (c ∷ cs) h =
    run_from-IsCounted (allow_message rl c.now c.from c.msg_type).0 cs
      (allow_message-IsCounted rl c.now c.from c.msg_type h)

new_rate_limiter-IsCounted : IsCounted new_rate_limiter
unfolding new_rate_limiter read_or get
new_rate_limiter-IsCounted = record { at = λ p. (omega arith, λ e. absurd (omega arith)) }

ban-admit_ne :
    (rl : RateLimiter) (now : ℕ) (from u p : Str)
    → str_eq from p ≡ false
    → ban (admit rl now from u).0 p ≡ ban rl p
unfolding admit violate accept
ban-admit_ne rl now from u p ne =
    ground (arith, get-put rl.banned_peers from p (now + 120_000_000_000))

ban-lift_ban_ne :
    (rl : RateLimiter) (from p : Str) → str_eq from p ≡ false → ban (lift_ban rl from) p ≡ ban rl p
unfolding lift_ban
ban-lift_ban_ne rl from p ne = ground (arith, get-remove rl.banned_peers from p)

-- A call of another peer leaves a ban alone.
ban-allow_message_ne :
    (rl : RateLimiter) (now : ℕ) (from u p : Str)
    → str_eq from p ≡ false
    → ban (allow_message rl now from u).0 p ≡ ban rl p
unfolding allow_message
ban-allow_message_ne rl now from u p ne = ground (
  arith,
  ban-admit_ne (ensure_peer rl from) now from u p,
  ban-admit_ne (ensure_peer (lift_ban rl from) from) now from u p,
  ban-ensure_peer rl from p,
  ban-ensure_peer (lift_ban rl from) from p,
  ban-lift_ban_ne rl from p,
)

-- A call of the banned peer before the end of the ban is refused, and changes nothing.
allow_message_banned :
    (rl : RateLimiter) (now : ℕ) (p u : Str) (until : ℕ)
    → ban rl p ≡ some until
    → now < until
    → allow_message rl now p u ≡ (rl, false)
unfolding allow_message
allow_message_banned rl now p u until b h = ground arith

-- While a peer is banned none of its messages, of any type, is accepted, whatever calls come.
pub accepted_at_banned :
    (p t : Str) (until : ℕ) (rl : RateLimiter) (cs : List Call)
    → ban rl p ≡ some until
    → All (λ c. c.now < until) cs
    → accepted_at p t rl cs ≡ []
unfolding accepted_at
accepted_at_banned p t until rl [] b h = refl
accepted_at_banned p t until rl (c ∷ cs) b h = elim (Bool-cases (str_eq c.from p)) [
  | inl same ↦
      let from_p : c.from ≡ p = ground (arith, str_eq_iff c.from p) in
      let still : allow_message rl c.now c.from c.msg_type ≡ (rl, false) =
        rw from_p (allow_message_banned rl c.now p c.msg_type until b h.0) in
      rw still (accepted_at_banned p t until rl cs b h.1)
  | inr other ↦ ground (
    arith,
    accepted_at_banned p t until (allow_message rl c.now c.from c.msg_type).0 cs
        (ban-allow_message_ne rl c.now c.from c.msg_type p other ∙ b) h.1,
  )
]

-- From a new limiter, after any calls, no peer has more than ten violations, and every peer with
-- ten is banned.
pub run-IsCounted : (cs : List Call) → IsCounted (run new_rate_limiter cs)
run-IsCounted cs = run_from-IsCounted new_rate_limiter cs new_rate_limiter-IsCounted
