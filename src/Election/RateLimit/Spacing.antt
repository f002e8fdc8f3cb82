-- ===== src/Election/RateLimit/Spacing.antt =====
-- Accepted messages of one peer and one type are spaced by the interval of the type.
use optimusdb.Base.{
  ℕ, ◌+◌, ◌-◌, ◌≤◌, ◌<◌, ◌≡◌, refl, ap, ◌∙◌, Bool, true, false, Option, none, some, List, [], ◌∷◌,
  ◌&&◌, ltb, if◌then◌else◌, arith, Bool-cases, inl, inr,
}
use mathlib.Core.Path.{subst₂}
use optimusdb.Base.Text.{Str, str_eq, str_eq_iff}
use optimusdb.Base.Dict.{get, put, read_or, get-put, get-nil, get-nil}
use optimusdb.Election.RateLimit.{
  RateLimiter, min_interval, lift_ban, ensure_peer, violate, accept, admit, allow_message,
}

-- When the last accepted message of the peer and the type came.
abbrev pub stamp : RateLimiter → Str → Str → Option ℕ
stamp rl p t = get (read_or rl.last_message p []) t

stamp-ensure_peer :
    (rl : RateLimiter) (from p t : Str) → stamp (ensure_peer rl from) p t ≡ stamp rl p t
unfolding ensure_peer read_or
stamp-ensure_peer rl from p t =
    ground (arith, get-put rl.last_message from p [], str_eq_iff from p, get-nil {V = ℕ} t)

stamp-accept :
    (rl : RateLimiter) (now : ℕ) (from u p t : Str)
    → stamp (accept rl now from u) p t
      ≡ (if str_eq from p && str_eq u t then some now else stamp rl p t)
unfolding accept read_or
stamp-accept rl now from u p t = ground (
  arith,
  get-put rl.last_message from p (put (read_or rl.last_message from []) u now),
  get-put (read_or rl.last_message from []) u t now,
  str_eq_iff from p,
)

stamp-violate :
    (rl : RateLimiter) (now : ℕ) (from p t : Str) → stamp (violate rl now from) p t ≡ stamp rl p t
unfolding violate
stamp-violate rl now from p t = ground arith

-- What a call leaves behind: an accepted message is stamped and came late enough; a refused one
-- changes no stamp.
pub data Outcome (rl : RateLimiter) (now : ℕ) (from u : Str) : RateLimiter × Bool → Type 0 where
  accepted :
      (r : RateLimiter)
      → ((last : ℕ) → stamp rl from u ≡ some last → last + min_interval u ≤ now)
      → ((p t : Str)
          → stamp r p t ≡ (if str_eq from p && str_eq u t then some now else stamp rl p t))
      → Outcome rl now from u (r, true)
  refused :
      (r : RateLimiter)
      → ((p t : Str) → stamp r p t ≡ stamp rl p t)
      → Outcome rl now from u (r, false)

min_interval_pos : (u : Str) → 0 < min_interval u
unfolding min_interval
min_interval_pos u = ground arith

late_enough :
    (now last : ℕ) (u : Str)
    → ltb (now - last) (min_interval u) ≡ false
    → last + min_interval u ≤ now
late_enough now last u h = ground (arith, min_interval_pos u)

admit-Outcome :
    (rl : RateLimiter) (now : ℕ) (from u : Str) → Outcome rl now from u (admit rl now from u)
unfolding admit
admit-Outcome rl now from u = go (stamp rl from u) refl
  where
    go : (o : Option ℕ) → stamp rl from u ≡ o → Outcome rl now from u (admit rl now from u)
    go none e = rw (e, admit) (accepted _ (λ last k. cc) (λ p t. stamp-accept rl now from u p t))
    go (some last) e = elim (Bool-cases (ltb (now - last) (min_interval u))) [
      | inl early ↦ rw (e, admit, early) (refused _ (λ p t. stamp-violate rl now from p t))
      | inr late ↦
          rw (e, admit, late)
            (accepted _ (λ l k. ground (arith, late_enough now last u late))
              (λ p t. stamp-accept rl now from u p t))
    ]

Outcome-moved :
    (a b : RateLimiter) (now : ℕ) (from u : Str) (r : RateLimiter × Bool)
    → ((p t : Str) → stamp a p t ≡ stamp b p t)
    → Outcome a now from u r
    → Outcome b now from u r
Outcome-moved a b now from u _ same (accepted r late stamped) =
    accepted r (λ last e. late last (same from u ∙ e))
      (λ p t.
        stamped p t ∙ ap (λ o. if str_eq from p && str_eq u t then some now else o) (same p t))
Outcome-moved a b now from u _ same (refused r kept) = refused r (λ p t. kept p t ∙ same p t)

allow_message-Outcome :
    (rl : RateLimiter) (now : ℕ) (from u : Str)
    → Outcome rl now from u (allow_message rl now from u)
unfolding allow_message
allow_message-Outcome rl now from u = go (get rl.banned_peers from) refl
  where
    go :
        (o : Option ℕ)
        → get rl.banned_peers from ≡ o
        → Outcome rl now from u (allow_message rl now from u)
    go none e =
        rw (e, allow_message)
          (Outcome-moved (ensure_peer rl from) rl now from u _ (stamp-ensure_peer rl from)
            (admit-Outcome (ensure_peer rl from) now from u))
    go (some until) e = elim (Bool-cases (ltb now until)) [
      | inl banned ↦ rw (e, allow_message, banned) (refused rl (λ p t. refl))
      | inr expired ↦
          rw (e, allow_message, expired)
            (Outcome-moved (ensure_peer (lift_ban rl from) from) rl now from u _
              (stamp-ensure_peer (lift_ban rl from) from)
              (admit-Outcome (ensure_peer (lift_ban rl from) from) now from u))
    ]

pub record Call : Type 0 where
  pub now : ℕ
  pub from : Str
  pub msg_type : Str

-- The instants at which messages of peer `p` and type `t` are accepted over a run of calls.
unfoldable pub accepted_at : Str → Str → RateLimiter → List Call → List ℕ
accepted_at p t rl [] = []
accepted_at p t rl (c ∷ cs) =
    let (rl', ok) = allow_message rl c.now c.from c.msg_type in
    let rest = accepted_at p t rl' cs in
    if ok && (str_eq c.from p && str_eq c.msg_type t) then c.now ∷ rest else rest

-- Every instant is at least `gap` behind the one before it, the first behind `last`.
abbrev pub SpacedFrom : ℕ → Option ℕ → List ℕ → Type 0
SpacedFrom gap last [] = Unit
SpacedFrom gap none (t ∷ ts) = SpacedFrom gap (some t) ts
SpacedFrom gap (some last) (t ∷ ts) = (last + gap ≤ t) × SpacedFrom gap (some t) ts

spaced_step :
    (gap now : ℕ) (o : Option ℕ) (ts : List ℕ)
    → ((last : ℕ) → o ≡ some last → last + gap ≤ now)
    → SpacedFrom gap (some now) ts
    → SpacedFrom gap o (now ∷ ts)
spaced_step gap now none ts h k = k
spaced_step gap now (some last) ts h k = (h last refl, k)

-- Over every run of calls, from any state, accepted messages of one peer and one type are at least
-- the interval of the type apart, the first of them also from the last one on record.
pub accepted_at-SpacedFrom :
    (p t : Str) (rl : RateLimiter) (cs : List Call)
    → SpacedFrom (min_interval t) (stamp rl p t) (accepted_at p t rl cs)
unfolding accepted_at
accepted_at-SpacedFrom p t rl [] = tt
accepted_at-SpacedFrom p t rl (c ∷ cs) =
    go (allow_message rl c.now c.from c.msg_type) (allow_message-Outcome rl c.now c.from c.msg_type)
      (accepted_at-SpacedFrom p t (allow_message rl c.now c.from c.msg_type).0 cs)
  where
    go :
        (r : RateLimiter × Bool)
        → Outcome rl c.now c.from c.msg_type r
        → SpacedFrom (min_interval t) (stamp r.0 p t) (accepted_at p t r.0 cs)
        → SpacedFrom (min_interval t) (stamp rl p t) (
            if r.1 && (str_eq c.from p && str_eq c.msg_type t)
            then c.now ∷ accepted_at p t r.0 cs
            else accepted_at p t r.0 cs)
    go _ (accepted r late stamped) ih = elim (Bool-cases (str_eq c.from p && str_eq c.msg_type t)) [
      | inl same ↦
          let from_p : c.from ≡ p = ground (arith, str_eq_iff c.from p) in
          let type_t : c.msg_type ≡ t = ground (arith, str_eq_iff c.msg_type t) in
          let now_stamped : stamp r p t ≡ some c.now = rw (stamped p t, same) in
          rw same (
            spaced_step (min_interval t) c.now (stamp rl p t) (accepted_at p t r cs)
              (subst₂ (λ a u. (last : ℕ) → stamp rl a u ≡ some last → last + min_interval u ≤ c.now)
                from_p type_t late)
              (rw now_stamped at ih))
      | inr other ↦
          let unchanged : stamp r p t ≡ stamp rl p t = rw (stamped p t, other) in
          rw other (rw unchanged at ih)
    ]
    go _ (refused r kept) ih = rw (← kept p t) ih
