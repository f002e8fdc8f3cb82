-- ===== src/Capacity/CapId/Unique.antt =====
-- app/service.go: which ids GenerateCapID can give twice.
use optimusdb.Base.{
  ℕ, true, Option, none, some, [], ◌∷◌, ◌++◌, if◌then◌else◌, ◌≡◌, inl, inr, refl, sym, ap, ◌∙◌,
  arith, Bool-cases,
}
use optimusdb.Base.Text.{Str, str_eq}
use optimusdb.Capacity.CapId.{
  is_alphanumeric, all_alphanumeric, is_printable_id, Agent, or_printable, all_clean, agent_peer_id,
  shortened, dash, cap_id_of, generate_cap_id,
}
use mathlib.Core.Option.{some-injective}

abbrev head_of : Str → ℕ
head_of [] = 0
head_of (c ∷ s) = c

abbrev tail_of : Str → Str
tail_of [] = []
tail_of (c ∷ s) = s

-- Without a dash in the first part, the parts that a dash joins are determined.
dash_parts :
    (p q u w : Str)
    → all_alphanumeric p ≡ true
    → all_alphanumeric q ≡ true
    → (p ++ dash ∷ u) ≡ (q ++ dash ∷ w)
    → (p ≡ q) × (u ≡ w)
unfolding all_alphanumeric is_alphanumeric
dash_parts [] [] u w h k e = (refl, ap tail_of e)
dash_parts [] (b ∷ q) u w h k e =
    let same : dash ≡ b = ap head_of e in ground (arith, rw (sym same) at k)
dash_parts (a ∷ p) [] u w h k e = let same : a ≡ dash = ap head_of e in ground (arith, rw same at h)
dash_parts (a ∷ p) (b ∷ q) u w h k e =
    let same : a ≡ b = ap head_of e in
    let (parts, rest) = dash_parts p q u w (ground (arith, h)) (ground (arith, k)) (ap tail_of e) in
    (rw (same, parts) refl, rest)

or_printable-alphanumeric :
    (o : Option Str) (rest : Str)
    → all_alphanumeric rest ≡ true
    → all_alphanumeric (or_printable o rest) ≡ true
unfolding or_printable is_printable_id
or_printable-alphanumeric none rest h = h
or_printable-alphanumeric (some id) rest h = ground arith

agent_peer_id-alphanumeric : (kb : Agent) → all_alphanumeric (agent_peer_id kb) ≡ true
unfolding agent_peer_id all_alphanumeric
agent_peer_id-alphanumeric kb =
    or_printable-alphanumeric _ _
      (or_printable-alphanumeric _ _ (or_printable-alphanumeric (some kb.host_id) [] refl))

issued_is : (made id : Str) → (if all_clean made then some made else none) ≡ some id → made ≡ id
issued_is made id h = elim (Bool-cases (all_clean made)) [
  | inl clean ↦ some-injective _ _ (rw clean at h)
  | inr unclean ↦ let none_is : none ≡ some id = rw unclean at h in ground arith
]

generate_cap_id-is :
    (kb : Agent) (uuid id : Str)
    → generate_cap_id kb uuid ≡ some id
    → cap_id_of (agent_peer_id kb) uuid ≡ id
unfolding generate_cap_id shortened
generate_cap_id-is kb uuid id h =
    let made : Str = cap_id_of (agent_peer_id kb) uuid in
    elim (Bool-cases (str_eq (agent_peer_id kb) [])) [
      | inl starting ↦ let none_is : none ≡ some id = rw starting at h in ground arith
      | inr up ↦ issued_is made id (rw up at h)
    ]

-- Two agents with different ids never issue the same capID, whatever uuids they draw; and one agent issues
-- a capID twice only where it draws a uuid twice.
pub generate_cap_id-parts :
    (a b : Agent) (uuid uuid' id : Str)
    → generate_cap_id a uuid ≡ some id
    → generate_cap_id b uuid' ≡ some id
    → (agent_peer_id a ≡ agent_peer_id b) × (uuid ≡ uuid')
unfolding cap_id_of
generate_cap_id-parts a b uuid uuid' id h k =
    dash_parts _ _ uuid uuid' (agent_peer_id-alphanumeric a) (agent_peer_id-alphanumeric b) (
      ap (λ s. tail_of (tail_of (tail_of (tail_of s))))
        (generate_cap_id-is a uuid id h ∙ sym (generate_cap_id-is b uuid' id k)))
