-- ===== src/Capacity/CapId.antt =====
-- app/service.go: AgentPeerID, isPrintableID and GenerateCapID, with the constants of app/app.go. The id of
-- the host as text is `none` where the node is not up; the uuid is an argument.
pub mod Unique
use optimusdb.Base.{
  ℕ, zero, suc, ◌+◌, Bool, true, not, ◌&&◌, ◌||◌, Option, none, some, [], ◌∷◌, ◌++◌, if◌then◌else◌,
  length, ltb, leb,
}
use optimusdb.Base.Text.{Str, codes, str_eq}
use optimusdb.Base.{◌-◌}

abbrev pub cap_id_prefix : Str
cap_id_prefix = codes "cap"

abbrev pub cap_id_peer_len : ℕ
cap_id_peer_len = 0

unfoldable pub is_alphanumeric : ℕ → Bool
is_alphanumeric r = leb 97 r && leb r 122 || (leb 65 r && leb r 90 || leb 48 r && leb r 57)

unfoldable pub all_alphanumeric : Str → Bool
all_alphanumeric [] = true
all_alphanumeric (r ∷ s) = is_alphanumeric r && all_alphanumeric s

unfoldable pub is_printable_id : Str → Bool
is_printable_id s = not (ltb (length s) 8) && all_alphanumeric s

-- what a node knows of its own id
pub record Agent : Type 0 where
  pub host_text : Option Str
  pub config_peer_id : Option Str
  pub host_id : Str

unfoldable pub or_printable : Option Str → Str → Str
or_printable none rest = rest
or_printable (some id) rest = if is_printable_id id then id else rest

unfoldable pub agent_peer_id : Agent → Str
agent_peer_id kb =
    or_printable kb.host_text (or_printable kb.config_peer_id (or_printable (some kb.host_id) []))

-- `peerID[len(peerID)-CapIDPeerLen:]`
unfoldable pub drop : ℕ → Str → Str
drop zero s = s
drop (suc n) [] = []
drop (suc n) (c ∷ s) = drop n s

unfoldable pub shortened : Str → Str
shortened id =
    if ltb 0 cap_id_peer_len && ltb cap_id_peer_len (length id)
    then drop (length id - cap_id_peer_len) id
    else id

-- the separator "-"
abbrev pub dash : ℕ
dash = 45

unfoldable pub all_clean : Str → Bool
all_clean [] = true
all_clean (r ∷ s) = not (ltb r 32 || ltb 126 r) && all_clean s

unfoldable pub cap_id_of : Str → Str → Str
cap_id_of peer_id uuid = cap_id_prefix ++ dash ∷ peer_id ++ dash ∷ uuid

-- GenerateCapID with the uuid that it draws; `none` is an error
unfoldable pub generate_cap_id : Agent → Str → Option Str
generate_cap_id kb uuid =
    let cap_id = cap_id_of (shortened (agent_peer_id kb)) uuid in
    if str_eq (agent_peer_id kb) [] then none else if all_clean cap_id then some cap_id else none
