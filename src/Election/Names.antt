-- ===== src/Election/Names.antt =====
-- election/reputationBasedElection.go: how a container's name says whether the node is the default
-- coordinator. Strings are lists of bytes; a byte above 0x7f is part of no letter or digit, so the
-- loop over runes is a loop over bytes.
pub mod Laws
use optimusdb.Base.{
  ℕ, ◌-◌, Bool, true, false, not, ◌&&◌, ◌||◌, List, [], ◌∷◌, ltb, leb, if◌then◌else◌, length, take,
  get_or, Option, none, some,
}
use optimusdb.Base.Text.{Str, codes, str_eq, contains, has_suffix, split, join}

abbrev pub dash : ℕ
dash = b'-'

unfoldable pub is_letter : ℕ → Bool
is_letter c = leb b'a' c && leb c b'z' || leb b'A' c && leb c b'Z'

unfoldable pub is_digit : ℕ → Bool
is_digit c = leb b'0' c && leb c b'9'

-- the loop of `looksLikeHash` over the flags hasLetter and hasDigit
unfoldable pub scan_hash : Str → Bool → Bool → Bool
unfolding is_letter is_digit
scan_hash [] has_letter has_digit = has_letter && has_digit
scan_hash (c ∷ s) has_letter has_digit = elim (is_letter c) [
  | true ↦ scan_hash s true has_digit
  | false ↦ elim (is_digit c) [ true ↦ scan_hash s has_letter true | false ↦ false ]
]

unfoldable pub looks_like_hash : Str → Bool
unfolding scan_hash
looks_like_hash s = if ltb (length s) 5 || ltb 10 (length s) then false else scan_hash s false false

unfoldable pub base_of_parts : Str → List Str → Str
base_of_parts name parts =
    let last = get_or parts (length parts - 1) [] in
    let second_last = get_or parts (length parts - 2) [] in
    if leb 3 (length parts)
      && (leb 5 (length last)
          && (leb 5 (length second_last) && (looks_like_hash last && looks_like_hash second_last)))
    then join dash (take (length parts - 2) parts)
    else name

unfoldable pub extract_base_name : Str → Str
unfolding base_of_parts
extract_base_name name = base_of_parts name (split dash name)

-- `os.Hostname()` is `none` where it fails
unfoldable pub get_container_name : (agent_name pod_name hostname : Str) → Option Str → Str
get_container_name agent_name pod_name hostname os_hostname =
    if not (str_eq agent_name [])
    then extract_base_name agent_name
    else if not (str_eq pod_name [])
    then extract_base_name pod_name
    else if not (str_eq hostname [])
    then extract_base_name hostname
    else elim os_hostname [ none ↦ [] | some name ↦ extract_base_name name ]

unfoldable pub is_default_coordinator_node : Str → Bool
unfolding contains has_suffix
is_default_coordinator_node name =
    if str_eq name []
    then false
    else if contains name (codes "optimusdb1")
    then true
    else if has_suffix name (codes "-0") && contains name (codes "optimusdb")
    then true
    else has_suffix name (codes "1")
