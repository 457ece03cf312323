-- ===== src/Net.antt =====
-- core/src/net.rs: the key that a client's requests are counted under. The standard library's
-- parser and printer of addresses are parameters.
pub mod Laws
use nft_gate.Base.{
  ℕ, zero, suc, ◌-◌, Bool, true, false, not, Option, none, some, List, [], ◌∷◌, ◌++◌, ltb, ◌==◌,
  if◌then◌else◌, length,
}
use nft_gate.Text.{Text, codes, is_nil}
use nft_gate.Text.Split.{split_on, trim}

-- An `Ipv6Addr` by the first four of its eight segments, and `{:x}`
pub record Addresses : Type 0 where
  pub parse_ipv6 : Text → Option (ℕ × ℕ × ℕ × ℕ)
  pub hex : ℕ → Text

abbrev nth : ℕ → List Text → Option Text
nth n [] = none
nth zero (x ∷ xs) = some x
nth (suc n) (x ∷ xs) = nth n xs

-- `flat_map(split(',')).map(trim).filter(!is_empty)`
abbrev pub trimmed : List Text → List Text
trimmed [] = []
trimmed (s ∷ ss) = let rest = trimmed ss in if is_nil (trim s) then rest else trim s ∷ rest

unfoldable pub entries : List Text → List Text
entries [] = []
entries (v ∷ xff) = trimmed (split_on b',' v) ++ entries xff

abbrev pub peer_ip : Option Text → Text
peer_ip none = codes "unknown"
peer_ip (some p) = p

-- `checked_sub` and the index, which it keeps in range where `trusted_hops` is not 0
abbrev from_right : ℕ → List Text → Option Text
from_right hops es = if ltb (length es) hops then none else nth (length es - hops) es

-- The peer is given as it prints.
unfoldable pub client_ip_raw : List Text → Option Text → ℕ → Text
client_ip_raw xff peer trusted_hops =
    if trusted_hops == 0
    then peer_ip peer
    else elim (from_right trusted_hops (entries xff)) [ none ↦ peer_ip peer | some e ↦ e ]

module _ (addresses : Addresses) where
  unfoldable pub rate_key : Text → Text
  rate_key ip = elim (addresses.parse_ipv6 ip) [
    | some (a, b, c, d) ↦
        addresses.hex a
        ++ (codes ":"
            ++ (addresses.hex b
                ++ (codes ":"
                    ++ (addresses.hex c ++ (codes ":" ++ (addresses.hex d ++ codes "::/64"))))))
    | none ↦ ip
  ]

  unfoldable pub client_ip : List Text → Option Text → ℕ → Text
  client_ip xff peer trusted_hops = rate_key (client_ip_raw xff peer trusted_hops)
