-- ===== src/PeerInfo.antt =====
-- src/net/peer_info.rs: what is known of one peer. The time of a call is an argument.
pub mod Source
pub mod Rtt
pub mod Failure
pub mod RttBounds
pub mod Laws
use Prim.Native.Nat.{Ordering}
use ipfs_embed.Prelude.{
  ℕ, Bool, false, List, [], ◌∷◌, Option, none, some, String, lookup, insert, remove, length, ltb,
  if◌then◌else◌, pop_back, ◌&&◌, retain, map,
}
use ipfs_embed.Multiaddr.{Multiaddr, Multiaddr-discrete}
use Source.{AddressSource, Direction, cmp, is_to_probe, is_confirmed, is_to_translate}
use Failure.{ConnectionFailure}

pub record PeerInfo : Type 0 where
  pub protocol_version : Option String
  pub agent_version : Option String
  pub protocols : List String
  pub listeners : List Multiaddr
  pub addresses : List (Multiaddr × (AddressSource × ℕ))
  pub connections : List (Multiaddr × (ℕ × Direction))
  pub failures : List ConnectionFailure
  pub rtt : Option Rtt.Rtt

-- `Default`
abbrev pub empty_info : PeerInfo
empty_info = record {
  protocol_version = none;
  agent_version = none;
  protocols = [];
  listeners = [];
  addresses = [];
  connections = [];
  failures = [];
  rtt = none;
}

abbrev pub registered : Option Rtt.Rtt → Option ℕ → Option Rtt.Rtt
registered (some r) (some duration) = some (Rtt.register r duration)
registered none (some duration) = some (Rtt.new duration)
registered (some r) none = some (Rtt.register_failure r)
registered none none = none

unfoldable pub set_rtt : PeerInfo → Option ℕ → PeerInfo
set_rtt info rtt = record info { rtt = registered info.rtt rtt }

abbrev pub probed : Option (AddressSource × ℕ) → Bool
probed none = false
probed (some (s, dt)) = is_to_probe s

unfoldable pub push_failure : PeerInfo → Multiaddr → ConnectionFailure → Bool → PeerInfo
push_failure info addr f probe_result = record info {
  addresses =
      if probe_result && probed (lookup Multiaddr-discrete addr info.addresses)
      then remove Multiaddr-discrete addr info.addresses
      else info.addresses;
  failures = f ∷ (if ltb 9 (length info.failures) then pop_back info.failures else info.failures);
}

abbrev pub sources_of :
    List (Multiaddr × (AddressSource × ℕ)) → (AddressSource → Bool) → List Multiaddr
sources_of addresses test = map (λ e. e.0) (retain (λ e. test e.1.0) addresses)

unfoldable pub confirmed_addresses : PeerInfo → List Multiaddr
confirmed_addresses info = sources_of info.addresses is_confirmed

unfoldable pub addresses_to_probe : PeerInfo → List Multiaddr
addresses_to_probe info = sources_of info.addresses is_to_probe

unfoldable pub addresses_to_translate : PeerInfo → List Multiaddr
addresses_to_translate info = sources_of info.addresses is_to_translate

-- The entry that replaces the one found, and whether the address is to be probed.
abbrev pub ingested : AddressSource → ℕ → Option (AddressSource × ℕ) → (AddressSource × ℕ) × Bool
ingested source now none = ((source, now), is_to_probe source)
ingested source now (some (src, dt)) = elim (cmp source src) [
  | Ordering.lt ↦ ((src, now), false)
  | Ordering.eq ↦ ((src, now), false)
  | Ordering.gt ↦ ((source, now), is_to_probe source)
]

unfoldable pub ingest_address : PeerInfo → Multiaddr → AddressSource → ℕ → PeerInfo × Bool
ingest_address info addr source now =
    let (entry, probe) = ingested source now (lookup Multiaddr-discrete addr info.addresses) in
    (record info { addresses = insert Multiaddr-discrete addr entry info.addresses }, probe)
