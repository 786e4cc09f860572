-- ===== src/AddressBook/Identify.antt =====
-- src/net/peers.rs: `set_info`, which takes over what a peer says of itself.
use ipfs_embed.Prelude.{
  ℕ, true, false, not, ◌&&◌, ◌||◌, List, [], ◌∷◌, ◌++◌, Option, none, some, String, ◌==◌,
  if◌then◌else◌, holds, any, retain, map, is_empty, unwrap_or, pop_back,
}
use ipfs_embed.Multiaddr.{
  Multiaddr, PeerId, PeerIds, IpAddr, IpAddr-discrete, ip_port, replace_port, normalize_addr,
  is_loopback,
}
use ipfs_embed.PeerInfo.{PeerInfo, ingest_address, addresses_to_translate}
use ipfs_embed.PeerInfo.Source.{listen, candidate, is_to_translate}
use ipfs_embed.AddressBook.State.{
  AddressBook, Action, new_info, get_info, put_info, contains, connected_at, notify,
}

-- `identify::Info`
pub record Info : Type 0 where
  pub protocol_version : String
  pub agent_version : String
  pub protocols : List String
  pub listen_addrs : List Multiaddr

-- `filter_map(ip_port)`
unfoldable pub ip_ports : List Multiaddr → List (IpAddr × ℕ)
ip_ports [] = []
ip_ports (a ∷ rest) = elim (ip_port a) [ none ↦ ip_ports rest | some p ↦ p ∷ ip_ports rest ]

-- the advertised listen ports, without the addresses that are connected
abbrev pub listen_ports : PeerIds → PeerId → PeerInfo → List (IpAddr × ℕ)
listen_ports ids peer info =
    ip_ports (retain (λ a. not (connected_at info (normalize_addr ids a peer))) info.listeners)

-- insertion into a `HashSet`
unfoldable pub set_insert : Multiaddr → List Multiaddr → List Multiaddr
set_insert a set = if contains a set then set else set ++ a ∷ []

unfoldable pub set_extend : List Multiaddr → List Multiaddr → List Multiaddr
set_extend [] set = set
set_extend (a ∷ rest) set = set_extend rest (set_insert a set)

-- `iter().map(|(_a, p)| *p).collect::<FnvHashSet<_>>()`
unfoldable pub common_ports : List (IpAddr × ℕ) → List ℕ
common_ports [] = []
common_ports ((ip, port) ∷ rest) =
    let ports = common_ports rest in if any (λ p. p == port) ports then ports else port ∷ ports

-- `addr.replace(1, ..).unwrap()`, of an address on which `ip_port` succeeds
abbrev pub with_port : Multiaddr → ℕ → Multiaddr
with_port addr port = unwrap_or (replace_port addr port) addr

-- the addresses that take the place of an incoming one
abbrev pub translations : List (IpAddr × ℕ) → Multiaddr → Option (IpAddr × ℕ) → List Multiaddr
translations ports addr none = []
translations ports addr (some (ip, p)) =
    let same_ip = retain (λ e. holds (IpAddr-discrete e.0 ip)) ports in
    if not (is_empty same_ip)
    then map (λ e. with_port addr e.1) same_ip
    else if not (is_empty (common_ports ports))
    then map (with_port addr) (common_ports ports)
    else addr ∷ []

-- the loop over `addresses_to_translate`
unfoldable pub translate : List (IpAddr × ℕ) → List Multiaddr → List Multiaddr → List Multiaddr
translate ports [] set = set
translate ports (addr ∷ rest) set =
    translate ports rest (set_extend (translations ports addr (ip_port addr)) set)

-- one round of the last loop: the peer's record, and the dials so far
unfoldable pub offer :
    AddressBook → PeerId → ℕ → Multiaddr → PeerInfo × List Action → PeerInfo × List Action
offer b peer now addr (info, dials) =
    let tcp = pop_back addr in
    let (info', probe) = ingest_address info addr listen now in
    if contains tcp b.listeners
    then (info, dials)
    else if not probe
    then (info', dials)
    else if b.port_reuse && connected_at info' addr
    then ((ingest_address info' addr candidate now).0, dials)
    else (
      info',
      dials
          ++ record {
            opts = record { peer = peer; always = true; addresses = tcp ∷ [] };
            handler = record { own_dial = some (addr, 4); keep_alive = false };
          }
            ∷ [],
    )

-- The set is gone over in the order of insertion, one of the orders in which a `HashSet` may be gone
-- over.
unfoldable pub offer_all :
    AddressBook → PeerId → ℕ → List Multiaddr → PeerInfo × List Action → PeerInfo × List Action
offer_all b peer now [] s = s
offer_all b peer now (addr ∷ rest) s = offer_all b peer now rest (offer b peer now addr s)

-- the fields that are taken over as they are
abbrev pub identified : PeerInfo → Info → PeerInfo
identified info identify = record info {
  protocol_version = some identify.protocol_version;
  agent_version = some identify.agent_version;
  protocols = identify.protocols;
  listeners = identify.listen_addrs;
}

-- the addresses to offer: the translated ones, and the listeners
unfoldable pub offered : PeerIds → AddressBook → PeerId → PeerInfo → List Multiaddr
offered ids b peer info =
    set_extend
      (map (λ a. normalize_addr ids a peer)
        (retain (λ a. b.enable_loopback || not (is_loopback a)) info.listeners))
      (translate (listen_ports ids peer info) (addresses_to_translate info) [])

unfoldable pub identify_peer :
    PeerIds → AddressBook → PeerId → Info → ℕ → PeerInfo → PeerInfo × List Action
identify_peer ids b peer identify now info =
    let info' = identified info identify in
    offer_all b peer now (offered ids b peer info')
      (record info' { addresses = retain (λ e. not (is_to_translate e.1.0)) info'.addresses }, [])

abbrev pub info_set : PeerIds → AddressBook → PeerId → Info → ℕ → Option PeerInfo → AddressBook
info_set ids b peer identify now none = b
info_set ids b peer identify now (some info) =
    let (info', dials) = identify_peer ids b peer identify now info in
    notify (record (put_info b peer info') { actions = b.actions ++ dials }) (new_info peer)

unfoldable pub set_info : PeerIds → AddressBook → PeerId → Info → ℕ → AddressBook
set_info ids b peer identify now = info_set ids b peer identify now (get_info peer b.peers)
