-- ===== src/Examples/Constants.antt =====
-- Values for the examples.
use ipfs_embed.Prelude.{true, false, [], ◌∷◌, none, some, refl}
use ipfs_embed.Multiaddr.{Multiaddr, PeerIds, ConnectedPoint, dialer, ip4, tcp, p2p}
use ipfs_embed.PeerInfo.{PeerInfo, empty_info}
use ipfs_embed.PeerInfo.Source.{mdns}
use ipfs_embed.PeerInfo.Failure.{
  Texts, ConnectionFailure, dial_error, TransportError, other_transport, dns_transport, noise_io,
  invalid_data,
}
use ipfs_embed.AddressBook.State.{AddressBook, new, IntoAddressHandler}

-- Peers whose identities are their own hashes.
abbrev pub ids : PeerIds
ids = record { to_multihash = λ p. p; from_multihash = λ h. some h; from_to = λ p. refl }

abbrev pub texts : Texts
texts = record {
  display = λ _. "no address";
  debug = λ _. "NoAddresses";
  display_io = λ _. "broken pipe";
  display_transport = λ _. "refused";
  debug_transport = λ _. "Refused";
  display_handler = λ _. "handler";
  debug_closed = λ _. "None";
  source = λ _. none;
  display_addr = λ _. "/ip4";
}

-- 192.168.1.1:4001
abbrev pub home_addr : Multiaddr
home_addr = ip4 3232235777 ∷ tcp 4001 ∷ []

-- the same with the identity of peer 2
abbrev pub full_addr : Multiaddr
full_addr = ip4 3232235777 ∷ tcp 4001 ∷ p2p 2 ∷ []

abbrev pub endpoint : ConnectedPoint
endpoint = dialer (ip4 3232235777 ∷ tcp 4001 ∷ p2p 2 ∷ []) false

abbrev pub old_failure : ConnectionFailure
old_failure = record {
  kind = dial_error;
  addr = ip4 3232235777 ∷ tcp 4001 ∷ [];
  time = 5;
  display = "refused";
  debug = "Refused";
}

-- a peer with one address to probe and one failure
abbrev pub peer_info : PeerInfo
peer_info = record empty_info {
  addresses = ((ip4 3232235777 ∷ tcp 4001 ∷ p2p 2 ∷ []), (mdns, 5)) ∷ [];
  failures = old_failure ∷ [];
}

-- node 1, which knows peer 2
abbrev pub book : AddressBook
book = record (new 1 false true false) { peers = (2, peer_info) ∷ [] }

-- both sides dialled at once
abbrev pub sim_open : TransportError
sim_open = other_transport 0 (dns_transport (noise_io invalid_data))

abbrev pub own_dial : IntoAddressHandler
own_dial = record {
  own_dial = some (ip4 3232235777 ∷ tcp 4001 ∷ p2p 2 ∷ [], 11);
  keep_alive = false;
}
