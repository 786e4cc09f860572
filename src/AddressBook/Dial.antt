-- ===== src/AddressBook/Dial.antt =====
-- src/net/peers.rs: `dial` and `dial_address`.
use ipfs_embed.Prelude.{◌+◌, false, [], ◌∷◌, none, some, ◌==◌, if◌then◌else◌}
use ipfs_embed.Multiaddr.{Multiaddr, PeerId, PeerIds, normalize_addr}
use ipfs_embed.AddressBook.State.{
  AddressBook, IntoAddressHandler, sim_open_retries, or_default, put_info, push_action,
  connected_at,
}

-- `new_handler`, as the source has it in the comment at the head of `impl NetworkBehaviour`
abbrev pub new_handler : AddressBook → IntoAddressHandler
new_handler b = record { own_dial = none; keep_alive = b.keep_alive }

unfoldable pub dial : AddressBook → PeerId → AddressBook
dial b peer =
    if peer == b.local_peer_id
    then b
    else push_action b (record {
      opts = record { peer = peer; always = false; addresses = [] };
      handler = new_handler b;
    })

unfoldable pub dial_address : PeerIds → AddressBook → PeerId → Multiaddr → AddressBook
dial_address ids b peer addr =
    if peer == b.local_peer_id
    then b
    else let target = normalize_addr ids addr peer in
      let info = or_default peer b.peers in
      let b' = put_info b peer info in
      if connected_at info target
      then b'
      else push_action b' (record {
        opts = record { peer = peer; always = false; addresses = addr ∷ [] };
        handler = record {
          own_dial = some (target, sim_open_retries + 1);
          keep_alive = b.keep_alive;
        };
      })
