-- ===== src/Network/Requests/Calls.antt =====
-- src/net/behaviour.rs: a call that hands over a sender or an event that answers one, and what it
-- does.
use ipfs_embed.Prelude.{ℕ, ◌==◌, List, Option, none, some}
use ipfs_embed.Multiaddr.{PeerId}
use ipfs_embed.Network.State.{Quorum, Key, Record, Cid, Behaviour}
use ipfs_embed.Network.Queries.{
  Sender, QueryId, Queries, KadResult, KadState, KademliaEvent, BitswapEvent, inject_kad_event,
  inject_bitswap_event,
}
use ipfs_embed.Network.Queries.Laws.Senders.{one_if}
use ipfs_embed.Network.Requests

-- A call with what the protocol answers to it, or an event of a protocol.
pub data Call : Type 0 where
  bootstrap : Sender → KadResult ℕ → Call
  provide : Key → Sender → KadResult ℕ → Call
  providers : Key → Sender → ℕ → Call
  get_record : Key → Quorum → Sender → ℕ → Call
  put_record : Record → Quorum → Sender → KadResult ℕ → Call
  get : Cid → List PeerId → Sender → ℕ → Call
  sync : Cid → List PeerId → List Cid → Sender → ℕ → Call
  cancel : QueryId → Call
  kad_event : KademliaEvent → Call
  bitswap_event : BitswapEvent → Call

abbrev after : KadState → Behaviour × Queries → KadState
after s r = record s { behaviour = r.0; queries = r.1 }

abbrev after_bitswap : KadState → Option (Behaviour × Queries × QueryId) → Option KadState
after_bitswap s none = none
after_bitswap s (some (b, q, id)) = some (after s (b, q))

abbrev after_cancel : KadState → Option (Behaviour × Queries) → Option KadState
after_cancel s none = none
after_cancel s (some r) = some (after s r)

-- `none` is a panic.
unfoldable pub step : ℕ → KadState → Call → Option KadState
step k s (bootstrap tx started) =
    some (after s (Requests.bootstrap s.behaviour s.queries tx started))
step k s (provide key tx started) =
    some (after s (Requests.provide s.behaviour key s.bootstrap_complete s.queries tx started))
step k s (providers key tx id) =
    some (after s (Requests.providers s.behaviour key s.bootstrap_complete s.queries tx id))
step k s (get_record key quorum tx id) =
    some
      (after s (Requests.get_record k s.behaviour key quorum s.bootstrap_complete s.queries tx id))
step k s (put_record rec quorum tx started) =
    some (
      after s
        (Requests.put_record s.behaviour rec quorum s.bootstrap_complete s.queries tx started))
step k s (get cid ps tx id) = after_bitswap s (Requests.get s.behaviour cid ps s.queries tx id)
step k s (sync cid ps missing tx id) =
    after_bitswap s (Requests.sync s.behaviour cid ps missing s.queries tx id)
step k s (cancel id) = after_cancel s (Requests.cancel s.behaviour id s.queries)
step k s (kad_event event) = some (inject_kad_event event s)
step k s (bitswap_event event) = some (record s { queries = inject_bitswap_event event s.queries })

-- How often a call hands over a sender.
abbrev pub hands_over : Sender → Call → ℕ
hands_over tx (bootstrap s started) = one_if (s == tx)
hands_over tx (provide key s started) = one_if (s == tx)
hands_over tx (providers key s id) = one_if (s == tx)
hands_over tx (get_record key quorum s id) = one_if (s == tx)
hands_over tx (put_record rec quorum s started) = one_if (s == tx)
hands_over tx (get cid ps s id) = one_if (s == tx)
hands_over tx (sync cid ps missing s id) = one_if (s == tx)
hands_over tx _ = 0
