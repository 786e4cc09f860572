-- ===== src/Network/Queries/Laws/Providers.antt =====
-- src/net/behaviour.rs: what a query for the providers of a key answers.
use ipfs_embed.Prelude.{ℕ, ◌==◌, Bool, false, List, [], ◌∷◌, none, some, any}
use ipfs_embed.Multiaddr.{PeerId}
use ipfs_embed.Network.Queries.{
  FoundProviders, KadState, outbound_query_progressed, get_providers_result, ok, inject_kad_event,
}

-- Whether a peer is among some.
abbrev pub listed : PeerId → List PeerId → Bool
listed p peers = any (λ q. q == p) peers

-- Whether an event names a peer as a provider.
abbrev pub names : PeerId → FoundProviders → Bool
names p none = false
names p (some providers) = listed p providers

-- The query goes on with what is found of its key.
unfoldable pub progress : ℕ → FoundProviders → Bool → KadState → KadState
unfolding inject_kad_event
progress id found last s =
    inject_kad_event (outbound_query_progressed id (get_providers_result (ok found)) last) s

unfoldable pub go_on : ℕ → List FoundProviders → KadState → KadState
go_on id [] s = s
go_on id (r ∷ rs) s = go_on id rs (progress id r false s)
