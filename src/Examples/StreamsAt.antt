-- ===== src/Examples/StreamsAt.antt =====
-- The theorems on the streams of the service, at a listener's events and at a sync.
use ipfs_embed.Prelude.{◌≡◌, ◌++◌, true, false, List, [], ◌∷◌, none, arith}
use ipfs_embed.AddressBook.State.{
  Event, new_listen_addr, expired_listen_addr, listener_closed, bootstrapped,
}
use ipfs_embed.Network.Service.Streams.{
  forward_listener_events, forward_listener_events_lem, all_of_listener, until_closed, failed,
  poll_sync, poll_sync_lem, progress, complete, polled, result_of,
}
use ipfs_embed.Examples.Constants.{home_addr}

-- Listener 4 gets an address and closes; listener 5 gets one too.
abbrev happened : List Event
happened =
    new_listen_addr 4 home_addr
    ∷ bootstrapped
    ∷ new_listen_addr 5 home_addr
    ∷ listener_closed 4
    ∷ expired_listen_addr 4 home_addr
    ∷ []

forward_listener_events_lem_example :
    (forward_listener_events 4
      (record { open_ = true; queue = failed home_addr 1 ∷ [] })
      happened).queue
    ≡ (failed home_addr 1 ∷ []) ++ all_of_listener 4 (until_closed 4 happened)
forward_listener_events_lem_example =
    forward_listener_events_lem 4 (failed home_addr 1 ∷ []) happened

poll_sync_lem_example :
    poll_sync 3 false (progress 5 ∷ complete none ∷ [])
    ≡ polled (result_of (progress 5 ∷ complete none ∷ [])) false
poll_sync_lem_example = poll_sync_lem 3 false (progress 5 ∷ complete none ∷ []) (omega arith)

-- The sender is gone, and nothing was sent: a thousand rounds give nothing.
poll_sync_of_dropped : poll_sync 1000 false (progress 5 ∷ []) ≡ none
poll_sync_of_dropped = poll_sync_lem 1000 false (progress 5 ∷ []) (omega arith)
