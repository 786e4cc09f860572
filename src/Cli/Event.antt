-- ===== src/Cli/Event.antt =====
-- cli/src/lib.rs: `Event` and its text.
use ipfs_embed.Prelude.{List, [], ◌∷◌, ◌++◌, if◌then◌else◌}
use ipfs_embed.Multiaddr.{PeerId, Multiaddr}
use ipfs_embed.Storage.State.{Block}
use ipfs_embed.Cli.Words.{Text, codes, text_eq, split_whitespace, join}
use ipfs_embed.Cli.Hex.{print_hex}
use ipfs_embed.Cli.Codecs.{Outcome, read, failed, Codecs, parsed, next, next_parsed, next_block}

pub data Event (I : Type 0) : Type 0 where
  new_listener : Event I
  new_listen_addr : Multiaddr → Event I
  expired_listen_addr : Multiaddr → Event I
  listener_closed : Event I
  new_external_addr : Multiaddr → Event I
  expired_external_addr : Multiaddr → Event I
  discovered : PeerId → Event I
  unreachable : PeerId → Event I
  connected : PeerId → Event I
  disconnected : PeerId → Event I
  subscribed : PeerId → Text → Event I
  unsubscribed : PeerId → Text → Event I
  block : Block → Event I
  flushed : Event I
  synced : Event I
  bootstrapped : Event I
  peer_info : PeerId → I → Event I
  peer_removed : PeerId → Event I
  dial_failure : PeerId → Multiaddr → Text → Event I
  connection_established : PeerId → Multiaddr → Event I
  connection_closed : PeerId → Multiaddr → Event I

module _ {I : Type 0} (c : Codecs I) where
  unfoldable pub print : Event I → Text
  print new_listener = codes "<new-listener"
  print (new_listen_addr addr) = codes "<new-listen-addr" ++ 32 ∷ c.addr.print addr
  print (expired_listen_addr addr) = codes "<expired-listen-addr" ++ 32 ∷ c.addr.print addr
  print listener_closed = codes "<listener-closed"
  print (new_external_addr addr) = codes "<new-external-addr" ++ 32 ∷ c.addr.print addr
  print (expired_external_addr addr) = codes "<expired-external-addr" ++ 32 ∷ c.addr.print addr
  print (discovered peer) = codes "<discovered" ++ 32 ∷ c.peer.print peer
  print (unreachable peer) = codes "<unreachable" ++ 32 ∷ c.peer.print peer
  print (connected peer) = codes "<connected" ++ 32 ∷ c.peer.print peer
  print (disconnected peer) = codes "<disconnected" ++ 32 ∷ c.peer.print peer
  print (subscribed peer topic) = codes "<subscribed" ++ 32 ∷ (c.peer.print peer ++ 32 ∷ topic)
  print (unsubscribed peer topic) = codes "<unsubscribed" ++ 32 ∷ (c.peer.print peer ++ 32 ∷ topic)
  print (block b) = codes "<block" ++ 32 ∷ (c.cid.print (b.cid) ++ 32 ∷ print_hex (b.data_))
  print flushed = codes "<flushed"
  print synced = codes "<synced"
  print bootstrapped = codes "<bootstrapped"
  print (peer_info peer i) = codes "<peer-info" ++ 32 ∷ (c.peer.print peer ++ 32 ∷ c.info.print i)
  print (peer_removed peer) = codes "<peer-removed" ++ 32 ∷ c.peer.print peer
  print (dial_failure peer addr error) =
      codes "<dial-failure" ++ 32 ∷ (c.peer.print peer ++ 32 ∷ (c.addr.print addr ++ 32 ∷ error))
  print (connection_established peer addr) =
      codes "<connection-established" ++ 32 ∷ (c.peer.print peer ++ 32 ∷ c.addr.print addr)
  print (connection_closed peer addr) =
      codes "<connection-closed" ++ 32 ∷ (c.peer.print peer ++ 32 ∷ c.addr.print addr)

  -- The words after the keyword: an address, a peer, a peer and a topic, a peer and an address.
  abbrev pub next_addr : (Multiaddr → Event I) → List Text → Outcome (Event I)
  next_addr k words = next_parsed c.addr words (λ addr _. read (k addr))

  abbrev pub next_peer : (PeerId → Event I) → List Text → Outcome (Event I)
  next_peer k words = next_parsed c.peer words (λ peer _. read (k peer))

  abbrev pub next_topic : (PeerId → Text → Event I) → List Text → Outcome (Event I)
  next_topic k words =
      next_parsed c.peer words (λ peer rest. next rest (λ topic _. read (k peer topic)))

  abbrev pub next_link : (PeerId → Multiaddr → Event I) → List Text → Outcome (Event I)
  next_link k words =
      next_parsed c.peer words (λ peer rest. next_parsed c.addr rest (λ addr _. read (k peer addr)))

  abbrev pub next_info : List Text → Outcome (Event I)
  next_info words =
      next_parsed c.peer words
        (λ peer rest. parsed (c.info.parse (join rest)) (λ i. read (peer_info peer i)))

  abbrev pub next_failure : List Text → Outcome (Event I)
  next_failure words = next_parsed c.peer words (λ peer rest.
      next_parsed c.addr rest (λ addr error. read (dial_failure peer addr (join error))))

  unfoldable pub parse_words : List Text → Outcome (Event I)
  parse_words [] = failed
  parse_words (w ∷ words) =
      if text_eq w (codes "<new-listener")
      then read new_listener
      else if text_eq w (codes "<new-listen-addr")
      then next_addr new_listen_addr words
      else if text_eq w (codes "<expired-listen-addr")
      then next_addr expired_listen_addr words
      else if text_eq w (codes "<listener-closed")
      then read listener_closed
      else if text_eq w (codes "<new-external-addr")
      then next_addr new_external_addr words
      else if text_eq w (codes "<expired-external-addr")
      then next_addr expired_external_addr words
      else if text_eq w (codes "<discovered")
      then next_peer discovered words
      else if text_eq w (codes "<unreachable")
      then next_peer unreachable words
      else if text_eq w (codes "<connected")
      then next_peer connected words
      else if text_eq w (codes "<disconnected")
      then next_peer disconnected words
      else if text_eq w (codes "<subscribed")
      then next_topic subscribed words
      else if text_eq w (codes "<unsubscribed")
      then next_topic unsubscribed words
      else if text_eq w (codes "<block")
      then next_block c words (λ b. read (block b))
      else if text_eq w (codes "<flushed")
      then read flushed
      else if text_eq w (codes "<synced")
      then read synced
      else if text_eq w (codes "<bootstrapped")
      then read bootstrapped
      else if text_eq w (codes "<peer-info")
      then next_info words
      else if text_eq w (codes "<peer-removed")
      then next_peer peer_removed words
      else if text_eq w (codes "<dial-failure")
      then next_failure words
      else if text_eq w (codes "<connection-established")
      then next_link connection_established words
      else if text_eq w (codes "<connection-closed")
      then next_link connection_closed words
      else failed

  unfoldable pub parse : Text → Outcome (Event I)
  unfolding parse_words
  parse s = parse_words (split_whitespace s)
