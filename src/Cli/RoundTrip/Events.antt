-- ===== src/Cli/RoundTrip/Events.antt =====
-- cli/src/lib.rs: the round trip of events.
use ipfs_embed.Prelude.{List, ◌∷◌, ◌++◌, ◌≡◌, refl, ap, ◌∙◌}
use ipfs_embed.Multiaddr.{PeerId, Multiaddr}
use ipfs_embed.Cli.Words.{Text, IsWord, codes, split_word, split_space, split_whitespace, join}
use ipfs_embed.Cli.Codecs.{Outcome, read, parsed, next, next_parsed, Codecs, AreCodecs}
use ipfs_embed.Cli.Event.{
  Event, new_listener, new_listen_addr, expired_listen_addr, listener_closed, new_external_addr,
  expired_external_addr, discovered, unreachable, connected, disconnected, subscribed, unsubscribed,
  block, flushed, synced, bootstrapped, peer_info, peer_removed, dial_failure,
  connection_established, connection_closed, print, parse, parse_words, next_link, next_topic,
  next_addr, next_peer,
}
use ipfs_embed.Cli.RoundTrip.Parts.{keyword, one_lem, then_lem}
use ipfs_embed.Cli.RoundTrip.Blocks.{IsBlock, unless_empty, block_lem}

-- A topic that is a word, and a block that `Block::new` makes.
abbrev pub IsWritable : {I : Type 0} → Codecs I → Event I → Type 0
IsWritable c (block b) = IsBlock c b
IsWritable c (subscribed peer topic) = IsWord topic
IsWritable c (unsubscribed peer topic) = IsWord topic
IsWritable c _ = Unit

-- The rest of a line, with one space where there was whitespace.
abbrev pub respaced : Text → Text
respaced t = join (split_whitespace t)

abbrev pub reread : {I : Type 0} → Codecs I → Event I → Outcome (Event I)
reread c (block b) = unless_empty b.data_ (read (block b))
reread c (peer_info peer i) =
    parsed (c.info.parse (respaced (c.info.print i))) (λ j. read (peer_info peer j))
reread c (dial_failure peer addr error) = read (dial_failure peer addr (respaced error))
reread c event = read event

module _ {I : Type 0} (c : Codecs I) (laws : AreCodecs c) where
  addr_lem :
      (w : Text) (k : Multiaddr → Event I) (addr : Multiaddr)
      → IsWord w
      → ((words : List Text) → parse_words c (w ∷ words) ≡ next_addr c k words)
      → parse_words c (split_whitespace (w ++ 32 ∷ c.addr.print addr)) ≡ read (k addr)
  addr_lem w k addr hw step =
      one_lem c.addr laws.addr_codec w (λ a _. read (k a)) (parse_words c) addr hw step

  peer_lem :
      (w : Text) (k : PeerId → Event I) (peer : PeerId)
      → IsWord w
      → ((words : List Text) → parse_words c (w ∷ words) ≡ next_peer c k words)
      → parse_words c (split_whitespace (w ++ 32 ∷ c.peer.print peer)) ≡ read (k peer)
  peer_lem w k peer hw step =
      one_lem c.peer laws.peer_codec w (λ p _. read (k p)) (parse_words c) peer hw step

  link_lem :
      (w : Text) (k : PeerId → Multiaddr → Event I) (peer : PeerId) (addr : Multiaddr)
      → IsWord w
      → ((words : List Text) → parse_words c (w ∷ words) ≡ next_link c k words)
      → parse_words c (split_whitespace (w ++ 32 ∷ (c.peer.print peer ++ 32 ∷ c.addr.print addr)))
        ≡ read (k peer addr)
  link_lem w k peer addr hw step =
      then_lem c.peer laws.peer_codec w (λ p rest. next_parsed c.addr rest (λ a _. read (k p a)))
        (parse_words c) peer (c.addr.print addr) hw step
      ∙ rw
          (
            split_word (c.addr.print addr) (laws.addr_codec.prints_word addr),
            laws.addr_codec.reads_back addr,
          )
          refl

  topic_lem :
      (w : Text) (k : PeerId → Text → Event I) (peer : PeerId) (topic : Text)
      → IsWord w
      → IsWord topic
      → ((words : List Text) → parse_words c (w ∷ words) ≡ next_topic c k words)
      → parse_words c (split_whitespace (w ++ 32 ∷ (c.peer.print peer ++ 32 ∷ topic)))
        ≡ read (k peer topic)
  topic_lem w k peer topic hw ht step =
      then_lem c.peer laws.peer_codec w (λ p rest. next rest (λ t _. read (k p t))) (parse_words c)
        peer topic hw step
      ∙ rw (split_word topic ht) refl

  failure_lem :
      (peer : PeerId) (addr : Multiaddr) (error : Text)
      → parse c (print c (dial_failure peer addr error))
        ≡ read (dial_failure peer addr (respaced error))
  unfolding parse print parse_words
  failure_lem peer addr error =
      then_lem c.peer laws.peer_codec (codes "<dial-failure")
        (λ p rest. next_parsed c.addr rest (λ a e. read (dial_failure p a (join e))))
        (parse_words c) peer (c.addr.print addr ++ 32 ∷ error) (keyword "<dial-failure" refl)
        (λ words. refl)
      ∙ rw
          (
            split_space (c.addr.print addr) error (laws.addr_codec.prints_word addr),
            laws.addr_codec.reads_back addr,
          )
          refl

  -- Where the identifiers, addresses and peers are written as words that are read back, a topic is
  -- one word, and a block is one that `Block::new` makes: an event that is written on a line is read
  -- back. The error of a failed dial and the JSON of a peer's information come back with one space
  -- for whatever whitespace was in them, and a block without data makes the reader panic.
  pub parse-print_event :
      (event : Event I) → IsWritable c event → parse c (print c event) ≡ reread c event
  unfolding parse print parse_words
  parse-print_event new_listener h =
      ap (parse_words c) (split_word (codes "<new-listener") (keyword "<new-listener" refl))
  parse-print_event (new_listen_addr addr) h =
      addr_lem (codes "<new-listen-addr") new_listen_addr addr (keyword "<new-listen-addr" refl)
        (λ words. refl)
  parse-print_event (expired_listen_addr addr) h =
      addr_lem (codes "<expired-listen-addr") expired_listen_addr addr
        (keyword "<expired-listen-addr" refl) (λ words. refl)
  parse-print_event listener_closed h =
      ap (parse_words c) (split_word (codes "<listener-closed") (keyword "<listener-closed" refl))
  parse-print_event (new_external_addr addr) h =
      addr_lem (codes "<new-external-addr") new_external_addr addr
        (keyword "<new-external-addr" refl) (λ words. refl)
  parse-print_event (expired_external_addr addr) h =
      addr_lem (codes "<expired-external-addr") expired_external_addr addr
        (keyword "<expired-external-addr" refl) (λ words. refl)
  parse-print_event (discovered peer) h =
      peer_lem (codes "<discovered") discovered peer (keyword "<discovered" refl) (λ words. refl)
  parse-print_event (unreachable peer) h =
      peer_lem (codes "<unreachable") unreachable peer (keyword "<unreachable" refl) (λ words. refl)
  parse-print_event (connected peer) h =
      peer_lem (codes "<connected") connected peer (keyword "<connected" refl) (λ words. refl)
  parse-print_event (disconnected peer) h =
      peer_lem (codes "<disconnected") disconnected peer (keyword "<disconnected" refl)
        (λ words. refl)
  parse-print_event (subscribed peer topic) h =
      topic_lem (codes "<subscribed") subscribed peer topic (keyword "<subscribed" refl) h
        (λ words. refl)
  parse-print_event (unsubscribed peer topic) h =
      topic_lem (codes "<unsubscribed") unsubscribed peer topic (keyword "<unsubscribed" refl) h
        (λ words. refl)
  parse-print_event (block b) h =
      block_lem c laws (codes "<block") (λ x. read (block x)) (parse_words c) b
        (keyword "<block" refl) (λ words. refl) h
  parse-print_event flushed h =
      ap (parse_words c) (split_word (codes "<flushed") (keyword "<flushed" refl))
  parse-print_event synced h =
      ap (parse_words c) (split_word (codes "<synced") (keyword "<synced" refl))
  parse-print_event bootstrapped h =
      ap (parse_words c) (split_word (codes "<bootstrapped") (keyword "<bootstrapped" refl))
  parse-print_event (peer_info peer i) h =
      then_lem c.peer laws.peer_codec (codes "<peer-info")
        (λ p rest. parsed (c.info.parse (join rest)) (λ j. read (peer_info p j))) (parse_words c)
        peer (c.info.print i) (keyword "<peer-info" refl) (λ words. refl)
  parse-print_event (peer_removed peer) h =
      peer_lem (codes "<peer-removed") peer_removed peer (keyword "<peer-removed" refl)
        (λ words. refl)
  parse-print_event (dial_failure peer addr error) h = failure_lem peer addr error
  parse-print_event (connection_established peer addr) h =
      link_lem (codes "<connection-established") connection_established peer addr
        (keyword "<connection-established" refl) (λ words. refl)
  parse-print_event (connection_closed peer addr) h =
      link_lem (codes "<connection-closed") connection_closed peer addr
        (keyword "<connection-closed" refl) (λ words. refl)
