-- ===== src/Cli/Command.antt =====
-- cli/src/lib.rs: `Command` and its text.
use ipfs_embed.Prelude.{List, [], ◌∷◌, ◌++◌, Option, none, some, if◌then◌else◌}
use ipfs_embed.Multiaddr.{PeerId, Multiaddr}
use ipfs_embed.Network.State.{Cid}
use ipfs_embed.Storage.State.{Block}
use ipfs_embed.Cli.Words.{Text, codes, text_eq, split_whitespace}
use ipfs_embed.Cli.Hex.{print_hex}
use ipfs_embed.Cli.Codecs.{Outcome, read, failed, Codecs, parsed, next, next_parsed, next_block}

pub data Command : Type 0 where
  add_address : PeerId → Multiaddr → Command
  dial : PeerId → Command
  prune_peers : Command
  get : Cid → Command
  insert : Block → Command
  alias : Text → Option Cid → Command
  flush : Command
  sync : Cid → Command

module _ {I : Type 0} (c : Codecs I) where
  unfoldable pub print_alias_cid : Option Cid → Text
  print_alias_cid none = []
  print_alias_cid (some cid) = 32 ∷ c.cid.print cid

  unfoldable pub print : Command → Text
  unfolding print_alias_cid
  print (add_address peer addr) =
      codes ">add-address" ++ 32 ∷ (c.peer.print peer ++ 32 ∷ c.addr.print addr)
  print (dial peer) = codes ">dial" ++ 32 ∷ c.peer.print peer
  print prune_peers = codes ">prune-peers"
  print (get cid) = codes ">get" ++ 32 ∷ c.cid.print cid
  print (insert block) =
      codes ">insert" ++ 32 ∷ (c.cid.print (block.cid) ++ 32 ∷ print_hex (block.data_))
  print (alias name cid) = codes ">alias" ++ 32 ∷ (name ++ print_alias_cid cid)
  print flush = codes ">flush"
  print (sync cid) = codes ">sync" ++ 32 ∷ c.cid.print cid

  -- `parts.next().map(|s| s.parse()).transpose()?`
  unfoldable pub next_alias_cid : Text → List Text → Outcome Command
  next_alias_cid name [] = read (alias name none)
  next_alias_cid name (w ∷ words) = parsed (c.cid.parse w) (λ cid. read (alias name (some cid)))

  unfoldable pub parse_words : List Text → Outcome Command
  unfolding next_alias_cid
  parse_words [] = failed
  parse_words (w ∷ words) =
      if text_eq w (codes ">add-address")
      then next_parsed c.peer words
          (λ peer rest. next_parsed c.addr rest (λ addr _. read (add_address peer addr)))
      else if text_eq w (codes ">dial")
      then next_parsed c.peer words (λ peer _. read (dial peer))
      else if text_eq w (codes ">prune-peers")
      then read prune_peers
      else if text_eq w (codes ">get")
      then next_parsed c.cid words (λ cid _. read (get cid))
      else if text_eq w (codes ">insert")
      then next_block c words (λ block. read (insert block))
      else if text_eq w (codes ">alias")
      then next words next_alias_cid
      else if text_eq w (codes ">flush")
      then read flush
      else if text_eq w (codes ">sync")
      then next_parsed c.cid words (λ cid _. read (sync cid))
      else failed

  unfoldable pub parse : Text → Outcome Command
  unfolding parse_words
  parse s = parse_words (split_whitespace s)
