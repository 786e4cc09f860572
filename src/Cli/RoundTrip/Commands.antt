-- ===== src/Cli/RoundTrip/Commands.antt =====
-- cli/src/lib.rs: the round trip of commands.
use ipfs_embed.Prelude.{ap, ◌∙◌, ◌∷◌, ◌++◌, Option, some, none, ◌≡◌, refl}
use ipfs_embed.Network.State.{Cid}
use mathlib.Core.List.{append-nil}
use ipfs_embed.Cli.RoundTrip.Parts.{keyword, one_lem, then_lem}
use ipfs_embed.Cli.RoundTrip.Blocks.{IsBlock, unless_empty, block_lem}
use ipfs_embed.Cli.Words.{split_whitespace, Text, IsWord, codes, split_word, split_two, split_three}
use ipfs_embed.Cli.Codecs.{next_parsed, Outcome, read, Codecs, AreCodecs}
use ipfs_embed.Cli.Command.{
  Command, add_address, dial, prune_peers, get, insert, alias, flush, sync, print, parse,
  parse_words, print_alias_cid, next_alias_cid,
}

-- An alias that is a word, and a block that `Block::new` makes.
abbrev pub IsWritable : {I : Type 0} → Codecs I → Command → Type 0
IsWritable c (insert block) = IsBlock c block
IsWritable c (alias name cid) = IsWord name
IsWritable c _ = Unit

abbrev pub reread : Command → Outcome Command
reread (insert block) = unless_empty block.data_ (read (insert block))
reread cmd = read cmd

module _ {I : Type 0} (c : Codecs I) (laws : AreCodecs c) where
  alias_lem :
      (name : Text) (cid : Option Cid)
      → IsWord name
      → parse_words c (split_whitespace (codes ">alias" ++ 32 ∷ (name ++ print_alias_cid c cid)))
        ≡ read (alias name cid)
  unfolding parse_words print_alias_cid next_alias_cid
  alias_lem name none h =
      rw (append-nil name, split_two (codes ">alias") name (keyword ">alias" refl) h) refl
  alias_lem name (some cid) h =
      rw
        (
          split_three (codes ">alias") name (c.cid.print cid) (keyword ">alias" refl) h
              (laws.cid_codec.prints_word cid),
          laws.cid_codec.reads_back cid,
        )
        refl

  -- Where the identifiers, addresses and peers are written as words that are read back, an alias is
  -- one word, and a block is one that `Block::new` makes: a command that is written on a line is read
  -- back, or makes the reader panic if it is a block without data.
  pub parse-print_command : (cmd : Command) → IsWritable c cmd → parse c (print c cmd) ≡ reread cmd
  unfolding parse print parse_words
  parse-print_command (add_address peer addr) h =
      then_lem c.peer laws.peer_codec (codes ">add-address")
        (λ p rest. next_parsed c.addr rest (λ a _. read (add_address p a))) (parse_words c) peer
        (c.addr.print addr) (keyword ">add-address" refl) (λ words. refl)
      ∙ rw
          (
            split_word (c.addr.print addr) (laws.addr_codec.prints_word addr),
            laws.addr_codec.reads_back addr,
          )
          refl
  parse-print_command (dial peer) h =
      one_lem c.peer laws.peer_codec (codes ">dial") (λ p _. read (dial p)) (parse_words c) peer
        (keyword ">dial" refl) (λ words. refl)
  parse-print_command prune_peers h =
      ap (parse_words c) (split_word (codes ">prune-peers") (keyword ">prune-peers" refl))
  parse-print_command (get cid) h =
      one_lem c.cid laws.cid_codec (codes ">get") (λ i _. read (get i)) (parse_words c) cid
        (keyword ">get" refl) (λ words. refl)
  parse-print_command (insert block) h =
      block_lem c laws (codes ">insert") (λ b. read (insert b)) (parse_words c) block
        (keyword ">insert" refl) (λ words. refl) h
  parse-print_command (alias name cid) h = alias_lem name cid h
  parse-print_command flush h =
      ap (parse_words c) (split_word (codes ">flush") (keyword ">flush" refl))
  parse-print_command (sync cid) h =
      one_lem c.cid laws.cid_codec (codes ">sync") (λ i _. read (sync i)) (parse_words c) cid
        (keyword ">sync" refl) (λ words. refl)
