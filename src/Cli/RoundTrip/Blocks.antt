-- ===== src/Cli/RoundTrip/Blocks.antt =====
-- cli/src/lib.rs: the round trip of a block, which commands and events share.
use ipfs_embed.Prelude.{List, [], ◌∷◌, ◌++◌, ◌≡◌, refl, true, All, ◌<◌, ap, ◌∙◌}
use ipfs_embed.Network.State.{Cid, Bytes}
use ipfs_embed.Storage.State.{Block}
use ipfs_embed.Cli.Words.{Text, IsWord, split_space, split_two, split_whitespace}
use ipfs_embed.Cli.Hex.{print_hex, parse_hex-print_hex, print_hex-IsWord}
use ipfs_embed.Cli.Codecs.{Outcome, panicked, Codecs, AreCodecs, next_block}

-- A block whose data are bytes that match its identifier.
abbrev pub IsBlock : {I : Type 0} → Codecs I → Block → Type 0
IsBlock c block = All (λ b. b < 256) block.data_ × (c.matches block.cid block.data_ ≡ true)

abbrev pub unless_empty : {A : Type 0} → Bytes → Outcome A → Outcome A
unless_empty [] o = panicked
unless_empty (b ∷ data_) o = o

-- The word of the data, and none if there are no data.
abbrev hex_words : Bytes → List Text
hex_words [] = []
hex_words (b ∷ data_) = print_hex (b ∷ data_) ∷ []

split_nothing : split_whitespace [] ≡ []
unfolding split_whitespace
split_nothing = refl

split_data :
    (w : Text) (data_ : Bytes)
    → IsWord w
    → All (λ b. b < 256) data_
    → split_whitespace (w ++ 32 ∷ print_hex data_) ≡ w ∷ hex_words data_
unfolding print_hex
split_data w [] hw h = split_space w [] hw ∙ ap (λ t. w ∷ t) split_nothing
split_data w (b ∷ data_) hw h = split_two w (print_hex (b ∷ data_)) hw (print_hex-IsWord b data_ h)

module _ {I : Type 0} (c : Codecs I) (laws : AreCodecs c) where
  block_words :
      {A : Type 0} (k : Block → Outcome A) (cid : Cid) (data_ : Bytes)
      → IsBlock c (record { cid = cid; data_ = data_ })
      → next_block c (c.cid.print cid ∷ hex_words data_) k
        ≡ unless_empty data_ (k (record { cid = cid; data_ = data_ }))
  unfolding next_block
  block_words k cid [] h = rw (laws.cid_codec.reads_back cid) refl
  block_words k cid (b ∷ data_) h =
      rw (laws.cid_codec.reads_back cid, parse_hex-print_hex (b ∷ data_) h.0, h.1) refl

  -- What is read of a block after its keyword is the block, unless it has no data.
  pub block_lem :
      {A : Type 0} (w : Text) (k : Block → Outcome A) (f : List Text → Outcome A) (block : Block)
      → IsWord w
      → ((words : List Text) → f (w ∷ words) ≡ next_block c words k)
      → IsBlock c block
      → f (split_whitespace (w ++ 32 ∷ (c.cid.print block.cid ++ 32 ∷ print_hex block.data_)))
        ≡ unless_empty block.data_ (k block)
  block_lem w k f block hw step h =
      ap f (
        split_space w (c.cid.print block.cid ++ 32 ∷ print_hex block.data_) hw
        ∙ ap (λ t. w ∷ t)
            (split_data (c.cid.print block.cid) block.data_ (laws.cid_codec.prints_word block.cid)
              h.0))
      ∙ step (c.cid.print block.cid ∷ hex_words block.data_)
      ∙ block_words k block.cid block.data_ h
