-- ===== src/Cli/Codecs.antt =====
-- cli/src/lib.rs: what reading a line of the protocol gives, and the texts of libp2p, libipld and
-- serde_json in it.
use ipfs_embed.Prelude.{List, [], ◌∷◌, Bool, Option, none, some, ◌≡◌, if◌then◌else◌}
use ipfs_embed.Multiaddr.{PeerId, Multiaddr}
use ipfs_embed.Network.State.{Cid, Bytes}
use ipfs_embed.Storage.State.{Block}
use ipfs_embed.Cli.Words.{Text, IsWord}
use ipfs_embed.Cli.Hex.{parse_hex}

-- `from_str` gives a value or an error, or panics where it unwraps a word that is not there.
pub data Outcome (A : Type 0) : Type 0 where
  read : A → Outcome A
  failed : Outcome A
  panicked : Outcome A

-- `Display` and `FromStr` of another package's type.
pub record Codec (A : Type 0) : Type 0 where
  pub print : A → Text
  pub parse : Text → Option A

-- `PeerInfoIo` is what serde_json makes of it; `matches` is the check of `Block::new`.
pub record Codecs (I : Type 0) : Type 0 where
  pub peer : Codec PeerId
  pub addr : Codec Multiaddr
  pub cid : Codec Cid
  pub info : Codec I
  pub matches : Cid → Bytes → Bool

-- What is written is a word, and is read as what it was.
pub record IsCodec {A : Type 0} (c : Codec A) : Type 0 where
  pub prints_word : (a : A) → IsWord (c.print a)
  pub reads_back : (a : A) → c.parse (c.print a) ≡ some a

pub record AreCodecs {I : Type 0} (c : Codecs I) : Type 0 where
  pub peer_codec : IsCodec c.peer
  pub addr_codec : IsCodec c.addr
  pub cid_codec : IsCodec c.cid

-- `parse()?`
abbrev pub parsed : {A B : Type 0} → Option A → (A → Outcome B) → Outcome B
parsed none k = failed
parsed (some a) k = k a

-- `parts.next().unwrap()`
abbrev pub next : {B : Type 0} → List Text → (Text → List Text → Outcome B) → Outcome B
next [] k = panicked
next (w ∷ words) k = k w words

-- `parts.next().unwrap().parse()?`
abbrev pub next_parsed :
    {A B : Type 0} → Codec A → List Text → (A → List Text → Outcome B) → Outcome B
next_parsed c words k = next words (λ w rest. parsed (c.parse w) (λ a. k a rest))

abbrev checked : {B : Type 0} → Bool → Outcome B → Outcome B
checked ok_ k = if ok_ then k else failed

-- The identifier and the data of a block.
unfoldable pub next_block : {I B : Type 0} → Codecs I → List Text → (Block → Outcome B) → Outcome B
next_block c words k = next_parsed c.cid words (λ cid rest. next rest (λ w _.
    parsed (parse_hex w)
      (λ data_. checked (c.matches cid data_) (k (record { cid = cid; data_ = data_ })))))
