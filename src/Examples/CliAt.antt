-- ===== src/Examples/CliAt.antt =====
-- A codec of numbers in unary, and the theorems on the command line at it.
use ipfs_embed.Prelude.{
  ap, ◌-◌, ◌+◌, false, ℕ, List, [], ◌∷◌, ◌++◌, Option, some, none, ◌≡◌, refl, true, arith, ◌==◌,
  if◌then◌else◌,
}
use ipfs_embed.Result.{ok, err}
use ipfs_embed.Multiaddr.{Multiaddr, Protocol, ip4, ip6, tcp, p2p, other}
use ipfs_embed.Cli.Words.{
  is_word-IsWord, split_whitespace, join, Text, codes, is_whitespace, NoWhitespace,
}
use ipfs_embed.Cli.Codecs.{Codec, Codecs, IsCodec, AreCodecs, read}
use ipfs_embed.Cli.Command
use ipfs_embed.Cli.Event
use ipfs_embed.Cli.Main.{Node, handle_line, answered}
use ipfs_embed.Cli.Lines.{handle_line-print}
use ipfs_embed.Cli.Config.{be_bytes, zeros, secret}
use ipfs_embed.Cli.RoundTrip.Commands.{parse-print_command}
use ipfs_embed.Cli.RoundTrip.Events.{parse-print_event}

-- A number is one code point, past those of whitespace.
abbrev sign : ℕ → ℕ
sign n = 20000 + n

abbrev of_sign : ℕ → ℕ
of_sign c = c - 20000

abbrev read_number : Text → Option ℕ
read_number (c ∷ []) = some (of_sign c)
read_number _ = none

abbrev number : Codec ℕ
number = record { print = λ n. sign n ∷ []; parse = read_number }

sign_plain : (n : ℕ) → is_whitespace (sign n) ≡ false
sign_plain n = ground arith

number-IsCodec : IsCodec number
number-IsCodec = record { prints_word = λ n. (sign_plain n, tt); reads_back = λ n. ground arith }

-- A protocol is three code points.
abbrev cells : Protocol → Text → Text
cells (ip4 n) t = sign 0 ∷ sign n ∷ sign 0 ∷ t
cells (ip6 n) t = sign 1 ∷ sign n ∷ sign 0 ∷ t
cells (tcp n) t = sign 2 ∷ sign n ∷ sign 0 ∷ t
cells (p2p h) t = sign 3 ∷ sign h ∷ sign 0 ∷ t
cells (other a b) t = sign 4 ∷ sign a ∷ sign b ∷ t

abbrev of_cells : ℕ → ℕ → ℕ → Protocol
of_cells k a b =
    if k == 20000
    then ip4 (of_sign a)
    else if k == 20001
    then ip6 (of_sign a)
    else if k == 20002
    then tcp (of_sign a)
    else if k == 20003
    then p2p (of_sign a)
    else other (of_sign a) (of_sign b)

print_protocols : Multiaddr → Text
print_protocols [] = []
print_protocols (p ∷ addr) = cells p (print_protocols addr)

read_protocols : Text → Multiaddr
read_protocols (k ∷ a ∷ b ∷ t) = of_cells k a b ∷ read_protocols t
read_protocols _ = []

read_addr : Text → Option Multiaddr
unfolding read_protocols
read_addr (c ∷ t) = some (read_protocols t)
read_addr [] = none

sign-NoWhitespace : (n : ℕ) (t : Text) → NoWhitespace t → NoWhitespace (sign n ∷ t)
sign-NoWhitespace n t h = (sign_plain n, h)

cells-NoWhitespace :
    (a b d : ℕ) (t : Text) → NoWhitespace t → NoWhitespace (sign a ∷ sign b ∷ sign d ∷ t)
cells-NoWhitespace a b d t h =
    sign-NoWhitespace a (sign b ∷ sign d ∷ t)
      (sign-NoWhitespace b (sign d ∷ t) (sign-NoWhitespace d t h))

protocols_plain : (addr : Multiaddr) → NoWhitespace (print_protocols addr)
unfolding print_protocols
protocols_plain [] = tt
protocols_plain (ip4 n ∷ addr) =
    cells-NoWhitespace 0 n 0 (print_protocols addr) (protocols_plain addr)
protocols_plain (ip6 n ∷ addr) =
    cells-NoWhitespace 1 n 0 (print_protocols addr) (protocols_plain addr)
protocols_plain (tcp n ∷ addr) =
    cells-NoWhitespace 2 n 0 (print_protocols addr) (protocols_plain addr)
protocols_plain (p2p n ∷ addr) =
    cells-NoWhitespace 3 n 0 (print_protocols addr) (protocols_plain addr)
protocols_plain (other a b ∷ addr) =
    cells-NoWhitespace 4 a b (print_protocols addr) (protocols_plain addr)

read-print_protocols : (addr : Multiaddr) → read_protocols (print_protocols addr) ≡ addr
unfolding read_protocols print_protocols
read-print_protocols [] = refl
read-print_protocols (ip4 n ∷ addr) = ground (arith, read-print_protocols addr)
read-print_protocols (ip6 n ∷ addr) = ground (arith, read-print_protocols addr)
read-print_protocols (tcp n ∷ addr) = ground (arith, read-print_protocols addr)
read-print_protocols (p2p h ∷ addr) = ground (arith, read-print_protocols addr)
read-print_protocols (other a b ∷ addr) = ground (arith, read-print_protocols addr)

address : Codec Multiaddr
unfolding read_addr print_protocols
address = record { print = λ addr. 47 ∷ print_protocols addr; parse = read_addr }

address-IsCodec : IsCodec address
unfolding address read_addr
address-IsCodec = record {
  prints_word = λ addr. (refl, protocols_plain addr);
  reads_back = λ addr. ap some (read-print_protocols addr);
}

abbrev plain_codecs : Codecs ℕ
plain_codecs = record {
  peer = number;
  addr = address;
  cid = number;
  info = number;
  matches = λ cid data_. true;
}

plain-AreCodecs : AreCodecs plain_codecs
plain-AreCodecs = record {
  peer_codec = number-IsCodec;
  addr_codec = address-IsCodec;
  cid_codec = number-IsCodec;
}

parse-print_command_example :
    Command.parse plain_codecs
      (Command.print plain_codecs (Command.add_address 3 (ip4 1 ∷ tcp 80 ∷ [])))
    ≡ read (Command.add_address 3 (ip4 1 ∷ tcp 80 ∷ []))
parse-print_command_example =
    parse-print_command plain_codecs plain-AreCodecs (Command.add_address 3 (ip4 1 ∷ tcp 80 ∷ []))
      tt

-- Two spaces in the error of a dial come back as one.
parse-print_event_example :
    Event.parse plain_codecs
      (Event.print plain_codecs (Event.dial_failure 3 (ip4 1 ∷ []) (codes "no  route")))
    ≡ read (Event.dial_failure 3 (ip4 1 ∷ []) (codes "no route"))
unfolding split_whitespace join
parse-print_event_example =
    parse-print_event plain_codecs plain-AreCodecs
      (Event.dial_failure 3 (ip4 1 ∷ []) (codes "no  route")) tt

-- A node that remembers what it pinned by name, and has no blocks.
abbrev remembering : Node (List Text)
remembering = record {
  add_address = λ peer addr x. x;
  dial = λ peer x. x;
  prune_peers = λ age x. x;
  get = λ cid x. (err cid, x);
  insert = λ block x. (ok tt, x);
  alias = λ name cid x. (ok tt, name ∷ x);
  flush = λ x. (ok tt, x);
  peers = λ x. [];
  sync = λ cid peers x. (err cid, x);
}

handle_line-print_example :
    handle_line plain_codecs remembering
      (Command.print plain_codecs (Command.alias (codes "root") (some 7)) ++ 10 ∷ [])
      []
    ≡ answered plain_codecs remembering (read (Command.alias (codes "root") (some 7))) []
handle_line-print_example =
    handle_line-print plain_codecs plain-AreCodecs remembering
      (Command.alias (codes "root") (some 7)) [] (is_word-IsWord (codes "root") refl)

secret_258 : secret 258 ≡ be_bytes 7 1 ++ 2 ∷ zeros 24
unfolding secret be_bytes zeros
secret_258 = refl
