-- ===== src/Cli/Lines.antt =====
-- cli/src/main.rs: a command that is sent as a line is executed.
use ipfs_embed.Prelude.{[], ◌∷◌, ◌++◌, ◌≡◌, ap, ◌∙◌}
use ipfs_embed.Cli.Words.{split_newline}
use ipfs_embed.Cli.Codecs.{Codecs, AreCodecs}
use ipfs_embed.Cli.Command.{Command, print, parse, parse_words}
use ipfs_embed.Cli.RoundTrip.Commands.{IsWritable, reread, parse-print_command}
use ipfs_embed.Cli.Main.{Node, handle_line, answered}

-- Where the identifiers, addresses and peers are written as words that are read back, an alias is one
-- word, and a block is one that `Block::new` makes: a command that is printed as a line is executed
-- by the round that reads the line, with the same arguments, or makes the program panic if it is a
-- block without data.
pub handle_line-print :
    {X I : Type 0} (c : Codecs I) (laws : AreCodecs c) (ops : Node X) (cmd : Command) (x : X)
    → IsWritable c cmd
    → handle_line c ops (print c cmd ++ 10 ∷ []) x ≡ answered c ops (reread cmd) x
unfolding handle_line parse
handle_line-print c laws ops cmd x h =
    ap (λ words. answered c ops (parse_words c words) x) (split_newline (print c cmd))
    ∙ ap (λ o. answered c ops o x) (parse-print_command c laws cmd h)
