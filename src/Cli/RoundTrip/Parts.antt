-- ===== src/Cli/RoundTrip/Parts.antt =====
-- cli/src/lib.rs: the round trip of the words after a keyword. `f` reads the words of a line.
use ipfs_embed.Prelude.{String, List, [], ◌∷◌, ◌++◌, ◌≡◌, refl, true}
use ipfs_embed.Cli.Words.{
  Text, IsWord, codes, is_word, is_word-IsWord, split_space, split_two, split_whitespace,
}
use ipfs_embed.Cli.Codecs.{Outcome, Codec, IsCodec, next_parsed}

pub keyword : (s : String) → is_word (codes s) ≡ true → IsWord (codes s)
keyword s h = is_word-IsWord (codes s) h

module _ {A C : Type 0} (a : Codec A) (la : IsCodec a) where
  -- one value
  pub one_lem :
      (w : Text) (k : A → List Text → Outcome C) (f : List Text → Outcome C) (x : A)
      → IsWord w
      → ((words : List Text) → f (w ∷ words) ≡ next_parsed a words k)
      → f (split_whitespace (w ++ 32 ∷ a.print x)) ≡ k x []
  one_lem w k f x hw step =
      rw (split_two w (a.print x) hw (la.prints_word x), step, la.reads_back x) refl

  -- a value and the rest of the line
  pub then_lem :
      (w : Text) (k : A → List Text → Outcome C) (f : List Text → Outcome C) (x : A) (t : Text)
      → IsWord w
      → ((words : List Text) → f (w ∷ words) ≡ next_parsed a words k)
      → f (split_whitespace (w ++ 32 ∷ (a.print x ++ 32 ∷ t))) ≡ k x (split_whitespace t)
  then_lem w k f x t hw step =
      rw
        (
          split_space w (a.print x ++ 32 ∷ t) hw,
          split_space (a.print x) t (la.prints_word x),
          step,
          la.reads_back x,
        )
        refl
