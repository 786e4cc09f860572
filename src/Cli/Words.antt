-- ===== src/Cli/Words.antt =====
-- cli/src/lib.rs: texts, and their words as `str::split_whitespace` gives them. A text is the list
-- of its code points.
use Prim.Native.Char.{code}
use Prim.Native.String.{String}
use ipfs_embed.Prelude.{
  not, ◌∙◌, ℕ, List, [], ◌∷◌, ◌++◌, Bool, true, false, ◌&&◌, ◌||◌, ◌==◌, leb, if◌then◌else◌, ◌≡◌,
  refl, arith, All, Bool-cases, inl, inr, ap,
}

abbrev pub Text : Type 0
Text = List ℕ

-- The code points of a literal.
abbrev pub codes : String → Text
codes String.[] = []
codes (String.◌∷◌ c s) = code c ∷ codes s

abbrev pub text_eq : Text → Text → Bool
text_eq [] [] = true
text_eq (a ∷ s) (b ∷ t) = a == b && text_eq s t
text_eq _ _ = false

-- `char::is_whitespace`: the code points with the property White_Space of Unicode
abbrev pub is_whitespace : ℕ → Bool
is_whitespace c =
    (leb 9 c && leb c 13)
    || c == 32
    || c == 133
    || c == 160
    || c == 5760
    || (leb 8192 c && leb c 8202)
    || c == 8232
    || c == 8233
    || c == 8239
    || c == 8287
    || c == 12288

-- A word before others, unless it is empty.
abbrev pub before : Text → List Text → List Text
before [] words = words
before (c ∷ w) words = (c ∷ w) ∷ words

-- The word that a text begins with, empty if it begins with whitespace, and the words after it.
unfoldable pub first_word : Text → Text × List Text
first_word [] = ([], [])
first_word (c ∷ t) =
    let (w, words) = first_word t in
    if is_whitespace c then ([], before w words) else (c ∷ w, words)

unfoldable pub split_whitespace : Text → List Text
unfolding first_word
split_whitespace t = let (w, words) = first_word t in before w words

-- `join(" ")`
unfoldable pub join : List Text → Text
join [] = []
join (w ∷ []) = w
join (w ∷ v ∷ words) = w ++ 32 ∷ join (v ∷ words)

abbrev pub NoWhitespace : Text → Type 0
NoWhitespace w = All (λ c. is_whitespace c ≡ false) w

-- A text that is one word.
abbrev pub IsWord : Text → Type 0
IsWord [] = ⊥
IsWord (c ∷ w) = NoWhitespace (c ∷ w)

first_word_end : (w : Text) → NoWhitespace w → first_word w ≡ (w, [])
unfolding first_word
first_word_end [] h = refl
first_word_end (c ∷ w) h = ground (arith, h.0, first_word_end w h.1)

first_word_space :
    (w t : Text) → NoWhitespace w → first_word (w ++ 32 ∷ t) ≡ (w, split_whitespace t)
unfolding first_word split_whitespace
first_word_space [] t h = refl
first_word_space (c ∷ w) t h = ground (arith, h.0, first_word_space w t h.1)

pub split_word : (w : Text) → IsWord w → split_whitespace w ≡ w ∷ []
unfolding split_whitespace
split_word [] h = absurd h
split_word (c ∷ w) h = ground (arith, first_word_end (c ∷ w) h)

pub split_space : (w t : Text) → IsWord w → split_whitespace (w ++ 32 ∷ t) ≡ w ∷ split_whitespace t
unfolding split_whitespace
split_space [] t h = absurd h
split_space (c ∷ w) t h = ground (arith, first_word_space (c ∷ w) t h)

pub split_two : (w v : Text) → IsWord w → IsWord v → split_whitespace (w ++ 32 ∷ v) ≡ w ∷ v ∷ []
split_two w v hw hv = split_space w v hw ∙ ap (λ t. w ∷ t) (split_word v hv)

pub split_three :
    (w v u : Text)
    → IsWord w
    → IsWord v
    → IsWord u
    → split_whitespace (w ++ 32 ∷ (v ++ 32 ∷ u)) ≡ w ∷ v ∷ u ∷ []
split_three w v u hw hv hu = split_space w (v ++ 32 ∷ u) hw ∙ ap (λ t. w ∷ t) (split_two v u hv hu)

-- The test for a word, by which a keyword is one.
abbrev pub is_word : Text → Bool
is_word [] = false
is_word (c ∷ []) = not (is_whitespace c)
is_word (c ∷ d ∷ w) = not (is_whitespace c) && is_word (d ∷ w)

pub is_word-IsWord : (w : Text) → is_word w ≡ true → IsWord w
is_word-IsWord [] h = absurd (cc h)
is_word-IsWord (c ∷ []) h = (ground (arith, h), tt)
is_word-IsWord (c ∷ d ∷ w) h = elim (Bool-cases (is_whitespace c)) [
  | inl bad ↦ absurd (ground (arith, bad, h))
  | inr good ↦ (good, is_word-IsWord (d ∷ w) (ground (arith, good, h)))
]

first_word_newline : (t : Text) → first_word (t ++ 10 ∷ []) ≡ first_word t
unfolding first_word
first_word_newline [] = refl
first_word_newline (c ∷ t) = ground (arith, first_word_newline t)

-- The end of a line is not part of its words.
pub split_newline : (t : Text) → split_whitespace (t ++ 10 ∷ []) ≡ split_whitespace t
unfolding split_whitespace
split_newline t = ground (arith, first_word_newline t)
