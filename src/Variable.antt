-- ===== src/Variable.antt =====
-- src/variable.rs: a variable that is written at one place and read at others. The lock is held for
-- the length of a call, so that a call is one step.
pub mod Histories
use mathlib.Core.Option
use ipfs_embed.Prelude.{ℕ, zero, suc, List, [], ◌∷◌, ◌++◌, Option, none, some, length}

-- The shared cells of a program, an `Inner` each, in the order in which they were made.
abbrev pub Cells : Type 0 → Type 0
Cells T = List T

pub record Writer : Type 0 where
  pub cell : ℕ

pub record Reader : Type 0 where
  pub cell : ℕ

-- The content of a cell; a handle of a cell is made only with it.
unfoldable pub content : {T : Type 0} → Cells T → ℕ → Option T
content [] i = none
content (x ∷ cells) zero = some x
content (x ∷ cells) (suc i) = content cells i

unfoldable pub change : {T : Type 0} → (T → T) → Cells T → ℕ → Cells T
change f [] i = []
change f (x ∷ cells) zero = f x ∷ cells
change f (x ∷ cells) (suc i) = x ∷ change f cells i

unfoldable pub new : {T : Type 0} → T → Cells T → Writer × Cells T
new value cells = (record { cell = length cells }, cells ++ value ∷ [])

-- `f` is what is done through the guard, before it is dropped.
unfoldable pub write : {T : Type 0} → Writer → (T → T) → Cells T → Cells T
unfolding change
write w f cells = change f cells w.cell

unfoldable pub read : {T : Type 0} → Writer → Cells T → Option T
unfolding content
read w cells = content cells w.cell

-- A reader of the same cell; a clone of a writer or a reader is the handle itself.
unfoldable pub reader : Writer → Reader
reader w = record { cell = w.cell }

unfoldable pub project : {T U : Type 0} → Reader → (T → U) → Cells T → Option U
unfolding content
project r f cells = Option.map f (content cells r.cell)

unfoldable pub get : {T : Type 0} → Reader → Cells T → Option T
unfolding content
get r cells = content cells r.cell

unfoldable pub get_cloned : {T : Type 0} → Reader → Cells T → Option T
unfolding content
get_cloned r cells = content cells r.cell
