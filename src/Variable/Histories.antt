-- ===== src/Variable/Histories.antt =====
-- src/variable.rs: what a reader sees after any history of writes.
use mathlib.Core.Option
use ipfs_embed.Prelude.{
  ℕ, zero, suc, List, [], ◌∷◌, ◌++◌, some, ◌≡◌, refl, ◌==◌, if◌then◌else◌, arith, length, ◌∙◌, ap,
}
use ipfs_embed.Variable.{Cells, Writer, content, change, new, write, reader, project}

module _ {T : Type 0} where
  -- Writes through whatever handles, one after the other.
  abbrev pub written : List (Writer × (T → T)) → Cells T → Cells T
  written [] cells = cells
  written ((w, f) ∷ rest) cells = written rest (write w f cells)

  -- What the writes to one cell make of a value, in their order.
  abbrev pub folded : ℕ → List (Writer × (T → T)) → T → T
  folded i [] x = x
  folded i ((w, f) ∷ rest) x = folded i rest (if w.cell == i then f x else x)

  content-change :
      (f : T → T) (cells : Cells T) (i j : ℕ)
      → content (change f cells j) i ≡ Option.map (λ x. if j == i then f x else x) (content cells i)
  unfolding content change
  content-change f [] i j = refl
  content-change f (x ∷ cells) zero zero = refl
  content-change f (x ∷ cells) zero (suc j) = ground arith
  content-change f (x ∷ cells) (suc i) zero = ground arith
  content-change f (x ∷ cells) (suc i) (suc j) = ground (arith, content-change f cells i j)

  content-new : (x : T) (cells : Cells T) → content (cells ++ x ∷ []) (length cells) ≡ some x
  unfolding content
  content-new x [] = refl
  content-new x (y ∷ cells) = content-new x cells

  content-written :
      (i : ℕ) (history : List (Writer × (T → T))) (cells : Cells T) {x : T}
      → content cells i ≡ some x
      → content (written history cells) i ≡ some (folded i history x)
  unfolding write
  content-written i [] cells e = e
  content-written i ((w, f) ∷ rest) cells {x} e =
      content-written i rest (change f cells w.cell)
        (content-change f cells i w.cell ∙ ap (Option.map (λ y. if w.cell == i then f y else y)) e)

  -- Of a new variable, whatever is then written to it and to others, every reader sees the value
  -- that the writes to this variable have made of the first one, in their order.
  pub project-new :
      {U : Type 0} (x : T) (view : T → U) (history : List (Writer × (T → T))) (cells : Cells T)
      → let (w, cells') = new x cells in
        project (reader w) view (written history cells') ≡ some (view (folded w.cell history x))
  unfolding new project reader
  project-new x view history cells =
      ap (Option.map view)
        (content-written (length cells) history (cells ++ x ∷ []) (content-new x cells))
