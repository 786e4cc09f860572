-- ===== src/Harness/Closed.antt =====
-- harness/src/lib.rs and src/test_util.rs: the blocks of a tree come in an order in which each finds
-- what it links to.
use ipfs_embed.Prelude.{
  Bool-cases, inl, inr, ℕ, zero, suc, List, [], ◌∷◌, ◌++◌, Bool, true, ◌+◌, ◌*◌, length,
  length-append, any, All, ◌==◌, ◌≡◌, refl, arith,
}
use ipfs_embed.Result.{Result, ok}
use ipfs_embed.Network.State.{Cid}
use ipfs_embed.Harness.Tree.{TreeBlock, Built, children, pushed, build_tree_0, build_tree}

-- One of the blocks has the identifier.
abbrev pub held : Cid → List TreeBlock → Bool
held l blocks = any (λ b. b.cid == l) blocks

-- Every block comes after those that it links to.
pub data IsClosed : List TreeBlock → Type 0 where
  no_blocks : IsClosed []
  grown :
      {blocks : List TreeBlock}
      → IsClosed blocks
      → (b : TreeBlock) → All (λ l. held l blocks ≡ true) b.links
      → IsClosed (blocks ++ b ∷ [])

-- The number of blocks of a tree.
abbrev pub tree_size : ℕ → ℕ → ℕ
tree_size width zero = 1
tree_size width (suc depth) = 1 + width * tree_size width depth

held-append : (l : Cid) (xs ys : List TreeBlock) → held l xs ≡ true → held l (xs ++ ys) ≡ true
unfolding any
held-append l [] ys h = absurd (cc h)
held-append l (b ∷ xs) ys h = elim (Bool-cases (b.cid == l)) [
  | inl e ↦ ground (arith, e)
  | inr n ↦ ground (arith, n, h, held-append l xs ys)
]

held-last : (b : TreeBlock) (xs : List TreeBlock) → held b.cid (xs ++ b ∷ []) ≡ true
unfolding any
held-last b [] = ground arith
held-last b (x ∷ xs) = ground (arith, held-last b xs)

-- What a builder of one subtree does to blocks that are closed: it adds so many, which hold its
-- root, and they are closed.
record IsGrown (size : ℕ) (before : List TreeBlock) (root : Cid) (after : List TreeBlock)
    : Type 0 where
  closed : IsClosed after
  rooted : held root after ≡ true
  kept : (l : Cid) → held l before ≡ true → held l after ≡ true
  counted : length after ≡ length before + size

abbrev Grows : ℕ → (List TreeBlock → Built) → Type 0
Grows size build =
    (blocks : List TreeBlock)
    → IsClosed blocks
    → (root : Cid) × (after : List TreeBlock) × (build blocks ≡ ok (root, after))
      × IsGrown size blocks root after

children_lem :
    (size : ℕ) (child : List TreeBlock → Built)
    → Grows size child
    → (n : ℕ) (blocks : List TreeBlock) → IsClosed blocks
    → (links : List Cid) × (after : List TreeBlock) × (children n child blocks ≡ ok (links, after))
      × IsClosed after
      × All (λ l. held l after ≡ true) links
      × ((l : Cid) → held l blocks ≡ true → held l after ≡ true)
      × (length after ≡ length blocks + n * size)
unfolding children
children_lem size child grows zero blocks h = ([], blocks, refl, h, tt, λ l x. x, omega arith)
children_lem size child grows (suc n) blocks h =
    let (root, middle, built, g) = grows blocks h in
    let (links, after, rest, closed_, all, kept_, count) =
      children_lem size child grows n middle g.closed in
    (
      root ∷ links,
      after,
      rw (built, rest) refl,
      closed_,
      (kept_ root g.rooted, all),
      λ l x. kept_ l (g.kept l x),
      omega (arith, count, g.counted),
    )

-- An encoder that does not fail.
abbrev pub Encodes : (ℕ → List Cid → ℕ → Result Cid) → Type 0
Encodes create_block =
    (n : ℕ) (links : List Cid) (depth : ℕ) → (cid : Cid) × (create_block n links depth ≡ ok cid)

module _ (create_block : ℕ → List Cid → ℕ → Result Cid) (encodes : Encodes create_block) where
  pushed_lem :
      (links : List Cid) (depth : ℕ) (blocks : List TreeBlock)
      → IsClosed blocks
      → All (λ l. held l blocks ≡ true) links
      → (root : Cid) × (after : List TreeBlock) × (pushed create_block links depth blocks
          ≡ ok (root, after))
        × IsGrown 1 blocks root after
  unfolding pushed
  pushed_lem links depth blocks h all =
      let (cid, made) = encodes (length blocks) links depth in
      let b : TreeBlock = record { cid = cid; links = links; depth = depth } in
      (
        cid,
        blocks ++ b ∷ [],
        rw made refl,
        record {
          closed = grown h b all;
          rooted = held-last b blocks;
          kept = λ l x. held-append l blocks (b ∷ []) x;
          counted = length-append blocks (b ∷ []);
        },
      )

  build_tree_0_lem :
      (width depth : ℕ) → Grows (tree_size width depth) (build_tree_0 create_block width depth)
  unfolding build_tree_0
  build_tree_0_lem width zero blocks h = pushed_lem [] 0 blocks h tt
  build_tree_0_lem width (suc depth) blocks h =
      let (links, middle, built, closed_, all, kept_, count) =
        children_lem (tree_size width depth) (build_tree_0 create_block width depth)
          (build_tree_0_lem width depth) width blocks h in
      let (root, after, last, g) = pushed_lem links (suc depth) middle closed_ all in
      (
        root,
        after,
        rw built last,
        record {
          closed = g.closed;
          rooted = g.rooted;
          kept = λ l x. g.kept l (kept_ l x);
          counted = omega (arith, count, g.counted);
        },
      )

  -- With an encoder that does not fail, the tree is built: its blocks hold the root, each block comes
  -- after those that it links to, and their number is that of a tree of the width and depth.
  pub build_tree_lem :
      (width depth : ℕ)
      → (root : Cid) × (blocks : List TreeBlock) × (build_tree create_block width depth
          ≡ ok (root, blocks))
        × IsClosed blocks
        × (held root blocks ≡ true)
        × (length blocks ≡ tree_size width depth)
  unfolding build_tree
  build_tree_lem width depth =
      let (root, blocks, built, g) = build_tree_0_lem width depth [] no_blocks in
      (root, blocks, built, g.closed, g.rooted, omega (arith, g.counted))
