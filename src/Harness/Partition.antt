-- ===== src/Harness/Partition.antt =====
-- harness/src/lib.rs: every machine of the network has one role.
use mathlib.Core.List.{map-append}
use ipfs_embed.Prelude.{
  ◌++◌, ℕ, zero, suc, List, [], ◌∷◌, ◌+◌, ◌-◌, ◌≤◌, ◌≡◌, some, length, take, map, arith, ap, refl,
  sym, ◌∙◌,
}
use ipfs_embed.Multiaddr.{PeerIds}
use ipfs_embed.Harness.Roles.{
  HarnessOpts, provider, consumer, idle, range, drop, slice, Machine, Entry, node, entries, nodes,
  role,
}

module _ {A : Type 0} where
  take-drop : (n : ℕ) (xs : List A) → take n xs ++ drop n xs ≡ xs
  take-drop zero xs = refl
  take-drop (suc n) [] = refl
  take-drop (suc n) (x ∷ xs) = ap (λ ys. x ∷ ys) (take-drop n xs)

  drop-drop : (k m n : ℕ) (xs : List A) → k ≡ m + n → drop k xs ≡ drop n (drop m xs)
  drop-drop k zero n xs e = ap (λ j. drop j xs) (omega (arith, e))
  drop-drop zero (suc m) n xs e = ground (arith, e)
  drop-drop (suc k) (suc m) zero [] e = refl
  drop-drop (suc k) (suc m) (suc n) [] e = refl
  drop-drop (suc k) (suc m) n (x ∷ xs) e = drop-drop k m n xs (omega (arith, e))

  length-drop : (n : ℕ) (xs : List A) → length (drop n xs) ≡ length xs - n
  length-drop zero xs = omega arith
  length-drop (suc n) [] = omega arith
  length-drop (suc n) (x ∷ xs) = ground (arith, length-drop n xs)

  length-take : (n : ℕ) (xs : List A) → n ≤ length xs → length (take n xs) ≡ n
  length-take zero xs h = refl
  length-take (suc n) [] h = ground arith
  length-take (suc n) (x ∷ xs) h = ground (arith, length-take n xs (omega arith))

  take-all : (n : ℕ) (xs : List A) → length xs ≡ n → take n xs ≡ xs
  take-all zero [] h = refl
  take-all zero (x ∷ xs) h = ground arith
  take-all (suc n) [] h = refl
  take-all (suc n) (x ∷ xs) h = ap (λ ys. x ∷ ys) (take-all n xs (omega arith))

-- A role whose range is cut out of the machines.
slice_lem :
    (start end_ : ℕ) (ms : List Machine)
    → start ≤ end_
    → end_ ≤ length ms
    → slice (start, end_) ms ≡ some (take (end_ - start) (drop start ms))
unfolding slice
slice_lem start end_ ms h k = ground (arith, h, k)

cut :
    (p c n : ℕ) (ms : List Machine)
    → p + c ≤ n
    → length ms ≡ n
    → take (p - 0) ms ++ (take (p + c - p) (drop p ms) ++ take (n - (p + c)) (drop (p + c) ms)) ≡ ms
cut p c n ms h e =
    let last : take (n - (p + c)) (drop (p + c) ms) ≡ drop c (drop p ms) =
      take-all _ _ (ground (arith, length-drop (p + c) ms, e)) ∙ drop-drop (p + c) p c ms refl in
    let mid : take (p + c - p) (drop p ms) ≡ take c (drop p ms) =
      ap (λ j. take j (drop p ms)) (omega arith) in
    let start : take (p - 0) ms ≡ take p ms = ap (λ j. take j ms) (omega arith) in
    ap (λ j. take (p - 0) ms ++ j)
      (ap (λ j. j ++ take (n - (p + c)) (drop (p + c) ms)) mid
        ∙ ap (λ j. take c (drop p ms) ++ j) last
        ∙ take-drop c (drop p ms))
    ∙ ap (λ j. j ++ drop p ms) start
    ∙ take-drop p ms

length-node : (ids : PeerIds) (ms : List Machine) → length (map (node ids) ms) ≡ length ms
length-node ids [] = refl
length-node ids (m ∷ ms) = ap suc (length-node ids ms)

-- If the network has as many machines as there are to be nodes, and these are enough for the providers
-- and the consumers, then each role has its machines: the providers, the consumers and the others, one
-- after the other, are all the machines, and there are as many providers and consumers as are asked for.
pub role-partition :
    (ids : PeerIds) (opts : HarnessOpts) (ms : List Machine)
    → opts.n_providers + opts.n_consumers ≤ opts.n_nodes
    → length ms ≡ opts.n_nodes
    → (ps : List Entry) × (cs : List Entry) × (others : List Entry) × (role ids opts provider ms
        ≡ some ps)
      × (role ids opts consumer ms ≡ some cs)
      × (role ids opts idle ms ≡ some others)
      × (ps ++ (cs ++ others) ≡ map (node ids) ms)
      × (length ps ≡ opts.n_providers)
      × (length cs ≡ opts.n_consumers)
unfolding role nodes range entries
role-partition ids opts ms h e =
    let p = opts.n_providers in
    let c = opts.n_consumers in
    let n = opts.n_nodes in
    let xs = take (p - 0) ms in
    let ys = take (p + c - p) (drop p ms) in
    let zs = take (n - (p + c)) (drop (p + c) ms) in
    (
      map (node ids) xs,
      map (node ids) ys,
      map (node ids) zs,
      ap (entries ids) (slice_lem 0 p ms (omega arith) (omega (arith, h, e))),
      ap (entries ids) (slice_lem p (p + c) ms (omega arith) (omega (arith, h, e))),
      ap (entries ids) (slice_lem (p + c) n ms h (omega (arith, e))),
      ap (λ k. map (node ids) xs ++ k) (sym (map-append (node ids) ys zs))
          ∙ sym (map-append (node ids) xs (ys ++ zs))
          ∙ ap (map (node ids)) (cut p c n ms h e),
      length-node ids xs ∙ length-take (p - 0) ms (omega (arith, h, e)) ∙ omega arith,
      length-node ids ys
          ∙ length-take (p + c - p) (drop p ms) (ground (arith, length-drop p ms, h, e))
          ∙ omega arith,
    )
