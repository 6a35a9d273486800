-- ===== src/Querier/Tree/Spec.antt =====
-- What the tree of some stack traces holds at each path.
use mathlib.Core.List.{reverse, reverse_aux}
use text.Mathlib.Text.{◌==◌}
use text.Mathlib.TextEquality.{eq_iff}
use Prim.Native.String.{String}
use phlare.Base.{
  ℕ, ◌+◌, ◌%◌, ◌<◌, ◌≡◌, refl, sym, ap, ◌∙◌, Bool, true, false, List, [], ◌∷◌, ◌&&◌, inl, inr,
  arith, if◌then◌else◌, Bool-cases, All,
}
use phlare.Base.{◌==◌ as nat_eq}
use phlare.Querier.Tree.{
  Nodes, nil, node, Stacktraces, single, merge_tree, stack_to_tree, new_tree, new_tree_loop, add64,
  word_mod,
}
use phlare.Querier.Tree.Insert.{chain, insert, merge_tree-insert}

-- The own value of the node at the path `n ∷ p` from the root, or zero where there is none.
unfoldable pub self_at : String → List String → Nodes → ℕ
self_at n p nil = 0
self_at n [] (node m s t cs rest) = if m == n then s else self_at n [] rest
self_at n (k ∷ p) (node m s t cs rest) = if m == n then self_at k p cs else self_at n (k ∷ p) rest

abbrev pub same_path : List String → List String → Bool
same_path [] [] = true
same_path [] (y ∷ ys) = false
same_path (x ∷ xs) [] = false
same_path (x ∷ xs) (y ∷ ys) = x == y && same_path xs ys

self_at-chain :
    (n : String) (p : List String) (k : String) (q : List String) (v : ℕ)
    → self_at n p (single (chain k q v)) ≡ (if same_path (k ∷ q) (n ∷ p) then v else 0)
unfolding self_at
self_at-chain n [] k [] v = ground arith
self_at-chain n [] k (k' ∷ q) v = ground arith
self_at-chain n (n' ∷ p) k [] v = ground arith
self_at-chain n (n' ∷ p) k (k' ∷ q) v = ground (arith, self_at-chain n' p k' q v)

add64-zero : (v : ℕ) → v < word_mod → add64 0 v ≡ v
add64-zero v h = omega arith

-- An insertion adds the value at its own path and leaves the values at the others.
pub self_at-insert :
    (t : Nodes) (n : String) (p : List String) (k : String) (q : List String) (v : ℕ)
    → v < word_mod
    → self_at n p (insert k q v t)
      ≡ (if same_path (k ∷ q) (n ∷ p) then add64 (self_at n p t) v else self_at n p t)
unfolding self_at insert
self_at-insert nil n p k q v h = ground (arith, self_at-chain n p k q v, add64-zero v h)
self_at-insert (node m s t cs rest) n [] k [] v h =
    ground (arith, eq_iff m k, eq_iff m n, eq_iff k n, self_at-insert rest n [] k [] v h)
self_at-insert (node m s t cs rest) n [] k (k' ∷ q) v h =
    ground (arith, eq_iff m k, eq_iff m n, eq_iff k n, self_at-insert rest n [] k (k' ∷ q) v h)
self_at-insert (node m s t cs rest) n (n' ∷ p) k [] v h =
    ground (arith, eq_iff m k, eq_iff m n, eq_iff k n, self_at-insert rest n (n' ∷ p) k [] v h)
self_at-insert (node m s t cs rest) n (n' ∷ p) k (k' ∷ q) v h = ground (
  arith,
  eq_iff m k,
  eq_iff m n,
  eq_iff k n,
  self_at-insert rest n (n' ∷ p) k (k' ∷ q) v h,
  self_at-insert cs n' p k' q v h,
)

-- The sum of the values of the stack traces whose locations, reversed, are the path.
unfoldable pub weight : List String → List Stacktraces → ℕ
weight path [] = 0
weight path (stack ∷ stacks) =
    (if same_path (reverse stack.locations) path then stack.value else 0) + weight path stacks

abbrev pub AreWords : List Stacktraces → Type 0
AreWords = All (λ s. s.value < word_mod)

pub reverse_aux-cons :
    (ls : List String) (x : String) (r : List String)
    → (k : String) × ((q : List String) × (reverse_aux ls (x ∷ r) ≡ k ∷ q))
reverse_aux-cons [] x r = (x, (r, refl))
reverse_aux-cons (l ∷ ls) x r = reverse_aux-cons ls l (x ∷ r)

-- Two ways to choose the value to add.
pub eq_of_test : (m n : ℕ) → nat_eq m n ≡ true → m ≡ n
eq_of_test m n e = ground arith

add64-choice :
    (b : Bool) (s v : ℕ)
    → s < word_mod
    → (if b then add64 s v else s) ≡ add64 s (if b then v else 0)
add64-choice true s v w = refl
add64-choice false s v w = omega arith

self_at-merge :
    (t : Nodes) (n : String) (p : List String) (ls : List String) (v : ℕ)
    → v < word_mod
    → self_at n p t < word_mod
    → self_at n p (merge_tree t (stack_to_tree (record { locations = ls; value = v })))
      ≡ add64 (self_at n p t) (if same_path (reverse ls) (n ∷ p) then v else 0)
unfolding merge_tree stack_to_tree
self_at-merge t n p [] v h w = add64-choice false (self_at n p t) v w
self_at-merge t n p (l ∷ ls) v h w =
    let r = reverse_aux-cons ls l [] in
    ap (self_at n p) (merge_tree-insert (l ∷ ls) r.0 r.1.0 v t r.1.1)
    ∙ self_at-insert t n p r.0 r.1.0 v h
    ∙ add64-choice (same_path (r.0 ∷ r.1.0) (n ∷ p)) (self_at n p t) v w
    ∙ ap (λ path. add64 (self_at n p t) (if same_path path (n ∷ p) then v else 0)) (sym r.1.1)

pub add64-skip : (s a b : ℕ) → a ≡ 0 → add64 s b ≡ add64 s (a + b)
add64-skip s a b e = omega arith

pub add64_assoc : (s a b : ℕ) → add64 (add64 s a) b ≡ add64 s (a + b)
add64_assoc s a b = omega arith

add64-lt : (s a : ℕ) → add64 s a < word_mod
add64-lt s a = omega arith

lt_of_eq : (x y m : ℕ) → x ≡ y → y < m → x < m
lt_of_eq x y m e h = omega arith

choice-zero : (b : Bool) (v : ℕ) → v ≡ 0 → (if b then v else 0) ≡ 0
choice-zero true v e = e
choice-zero false v e = refl

new_tree_loop_lem :
    (stacks : List Stacktraces) (t : Nodes) (n : String) (p : List String)
    → AreWords stacks
    → self_at n p t < word_mod
    → self_at n p (new_tree_loop t stacks) ≡ add64 (self_at n p t) (weight (n ∷ p) stacks)
unfolding new_tree_loop weight
new_tree_loop_lem [] t n p h w = omega arith
new_tree_loop_lem (stack ∷ stacks) t n p h w =
    let same = same_path (reverse stack.locations) (n ∷ p) in
    elim (Bool-cases (nat_eq stack.value 0)) [
      | inl e ↦
          let nothing = choice-zero same stack.value (eq_of_test stack.value 0 e) in
          simp e (
            new_tree_loop_lem stacks t n p h.1 w
            ∙ add64-skip (self_at n p t) (if same then stack.value else 0) (weight (n ∷ p) stacks)
                nothing)
      | inr e ↦
          let t' = merge_tree t (stack_to_tree stack) in
          let added : ℕ = if same then stack.value else 0 in
          let here = self_at-merge t n p stack.locations stack.value h.0 w in
          let word =
            lt_of_eq (self_at n p t') (add64 (self_at n p t) added) word_mod here
              (add64-lt (self_at n p t) added) in
          simp e (
            new_tree_loop_lem stacks t' n p h.1 word
            ∙ ap (λ s. add64 s (weight (n ∷ p) stacks)) here
            ∙ add64_assoc (self_at n p t) added (weight (n ∷ p) stacks))
    ]

-- For stack traces whose values are int64 bit patterns, the own value of the node at a path of
-- their tree is the sum, modulo 2^64, of the values of the traces whose locations, read backwards,
-- are that path.
pub self_at-new_tree :
    (stacks : List Stacktraces) (n : String) (p : List String)
    → AreWords stacks
    → self_at n p (new_tree stacks) ≡ weight (n ∷ p) stacks % word_mod
unfolding new_tree self_at
self_at-new_tree stacks n p h =
    new_tree_loop_lem stacks nil n p h (omega arith) ∙ zero_left (weight (n ∷ p) stacks)
  where
    zero_left : (w : ℕ) → add64 0 w ≡ w % word_mod
    zero_left w = omega arith
