-- ===== src/Querier/Tree/Totals.antt =====
-- The totals of the tree of some stack traces.
use text.Mathlib.Text.{◌==◌}
use Prim.Native.String.{String}
use mathlib.Core.Path.{subst}
use phlare.Base.{
  ℕ, ◌+◌, ◌%◌, ◌<◌, ◌≡◌, refl, sym, ap, ◌∙◌, List, [], ◌∷◌, inl, inr, arith, Bool-cases,
}
use phlare.Base.{◌==◌ as nat_eq}
use phlare.Querier.Tree.{
  Nodes, nil, node, Stacktraces, single, merge_tree, stack_to_tree, new_tree, new_tree_loop, add64,
  word_mod,
}
use phlare.Querier.Tree.Insert.{chain, insert, merge_tree-insert}
use phlare.Querier.Tree.Spec.{AreWords, add64-skip, add64_assoc, eq_of_test, reverse_aux-cons}

unfoldable pub sum_totals : Nodes → ℕ
sum_totals nil = 0
sum_totals (node m s t cs rest) = add64 t (sum_totals rest)

-- Each node's total is its own value and the totals of its children.
unfoldable pub IsConsistent : Nodes → Type 0
IsConsistent nil = Unit
IsConsistent (node m s t cs rest) =
    (t ≡ add64 s (sum_totals cs)) × (IsConsistent cs × IsConsistent rest)

sum_totals-chain :
    (n : String) (p : List String) (v : ℕ) → v < word_mod → sum_totals (single (chain n p v)) ≡ v
unfolding sum_totals
sum_totals-chain n [] v h = omega arith
sum_totals-chain n (k ∷ p) v h = omega arith

chain-IsConsistent :
    (n : String) (p : List String) (v : ℕ) → v < word_mod → IsConsistent (single (chain n p v))
unfolding IsConsistent sum_totals
chain-IsConsistent n [] v h = (omega arith, (tt, tt))
chain-IsConsistent n (k ∷ p) v h = (
  step v (sum_totals (single (chain k p v))) (sum_totals-chain k p v h) h,
  (chain-IsConsistent k p v h, tt),
)
  where
    step : (v w : ℕ) → w ≡ v → v < word_mod → v ≡ add64 0 w
    step v w e h = omega arith

add_right : (a b c v : ℕ) → c ≡ add64 b v → add64 a c ≡ add64 (add64 a b) v
add_right a b c v e = omega arith

add_left : (a b v : ℕ) → add64 (add64 a v) b ≡ add64 (add64 a b) v
add_left a b v = omega arith

sum_totals-insert :
    (t : Nodes) (k : String) (q : List String) (v : ℕ)
    → v < word_mod
    → sum_totals (insert k q v t) ≡ add64 (sum_totals t) v
unfolding sum_totals insert
sum_totals-insert nil k q v h = sum_totals-chain k q v h ∙ omega arith
sum_totals-insert (node m s t cs rest) k [] v h = elim (Bool-cases (m == k)) [
  | inl e ↦ simp e (add_left t (sum_totals rest) v)
  | inr e ↦ simp e (
      add_right t (sum_totals rest) (sum_totals (insert k [] v rest)) v
        (sum_totals-insert rest k [] v h))
]
sum_totals-insert (node m s t cs rest) k (k' ∷ q) v h = elim (Bool-cases (m == k)) [
  | inl e ↦ simp e (add_left t (sum_totals rest) v)
  | inr e ↦ simp e (
      add_right t (sum_totals rest) (sum_totals (insert k (k' ∷ q) v rest)) v
        (sum_totals-insert rest k (k' ∷ q) v h))
]

insert-IsConsistent :
    (t : Nodes) (k : String) (q : List String) (v : ℕ)
    → v < word_mod
    → IsConsistent t
    → IsConsistent (insert k q v t)
unfolding IsConsistent insert
insert-IsConsistent nil k q v h c = chain-IsConsistent k q v h
insert-IsConsistent (node m s t cs rest) k [] v h c = elim (Bool-cases (m == k)) [
  | inl e ↦ simp e ((own t s (sum_totals cs) v c.0, c.1))
  | inr e ↦ simp e ((c.0, (c.1.0, insert-IsConsistent rest k [] v h c.1.1)))
]
  where
    own : (t s w v : ℕ) → t ≡ add64 s w → add64 t v ≡ add64 (add64 s v) w
    own t s w v e = omega arith
insert-IsConsistent (node m s t cs rest) k (k' ∷ q) v h c = elim (Bool-cases (m == k)) [
  | inl e ↦ simp e (
      (
        below t s (sum_totals cs) (sum_totals (insert k' q v cs)) v c.0
            (sum_totals-insert cs k' q v h),
        (insert-IsConsistent cs k' q v h c.1.0, c.1.1),
      ))
  | inr e ↦ simp e ((c.0, (c.1.0, insert-IsConsistent rest k (k' ∷ q) v h c.1.1)))
]
  where
    below : (t s w w' v : ℕ) → t ≡ add64 s w → w' ≡ add64 w v → add64 t v ≡ add64 s w'
    below t s w w' v e f = omega arith

-- The value of a stack trace that the tree has a place for.
unfoldable pub value_of : Stacktraces → ℕ
value_of stack = elim stack.locations [ [] ↦ 0 | _ ∷ _ ↦ stack.value ]

unfoldable pub sum_values : List Stacktraces → ℕ
unfolding value_of
sum_values [] = 0
sum_values (stack ∷ stacks) = value_of stack + sum_values stacks

sum_totals-merge :
    (t : Nodes) (ls : List String) (v : ℕ)
    → v < word_mod
    → sum_totals t < word_mod
    → sum_totals (merge_tree t (stack_to_tree (record { locations = ls; value = v })))
      ≡ add64 (sum_totals t) (value_of (record { locations = ls; value = v }))
unfolding merge_tree stack_to_tree value_of
sum_totals-merge t [] v h w = omega arith
sum_totals-merge t (l ∷ ls) v h w =
    let r = reverse_aux-cons ls l [] in
    ap sum_totals (merge_tree-insert (l ∷ ls) r.0 r.1.0 v t r.1.1)
    ∙ sum_totals-insert t r.0 r.1.0 v h

merge-IsConsistent :
    (t : Nodes) (ls : List String) (v : ℕ)
    → v < word_mod
    → IsConsistent t
    → IsConsistent (merge_tree t (stack_to_tree (record { locations = ls; value = v })))
unfolding merge_tree stack_to_tree
merge-IsConsistent t [] v h c = c
merge-IsConsistent t (l ∷ ls) v h c =
    let r = reverse_aux-cons ls l [] in
    subst IsConsistent (sym (merge_tree-insert (l ∷ ls) r.0 r.1.0 v t r.1.1))
      (insert-IsConsistent t r.0 r.1.0 v h c)

new_tree_loop-IsConsistent :
    (stacks : List Stacktraces) (t : Nodes)
    → AreWords stacks
    → IsConsistent t
    → IsConsistent (new_tree_loop t stacks)
unfolding new_tree_loop
new_tree_loop-IsConsistent [] t h c = c
new_tree_loop-IsConsistent (stack ∷ stacks) t h c = elim (Bool-cases (nat_eq stack.value 0)) [
  | inl e ↦ simp e (new_tree_loop-IsConsistent stacks t h.1 c)
  | inr e ↦
      let t' = merge_tree t (stack_to_tree stack) in
      simp e (
        new_tree_loop-IsConsistent stacks t' h.1
          (merge-IsConsistent t stack.locations stack.value h.0 c))
]

sum_totals-lt : (t : Nodes) → sum_totals t < word_mod
unfolding sum_totals
sum_totals-lt nil = omega arith
sum_totals-lt (node m s t cs rest) = omega arith

value_of-zero :
    (ls : List String) (v : ℕ) → v ≡ 0 → value_of (record { locations = ls; value = v }) ≡ 0
unfolding value_of
value_of-zero [] v e = refl
value_of-zero (l ∷ ls) v e = e

sum_totals-loop :
    (stacks : List Stacktraces) (t : Nodes)
    → AreWords stacks
    → sum_totals (new_tree_loop t stacks) ≡ add64 (sum_totals t) (sum_values stacks)
unfolding new_tree_loop sum_values
sum_totals-loop [] t h = let w = sum_totals-lt t in omega arith
sum_totals-loop (stack ∷ stacks) t h = elim (Bool-cases (nat_eq stack.value 0)) [
  | inl e ↦
      let nothing = value_of-zero stack.locations stack.value (eq_of_test stack.value 0 e) in
      simp e (
        sum_totals-loop stacks t h.1
        ∙ add64-skip (sum_totals t) (value_of stack) (sum_values stacks) nothing)
  | inr e ↦
      let t' = merge_tree t (stack_to_tree stack) in
      let here = sum_totals-merge t stack.locations stack.value h.0 (sum_totals-lt t) in
      simp e (
        sum_totals-loop stacks t' h.1
        ∙ ap (λ s. add64 s (sum_values stacks)) here
        ∙ add64_assoc (sum_totals t) (value_of stack) (sum_values stacks))
]

-- In the tree of stack traces whose values are int64 bit patterns the total of every node is,
-- modulo 2^64, its own value plus the totals of its children, and the totals of the roots add up to
-- the values of the traces that have a location.
pub new_tree-IsConsistent :
    (stacks : List Stacktraces)
    → AreWords stacks
    → IsConsistent (new_tree stacks) × (sum_totals (new_tree stacks) ≡ sum_values stacks % word_mod)
unfolding new_tree IsConsistent sum_totals
new_tree-IsConsistent stacks h = (
  new_tree_loop-IsConsistent stacks nil h tt,
  sum_totals-loop stacks nil h ∙ zero_left (sum_values stacks),
)
  where
    zero_left : (w : ℕ) → add64 0 w ≡ w % word_mod
    zero_left w = omega arith
