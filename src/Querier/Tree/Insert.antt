-- ===== src/Querier/Tree/Insert.antt =====
-- `mergeTree` of one stack trace, as an insertion along its path from the root down.
use mathlib.Core.Path.{ap₂}
use mathlib.Core.List.{reverse, reverse_aux}
use text.Mathlib.Text.{◌==◌}
use Prim.Native.String.{String}
use phlare.Base.{
  ℕ, suc, ◌≡◌, refl, ap, ◌∙◌, Option, none, some, List, [], ◌∷◌, inl, inr, if◌then◌else◌,
  Bool-cases,
}
use phlare.Querier.Tree.{
  Nodes, nil, node, Node, single, Found, find_loop, find_node_or_parent, place, merge_node,
  merge_tree, stack_to_tree, wrap_loop, add64,
}

-- The tree of one stack trace: its path from the root, with the value at the end.
abbrev pub chain : String → List String → ℕ → Node
chain n [] v = record { name = n; self = v; total = v; children = nil }
chain n (k ∷ p) v = record { name = n; self = 0; total = v; children = single (chain k p v) }

unfoldable pub insert : String → List String → ℕ → Nodes → Nodes
insert n p v nil = single (chain n p v)
insert n [] v (node m s t cs rest) =
    if m == n then node m (add64 s v) (add64 t v) cs rest else node m s t cs (insert n [] v rest)
insert n (k ∷ p) v (node m s t cs rest) =
    if m == n
    then node m s (add64 t v) (insert k p v cs) rest
    else node m s t cs (insert n (k ∷ p) v rest)

-- The same find, one position further on.
abbrev bump_parent : List ℕ → List ℕ
bump_parent [] = []
bump_parent (i ∷ p) = suc i ∷ p

abbrev bump_found : List ℕ → Option ℕ → Option ℕ
bump_found [] none = none
bump_found [] (some j) = some (suc j)
bump_found (i ∷ p) o = o

abbrev bump : Found → Found
bump f = record f { parent = bump_parent f.parent; found = bump_found f.parent f.found }

find_loop-suc :
    (nodes : Nodes) (i : ℕ) (n : String) (p : List String) (v : ℕ)
    → find_loop nodes (suc i) (chain n p v) ≡ bump (find_loop nodes i (chain n p v))
unfolding find_loop
find_loop-suc nil i n p v = refl
find_loop-suc (node m s t cs rest) i n [] v = elim (Bool-cases (m == n)) [
  | inl e ↦ simp e
  | inr e ↦ simp e (find_loop-suc rest (suc i) n [] v)
]
find_loop-suc (node m s t cs rest) i n (k ∷ p) v = elim (Bool-cases (m == n)) [
  | inl e ↦ simp e
  | inr e ↦ simp e (find_loop-suc rest (suc i) n (k ∷ p) v)
]

place-bump_at :
    (parent : List ℕ) (found : Option ℕ) (new : Node) (m : String) (s t : ℕ) (cs rest : Nodes)
    → place (bump (record { parent = parent; found = found; to_merge = new })) (node m s t cs rest)
      ≡ node m s t cs (place (record { parent = parent; found = found; to_merge = new }) rest)
unfolding place
place-bump_at [] none new m s t cs rest = refl
place-bump_at [] (some j) new m s t cs rest = refl
place-bump_at (i ∷ p) none new m s t cs rest = refl
place-bump_at (i ∷ p) (some j) new m s t cs rest = refl

total-to_merge :
    (nodes : Nodes) (i : ℕ) (n : String) (p : List String) (v : ℕ)
    → (find_loop nodes i (chain n p v)).to_merge.total ≡ v
unfolding find_loop
total-to_merge nil i n [] v = refl
total-to_merge nil i n (k ∷ p) v = refl
total-to_merge (node m s t cs rest) i n [] v = elim (Bool-cases (m == n)) [
  | inl e ↦ simp e
  | inr e ↦ simp e (total-to_merge rest (suc i) n [] v)
]
total-to_merge (node m s t cs rest) i n (k ∷ p) v = elim (Bool-cases (m == n)) [
  | inl e ↦ simp e (total-to_merge cs 0 k p v)
  | inr e ↦ simp e (total-to_merge rest (suc i) n (k ∷ p) v)
]

-- Where a find ends is placed: below the first node, at it, past it, or after the last.
place-inward_at :
    (parent : List ℕ) (found : Option ℕ) (new : Node) (m : String) (s t : ℕ) (cs rest : Nodes)
    → place (record { parent = 0 ∷ parent; found = found; to_merge = new }) (node m s t cs rest)
      ≡ node m s
          (add64 t new.total)
          (place (record { parent = parent; found = found; to_merge = new }) cs)
          rest
unfolding place
place-inward_at parent none new m s t cs rest = refl
place-inward_at parent (some j) new m s t cs rest = refl

place-here :
    (new : Node) (m : String) (s t : ℕ) (cs rest : Nodes)
    → place (record { parent = []; found = some 0; to_merge = new }) (node m s t cs rest)
      ≡ node m (add64 s new.self) (add64 t new.self) cs rest
unfolding place
place-here new m s t cs rest = refl

place-end :
    (new : Node) → place (record { parent = []; found = none; to_merge = new }) nil ≡ single new
unfolding place
place-end new = refl

place-onward :
    (n : String) (p : List String) (v : ℕ) (m : String) (s t : ℕ) (cs rest : Nodes)
    → place (find_loop rest 1 (chain n p v)) (node m s t cs rest)
      ≡ node m s t cs (place (find_loop rest 0 (chain n p v)) rest)
place-onward n p v m s t cs rest =
    let f = find_loop rest 0 (chain n p v) in
    ap (λ g. place g (node m s t cs rest)) (find_loop-suc rest 0 n p v)
    ∙ place-bump_at f.parent f.found f.to_merge m s t cs rest

place-find :
    (nodes : Nodes) (n : String) (p : List String) (v : ℕ)
    → place (find_loop nodes 0 (chain n p v)) nodes ≡ insert n p v nodes
unfolding find_loop insert
place-find nil n p v = place-end (chain n p v)
place-find (node m s t cs rest) n [] v = elim (Bool-cases (m == n)) [
  | inl e ↦ simp e (place-here (chain n [] v) m s t cs rest)
  | inr e ↦ simp e (place-onward n [] v m s t cs rest ∙ ap (node m s t cs) (place-find rest n [] v))
]
place-find (node m s t cs rest) n (k ∷ p) v = elim (Bool-cases (m == n)) [
  | inl e ↦
      let f = find_loop cs 0 (chain k p v) in
      simp e (
        place-inward_at f.parent f.found f.to_merge m s t cs rest
        ∙ ap₂ (λ w below. node m s (add64 t w) below rest) (total-to_merge cs 0 k p v)
            (place-find cs k p v))
  | inr e ↦
      simp e
        (place-onward n (k ∷ p) v m s t cs rest ∙ ap (node m s t cs) (place-find rest n (k ∷ p) v))
]

total-chain : (n : String) (p : List String) (v : ℕ) → (chain n p v).total ≡ v
total-chain n [] v = refl
total-chain n (k ∷ p) v = refl

-- Wrapping the rest of the locations around a path extends it upwards.
wrap_loop-chain :
    (ls : List String) (n : String) (p : List String) (v : ℕ) (k : String) (q : List String)
    → reverse_aux ls (n ∷ p) ≡ k ∷ q
    → wrap_loop (chain n p v) ls ≡ chain k q v
unfolding wrap_loop
wrap_loop-chain [] n p v k q e = cc
wrap_loop-chain (l ∷ ls) n p v k q e =
    ap
      (λ w.
        wrap_loop (record { name = l; self = 0; total = w; children = single (chain n p v) }) ls)
      (total-chain n p v)
    ∙ wrap_loop-chain ls l (n ∷ p) v k q e

merge_node-insert :
    (dst : Nodes) (k : String) (q : List String) (v : ℕ)
    → merge_node dst (chain k q v) ≡ insert k q v dst
unfolding find_node_or_parent merge_node
merge_node-insert dst k q v = place-find dst k q v

-- Merging the tree of a stack trace that has a location, by a search and an update along parent
-- links, is the insertion of its value along its reversed locations from the root down.
pub merge_tree-insert :
    (ls : List String) (k : String) (q : List String) (v : ℕ) (dst : Nodes)
    → reverse ls ≡ k ∷ q
    → merge_tree dst (stack_to_tree (record { locations = ls; value = v })) ≡ insert k q v dst
unfolding merge_tree stack_to_tree
merge_tree-insert [] k q v dst e = cc
merge_tree-insert (l ∷ ls) k q v dst e =
    ap (merge_node dst) (wrap_loop-chain ls l [] v k q e) ∙ merge_node-insert dst k q v
