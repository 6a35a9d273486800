-- ===== src/Querier/Tree.antt =====
-- pkg/querier/tree.go: stack traces merged into a tree of nodes. Values are int64, kept as their bit
-- patterns, so that an addition wraps modulo 2^64. A pointer to a node of a tree is the list of the
-- positions on the way to it, and the links to the parents are the prefixes of that list.
pub mod Insert
pub mod Spec
pub mod Totals
use text.Mathlib.Text.{◌==◌}
use Prim.Native.String.{String}
use phlare.Base.{
  ℕ, zero, suc, ◌+◌, ◌%◌, ◌^◌, Bool, true, false, Option, none, some, List, [], ◌∷◌, if◌then◌else◌,
}
use phlare.Base.{◌==◌ as nat_eq}

abbrev pub word_mod : ℕ
word_mod = 2 ^ 64

-- `a + b` of int64
abbrev pub add64 : ℕ → ℕ → ℕ
add64 a b = (a + b) % word_mod

-- A slice of nodes: the fields of the first, with its children, and the nodes after it.
pub data Nodes : Type 0 where
  nil : Nodes
  node : String → ℕ → ℕ → Nodes → Nodes → Nodes

pub record Node : Type 0 where
  pub name : String
  pub self : ℕ
  pub total : ℕ
  pub children : Nodes

pub record Stacktraces : Type 0 where
  pub locations : List String
  pub value : ℕ

-- the slice of one node
abbrev pub single : Node → Nodes
single n = node n.name n.self n.total n.children nil

abbrev pub append : Nodes → Node → Nodes
append nil n = single n
append (node name self total children rest) n = node name self total children (append rest n)

-- A write through a pointer to the node at a position.
abbrev pub update_at : ℕ → (Node → Node) → Nodes → Nodes
update_at i f nil = nil
update_at zero f (node name self total children rest) =
    let n = f (record { name = name; self = self; total = total; children = children }) in
    node n.name n.self n.total n.children rest
update_at (suc i) f (node name self total children rest) =
    node name self total children (update_at i f rest)

-- `for len(remaining) > 0`: each round wraps the current node into a parent.
wrap_loop : Node → List String → Node
wrap_loop current [] = current
wrap_loop current (location ∷ remaining) =
    wrap_loop
      (record { name = location; self = 0; total = current.total; children = single current })
      remaining

stack_to_tree_of : ℕ → List String → Nodes
stack_to_tree_of value [] = nil
stack_to_tree_of value (location ∷ remaining) =
    single (
      wrap_loop (record { name = location; self = value; total = value; children = nil }) remaining)

unfoldable pub stack_to_tree : Stacktraces → Nodes
unfolding stack_to_tree_of wrap_loop
stack_to_tree stack = stack_to_tree_of stack.value stack.locations

-- What `findNodeOrParent` returns: the way to the last common parent, the position of the node found
-- among its children, and the node to merge.
pub record Found : Type 0 where
  pub parent : List ℕ
  pub found : Option ℕ
  pub to_merge : Node

-- The loop over `remaining`, at position `i` of the current slice. A node of the searched name is
-- gone into, and the search never comes back from it.
pub find_loop : Nodes → ℕ → Node → Found
find_loop nil i current = record { parent = []; found = none; to_merge = current }
find_loop (node name self total children rest) i current =
    let onward = find_loop rest (suc i) current in
    let inward : Found = elim current.children [
      | nil ↦ record { parent = []; found = some i; to_merge = current }
      | node n s t c _ ↦
          let r = find_loop children 0 (record { name = n; self = s; total = t; children = c }) in
          record r { parent = i ∷ r.parent }
    ] in
    if name == current.name then inward else onward

unfoldable pub find_node_or_parent : Nodes → Node → Found
unfolding find_loop
find_node_or_parent root new = find_loop root 0 new

-- Append `new` to the children of the node at `parent`, and add its total to that node and to each
-- node above it.
pub graft : List ℕ → Node → Nodes → Nodes
graft [] new nodes = append nodes new
graft (i ∷ parent) new nodes =
    update_at i
      (λ p. record p { total = add64 p.total new.total; children = graft parent new p.children })
      nodes

-- Add the node to merge to the one found at position `j` below `parent`, and its total to each node
-- above that.
pub credit : List ℕ → ℕ → Node → Nodes → Nodes
credit [] j new nodes =
    update_at j (λ p. record p { total = add64 p.total new.self; self = add64 p.self new.self })
      nodes
credit (i ∷ parent) j new nodes =
    update_at i
      (λ p. record p { total = add64 p.total new.total; children = credit parent j new p.children })
      nodes

unfoldable pub place : Found → Nodes → Nodes
unfolding graft credit
place f nodes = elim f.found [
  | none ↦ graft f.parent f.to_merge nodes
  | some j ↦ credit f.parent j f.to_merge nodes
]

unfoldable pub merge_node : Nodes → Node → Nodes
unfolding find_node_or_parent place
merge_node root new = place (find_node_or_parent root new) root

-- `mergeTree`: every root of `src` goes into `dst`.
unfoldable pub merge_tree : Nodes → Nodes → Nodes
unfolding merge_node
merge_tree dst nil = dst
merge_tree dst (node name self total children rest) =
    merge_tree
      (merge_node dst (record { name = name; self = self; total = total; children = children }))
      rest

new_tree_loop : Nodes → List Stacktraces → Nodes
new_tree_loop t [] = t
new_tree_loop t (stack ∷ stacks) =
    new_tree_loop (if nat_eq stack.value 0 then t else merge_tree t (stack_to_tree stack)) stacks

unfoldable pub new_tree : List Stacktraces → Nodes
unfolding new_tree_loop merge_tree stack_to_tree
new_tree stacks = new_tree_loop nil stacks
