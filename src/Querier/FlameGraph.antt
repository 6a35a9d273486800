-- ===== src/Querier/FlameGraph.antt =====
-- pkg/querier/flamegraph.go and stack.go: the levels of a flame graph. Values are int64 as bit patterns
-- modulo 2^64. A stack is a list whose first element is the top. The four values that the code pushes
-- for a node are one entry of its level.
pub mod Delta
pub mod Rows
pub mod Walk
use text.Mathlib.Text.{◌==◌}
use Prim.Native.String.{String}
use phlare.Base.{
  ℕ, zero, suc, ◌+◌, ◌-◌, ◌%◌, ◌^◌, Bool, true, false, Option, none, some, List, [], ◌∷◌, ◌++◌, map,
  if◌then◌else◌, ltb, length,
}
use phlare.Base.{◌==◌ as nat_eq}
use phlare.Querier.Tree.{Nodes, nil, node, Node, add64, word_mod}

pub record StackNode : Type 0 where
  pub x_offset : ℕ
  pub level : ℕ
  pub current : Node

-- `Push` and `Pop` of a `Stack`; `Slice` lists it from the top.
abbrev pub push {ℓ} : {T : Type ℓ} → T → List T → List T
push v values = v ∷ values

abbrev pub pop {ℓ} : {T : Type ℓ} → List T → Option (T × List T)
pop [] = none
pop (top ∷ values) = some (top, values)

abbrev pub map_option {ℓ κ} : {A : Type ℓ} {B : Type κ} → (A → B) → Option A → Option B
map_option f none = none
map_option f (some a) = some (f a)

-- offset, total, self and index in the names
pub record Entry : Type 0 where
  pub x : ℕ
  pub total : ℕ
  pub self : ℕ
  pub name_index : ℕ

-- `nameLocationCache`, whose later writes stand in front
abbrev pub find_name : String → List (String × ℕ) → Option ℕ
find_name n [] = none
find_name n ((k, i) ∷ cache) = if n == k then some i else find_name n cache

-- the stack, the names with their cache, the levels, and the greatest self
pub record FlameState : Type 0 where
  pub stack : List StackNode
  pub names : List String
  pub cache : List (String × ℕ)
  pub res : List (List Entry)
  pub max : ℕ

-- `a > b` of int64
abbrev pub gt_int64 : ℕ → ℕ → Bool
gt_int64 a b = ltb ((b + 2 ^ 63) % 2 ^ 64) ((a + 2 ^ 63) % 2 ^ 64)

-- the names and their cache after a look at a name, and its index; the first name is "total".
abbrev pub look_up_name :
    List String → List (String × ℕ) → String → Option ℕ → List String × List (String × ℕ) × ℕ
look_up_name names cache name (some i) = (names, cache, i)
look_up_name names cache name none =
    let i = length names in
    let name' = if nat_eq i 0 then "total" else name in (names ++ name' ∷ [], (name', i) ∷ cache, i)

-- A level is added where it is the next one; then the entry is pushed to the level. A level further
-- on panics.
abbrev pub push_entry : ℕ → Entry → List (List Entry) → Option (List (List Entry))
push_entry zero e [] = some (push e [] ∷ [])
push_entry (suc level) e [] = none
push_entry zero e (l ∷ res) = some (push e l ∷ res)
push_entry (suc level) e (l ∷ res) = map_option (λ rest. l ∷ rest) (push_entry level e res)

-- the loop over the children, from the offset `x` on
abbrev pub push_children : ℕ → ℕ → Nodes → List StackNode → List StackNode
push_children x level nil stack = stack
push_children x level (node name self total children rest) stack =
    push_children (add64 x total) level rest (
      push
        (record {
          x_offset = x;
          level = level;
          current = record { name = name; self = self; total = total; children = children };
        })
        stack)

-- the look at a node's name in the state
abbrev pub seen : FlameState → String → List String × List (String × ℕ) × ℕ
seen s name = look_up_name s.names s.cache name (find_name name s.cache)

-- the entry of a node from the stack
abbrev pub entry_of : FlameState → StackNode → Entry
entry_of s top = record {
  x = top.x_offset;
  total = top.current.total;
  self = top.current.self;
  name_index = (seen s top.current.name).2;
}

-- the state after the node's entry is pushed, and its children
abbrev pub flame_next : FlameState → StackNode → List StackNode → List (List Entry) → FlameState
flame_next s top stack res =
    let n = top.current in
    record {
      stack = push_children (add64 top.x_offset n.self) (suc top.level) n.children stack;
      names = (seen s n.name).0;
      cache = (seen s n.name).1;
      res = res;
      max = if gt_int64 n.self s.max then n.self else s.max;
    }

-- a round of the loop, after a pop
abbrev pub flame_round : FlameState → StackNode → List StackNode → Option FlameState
flame_round s top stack =
    map_option (flame_next s top stack) (push_entry top.level (entry_of s top) s.res)

abbrev pub and_then {ℓ κ} : {A : Type ℓ} {B : Type κ} → (A → Option B) → Option A → Option B
and_then f none = none
and_then f (some a) = f a

-- The loop goes on while a pop gives a node.
abbrev pub flame_after :
    (FlameState → Option FlameState)
    → FlameState
    → Option (StackNode × List StackNode)
    → Option FlameState
flame_after onward s none = some s
flame_after onward s (some (top, stack)) = and_then onward (flame_round s top stack)

-- the loop, on fuel; a panic is `none` as well.
pub flame_loop : ℕ → FlameState → Option FlameState
flame_loop zero s = none
flame_loop (suc fuel) s = flame_after (flame_loop fuel) s (pop s.stack)

-- the sum of the roots' totals
abbrev pub total_of : Nodes → ℕ
total_of nil = 0
total_of (node name self total children rest) = add64 total (total_of rest)

abbrev pub count : Nodes → ℕ
count nil = 0
count (node name self total children rest) = suc (count children + count rest)

-- "delta encode xoffsets", of one level, after `prev`
abbrev pub sub64 : ℕ → ℕ → ℕ
sub64 a b = (a + word_mod - b) % word_mod

pub delta_encode : ℕ → List Entry → List Entry
delta_encode prev [] = []
delta_encode prev (e ∷ l) =
    let x' = sub64 e.x prev in
    record { x = x'; total = e.total; self = e.self; name_index = e.name_index }
    ∷ delta_encode (add64 prev (add64 x' e.total)) l

-- the four values of each entry
abbrev pub values_of_level : List Entry → List ℕ
values_of_level [] = []
values_of_level (e ∷ l) = e.x ∷ e.total ∷ e.self ∷ e.name_index ∷ values_of_level l

pub record FlameGraph : Type 0 where
  pub names : List String
  pub levels : List (List ℕ)
  pub total : ℕ
  pub max_self : ℕ

-- the state before the loop: the node above the roots is on the stack.
abbrev pub flame_start : Nodes → FlameState
flame_start root = record {
  stack =
      push
        (record {
          x_offset = 0;
          level = 0;
          current = record { name = ""; self = 0; total = total_of root; children = root };
        })
        [];
  names = [];
  cache = [];
  res = [];
  max = 0;
}

-- what the loop leaves of a tree, on as much fuel as it has nodes and two more
unfoldable pub flame_walk : Nodes → Option FlameState
unfolding flame_loop
flame_walk root = flame_loop (suc (suc (count root))) (flame_start root)

abbrev pub flame_graph_of : Nodes → FlameState → FlameGraph
flame_graph_of root s = record {
  names = s.names;
  levels = map (λ l. values_of_level (delta_encode 0 l)) s.res;
  total = total_of root;
  max_self = s.max;
}

-- `NewFlameGraph`
unfoldable pub new_flame_graph : Nodes → Option FlameGraph
unfolding flame_walk delta_encode
new_flame_graph root = map_option (flame_graph_of root) (flame_walk root)
