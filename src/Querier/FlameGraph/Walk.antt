-- ===== src/Querier/FlameGraph/Walk.antt =====
-- The loop of a flame graph ends, without a panic, and leaves the rows of the tree.
use phlare.Base.{
  ℕ, zero, suc, ◌+◌, ◌≤◌, ◌<◌, ◌≡◌, refl, ap, ◌∙◌, some, List, [], ◌∷◌, length, arith,
}
use phlare.Querier.Tree.{Nodes, nil, node, add64}
use phlare.Querier.FlameGraph.{
  StackNode, FlameState, push_children, map_option, count, flame_loop, flame_walk, entry_of,
  flame_next, flame_start,
}
use phlare.Querier.FlameGraph.Rows.{
  prepend, bars_of_levels, rows_of_stack, rows_of_stack-push_children, all_rows, push_entry-Pushed,
}

-- the nodes that are on the stack and below
weight : List StackNode → ℕ
weight [] = 0
weight (top ∷ stack) = suc (count top.current.children + weight stack)

weight-push_children :
    (x level : ℕ) (cs : Nodes) (stack : List StackNode)
    → weight (push_children x level cs stack) ≡ count cs + weight stack
unfolding weight
weight-push_children x level nil stack = omega arith
weight-push_children x level (node name self total children rest) stack =
    weight-push_children (add64 x total) level rest _ ∙ omega arith

-- No level on the stack lies beyond the next one.
Fits : ℕ → List StackNode → Type 0
Fits n [] = Unit
Fits n (top ∷ stack) = (top.level ≤ n) × Fits n stack

Fits-mono : (n m : ℕ) (stack : List StackNode) → n ≤ m → Fits n stack → Fits m stack
unfolding Fits
Fits-mono n m [] h fits = tt
Fits-mono n m (top ∷ stack) h fits = (omega (arith, fits.0), Fits-mono n m stack h fits.1)

Fits-push_children :
    (n x level : ℕ) (cs : Nodes) (stack : List StackNode)
    → level ≤ n
    → Fits n stack
    → Fits n (push_children x level cs stack)
unfolding Fits
Fits-push_children n x level nil stack h fits = fits
Fits-push_children n x level (node name self total children rest) stack h fits =
    Fits-push_children n (add64 x total) level rest _ h (h, fits)

abbrev with_stack : FlameState → List StackNode → FlameState
with_stack s stack = record {
  stack = stack;
  names = s.names;
  cache = s.cache;
  res = s.res;
  max = s.max;
}

-- With as much fuel as the stack has nodes and one more, the rows of the stack are put to the left.
flame_loop-rows :
    (fuel : ℕ) (s : FlameState) (stack : List StackNode)
    → weight stack < fuel
    → Fits (length s.res) stack
    → map_option (λ s'. bars_of_levels s'.res) (flame_loop fuel (with_stack s stack))
      ≡ some (rows_of_stack stack (bars_of_levels s.res))
unfolding flame_loop rows_of_stack weight Fits
flame_loop-rows zero s stack h fits = absurd (omega arith)
flame_loop-rows (suc fuel) s [] h fits = refl
flame_loop-rows (suc fuel) s (top ∷ stack) h fits =
    let (res', pushed) = push_entry-Pushed top.level (entry_of s top) s.res fits.0 in
    let x = add64 top.x_offset top.current.self in
    let cs = top.current.children in
    let level = suc top.level in
    rw pushed.0 (
      flame_loop-rows fuel (flame_next s top stack res') (push_children x level cs stack)
        (lighter _ _ (weight-push_children x level cs stack) h)
        (Fits-push_children (length res') x level cs stack pushed.2
          (Fits-mono (length s.res) (length res') stack pushed.3 fits.1))
      ∙ ap some (rows_of_stack-push_children x level cs stack (bars_of_levels res'))
      ∙ ap (λ res. some (rows_of_stack stack res)) (pushed.1 _))
  where
    lighter : {w fuel : ℕ} (c v : ℕ) → w ≡ c + v → suc (c + v) < suc fuel → w < fuel
    lighter c v e h = omega arith

pub flame_walk-rows :
    (root : Nodes) → map_option (λ s. bars_of_levels s.res) (flame_walk root) ≡ some (all_rows root)
unfolding flame_walk all_rows rows_of_stack prepend weight Fits
flame_walk-rows root =
    flame_loop-rows (suc (suc (count root))) (flame_start root) (flame_start root).stack
      (omega arith) (omega arith, tt)
