-- ===== src/Querier/FlameGraph/Delta.antt =====
-- Reading the levels of a flame graph undoes their delta encoding.
use phlare.Base.{ℕ, ◌%◌, ◌<◌, ◌≡◌, refl, ap, ◌∙◌, Option, none, some, List, [], ◌∷◌, map, arith}
use mathlib.Core.Path.{ap₂}
use phlare.Querier.Tree.{Nodes, add64, word_mod}
use phlare.Querier.FlameGraph.{
  Entry, sub64, delta_encode, values_of_level, map_option, FlameState, flame_graph_of, flame_walk,
  new_flame_graph,
}
use phlare.Querier.FlameGraph.Rows.{Bar, bar, bars_of_levels, all_rows}
use phlare.Querier.FlameGraph.Walk.{flame_walk-rows}

-- A reader's view of a level's values: each offset is counted from the end of the bar before it, which
-- `prev` is.
unfoldable pub read_level : ℕ → List ℕ → List Bar
read_level prev (x ∷ total ∷ self ∷ i ∷ values) =
    (add64 x prev, total, self) ∷ read_level (add64 prev (add64 x total)) values
read_level prev _ = []

sub64-add64 : (x prev : ℕ) → prev < word_mod → add64 (sub64 x prev) prev ≡ x % word_mod
sub64-add64 x prev h = omega arith

add64-small : (a b : ℕ) → add64 a b < word_mod
add64-small a b = omega arith

read_level-delta_encode :
    (prev : ℕ) (l : List Entry)
    → prev < word_mod
    → read_level prev (values_of_level (delta_encode prev l)) ≡ map bar l
unfolding read_level delta_encode
read_level-delta_encode prev [] h = refl
read_level-delta_encode prev (e ∷ l) h =
    ap₂ (λ x bars. (x, e.total, e.self) ∷ bars) (sub64-add64 e.x prev h)
      (read_level-delta_encode (add64 prev (add64 (sub64 e.x prev) e.total)) l
        (add64-small prev (add64 (sub64 e.x prev) e.total)))

read_levels :
    (res : List (List Entry))
    → map (read_level 0) (map (λ l. values_of_level (delta_encode 0 l)) res) ≡ bars_of_levels res
read_levels [] = refl
read_levels (l ∷ res) =
    ap₂ (λ row rows. row ∷ rows) (read_level-delta_encode 0 l (omega arith)) (read_levels res)

-- The flame graph of any tree is made, without a panic, and its levels, read with each offset
-- counted from the end of the bar before it, are the rows of the tree's bars: siblings side by
-- side, the children of each from its offset and its own value on, and the sum of the roots above
-- all.
pub new_flame_graph-rows :
    (root : Nodes)
    → map_option (λ g. map (read_level 0) g.levels) (new_flame_graph root) ≡ some (all_rows root)
unfolding new_flame_graph
new_flame_graph-rows root = by_state (flame_walk root) ∙ flame_walk-rows root
  where
    by_state :
        (o : Option FlameState)
        → map_option (λ g. map (read_level 0) g.levels) (map_option (flame_graph_of root) o)
          ≡ map_option (λ s. bars_of_levels s.res) o
    by_state none = refl
    by_state (some s) = ap some (read_levels s.res)
