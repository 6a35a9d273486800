-- ===== src/Querier/FlameGraph/Rows.antt =====
-- The bars of a flame graph, level by level, drawn from the tree without a stack.
use phlare.Base.{
  ℕ, zero, suc, ◌%◌, ◌≡◌, refl, sym, ap, ◌∙◌, ◌≤◌, some, List, [], ◌∷◌, ◌++◌, map, length, ++-assoc,
  arith,
}
use mathlib.Core.Path.{ap₂}
use phlare.Querier.Tree.{Nodes, nil, node, add64, word_mod}
use phlare.Querier.FlameGraph.{StackNode, Entry, push_entry, push_children, map_option, total_of}

-- the offset, total and self of an entry
abbrev pub Bar : Type 0
Bar = ℕ × ℕ × ℕ

abbrev pub bar : Entry → Bar
bar e = (e.x % word_mod, e.total, e.self)

-- Rows put to the left of the rows from a level on.
unfoldable pub prepend : ℕ → List (List Bar) → List (List Bar) → List (List Bar)
prepend zero [] res = res
prepend zero (r ∷ rows) [] = r ∷ rows
prepend zero (r ∷ rows) (l ∷ res) = (r ++ l) ∷ prepend zero rows res
prepend (suc level) rows [] = []
prepend (suc level) rows (l ∷ res) = l ∷ prepend level rows res

-- Siblings stand side by side from an offset on, and the children of each below it, after its self.
unfoldable pub rows_of : ℕ → Nodes → List (List Bar)
unfolding prepend
rows_of x nil = []
rows_of x (node name self total children rest) =
    prepend 0 (((x % word_mod, total, self) ∷ []) ∷ rows_of (add64 x self) children)
      (rows_of (add64 x total) rest)

-- the bar above the roots, and theirs
unfoldable pub all_rows : Nodes → List (List Bar)
unfolding rows_of
all_rows root = ((0, total_of root, 0) ∷ []) ∷ rows_of 0 root

abbrev pub bars_of_levels : List (List Entry) → List (List Bar)
bars_of_levels res = map (λ l. map bar l) res

prepend-nil : (level : ℕ) (res : List (List Bar)) → prepend level [] res ≡ res
unfolding prepend
prepend-nil zero res = refl
prepend-nil (suc level) [] = refl
prepend-nil (suc level) (l ∷ res) = ap (λ rest. l ∷ rest) (prepend-nil level res)

prepend-prepend :
    (level : ℕ) (a b res : List (List Bar))
    → prepend level a (prepend level b res) ≡ prepend level (prepend 0 a b) res
unfolding prepend
prepend-prepend zero [] b res = refl
prepend-prepend zero (r ∷ a) [] res = refl
prepend-prepend zero (r ∷ a) (r' ∷ b) [] = refl
prepend-prepend zero (r ∷ a) (r' ∷ b) (l ∷ res) =
    ap₂ (λ row rest. row ∷ rest) (sym (++-assoc r r' l)) (prepend-prepend zero a b res)
prepend-prepend (suc level) a b [] = refl
prepend-prepend (suc level) a b (l ∷ res) = ap (λ rest. l ∷ rest) (prepend-prepend level a b res)

-- the rows of what is on the stack, put to the left of the rows there are, from the top on
unfoldable pub rows_of_stack : List StackNode → List (List Bar) → List (List Bar)
unfolding prepend rows_of
rows_of_stack [] res = res
rows_of_stack (top ∷ stack) res =
    let n = top.current in
    rows_of_stack stack (
      prepend top.level
        (((top.x_offset % word_mod, n.total, n.self) ∷ [])
          ∷ rows_of (add64 top.x_offset n.self) n.children)
        res)

pub rows_of_stack-push_children :
    (x level : ℕ) (cs : Nodes) (stack : List StackNode) (res : List (List Bar))
    → rows_of_stack (push_children x level cs stack) res
      ≡ rows_of_stack stack (prepend level (rows_of x cs) res)
unfolding rows_of_stack rows_of
rows_of_stack-push_children x level nil stack res =
    ap (rows_of_stack stack) (sym (prepend-nil level res))
rows_of_stack-push_children x level (node name self total children rest) stack res =
    rows_of_stack-push_children (add64 x total) level rest _ res
    ∙ ap (rows_of_stack stack) (prepend-prepend level _ (rows_of (add64 x total) rest) res)

-- what pushing an entry to a level gives: What is put below the entry stands below.
abbrev pub Pushed : ℕ → Entry → List (List Entry) → List (List Entry) → Type 0
Pushed level e res res' =
    (push_entry level e res ≡ some res')
    × ((rows : List (List Bar))
        → prepend (suc level) rows (bars_of_levels res')
          ≡ prepend level ((bar e ∷ []) ∷ rows) (bars_of_levels res))
    × (suc level ≤ length res')
    × (length res ≤ length res')

pub push_entry-Pushed :
    (level : ℕ) (e : Entry) (res : List (List Entry))
    → level ≤ length res
    → (res' : List (List Entry)) × Pushed level e res res'
unfolding prepend
push_entry-Pushed zero e [] h = ((e ∷ []) ∷ [], (refl, first, omega arith, omega arith))
  where
    first :
        (rows : List (List Bar))
        → prepend 1 rows ((bar e ∷ []) ∷ []) ≡ prepend 0 ((bar e ∷ []) ∷ rows) []
    first [] = refl
    first (r ∷ rows) = refl
push_entry-Pushed zero e (l ∷ res) h =
    ((e ∷ l) ∷ res, (refl, (λ rows. refl), omega arith, omega arith))
push_entry-Pushed (suc level) e [] h = absurd (omega arith)
push_entry-Pushed (suc level) e (l ∷ res) h =
    let (res', pushed) = push_entry-Pushed level e res (omega arith) in
    let deep = pushed.2 in
    let long = pushed.3 in
    (
      l ∷ res',
      (
        ap (map_option (λ rest. l ∷ rest)) pushed.0,
        (λ rows. ap (λ rest. map bar l ∷ rest) (pushed.1 rows)),
        omega arith,
        omega arith,
      ),
    )
