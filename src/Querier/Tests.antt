-- ===== src/Querier/Tests.antt =====
-- Merging concrete stack traces, the flame graph of a tree, and a walk over two streams.
use phlare.Base.{
  Bool, Option, none, ap, ◌++◌, ◌%◌, ℕ, true, false, ◌≡◌, some, map, List, [], ◌∷◌, arith, refl,
}
use phlare.Querier.FlameGraph.{map_option, new_flame_graph}
use phlare.Querier.FlameGraph.Delta.{read_level, new_flame_graph-rows}
use phlare.Querier.FlameGraph.Rows.{all_rows}
use mathlib.Core.List.Permᴰ
use phlare.Base.Int.{pos, pos_part}
use phlare.Base.Order.{IsStrict, contains}
use phlare.Model.Labels.{compare_label_pairs}
use phlare.Querier.MergeIterator.{
  ProfileSets, SeriesProfile, MergeState, read_profile, new_merge_iterator,
}
use phlare.Querier.MergeIterator.Sends.{drive, drive-sends}
use phlare.Base.{◌==◌ as nat_eq}
use phlare.Querier.SelectMerge.{Profile, Stream, MergeIterator, Kept, less, skip_duplicates}
use phlare.Querier.SelectMerge.Loop.{skip_duplicates-keeps}
use phlare.Querier.SelectMerge.Requeue.{sent_by}
use phlare.Querier.Tree.{Stacktraces, Nodes, nil, node, new_tree, merge_tree, stack_to_tree}
use phlare.Querier.Tree.Insert.{insert, merge_tree-insert}
use phlare.Querier.Tree.Spec.{AreWords, self_at, self_at-new_tree, weight}
use phlare.Querier.Tree.Totals.{
  sum_values, value_of, IsConsistent, sum_totals, new_tree-IsConsistent,
}

-- two stack traces with a shared root, one of them given twice, and one of the value zero
abbrev stacks : List Stacktraces
stacks =
    record { locations = "b" ∷ "a" ∷ []; value = 2 }
    ∷ record { locations = "c" ∷ "a" ∷ []; value = 3 }
    ∷ record { locations = "d" ∷ []; value = 0 }
    ∷ record { locations = "b" ∷ "a" ∷ []; value = 4 }
    ∷ []

stacks-AreWords : AreWords stacks
stacks-AreWords = omega arith

self_at-new_tree_example : self_at "a" ("b" ∷ []) (new_tree stacks) ≡ 6
unfolding weight
self_at-new_tree_example = self_at-new_tree stacks "a" ("b" ∷ []) stacks-AreWords

new_tree-IsConsistent_example : IsConsistent (new_tree stacks) × (sum_totals (new_tree stacks) ≡ 9)
unfolding sum_values value_of
new_tree-IsConsistent_example = new_tree-IsConsistent stacks stacks-AreWords

abbrev tree : Nodes
tree = node "a" 0 2 (node "b" 2 2 nil nil) nil

merge_tree-insert_example :
    merge_tree tree (stack_to_tree (record { locations = "c" ∷ "a" ∷ []; value = 3 }))
    ≡ node "a" 0 5 (node "b" 2 2 nil (node "c" 3 3 nil nil)) nil
unfolding insert
merge_tree-insert_example = merge_tree-insert ("c" ∷ "a" ∷ []) "a" ("c" ∷ []) 3 tree refl

-- the code itself, run
new_tree_run : new_tree stacks ≡ node "a" 0 9 (node "b" 6 6 nil (node "c" 3 3 nil nil)) nil
unfolding new_tree
new_tree_run = refl

-- a tree of two roots, in whose first are two calls
abbrev roots : Nodes
roots = node "a" 1 6 (node "b" 2 2 nil (node "c" 3 3 nil nil)) (node "d" 4 4 nil nil)

new_flame_graph-rows_example :
    map_option (λ g. map (read_level 0) g.levels) (new_flame_graph roots)
    ≡ some (((0, 10, 0) ∷ []) ∷ ((0, 6, 1) ∷ (6, 4, 4) ∷ []) ∷ ((1, 2, 2) ∷ (3, 3, 3) ∷ []) ∷ [])
unfolding all_rows
new_flame_graph-rows_example = new_flame_graph-rows roots

new_flame_graph_run :
    new_flame_graph roots
    ≡ some (record {
      names = "total" ∷ "d" ∷ "a" ∷ "c" ∷ "b" ∷ [];
      levels =
          (0 ∷ 10 ∷ 0 ∷ 0 ∷ [])
          ∷ (0 ∷ 6 ∷ 1 ∷ 2 ∷ 0 ∷ 4 ∷ 4 ∷ 1 ∷ [])
          ∷ (1 ∷ 2 ∷ 2 ∷ 4 ∷ 0 ∷ 3 ∷ 3 ∷ 3 ∷ [])
          ∷ [];
      total = 10;
      max_self = 4;
    })
unfolding new_flame_graph
new_flame_graph_run = refl

abbrev profile_at : ℕ → Profile
profile_at t = record {
  timestamp = pos t;
  labels = record { name = 97 ∷ []; value = 98 ∷ [] } ∷ [];
}

-- two ingesters that hold a profile in common
abbrev streams : List Stream
streams =
    record { ingester_addr = "one"; ahead = profile_at 1 ∷ profile_at 3 ∷ []; fails = false }
    ∷ record { ingester_addr = "two"; ahead = profile_at 1 ∷ profile_at 2 ∷ []; fails = false }
    ∷ []

abbrev as_pushed : ℕ → List MergeIterator → List MergeIterator
as_pushed n h = h

skip_duplicates-keeps_example :
    (kept : List Kept) × (skip_duplicates as_pushed streams ≡ some (true, kept))
    × IsStrict less (map (λ e. e.profile) kept)
    × ((k : Profile) → contains less k (map (λ e. e.profile) kept) ≡ sent_by k streams)
skip_duplicates-keeps_example =
    skip_duplicates-keeps as_pushed (λ n h. Permᴰ.refl h) streams
      (((refl, tt), (tt, tt)), (((refl, tt), (tt, tt)), tt)) (refl, (refl, tt))

skip_duplicates_run :
    skip_duplicates as_pushed streams
    ≡ some (
      true,
      record { kept_at = "one"; profile = profile_at 1 }
          ∷ record { kept_at = "two"; profile = profile_at 2 }
          ∷ record { kept_at = "one"; profile = profile_at 3 }
          ∷ [],
    )
unfolding skip_duplicates compare_label_pairs
skip_duplicates_run = refl

-- The error of the last stream that is left is not returned.
dropped_error_run :
    skip_duplicates as_pushed
      (record { ingester_addr = "one"; ahead = profile_at 1 ∷ []; fails = true } ∷ [])
    ≡ some (true, record { kept_at = "one"; profile = profile_at 1 } ∷ [])
unfolding skip_duplicates compare_label_pairs
dropped_error_run = refl

-- a client that has its batches and logs the flags, and is never refused
abbrev Script : Type 0
Script = List ProfileSets × List (List Bool)

abbrev send : List Bool → Script → Option Script
send flags (inbox, log) = some (inbox, log ++ flags ∷ [])

abbrev receive : Script → Option (Script × ProfileSets)
receive ([], log) = none
receive (b ∷ batches, log) = some ((batches, log), b)

receives :
    (c : Script) (b : ProfileSets) (batches : List ProfileSets)
    → c.0 ≡ b ∷ batches
    → (c' : Script) × (receive c ≡ some (c', b)) × (c'.0 ≡ batches) × (c'.1 ≡ c.1)
receives (inbox, log) b batches h = ((batches, log), ap (λ i. receive (i, log)) h, refl, refl)

-- a choice that keeps the profiles of even times
abbrev is_even : Profile → Bool
is_even p = even (pos_part p.timestamp)
  where
    even : ℕ → Bool
    even t = nat_eq (t % 2) 0

abbrev shown : ℕ → ℕ → SeriesProfile
shown i t = record { label_index = pos i; timestamp = pos t }

-- sets with two labels sets
abbrev sets : List SeriesProfile → ProfileSets
sets profiles = record {
  labels_sets = [] ∷ (record { name = 1 ∷ []; value = [] } ∷ []) ∷ [];
  profiles = profiles;
}

abbrev batches : List ProfileSets
batches = sets (shown 0 1 ∷ shown 1 2 ∷ []) ∷ sets (shown 1 4 ∷ []) ∷ []

drive-sends_example :
    (s : MergeState Script) × (drive is_even send receive 4
        (new_merge_iterator (batches ++ sets [] ∷ [], []))
      ≡ some s)
    × (s.err ≡ false)
    × (s.bidi.1 ≡ (false ∷ true ∷ []) ∷ (true ∷ []) ∷ [])
drive-sends_example =
    drive-sends send receive (λ c. c.0) (λ c. c.1)
      (λ flags c. ((c.0, c.1 ++ flags ∷ []), refl, refl, refl)) receives is_even
      (batches ++ sets [] ∷ [], []) batches (sets []) [] refl refl
      ((refl, (omega arith, (omega arith, tt))), ((refl, (omega arith, tt)), tt))

-- An index beyond the labels sets panics where the profile is read.
beyond_run : read_profile (sets []).labels_sets (shown 2 1) ≡ none
beyond_run = refl
