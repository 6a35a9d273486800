-- ===== src/Query/Join/Next.antt =====
-- A call of `Next` of a join ends, with the first group of the join if there is one.
use mathlib.Core.Path.{subst}
use phlare.Base.{
  ℕ, zero, suc, ◌≤◌, ◌<◌, ◌≡◌, sym, ap, ◌∙◌, Bool, true, false, ◌&&◌, some, List, [], ◌∷◌, All,
  Bool-cases, inl, inr, arith, length, ◌==◌,
}
use phlare.Query.Join.{IteratorResult, Cursor, Pass, join_round, join_loop}
use phlare.Query.Join.Skip.{RowOrder, has, IsRow, AreRows}
use phlare.Query.Join.Scan.{Any, pass_rows, pass_rows-IsPassed}
use phlare.Query.Join.Rows.{total, all_have, gather_all, joins, IsNext}
use phlare.Query.Join.Round.{length-all_rows, AreAt, all_rows, length-AreAt, scan-IsScanned}
use phlare.Query.Join.Over.{IsOver, IsPassed-IsOver, start, first-IsPassed}
use phlare.Query.Join.Ahead.{Claim, at-IsRow, keep_group}
use phlare.Query.Join.Loop.{skipped, collected, found, rejected}

count_same : (a b c : ℕ) → a == b ≡ true → b ≡ c → a ≡ c
count_same a b c e f = ground arith

count_other : (a b c : ℕ) → a == b ≡ false → b ≡ c → a ≡ c → ⊥
count_other a b c e f g = ground arith

module _ {R E K : Type 0} (m : RowOrder R K) (max empty : R) (keep : List E → Bool) where
  open m use {key, lt, o, compare, law, truncate, same_key}

  -- the round behind a pass over all iterators
  round-IsNext :
      (fuel : ℕ)
      → Claim m max empty keep fuel
      → (iters : List (Cursor R E)) (ds : List R) → AreAt iters ds
      → 1 ≤ length iters
      → All (AreRows key lt max empty) (all_rows iters)
      → (p : Pass R) → IsOver m ds p
      → total (all_rows iters) < suc fuel
      → IsNext key lt keep (all_rows iters) (
          join_round compare truncate max empty
            (keep_group m max empty keep)
            (join_loop compare truncate max empty (keep_group m max empty keep) fuel)
            (iters, some p))
  round-IsNext fuel claim iters ds at n rows p over l =
      elim (Bool-cases (length p.lowest_iters == length iters)) [
        | inl e ↦
            let same = over.same (count_same _ _ _ e (length-AreAt iters ds at)) in
            elim (Bool-cases
              (keep (collected m max empty keep fuel claim iters ds at n rows p over l same).0)) [
                | inl f ↦
                    rw e
                      (rw f (found m max empty keep fuel claim iters ds at n rows p over l same f))
                | inr f ↦
                    rw e (
                      rw f
                        (rejected m max empty keep fuel claim iters ds at n rows p over l same f))
              ]
        | inr e ↦ elim over.apart [
          | inl g ↦ absurd (count_other _ _ _ e (length-AreAt iters ds at) g)
          | inr g ↦ rw e (skipped m max empty keep fuel claim iters ds at n rows p over l g)
        ]
      ]

  none_joins :
      (k : K) (its : List (List (IteratorResult R E)))
      → Any (λ rows. rows ≡ []) its
      → joins key lt keep k its ≡ false
  none_joins k its a = ap (λ b. b && keep (gather_all key lt k its)) (none_has its a)
    where
      none_has :
          (its : List (List (IteratorResult R E)))
          → Any (λ rows. rows ≡ []) its
          → all_have key lt k its ≡ false
      none_has [] a = absurd a
      none_has (rows ∷ its) (inl e) = ap (λ r. has key lt k r && all_have key lt k its) e
      none_has (rows ∷ its) (inr a) =
          ap (λ b. has key lt k rows && b) (none_has its a) ∙ by_test (has key lt k rows)
        where
          by_test : (b : Bool) → (b && false) ≡ false
          by_test b = ground arith

  passed-IsOver :
      (ds : List R)
      → 1 ≤ length ds
      → All (IsRow key lt max empty) ds
      → IsOver m ds (pass_rows m 0 ds (start m max empty))
  passed-IsOver [] n a = absurd (omega arith)
  passed-IsOver (d ∷ ds) n a =
      IsPassed-IsOver m d ds _
        (pass_rows-IsPassed m 1 ds (d ∷ []) _ (first-IsPassed m max empty d a.0))

  join_loop-Claim : (fuel : ℕ) → Claim m max empty keep fuel
  unfolding join_loop
  join_loop-Claim zero iters n rows l = absurd (omega arith)
  join_loop-Claim (suc fuel) iters n rows l = elim (scan-IsScanned m 0 iters (start m max empty)) [
    | inl (its', e, a) ↦ inl (
      its',
      ap
          (join_round compare truncate max empty (keep_group m max empty keep)
            (join_loop compare truncate max empty (keep_group m max empty keep) fuel))
          e,
      λ k. none_joins k (all_rows iters) a,
    )
    | inr (its', ds, e, at, same) ↦
        let count = length-all_rows its' in
        let n' : 1 ≤ length its' = omega (arith, count, length-all_rows iters, ap length same, n) in
        let rows' = subst (All (AreRows key lt max empty)) (sym same) rows in
        let over =
          passed-IsOver ds (omega (arith, length-AreAt its' ds at, n'))
            (at-IsRow m max empty keep its' ds at rows') in
        subst
          (λ x. IsNext key lt keep (all_rows iters) (
            join_round compare truncate max empty (keep_group m max empty keep)
              (join_loop compare truncate max empty (keep_group m max empty keep) fuel) x))
          (sym e)
          (subst
            (λ r. IsNext key lt keep r (
              join_round compare truncate max empty (keep_group m max empty keep)
                (join_loop compare truncate max empty (keep_group m max empty keep) fuel)
                (its', some (pass_rows m 0 ds (start m max empty)))))
            same
            (round-IsNext fuel (join_loop-Claim fuel) its' ds at n' rows'
              (pass_rows m 0 ds (start m max empty)) over (omega (arith, ap total same, l))))
  ]

  -- placeholder
  pub join_loop-IsNext :
      (iters : List (Cursor R E))
      → 1 ≤ length iters
      → All (AreRows key lt max empty) (all_rows iters)
      → IsNext key lt keep (all_rows iters) (
          join_loop compare truncate max empty
            (λ res. keep res.entries)
            (suc (total (all_rows iters)))
            iters)
  join_loop-IsNext iters n rows =
      join_loop-Claim (suc (total (all_rows iters))) iters n rows (omega arith)
