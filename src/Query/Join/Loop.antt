-- ===== src/Query/Join/Loop.antt =====
-- The three ways in which a round of `Next` of a join goes on.
use mathlib.Core.Path.{subst, ap₂}
use phlare.Base.{
  ℕ, suc, ◌≤◌, ◌<◌, ◌≡◌, refl, sym, ap, ◌∙◌, Bool, true, false, not, ◌&&◌, some, List, [], ◌∷◌, All,
  Bool-cases, ◌⊎◌, inl, inr, arith, length,
}
use phlare.Base.Order.{equal, true-false}
use phlare.Query.Join.{Cursor, Pass, collect, seek_all, join_loop}
use phlare.Query.Join.Skip.{RowOrder, AreRows}
use phlare.Query.Join.Scan.{Any, Any-map}
use phlare.Query.Join.Rows.{total, skip_all, joins, IsNext, joins-NotBelow}
use phlare.Query.Join.Round.{
  length-all_rows, AreAt, all_rows, rows-seek_all, Any-NotBelow, collect_lem, total-skip_all,
  total-skip_all-le,
}
use phlare.Query.Join.Over.{IsOver, below-IsDown, upto-IsDown}
use phlare.Query.Join.Cursors.{not_above}
use phlare.Query.Join.Ahead.{
  by_not, by_no, keep_group, Found, Claim, ascending, length-skip_all, further, still_some,
  joins-left_out, skip-AreRows,
}

module _ {R E K : Type 0} (m : RowOrder R K) (max empty : R) (keep : List E → Bool) where
  open m use {key, lt, o, compare, law, truncate, same_key}

  module _ (fuel : ℕ) (claim : Claim m max empty keep fuel) (iters : List (Cursor R E))
      (ds : List R) (at : AreAt iters ds) (some_iter : 1 ≤ length iters)
      (rows : All (AreRows key lt max empty) (all_rows iters)) (p : Pass R) (over : IsOver m ds p)
      (l : total (all_rows iters) < suc fuel) where
    abbrev lowest : K
    lowest = key p.lowest_row_number

    abbrev highest : K
    highest = key p.highest_row_number

    -- the iterators are at different rows
    pub skipped :
        lt lowest highest ≡ true
        → IsNext key lt keep (all_rows iters) (
            join_loop compare truncate max empty
              (keep_group m max empty keep)
              fuel
              (seek_all compare truncate p.highest_row_number iters))
    skipped e =
        let below = λ (x : K). lt x highest in
        let seek = rows-seek_all m p.highest_row_number iters in
        let less = total-skip_all m below iters ds at (
          Any-map (λ d. key d ≡ lowest) (λ d. lt (key d) highest ≡ true) ds
            (λ d h. ap (λ k. lt k highest) h ∙ e) over.low_at) in
        further m max empty keep below (all_rows iters) _ (below-IsDown m highest) rows
          (omega (arith, length-all_rows iters))
          (λ k f.
            joins-NotBelow key lt keep o highest k (all_rows iters)
              (Any-NotBelow m highest iters ds at (ascending m max empty keep (all_rows iters) rows)
                over.high_at)
              f)
          (subst
            (λ r.
              Found m max empty keep r (seek_all compare truncate p.highest_row_number iters) fuel)
            seek
            (claim (seek_all compare truncate p.highest_row_number iters)
              (still_some m max empty keep (seek_all compare truncate p.highest_row_number iters)
                below (all_rows iters) seek (omega (arith, length-all_rows iters)))
              (subst (All (AreRows key lt max empty)) (sym seek)
                (skip-AreRows m max empty keep below (all_rows iters) rows))
              (omega (arith, ap total seek, less, l))))

    module _ (same : All (λ d. equal lt (key d) lowest ≡ true) ds) where
      abbrev pub collected : List E × List (Cursor R E)
      collected = collect compare p.lowest_row_number iters

      joined : joins key lt keep lowest (all_rows iters) ≡ keep collected.0
      joined =
          let (es, rest, have, low) =
            collect_lem m p.lowest_row_number iters ds at
              (ascending m max empty keep (all_rows iters) rows) same in
          ap₂ (λ a b. a && keep b) have (sym es)

      not_lower : (k : K) → lt k lowest ≡ true → joins key lt keep k (all_rows iters) ≡ false
      not_lower k f =
          joins-NotBelow key lt keep o lowest k (all_rows iters)
            (Any-NotBelow m lowest iters ds at (ascending m max empty keep (all_rows iters) rows)
              over.low_at)
            f

      -- All iterators are at one row, and its group is kept.
      pub found :
          keep collected.0 ≡ true
          → IsNext key lt keep (all_rows iters) (
              some (
                some (record { row_number = p.lowest_row_number; entries = collected.0 }),
                collected.1,
              ))
      found e =
          let (es, rest, have, low) =
            collect_lem m p.lowest_row_number iters ds at
              (ascending m max empty keep (all_rows iters) rows) same in
          inr (
            record { row_number = p.lowest_row_number; entries = collected.0 },
            collected.1,
            refl,
            record {
              here = joined ∙ e;
              entries = es;
              first = λ k. first_of k (Bool-cases (lt k lowest));
              behind = rest;
            },
          )
        where
          first_of :
              (k : K)
              → (lt k lowest ≡ true) ⊎ (lt k lowest ≡ false)
              → (lt k lowest && joins key lt keep k (all_rows iters)) ≡ false
          first_of k (inl f) = rw f (not_lower k f)
          first_of k (inr f) = rw f refl

      at_lowest : lt lowest highest ≡ false
      at_lowest = every ds same over.high_at
        where
          every :
              (ds : List R)
              → All (λ d. equal lt (key d) lowest ≡ true) ds
              → Any (λ d. key d ≡ highest) ds
              → lt lowest highest ≡ false
          every [] a any = absurd any
          every (d ∷ ds) a (inl e) = ap (λ k. lt lowest k) (sym e) ∙ not_above m (key d) lowest a.0
          every (d ∷ ds) a (inr any) = every ds a.1 any

      -- All iterators are at one row, and its group is not kept.
      pub rejected :
          keep collected.0 ≡ false
          → IsNext key lt keep (all_rows iters) (
              join_loop compare truncate max empty
                (keep_group m max empty keep)
                fuel
                (seek_all compare truncate p.highest_row_number collected.1))
      rejected e =
          let (es, rest, have, low) =
            collect_lem m p.lowest_row_number iters ds at
              (ascending m max empty keep (all_rows iters) rows) same in
          let upto = λ (x : K). not (lt lowest x) in
          let below = λ (x : K). lt x highest in
          let behind = skip_all key lt upto (all_rows iters) in
          let seek : all_rows (seek_all compare truncate p.highest_row_number collected.1)
              ≡ skip_all key lt below behind =
            rows-seek_all m p.highest_row_number collected.1 ∙ ap (skip_all key lt below) rest in
          let rows' = skip-AreRows m max empty keep upto (all_rows iters) rows in
          let less = total-skip_all m upto iters ds at (
            Any-map (λ d. key d ≡ lowest) (λ d. upto (key d) ≡ true) ds
              (λ d h. ap (λ k. not (lt lowest k)) h ∙ ap not (o.irreflexive lowest)) over.low_at) in
          let less' = total-skip_all-le m below behind in
          let n : 1 ≤ length behind = omega (
            arith,
            length-all_rows iters,
            length-skip_all m max empty keep upto (all_rows iters),
          ) in
          let next =
            subst
              (λ r.
                Found m max empty keep r
                  (seek_all compare truncate p.highest_row_number collected.1) fuel)
              seek
              (claim (seek_all compare truncate p.highest_row_number collected.1)
                (still_some m max empty keep
                  (seek_all compare truncate p.highest_row_number collected.1) below behind seek n)
                (subst (All (AreRows key lt max empty)) (sym seek)
                  (skip-AreRows m max empty keep below behind rows'))
                (omega (arith, ap total seek, less, less', l))) in
          further m max empty keep upto (all_rows iters) _ (upto-IsDown m lowest) rows
            (omega (arith, length-all_rows iters)) (λ k f. gone k f (Bool-cases (lt k lowest)))
            (further m max empty keep below behind _ (below-IsDown m highest) rows' n
              (λ k f. left_out k f (Bool-cases (upto k))) next)
        where
          gone :
              (k : K)
              → not (lt lowest k) ≡ true
              → (lt k lowest ≡ true) ⊎ (lt k lowest ≡ false)
              → joins key lt keep k (all_rows iters) ≡ false
          gone k f (inl g) = not_lower k g
          gone k f (inr g) =
              ap (λ x. joins key lt keep x (all_rows iters))
                (o.connected k lowest g (by_not (lt lowest k) f))
              ∙ joined
              ∙ e

          left_out :
              (k : K)
              → lt k highest ≡ true
              → (not (lt lowest k) ≡ true) ⊎ (not (lt lowest k) ≡ false)
              → joins key lt keep k (skip_all key lt (λ x. not (lt lowest x)) (all_rows iters))
                ≡ false
          left_out k f (inl g) =
              joins-left_out m max empty keep (λ x. not (lt lowest x)) k (all_rows iters)
                (upto-IsDown m lowest) (ascending m max empty keep (all_rows iters) rows)
                (omega (arith, length-all_rows iters)) g
          left_out k f (inr g) = absurd (
              true-false
                (sym (o.transitive lowest k highest (by_no (lt lowest k) g) f) ∙ at_lowest))
