-- ===== src/Query/Join/Cursors.antt =====
-- What the operations of a join do to the rows that its iterators give.
use phlare.Base.{
  ◌≡◌, refl, sym, ap, ◌∙◌, Bool, true, false, not, ◌&&◌, Option, none, some, List, [], ◌∷◌, ◌++◌,
  Bool-cases, inl, inr, arith, append_nil,
}
use phlare.Base.Order.{equal, lt-asym}
use phlare.Query.Join.{
  IteratorResult, is_lt, is_eq, is_gt, advance, peek_at, collect_loop, skip_below, seek_at,
}
use phlare.Query.Join.Skip.{
  RowOrder, order_of, rows_at, rows_of, gather, skip_while, after, NotBelow, IsAscending, key_of,
  gather-NotBelow,
}

module _ {R K : Type 0} (m : RowOrder R K) where
  open m use {key, lt, o, compare, law}

  pub is_lt_law : (a b : R) → is_lt (compare a b) ≡ lt (key a) (key b)
  is_lt_law a b = ap is_lt (law a b) ∙ by_tests (lt (key a) (key b)) (lt (key b) (key a))
    where
      by_tests : (x y : Bool) → is_lt (order_of x y) ≡ x
      by_tests true y = refl
      by_tests false true = refl
      by_tests false false = refl

  pub is_eq_law : (a b : R) → is_eq (compare a b) ≡ equal lt (key a) (key b)
  is_eq_law a b = ap is_eq (law a b) ∙ by_tests (lt (key a) (key b)) (lt (key b) (key a))
    where
      by_tests : (x y : Bool) → is_eq (order_of x y) ≡ (not x && not y)
      by_tests true y = refl
      by_tests false true = refl
      by_tests false false = refl

  pub is_gt_law : (a b : R) → is_gt (compare a b) ≡ lt (key b) (key a)
  is_gt_law a b =
      ap is_gt (law a b)
      ∙ by_tests (lt (key a) (key b)) (lt (key b) (key a)) (lt-asym lt o (key a) (key b))
    where
      by_tests : (x y : Bool) → (x ≡ true → y ≡ false) → is_gt (order_of x y) ≡ y
      by_tests true y h = sym (h refl)
      by_tests false true h = refl
      by_tests false false h = refl

  -- a row that is not below a key and has another is above it
  pub above : (x k : K) → lt x k ≡ false → equal lt x k ≡ false → lt k x ≡ true
  above x k e f = ground arith

  pub not_above : (x k : K) → equal lt x k ≡ true → lt k x ≡ false
  not_above x k e = ground arith

  module _ {E : Type 0} where
    pub rows-advance : (rows : List (IteratorResult R E)) → rows_of (advance rows) ≡ rows
    rows-advance [] = refl
    rows-advance (r ∷ rows) = refl

    pub rows-peek_at :
        (p : Option (IteratorResult R E)) (rows : List (IteratorResult R E))
        → rows_of (peek_at p rows) ≡ rows_at p rows
    rows-peek_at none rows = rows-advance rows
    rows-peek_at (some r) rows = refl

    skip_below-while :
        (to : R) (rows : List (IteratorResult R E))
        → skip_below compare to rows ≡ skip_while key lt (λ x. lt x (key to)) rows
    skip_below-while to [] = refl
    skip_below-while to (r ∷ rows) =
        rw (is_lt_law r.row_number to) (rw (skip_below-while to rows) refl)

    pub rows-seek_at :
        (to : R) (p : Option (IteratorResult R E)) (rows : List (IteratorResult R E))
        → rows_of (seek_at compare to p rows)
          ≡ skip_while key lt (λ x. lt x (key to)) (rows_at p rows)
    rows-seek_at to none rows = rows-advance (skip_below compare to rows) ∙ skip_below-while to rows
    rows-seek_at to (some r) rows = elim (Bool-cases (lt (key_of key lt r) (key to))) [
      | inl e ↦
          rw (is_lt_law r.row_number to)
            (rw e (rows-advance (skip_below compare to rows) ∙ skip_below-while to rows))
      | inr e ↦ rw (is_lt_law r.row_number to) (rw e refl)
    ]

    pub collect_loop_lem :
        (row : R) (r : IteratorResult R E) (ahead : List (IteratorResult R E))
        → NotBelow key lt (key row) (r ∷ ahead)
        → IsAscending key lt (r ∷ ahead)
        → ((collect_loop compare row (some r) ahead).0 ≡ gather key lt (key row) (r ∷ ahead))
          × (rows_of (collect_loop compare row (some r) ahead).1
              ≡ after key lt (key row) (r ∷ ahead))
    collect_loop_lem row r [] b a = elim (Bool-cases (equal lt (key_of key lt r) (key row))) [
      | inl e ↦
          let t = is_eq_law r.row_number row ∙ e in
          (
            rw t (rw e (append_nil r.entries)),
            rw t (rw (not_above (key_of key lt r) (key row) e) refl),
          )
      | inr e ↦
          let t = is_eq_law r.row_number row ∙ e in
          (rw t (rw e refl), rw t (rw (above (key_of key lt r) (key row) b.0 e) refl))
    ]
    collect_loop_lem row r (q ∷ ahead) b a =
        elim (Bool-cases (equal lt (key_of key lt r) (key row))) [
          | inl e ↦
              let t = is_eq_law r.row_number row ∙ e in
              let (entries, rest) = collect_loop_lem row q ahead b.1 a.1 in
              (
                rw t (rw e (ap (λ es. r.entries ++ es) entries)),
                rw t (rw (not_above (key_of key lt r) (key row) e) rest),
              )
          | inr e ↦
              let t = is_eq_law r.row_number row ∙ e in
              let far = above (key_of key lt r) (key row) b.0 e in
              (
                rw t (
                    rw e (
                      sym (
                        gather-NotBelow key lt o (key_of key lt r) (key row) (q ∷ ahead) a.0 far))),
                rw t (rw far refl),
              )
        ]
