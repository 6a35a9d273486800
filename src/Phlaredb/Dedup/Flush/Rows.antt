-- ===== src/Phlaredb/Dedup/Flush/Rows.antt =====
-- Which rows `Flush` of pkg/phlaredb/deduplicating_slice.go writes, and that it ends.
use native.Mathlib.Nat.{le-div_iff_mul-le, div-le_self}
use mathlib.Core.List.{append-nil, append_assoc}
use phlare.Base.{
  ℕ, zero, suc, ◌+◌, ◌-◌, ◌/◌, ◌≤◌, ◌<◌, ◌≡◌, refl, sym, ap, ◌∙◌, Bool, false, List, [], ◌∷◌, ◌++◌,
  inl, inr, arith, ◌==◌, if◌then◌else◌, length, take, drop, length-drop, All, Bool-cases, map, true,
  ◌⊎◌, ◌^◌,
}
use mathlib.Core.Path.{subst}
use phlare.Base.Int.{ℤ, pos, pos_part, ltb_ℤ, to_int64}
use phlare.Base.Outcome.{ok, panicked}
use phlare.Phlaredb.Dedup.{DeduplicatingSlice}
use phlare.Phlaredb.Dedup.Flush.{
  ParquetConfig, max_rows_per_row_group, rows_to_flush, Ended, done, refused, crashed, endless,
  Flushed, flush_round, flush_loop, flush,
}

-- the count of rows of a round, which is not negative
abbrev AreDue : ParquetConfig → ℕ → ℕ → ℤ → Type 0
AreDue cfg max_rows left n =
    (n ≡ pos (pos_part n))
    × (1 ≤ pos_part n)
    × (pos_part n ≤ left)
    × (pos_part n ≤ max_rows)
    × (pos_part n ≤ cfg.max_buffer_row_count)

rows_to_flush_lem :
    (cfg : ParquetConfig) (max_rows left : ℕ)
    → 1 ≤ max_rows
    → 1 ≤ cfg.max_buffer_row_count
    → 1 ≤ left
    → AreDue cfg max_rows left (rows_to_flush cfg (pos max_rows) left)
rows_to_flush_lem cfg max_rows left h k l = elim (Bool-cases (ltb_ℤ (pos max_rows) (pos left))) [
  | inl e ↦ rw e (
      cap max_rows (Bool-cases (ltb_ℤ (pos cfg.max_buffer_row_count) (pos max_rows))) h
        (omega arith) (ground arith))
  | inr e ↦ rw e (
      cap left (Bool-cases (ltb_ℤ (pos cfg.max_buffer_row_count) (pos left))) l (ground arith)
        (omega arith))
]
  where
    cap :
        (n : ℕ)
        → (ltb_ℤ (pos cfg.max_buffer_row_count) (pos n) ≡ true)
          ⊎ (ltb_ℤ (pos cfg.max_buffer_row_count) (pos n) ≡ false)
        → 1 ≤ n
        → n ≤ max_rows
        → n ≤ left
        → AreDue cfg max_rows left (
            if ltb_ℤ (pos cfg.max_buffer_row_count) (pos n)
            then pos cfg.max_buffer_row_count
            else pos n)
    cap n (inl e) a b c = rw e (refl, k, ground arith, ground arith, omega arith)
    cap n (inr e) a b c = rw e (refl, a, c, b, ground arith)

module _ {M : Type 0} where
  abbrev pub concat : List (List M) → List M
  concat [] = []
  concat (g ∷ gs) = g ++ concat gs

  take-nil : (n : ℕ) → take {A = M} n [] ≡ []
  take-nil zero = refl
  take-nil (suc n) = refl

  drop-nil : (n : ℕ) → drop {A = M} n [] ≡ []
  drop-nil zero = refl
  drop-nil (suc n) = refl

  length-take : (n : ℕ) (xs : List M) → n ≤ length xs → length (take n xs) ≡ n
  length-take zero xs h = refl
  length-take (suc n) [] h = absurd (omega arith)
  length-take (suc n) (x ∷ xs) h = ap suc (length-take n xs (omega arith))

  take-both : (n k : ℕ) (xs : List M) → take n xs ++ take k (drop n xs) ≡ take (n + k) xs
  take-both zero k xs = ap (λ i. take i xs) (omega arith)
  take-both (suc n) k [] = take-nil k ∙ sym (take-nil (suc n + k))
  take-both (suc n) k (x ∷ xs) =
      let next : suc (n + k) ≡ suc n + k = omega arith in
      ap (λ l. x ∷ l) (take-both n k xs) ∙ ap (λ i. take i (x ∷ xs)) next

  drop-both : (f n : ℕ) (xs : List M) → drop (f + n) xs ≡ drop n (drop f xs)
  drop-both zero n xs = ap (λ i. drop i xs) (omega arith)
  drop-both (suc f) n [] = drop-nil (suc f + n) ∙ sym (drop-nil n)
  drop-both (suc f) n (x ∷ xs) =
      let next : suc f + n ≡ suc (f + n) = omega arith in
      ap (λ i. drop i (x ∷ xs)) next ∙ drop-both f n xs

  -- A row group is not empty and keeps to the limits.
  abbrev pub IsLimited : ParquetConfig → ℕ → List M → Type 0
  IsLimited cfg max_rows g =
      (1 ≤ length g) × ((length g ≤ max_rows) × (length g ≤ cfg.max_buffer_row_count))

  -- What a flush of the rows from `f` on comes to: it cuts runs of rows, each of which goes out as
  -- the buffer sorts it.
  pub record Flushes (sort : List M → List M) (cfg : ParquetConfig) (max_rows : ℕ) (slice : List M)
      (f : ℕ) (groups : List (List M)) (r : Flushed M) : Type 0 where
    pub count : ℕ
    pub runs : List (List M)
    pub flushed : r.rows_flushed ≡ f + count
    pub sorted : r.groups ≡ groups ++ map sort runs
    pub in_order : concat runs ≡ take count (drop f slice)
    pub limited : All (IsLimited cfg max_rows) runs
    pub ends : ¬ (r.ended ≡ endless)
    pub calm : ¬ (r.ended ≡ crashed)
    pub complete : (rows gs : ℕ) → r.ended ≡ done rows gs → r.rows_flushed ≡ length slice

  module _ (sort : List M → List M) (cfg : ParquetConfig) (max_rows : ℕ) where
    at_end :
        (slice : List M) (f : ℕ) (groups : List (List M)) (e : Ended)
        → ¬ (e ≡ endless)
        → ¬ (e ≡ crashed)
        → ((rows gs : ℕ) → e ≡ done rows gs → f ≡ length slice)
        → Flushes sort cfg max_rows slice f groups
            (record { rows_flushed = f; groups = groups; ended = e })
    at_end slice f groups e ends calm all = record {
      count = 0;
      runs = [];
      flushed = omega arith;
      sorted = sym (append-nil groups);
      in_order = refl;
      limited = tt;
      ends = ends;
      calm = calm;
      complete = all;
    }

    after_round :
        (slice : List M) (f n : ℕ) (groups : List (List M)) (r : Flushed M)
        → IsLimited cfg max_rows (take n (drop f slice))
        → Flushes sort cfg max_rows slice (f + n) (groups ++ sort (take n (drop f slice)) ∷ []) r
        → Flushes sort cfg max_rows slice f groups r
    after_round slice f n groups r small w =
        let g = take n (drop f slice) in
        record {
          count = n + w.count;
          runs = g ∷ w.runs;
          flushed = omega (arith, w.flushed);
          sorted = w.sorted ∙ append_assoc groups (sort g ∷ []) (map sort w.runs);
          in_order =
              ap (λ l. g ++ l) (w.in_order ∙ ap (take w.count) (drop-both f n slice))
              ∙ take-both n w.count (drop f slice);
          limited = (small, w.limited);
          ends = w.ends;
          calm = w.calm;
          complete = w.complete;
        }

    module _ (write : List M → Bool) (some_rows : 1 ≤ max_rows)
        (some_buffer : 1 ≤ cfg.max_buffer_row_count) where
      flush_loop-Flushes :
          (fuel : ℕ) (slice : List M) (f : ℕ) (groups : List (List M)) (rows count : ℕ)
          → length slice - f < fuel
          → f ≤ length slice
          → Flushes sort cfg max_rows slice f groups
              (flush_loop sort write cfg (pos max_rows) fuel slice f groups rows count)
      unfolding flush_loop
      flush_loop-Flushes zero slice f groups rows count h le = absurd (omega arith)
      flush_loop-Flushes (suc fuel) slice f groups rows count h le =
          let left = length slice - f in
          let to_flush = rows_to_flush cfg (pos max_rows) left in
          let n = pos_part to_flush in
          let g = take n (drop f slice) in
          elim (Bool-cases (left == 0)) [
            | inl e ↦ rw e (
                at_end slice f groups (done rows count) (λ k. absurd (ground (arith, k)))
                  (λ k. absurd (ground (arith, k))) (λ a b k. ground arith))
            | inr e ↦
                let (here, some_n, in_left, in_rows, in_buffer) =
                  rows_to_flush_lem cfg max_rows left some_rows some_buffer (ground arith) in
                let size : length g ≡ n =
                  length-take n (drop f slice) (omega (arith, length-drop f slice, in_left)) in
                let small : IsLimited cfg max_rows g =
                  (omega (arith, some_n), (omega (arith, in_rows), omega (arith, in_buffer))) in
                let onward =
                  flush_loop sort write cfg (pos max_rows) fuel slice (f + n)
                    (groups ++ sort g ∷ []) (rows + n) (suc count) in
                rw e (
                  subst
                    (λ z.
                      Flushes sort cfg max_rows slice f groups
                        (flush_round sort write cfg (pos max_rows) slice f groups z onward))
                    (sym here)
                    (elim (Bool-cases (write (sort g))) [
                      | inr k ↦ rw k (
                          at_end slice f groups refused (λ t. absurd (ground (arith, t)))
                            (λ t. absurd (ground (arith, t))) (λ a b t. absurd (ground (arith, t))))
                      | inl k ↦ rw k (
                          after_round slice f n groups onward small (
                            flush_loop-Flushes fuel slice (f + n) (groups ++ sort g ∷ []) (rows + n)
                              (suc count) (omega (arith, some_n, in_left))
                              (omega (arith, in_left))))
                    ]))
          ]

to_int64-small : (c : ℕ) → c < 2 ^ 63 → to_int64 c ≡ pos c
to_int64-small c h = ground arith

rows_by_bytes :
    (b c : ℕ)
    → 1 ≤ b
    → c < 2 ^ 63
    → (m : ℕ) × (((if b == 0 then panicked else ok (if c == 0 then pos 1 else to_int64 c))
          ≡ ok (pos m))
        × (1 ≤ m))
rows_by_bytes b c h small =
    let some_bytes : (b == 0) ≡ false = ground arith in
    elim (Bool-cases (c == 0)) [
      | inl e ↦ (1, (rw (some_bytes, e) refl, omega arith))
      | inr e ↦ (c, (rw (some_bytes, e) (ap ok (to_int64-small c small)), ground arith))
    ]

max_rows-some :
    (cfg : ParquetConfig) (n size : ℕ)
    → cfg.max_row_group_bytes < 2 ^ 63
    → n ≤ size
    → (m : ℕ) × ((max_rows_per_row_group cfg n size ≡ ok (pos m)) × (1 ≤ m))
max_rows-some cfg zero size small h = (1, (refl, omega arith))
max_rows-some cfg (suc n) size small h =
    rows_by_bytes (size / suc n) (cfg.max_row_group_bytes / (size / suc n))
      ((le-div_iff_mul-le {k = suc n} {x = 1} {y = size} (omega arith)).1 (omega arith))
      (omega (arith, div-le_self cfg.max_row_group_bytes (size / suc n), small))

-- If the elements take at least one byte on average, a row may be buffered, the bytes of a row
-- group fit an int64, and no more rows are flushed than there are, then `Flush`, with any sort of
-- the buffer, ends without a panic: it cuts exactly the rows that it counts as flushed from where
-- it began into runs, in order, none of them empty or larger than the limits, each row group is a
-- run as the buffer sorts it, and unless the writer refuses a group all rows are flushed.
pub flush-writes :
    {M K : Type 0} (sort : List M → List M) (write : List M → Bool) (cfg : ParquetConfig)
    (s : DeduplicatingSlice M K)
    → length s.slice ≤ s.size
    → 1 ≤ cfg.max_buffer_row_count
    → cfg.max_row_group_bytes < 2 ^ 63
    → s.rows_flushed ≤ length s.slice
    → (max_rows : ℕ) × (r : Flushed M) × (max_rows_per_row_group cfg (length s.slice) s.size
        ≡ ok (pos max_rows))
      × (flush sort write cfg s ≡ ok r)
      × Flushes sort cfg max_rows s.slice s.rows_flushed [] r
unfolding flush
flush-writes sort write cfg s h k small le =
    let (m, (e, some_rows)) = max_rows-some cfg (length s.slice) s.size small h in
    (
      m,
      flush_loop sort write cfg (pos m) (suc (length s.slice)) s.slice s.rows_flushed [] 0 0,
      e,
      rw e refl,
      flush_loop-Flushes sort cfg m write some_rows k (suc (length s.slice)) s.slice s.rows_flushed
          [] 0 0 (omega arith) le,
    )
