-- ===== src/Postings/Expand.antt =====
-- A caller that walks an iterator by `Next` to its end and collects the values.
use mathlib.Core.List.{append-nil, append_assoc}
use phlare.Base.{
  ℕ, zero, suc, ◌<◌, ◌≡◌, refl, sym, ◌∙◌, List, [], ◌∷◌, ◌++◌, arith, if◌then◌else◌, length,
}
use phlare.Iter.Seekable.{SeekIterator, NextContract}

module _ {S : Type 0} (it : SeekIterator S) where
  expand_loop : ℕ → S → List ℕ → List ℕ
  expand_loop zero s res = res
  expand_loop (suc fuel) s res =
      let (s', ok) = it.next s in
      let more = expand_loop fuel s' (res ++ it.at s' ∷ []) in if ok then more else res

  unfoldable pub expand_postings : S → List ℕ
  unfolding expand_loop
  expand_postings s = expand_loop (suc (length (it.rest s))) s []

module _ {S : Type 0} (it : SeekIterator S) {IsValid : S → Type 0}
    (c : NextContract it IsValid) where
  expand_loop_lem :
      (fuel : ℕ) (l : List ℕ) (s : S) (res : List ℕ)
      → IsValid s
      → it.rest s ≡ l
      → length l < fuel
      → expand_loop it fuel s res ≡ res ++ l
  unfolding expand_loop
  expand_loop_lem zero l s res v e h = absurd (omega arith)
  expand_loop_lem (suc fuel) [] s res v e h =
      let moved = rw e at (c.next_lands s v) in rw moved (sym (append-nil res))
  expand_loop_lem (suc fuel) (x ∷ l) s res v e h =
      let moved = rw e at (c.next_lands s v) in
      rw (moved.0, moved.1)
        (expand_loop_lem fuel l (it.next s).0 (res ++ x ∷ []) moved.3 moved.2 (omega arith)
          ∙ append_assoc res (x ∷ []) l)

  -- Expanding an iterator that keeps the contract collects exactly the values still to come.
  pub expand_postings_lem : (s : S) → IsValid s → expand_postings it s ≡ it.rest s
  unfolding expand_postings
  expand_postings_lem s v =
      expand_loop_lem (suc (length (it.rest s))) (it.rest s) s [] v refl (omega arith)
