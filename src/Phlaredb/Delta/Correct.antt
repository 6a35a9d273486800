-- ===== src/Phlaredb/Delta/Correct.antt =====
-- What `deltaSamples` of pkg/phlaredb/delta.go makes of the samples of a profile.
use phlare.Base.{
  ℕ, ◌<◌, ◌≡◌, refl, sym, ap, ◌∙◌, Bool, true, false, Option, some, List, [], ◌∷◌, arith, ◌==◌,
  if◌then◌else◌, length, elem, All,
}
use phlare.Phlaredb.Delta.{Sample, id_of, value_of, find_ref, index_stacktraces, delta_samples}
use phlare.Phlaredb.Delta.Store.{delta_value}
use phlare.Phlaredb.Delta.Loop.{elem-All, HasDistinct, delta_loop_lem}

-- the last of the maxima that has the stack trace
abbrev pub last_of : List Sample → List ℕ → ℕ → Option ℕ
last_of heap highest k = find_ref k (index_stacktraces heap highest [])

-- All of the map's samples are maxima of their stack trace.
abbrev IsIndex : List Sample → List ℕ → List (ℕ × ℕ) → Type 0
IsIndex heap highest m =
    (k s : ℕ) → find_ref k m ≡ some s → (id_of heap s ≡ k) × (elem s highest ≡ true)

eq_of : (a b : ℕ) → (a == b) ≡ true → b ≡ a
eq_of a b h = ground arith

index_stacktraces-IsIndex :
    (heap : List Sample) (all highest : List ℕ) (m : List (ℕ × ℕ))
    → ((s : ℕ) → elem s highest ≡ true → elem s all ≡ true)
    → IsIndex heap all m
    → IsIndex heap all (index_stacktraces heap highest m)
index_stacktraces-IsIndex heap all [] m h i = i
index_stacktraces-IsIndex heap all (r ∷ highest) m h i =
    index_stacktraces-IsIndex heap all highest ((id_of heap r, r) ∷ m) (λ s e. h s (ground arith))
      (λ k s e. by_front k s (k == id_of heap r) refl e)
  where
    by_front :
        (k s : ℕ) (b : Bool)
        → (k == id_of heap r) ≡ b
        → (if b then some r else find_ref k m) ≡ some s
        → (id_of heap s ≡ k) × (elem s all ≡ true)
    by_front k s true c e =
        let same : r ≡ s = cc in
        (
          ap (id_of heap) (sym same) ∙ eq_of k (id_of heap r) c,
          ap (λ q. elem q all) (sym same) ∙ h r (ground arith),
        )
    by_front k s false c e = i k s e

-- Where the maxima and the new samples stand in the store, no new sample is one of the maxima, and
-- the stack traces of the new samples differ, `deltaSamples` leaves each of them the increase of
-- its value since the last maximum of its stack trace, or its value if that decreased or if there
-- is no maximum; and that maximum becomes the value that the new sample had.
pub delta_samples-values :
    (heap : List Sample) (highest new : List ℕ) (n : ℕ)
    → All (λ r. r < length heap) highest
    → All (λ r. (r < length heap) × (elem r highest ≡ false)) new
    → HasDistinct (id_of heap) new
    → elem n new ≡ true
    → (value_of (delta_samples heap highest new).0 n
        ≡ delta_value heap (last_of heap highest (id_of heap n)) (value_of heap n))
      × ((s : ℕ)
          → last_of heap highest (id_of heap n) ≡ some s
          → value_of (delta_samples heap highest new).0 s ≡ value_of heap n)
unfolding delta_samples
delta_samples-values heap highest new n inside fresh distinct e =
    let m = index_stacktraces heap highest [] in
    let i =
      index_stacktraces-IsIndex heap highest highest [] (λ s e. e)
        (λ k s e. absurd (ground (arith, e))) in
    delta_loop_lem m (id_of heap) (length heap)
      (λ k s f.
        let known = i k s f in (known.0, elem-All (λ r. r < length heap) s highest known.1 inside))
      heap highest new n (refl, λ q. refl) (news new fresh i) distinct e
  where
    news :
        (new : List ℕ)
        → All (λ r. (r < length heap) × (elem r highest ≡ false)) new
        → IsIndex heap highest (index_stacktraces heap highest [])
        → All
            (λ n.
              (n < length heap)
              × ((k : ℕ) → ¬ (find_ref k (index_stacktraces heap highest []) ≡ some n)))
            new
    news [] a i = tt
    news (n ∷ new) a i =
        ((a.0.0, λ k f. absurd (ground (arith, (i k n f).1, a.0.1))), news new a.1 i)
