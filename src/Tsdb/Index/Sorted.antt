-- ===== src/Tsdb/Index/Sorted.antt =====
-- `delete` of pkg/phlaredb/tsdb/index.go, over lists that may repeat a fingerprint.
use mathlib.Core.Path.{subst}
use phlare.Base.{
  ℕ, zero, suc, refl, sym, not, ◌||◌, List, [], ◌∷◌, leb, ◌==◌, length, get_or, Ascends,
  Ascends-weaken,
}
use phlare.Base.Map.{find}
use phlare.Tsdb.Index.{LabelPair, UnlockIndex, position, delete_pair, delete}
use phlare.Tsdb.Index.Erased.{erase_at, erased}
use phlare.Tsdb.Index.Store.{IsSorted, stored, is_pair}
use phlare.Tsdb.Index.Delete.{delete_from-stored}
use phlare.Tsdb.Index.Within.{either}

erase_at-Ascends : (lo j : ℕ) (fps : List ℕ) → Ascends lo fps → Ascends lo (erase_at j fps)
erase_at-Ascends lo zero [] s = tt
erase_at-Ascends lo zero (x ∷ fps) s = Ascends-weaken lo x fps s.0 s.1
erase_at-Ascends lo (suc j) [] s = tt
erase_at-Ascends lo (suc j) (x ∷ fps) s = (s.0, erase_at-Ascends x j fps s.1)

erased-Ascends : (fp : ℕ) (fps : List ℕ) → Ascends 0 fps → Ascends 0 (erased fp fps)
erased-Ascends fp fps s =
    let j = position fp fps in
    either (Ascends 0) (leb (length fps) j || not (get_or fps j 0 == fp)) fps (erase_at j fps) s
      (erase_at-Ascends 0 j fps s)

delete_pair-IsSorted :
    (fp : ℕ) (pair : LabelPair) (idx : UnlockIndex)
    → IsSorted idx
    → IsSorted (delete_pair fp pair idx)
unfolding delete_pair
delete_pair-IsSorted fp pair idx s n v =
    let fps = stored pair.name pair.value idx in
    subst (Ascends 0) (sym (delete_from-stored fp pair idx n v (find pair.name idx) refl)) (
      either (Ascends 0) (is_pair n v pair) (erased fp fps) (stored n v idx)
        (erased-Ascends fp fps (s pair.name pair.value)) (s n v))

pub delete-IsSorted :
    (labels : List LabelPair) (fp : ℕ) (idx : UnlockIndex)
    → IsSorted idx
    → IsSorted (delete labels fp idx)
unfolding delete
delete-IsSorted [] fp idx s = s
delete-IsSorted (pair ∷ labels) fp idx s =
    delete-IsSorted labels fp (delete_pair fp pair idx) (delete_pair-IsSorted fp pair idx s)
