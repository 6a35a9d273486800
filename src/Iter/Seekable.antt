-- ===== src/Iter/Seekable.antt =====
-- `SeekIterator` of pkg/iter/iter.go at the type of series references, and its contract: an
-- iterator walks an ascending list of values, and `Seek` skips to the first that is large enough.
-- Nothing is promised of an iterator once a call on it has returned false.
use phlare.Base.{ℕ, ◌≤◌, ◌≡◌, Bool, true, false, List, [], ◌∷◌, leb, Ascends, skip_below}

-- The operations on a state `S`. `rest`, the values still to come, is no operation of the code: the
-- contract speaks of it, and its length is the fuel of the loops over an iterator.
pub record SeekIterator (S : Type 0) : Type 0 where
  pub next : S → S × Bool
  pub seek : ℕ → S → S × Bool
  pub at : S → ℕ
  pub rest : S → List ℕ

module _ {S : Type 0} (it : SeekIterator S) where
  -- What a call that looks for the head of `l` returns, and the state that it leaves on success.
  abbrev pub Lands : (S → Type 0) → List ℕ → S × Bool → Type 0
  Lands IsValid [] (s, found) = found ≡ false
  Lands IsValid (x ∷ xs) (s, found) = (found ≡ true) × (it.at s ≡ x) × (it.rest s ≡ xs) × IsValid s

  -- the calls of `Next`
  pub record NextContract (IsValid : S → Type 0) : Type 0 where
    pub ascends : (s : S) → IsValid s → Ascends (it.at s) (it.rest s)
    pub next_lands : (s : S) → IsValid s → Lands IsValid (it.rest s) (it.next s)

  -- the calls of `Seek`, which may be mixed with those of `Next`
  pub record SeekContract (IsValid : S → Type 0) : Type 0 where
    pub seek_stays : (x : ℕ) (s : S) → IsValid s → x ≤ it.at s → it.seek x s ≡ (s, true)
    pub seek_lands :
        (x : ℕ) (s : S)
        → IsValid s
        → leb x (it.at s) ≡ false
        → Lands IsValid (skip_below x (it.rest s)) (it.seek x s)
