-- ===== src/Querier/SelectMerge/Heap.antt =====
-- What the iterators of a heap give, in whatever order they stand.
use mathlib.Core.Path.{subst}
use mathlib.Core.List.{Permᴰ}
use phlare.Base.{ℕ, ◌+◌, ◌≡◌, refl, ◌∙◌, Bool, true, false, ◌||◌, List, [], ◌∷◌, arith, length, All}
use phlare.Base.Order.{contains, IsStrict}
use phlare.Querier.SelectMerge.{Profile, MergeIterator, less}

abbrev pub profiles_of : MergeIterator → List Profile
profiles_of c = c.current ∷ c.stream.ahead

-- the profiles that the iterators still give
unfoldable pub weight : List MergeIterator → ℕ
weight [] = 0
weight (c ∷ h) = length (profiles_of c) + weight h

-- whether one of the iterators gives a profile
unfoldable pub occurs : Profile → List MergeIterator → Bool
occurs k [] = false
occurs k (c ∷ h) = contains less k (profiles_of c) || occurs k h

abbrev pub AreStrict : List MergeIterator → Type 0
AreStrict = All (λ c. IsStrict less (profiles_of c))

abbrev pub Above : Profile → List MergeIterator → Type 0
Above m = All (λ c. less m c.current ≡ true)

abbrev pub NotBelow : Profile → List MergeIterator → Type 0
NotBelow m = All (λ c. less c.current m ≡ false)

abbrev pub AreAt : Profile → List MergeIterator → Type 0
AreAt m = All (λ c. c.current ≡ m)

pub weight-perm : {xs ys : List MergeIterator} → Permᴰ xs ys → weight xs ≡ weight ys
unfolding weight
weight-perm Permᴰ.nil = refl
weight-perm (Permᴰ.cons e d) = rw e (let i = weight-perm d in omega arith)
weight-perm (Permᴰ.swap e e') = rw e (rw e' (omega arith))
weight-perm (Permᴰ.trans d d') = weight-perm d ∙ weight-perm d'

pub occurs-perm :
    (k : Profile) {xs ys : List MergeIterator} → Permᴰ xs ys → occurs k xs ≡ occurs k ys
unfolding occurs
occurs-perm k Permᴰ.nil = refl
occurs-perm k (Permᴰ.cons e d) = rw e (rw (occurs-perm k d) refl)
occurs-perm k (Permᴰ.swap {l = l} e e') = rw e (rw e' (by_tests _ _ (occurs k l)))
  where
    by_tests : (a b c : Bool) → (a || (b || c)) ≡ (b || (a || c))
    by_tests a b c = ground arith
occurs-perm k (Permᴰ.trans d d') = occurs-perm k d ∙ occurs-perm k d'

pub All-perm :
    (P : MergeIterator → Type 0) {xs ys : List MergeIterator} → Permᴰ xs ys → All P xs → All P ys
All-perm P Permᴰ.nil a = a
All-perm P (Permᴰ.cons e d) a = (subst P e a.0, All-perm P d a.1)
All-perm P (Permᴰ.swap e e') a = (subst P e' a.1.0, (subst P e a.0, a.1.1))
All-perm P (Permᴰ.trans d d') a = All-perm P d' (All-perm P d a)
