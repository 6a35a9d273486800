-- ===== src/Model/Labels/Builder/Delete.antt =====
-- What the loop of `Del` in pkg/model/labels.go, which shortens the slice that it ranges over, leaves
-- of it.
use mathlib.Core.Path.{ap₂}
use phlare.Base.{
  ℕ, zero, suc, ◌+◌, ◌≤◌, ◌<◌, ◌≡◌, refl, sym, ap, ◌∙◌, Bool, true, false, Option, some, none, List,
  [], ◌∷◌, ◌++◌, inl, inr, arith, leb, if◌then◌else◌, length, take, drop, get_elem?, length-append,
  length-drop, Bool-cases,
}
use phlare.Base.Order.{Bytes}
use phlare.Base.Map.{eq_bytes, eq_bytes-same}
use phlare.Base.Outcome.{Outcome, ok, panicked, ◌>>=◌}
use phlare.Tsdb.Index.{LabelPair}
use phlare.Model.Labels.Builder.{removed_at, del_round, del_loop, has_name}

-- no name comes twice
abbrev pub IsUnique : List LabelPair → Type 0
IsUnique [] = Unit
IsUnique (x ∷ xs) = (has_name x.name xs ≡ false) × IsUnique xs

-- the labels without the first one of the name
abbrev pub without : Bytes → List LabelPair → List LabelPair
without n [] = []
without n (x ∷ xs) = if eq_bytes x.name n then xs else x ∷ without n xs

has_name-drop :
    (n : Bytes) (k : ℕ) (xs : List LabelPair)
    → has_name n xs ≡ false
    → has_name n (drop k xs) ≡ false
has_name-drop n zero xs h = h
has_name-drop n (suc k) [] h = refl
has_name-drop n (suc k) (x ∷ xs) h = has_name-drop n k xs (ground (arith, h))

has_name-append :
    (n : Bytes) (xs ys : List LabelPair)
    → has_name n xs ≡ false
    → has_name n ys ≡ false
    → has_name n (xs ++ ys) ≡ false
has_name-append n [] ys h k = k
has_name-append n (x ∷ xs) ys h k = ground (arith, h, has_name-append n xs ys (ground (arith, h)) k)

get_elem?-other :
    (n : Bytes) (i : ℕ) (xs : List LabelPair)
    → has_name n xs ≡ false
    → i < length xs
    → (a : LabelPair) × ((get_elem? xs i ≡ some a) × (eq_bytes a.name n ≡ false))
get_elem?-other n i [] h lt = absurd (omega arith)
get_elem?-other n zero (x ∷ xs) h lt = (x, (refl, ground (arith, h)))
get_elem?-other n (suc i) (x ∷ xs) h lt = get_elem?-other n i xs (ground (arith, h)) (omega arith)

-- where the name is not met the rounds go by
del_loop-absent :
    (n : Bytes) (k i cur : ℕ) (arr : List LabelPair)
    → has_name n arr ≡ false
    → i + k ≤ length arr
    → del_loop n k i cur arr ≡ ok (take cur arr)
unfolding del_loop
del_loop-absent n zero i cur arr h le = refl
del_loop-absent n (suc k) i cur arr h le =
    let (a, (e, ne)) = get_elem?-other n i arr h (omega arith) in
    rw (e, ne) (del_loop-absent n k (suc i) cur arr h (omega arith))

-- an element in front of the array is carried along
pub carry : LabelPair → Outcome (List LabelPair) → Outcome (List LabelPair)
carry x o = do add ← o; ok (x ∷ add)

carry-round :
    (n : Bytes) (x : LabelPair) (i cur : ℕ) (onward shorter : Outcome (List LabelPair))
    (o : Option LabelPair)
    → del_round n (suc i) (suc cur) (carry x onward) (carry x shorter) o
      ≡ carry x (del_round n i cur onward shorter o)
unfolding carry
carry-round n x i cur onward shorter none = refl
carry-round n x i cur onward shorter (some a) =
    let same : leb (suc (suc i)) (suc cur) ≡ leb (suc i) cur = ground arith in
    rw same (pass (eq_bytes a.name n) (leb (suc i) cur))
  where
    pass :
        (p q : Bool)
        → (if p then if q then carry x shorter else panicked else carry x onward)
          ≡ carry x (if p then if q then shorter else panicked else onward)
    pass true true = refl
    pass true false = refl
    pass false q = refl

carry-round_zero :
    (n : Bytes) (x : LabelPair) (i : ℕ) (onward shorter shorter' : Outcome (List LabelPair))
    (o : Option LabelPair)
    → del_round n (suc i) 1 (carry x onward) shorter' o ≡ carry x (del_round n i 0 onward shorter o)
unfolding carry
carry-round_zero n x i onward shorter shorter' none = refl
carry-round_zero n x i onward shorter shorter' (some a) =
    let over : leb (suc (suc i)) 1 ≡ false = ground arith in
    let over' : leb (suc i) 0 ≡ false = ground arith in rw (over, over') (pass (eq_bytes a.name n))
  where
    pass :
        (p : Bool)
        → (if p then panicked else carry x onward) ≡ carry x (if p then panicked else onward)
    pass true = refl
    pass false = refl

carry-loop :
    (n : Bytes) (x : LabelPair) (k i cur : ℕ) (arr : List LabelPair)
    → del_loop n k (suc i) (suc cur) (x ∷ arr) ≡ carry x (del_loop n k i cur arr)
unfolding del_loop carry
carry-loop n x zero i cur arr = refl
carry-loop n x (suc k) i zero arr =
    ap
      (λ o.
        del_round n (suc i) 1 o (del_loop n k (suc (suc i)) 0 (removed_at (suc i) 1 (x ∷ arr)))
          (get_elem? arr i))
      (carry-loop n x k (suc i) 0 arr)
    ∙ carry-round_zero n x i (del_loop n k (suc i) 0 arr)
        (del_loop n k (suc i) 0 (removed_at i 0 arr))
        (del_loop n k (suc (suc i)) 0 (removed_at (suc i) 1 (x ∷ arr))) (get_elem? arr i)
carry-loop n x (suc k) i (suc cur) arr =
    ap₂ (λ o s. del_round n (suc i) (suc (suc cur)) o s (get_elem? arr i))
      (carry-loop n x k (suc i) (suc cur) arr)
      (carry-loop n x k (suc i) cur (removed_at i (suc cur) arr))
    ∙ carry-round n x i (suc cur) (del_loop n k (suc i) (suc cur) arr)
        (del_loop n k (suc i) cur (removed_at i (suc cur) arr)) (get_elem? arr i)

take-all : (xs : List LabelPair) → take (length xs) xs ≡ xs
take-all [] = refl
take-all (x ∷ xs) = ap (λ l. x ∷ l) (take-all xs)

take-append : (xs ys : List LabelPair) → take (length xs) (xs ++ ys) ≡ xs
take-append [] ys = refl
take-append (x ∷ xs) ys = ap (λ l. x ∷ l) (take-append xs ys)

-- the rest of the loop once the first label is removed
after_removal :
    (n : Bytes) (x : LabelPair) (xs : List LabelPair)
    → has_name n xs ≡ false
    → del_loop n (length xs) 1 (length xs) (removed_at 0 (suc (length xs)) (x ∷ xs)) ≡ ok xs
unfolding del_loop carry
after_removal n x [] h = refl
after_removal n x (y ∷ ys) h =
    let xs : List LabelPair = y ∷ ys in
    let stale = drop (length ys) xs in
    let shifted : removed_at 0 (suc (length xs)) (x ∷ xs) ≡ xs ++ stale =
      ap (λ l. l ++ stale) (take-all xs) in
    let longer : 1 ≤ length stale = omega (arith, length-drop (length ys) xs) in
    ap (del_loop n (length xs) 1 (length xs)) shifted
    ∙ del_loop-absent n (length xs) 1 (length xs) (xs ++ stale)
        (has_name-append n xs stale h (has_name-drop n (length ys) xs h))
        (omega (arith, length-append xs stale))
    ∙ ap ok (take-append xs stale)

-- Where no name comes twice the loop removes the label of the name.
pub del_loop_lem :
    (n : Bytes) (arr : List LabelPair)
    → IsUnique arr
    → del_loop n (length arr) 0 (length arr) arr ≡ ok (without n arr)
unfolding del_loop carry
del_loop_lem n [] u = refl
del_loop_lem n (x ∷ xs) u = elim (Bool-cases (eq_bytes x.name n)) [
  | inl e ↦
      let inside : leb 1 (suc (length xs)) ≡ true = ground arith in
      rw (e, inside)
        (after_removal n x xs (ap (λ m. has_name m xs) (sym (eq_bytes-same x.name n e)) ∙ u.0))
  | inr e ↦
      rw e (carry-loop n x (length xs) 0 (length xs) xs ∙ ap (carry x) (del_loop_lem n xs u.1))
]
