-- ===== src/Querier/SelectMerge/Order.antt =====
-- The order of the profiles in the heap of `skipDuplicates`, and its duplicates.
use mathlib.Core.Path.{ap₂}
use phlare.Base.{◌≡◌, refl, ap, Bool, true, false, not, ◌&&◌, ◌||◌, arith, if◌then◌else◌}
use phlare.Base.Int.{pos, ltb_ℤ}
use phlare.Base.Lex.{ltb_ℤ-IsOrder}
use phlare.Base.Order.{IsOrder, equal, lt-asym}
use phlare.Model.Labels.{compare_label_pairs}
use phlare.Model.Labels.Compare.{is_less, compare_label_pairs-IsOrder, compare_label_pairs_flip}
use phlare.Querier.SelectMerge.{Profile, less, differs}

module _ {A B : Type 0} (lt : A → A → Bool) (lt' : B → B → Bool) where
  -- by the first, and where neither is less, by the second
  abbrev by_both : A → B → A → B → Bool
  by_both a x b y = if not (lt a b) && not (lt b a) then lt' x y else lt a b

  module _ (o : IsOrder lt) (o' : IsOrder lt') where
    by_both_irrefl : (a : A) (x : B) → by_both a x a x ≡ false
    by_both_irrefl a x = ground (arith, o.irreflexive a, o'.irreflexive x)

    by_both_trans :
        (a b c : A) (x y z : B)
        → by_both a x b y ≡ true
        → by_both b y c z ≡ true
        → by_both a x c z ≡ true
    by_both_trans a b c x y z h k = ground (
      arith,
      o.transitive a b c,
      o'.transitive x y z,
      o.connected a b,
      o.connected b c,
      o.transitive c a b,
      o.transitive b c a,
      lt-asym lt o a b,
      lt-asym lt o b c,
      lt-asym lt o a c,
    )

    by_both-first : (a b : A) (x y : B) → by_both a x b y ≡ false → by_both b y a x ≡ false → a ≡ b
    by_both-first a b x y h k = ground (arith, o.connected a b)

    by_both-second : (a b : A) (x y : B) → by_both a x b y ≡ false → by_both b y a x ≡ false → x ≡ y
    by_both-second a b x y h k = ground (arith, o'.connected x y)

pub less-IsOrder : IsOrder less
less-IsOrder =
    let o = ltb_ℤ-IsOrder in
    let l = compare_label_pairs-IsOrder in
    record {
      irreflexive = λ x. by_both_irrefl ltb_ℤ is_less o l x.timestamp x.labels;
      transitive = λ x y z h k.
          by_both_trans ltb_ℤ is_less o l x.timestamp y.timestamp z.timestamp x.labels y.labels
            z.labels h k;
      connected = λ x y h k.
          ap₂ (λ t n. record { timestamp = t; labels = n })
            (by_both-first ltb_ℤ is_less o l x.timestamp y.timestamp x.labels y.labels h k)
            (by_both-second ltb_ℤ is_less o l x.timestamp y.timestamp x.labels y.labels h k);
    }

-- The test for duplicates is the equality of the order.
pub differs-equal : (x y : Profile) → differs x y ≡ not (equal less x y)
differs-equal x y =
    by_flip (ltb_ℤ x.timestamp y.timestamp) (ltb_ℤ y.timestamp x.timestamp) _
      (ltb_ℤ (pos 0) (compare_label_pairs x.labels y.labels)) _
      (compare_label_pairs_flip x.labels y.labels)
  where
    by_flip :
        (a b l r r' : Bool)
        → r ≡ r'
        → (not (not a && not b) || not (not l && not r))
          ≡ not (not (if not a && not b then l else a) && not (if not b && not a then r' else b))
    by_flip true true l r r' e = refl
    by_flip true false l r r' e = refl
    by_flip false true l r r' e = refl
    by_flip false false l r r' e = ap (λ q. not (not l && not q)) e
