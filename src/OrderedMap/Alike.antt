-- ===== src/OrderedMap/Alike.antt =====
-- Maps whose entries are related one by one, where the comparison does not tell related keys apart.
use kraken_data_recorder.Base.{
  ℕ, zero, suc, Bool, true, false, List, [], ◌∷◌, Option, none, some, if◌then◌else◌, length, take,
  ◌≡◌, refl, ap, sym,
}
use kraken_data_recorder.OrderedMap.{equivalent, find, insert, erase, assign, insert_all}

-- Two tests that agree choose related branches.
choice :
    {A : Type 0} (R : A → A → Type 0) (b : Bool) {x x' y y' : A}
    → R x x'
    → R y y'
    → R (if b then x else y) (if b then x' else y')
choice R true hx hy = hx
choice R false hx hy = hy

pub if_related :
    {A : Type 0} (R : A → A → Type 0) {b b' : Bool} {x x' y y' : A}
    → b ≡ b'
    → R x x'
    → R y y'
    → R (if b then x else y) (if b' then x' else y')
if_related R {b} e hx hy = rw (sym e) (choice R b hx hy)

-- Both maps have an entry, or neither has.
abbrev pub Found : {V : Type 0} → Option V → Option V → Type 0
Found none none = Unit
Found none (some v) = ⊥
Found (some v) none = ⊥
Found (some v) (some v') = Unit

module _ {K V : Type 0} (SameKey : K → K → Type 0) (SameValue : V → V → Type 0) where
  abbrev pub Alike : List (K × V) → List (K × V) → Type 0
  Alike [] [] = Unit
  Alike [] (e ∷ m) = ⊥
  Alike (e ∷ m) [] = ⊥
  Alike ((k, v) ∷ m) ((k', v') ∷ m') = SameKey k k' × SameValue v v' × Alike m m'

  pub length-Alike : (m m' : List (K × V)) → Alike m m' → length m ≡ length m'
  length-Alike [] [] h = refl
  length-Alike [] (e ∷ m) h = absurd h
  length-Alike (e ∷ m) [] h = absurd h
  length-Alike ((k, v) ∷ m) ((k', v') ∷ m') h = ap suc (length-Alike m m' h.2)

  pub take-Alike : (n : ℕ) (m m' : List (K × V)) → Alike m m' → Alike (take n m) (take n m')
  take-Alike zero m m' h = tt
  take-Alike (suc n) [] [] h = tt
  take-Alike (suc n) [] (e ∷ m) h = absurd h
  take-Alike (suc n) (e ∷ m) [] h = absurd h
  take-Alike (suc n) ((k, v) ∷ m) ((k', v') ∷ m') h = (h.0, h.1, take-Alike n m m' h.2)

  module _ (less : K → K → Bool)
      (by_keys : (a a' b b' : K) → SameKey a a' → SameKey b b' → less a b ≡ less a' b') where
    alike : {a a' b b' : K} → SameKey a a' → SameKey b b' → less a b ≡ less a' b'
    alike ha hb = by_keys _ _ _ _ ha hb

    equivalent-Alike :
        {a a' b b' : K} → SameKey a a' → SameKey b b' → equivalent less a b ≡ equivalent less a' b'
    equivalent-Alike ha hb = rw (alike ha hb, alike hb ha) refl

    pub find-Alike :
        {key key' : K} (m m' : List (K × V))
        → SameKey key key'
        → Alike m m'
        → Found (find less key m) (find less key' m')
    unfolding find
    find-Alike [] [] same h = tt
    find-Alike [] (e ∷ m) same h = absurd h
    find-Alike (e ∷ m) [] same h = absurd h
    find-Alike ((k, v) ∷ m) ((k', v') ∷ m') same h =
        if_related Found (equivalent-Alike h.0 same) tt (find-Alike m m' same h.2)

    pub insert-Alike :
        {key key' : K} {value value' : V} (m m' : List (K × V))
        → SameKey key key'
        → SameValue value value'
        → Alike m m'
        → Alike (insert less (key, value) m) (insert less (key', value') m')
    unfolding insert
    insert-Alike [] [] same sv h = (same, sv, tt)
    insert-Alike [] (e ∷ m) same sv h = absurd h
    insert-Alike (e ∷ m) [] same sv h = absurd h
    insert-Alike ((k, v) ∷ m) ((k', v') ∷ m') same sv h =
        if_related Alike (alike same h.0) (same, sv, h)
          (if_related Alike (alike h.0 same) (h.0, h.1, insert-Alike m m' same sv h.2) h)

    pub erase-Alike :
        {key key' : K} (m m' : List (K × V))
        → SameKey key key'
        → Alike m m'
        → Alike (erase less key m) (erase less key' m')
    unfolding erase
    erase-Alike [] [] same h = tt
    erase-Alike [] (e ∷ m) same h = absurd h
    erase-Alike (e ∷ m) [] same h = absurd h
    erase-Alike ((k, v) ∷ m) ((k', v') ∷ m') same h =
        if_related Alike (equivalent-Alike h.0 same) h.2 (h.0, h.1, erase-Alike m m' same h.2)

    pub assign-Alike :
        {key key' : K} {value value' : V} (m m' : List (K × V))
        → SameKey key key'
        → SameValue value value'
        → Alike m m'
        → Alike (assign less key value m) (assign less key' value' m')
    unfolding assign
    assign-Alike [] [] same sv h = tt
    assign-Alike [] (e ∷ m) same sv h = absurd h
    assign-Alike (e ∷ m) [] same sv h = absurd h
    assign-Alike ((k, v) ∷ m) ((k', v') ∷ m') same sv h =
        if_related Alike (equivalent-Alike h.0 same) (h.0, sv, h.2)
          (h.0, h.1, assign-Alike m m' same sv h.2)

    pub insert_all-Alike :
        (es es' m m' : List (K × V))
        → Alike es es'
        → Alike m m'
        → Alike (insert_all less es m) (insert_all less es' m')
    unfolding insert_all
    insert_all-Alike [] [] m m' he h = h
    insert_all-Alike [] (e ∷ es) m m' he h = absurd he
    insert_all-Alike (e ∷ es) [] m m' he h = absurd he
    insert_all-Alike ((k, v) ∷ es) ((k', v') ∷ es') m m' he h =
        insert_all-Alike es es' (insert less (k, v) m) (insert less (k', v') m') he.2
          (insert-Alike m m' he.0 he.1 h)
