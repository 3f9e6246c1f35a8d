-- ===== src/Map/Order.antt =====
-- The order of the nodes of Sawyer/Map.h, and that every operation keeps it.
use sawyer.Prelude.{true, ◌≡◌, List, [], ◌∷◌, arith}
use sawyer.Map.{
  Comparator, insert, insert_maybe, insert_multiple, insert_maybe_multiple, erase, erase_multiple,
}

module _ {ℓ κ} {K : Type ℓ} {V : Type κ} ⦃order : Comparator K⦄ where
  -- Every key of the nodes comes after `k`.
  abbrev pub Above : K → List (K × V) → Type 0
  Above k [] = Unit
  Above k (n ∷ m) = (order.less k n.0 ≡ true) × Above k m

  abbrev pub IsSorted : List (K × V) → Type 0
  IsSorted [] = Unit
  IsSorted (n ∷ m) = Above n.0 m × IsSorted m

  pub Above-trans : (j k : K) (m : List (K × V)) → order.less j k ≡ true → Above k m → Above j m
  Above-trans j k [] h a = tt
  Above-trans j k (n ∷ m) h a = (order.less_trans j k n.0 h a.0, Above-trans j k m h a.1)

  insert-Above :
      (j k : K) (v : V) (m : List (K × V))
      → order.less j k ≡ true
      → Above j m
      → Above j (insert k v m)
  unfolding insert
  insert-Above j k v [] h a = (h, tt)
  insert-Above j k v (n ∷ m) h a = ground (arith, insert-Above j k v m h a.1)

  pub insert-IsSorted : (k : K) (v : V) (m : List (K × V)) → IsSorted m → IsSorted (insert k v m)
  unfolding insert
  insert-IsSorted k v [] s = (tt, tt)
  insert-IsSorted k v (n ∷ m) s =
      ground (arith, Above-trans k n.0 m, insert-Above n.0 k v m, insert-IsSorted k v m s.1)

  insert_maybe-Above :
      (j k : K) (v : V) (m : List (K × V))
      → order.less j k ≡ true
      → Above j m
      → Above j (insert_maybe k v m).0
  unfolding insert_maybe
  insert_maybe-Above j k v [] h a = (h, tt)
  insert_maybe-Above j k v (n ∷ m) h a = ground (arith, insert_maybe-Above j k v m h a.1)

  pub insert_maybe-IsSorted :
      (k : K) (v : V) (m : List (K × V)) → IsSorted m → IsSorted (insert_maybe k v m).0
  unfolding insert_maybe
  insert_maybe-IsSorted k v [] s = (tt, tt)
  insert_maybe-IsSorted k v (n ∷ m) s =
      ground
        (arith, Above-trans k n.0 m, insert_maybe-Above n.0 k v m, insert_maybe-IsSorted k v m s.1)

  erase-Above : (j k : K) (m : List (K × V)) → Above j m → Above j (erase k m)
  unfolding erase
  erase-Above j k [] a = tt
  erase-Above j k (n ∷ m) a = ground (arith, erase-Above j k m a.1)

  pub erase-IsSorted : (k : K) (m : List (K × V)) → IsSorted m → IsSorted (erase k m)
  unfolding erase
  erase-IsSorted k [] s = tt
  erase-IsSorted k (n ∷ m) s = ground (arith, erase-Above n.0 k m s.0, erase-IsSorted k m s.1)

  pub insert_multiple-IsSorted :
      (others m : List (K × V)) → IsSorted m → IsSorted (insert_multiple others m)
  unfolding insert_multiple
  insert_multiple-IsSorted [] m s = s
  insert_multiple-IsSorted (n ∷ others) m s =
      insert_multiple-IsSorted others _ (insert-IsSorted n.0 n.1 m s)

  pub insert_maybe_multiple-IsSorted :
      (others m : List (K × V)) → IsSorted m → IsSorted (insert_maybe_multiple others m)
  unfolding insert_maybe_multiple
  insert_maybe_multiple-IsSorted [] m s = s
  insert_maybe_multiple-IsSorted (n ∷ others) m s =
      insert_maybe_multiple-IsSorted others _ (insert_maybe-IsSorted n.0 n.1 m s)

  pub erase_multiple-IsSorted :
      (ks : List K) (m : List (K × V)) → IsSorted m → IsSorted (erase_multiple ks m)
  unfolding erase_multiple
  erase_multiple-IsSorted [] m s = s
  erase_multiple-IsSorted (k ∷ ks) m s = erase_multiple-IsSorted ks _ (erase-IsSorted k m s)
