-- ===== src/Map/Update.antt =====
-- What the changes of Sawyer/Map.h do to the lookups.
use sawyer.Prelude.{true, ◌≡◌, if◌then◌else◌, Option, none, some, List, [], ◌∷◌, arith, refl}
use sawyer.Map.Order.{IsSorted, insert-IsSorted, insert_maybe-IsSorted, erase-IsSorted}
use sawyer.Map.Lookup.{same, scan, scan-Above, get_optional-scan}
use sawyer.Map.{Comparator, insert, insert_maybe, insert_multiple, erase, get_optional}

module _ {ℓ} {K : Type ℓ} ⦃order : Comparator K⦄ where
  -- Equivalent keys compare alike with any other.
  less_congr :
      (a b c : K)
      → same a b ≡ true
      → (order.less a c ≡ order.less b c) × (order.less c a ≡ order.less c b)
  less_congr a b c h = (
    ground (arith, order.less_split a c b, order.less_split b c a),
    ground (arith, order.less_split c a b, order.less_split c b a),
  )

module _ {ℓ κ} {K : Type ℓ} {V : Type κ} ⦃order : Comparator K⦄ where
  scan-insert :
      (q k : K) (v : V) (m : List (K × V))
      → IsSorted m
      → scan q (insert k v m) ≡ (if same k q then some v else scan q m)
  unfolding insert
  scan-insert q k v [] s = refl
  scan-insert q k v (n ∷ m) s =
      ground (arith, scan-insert q k v m s.1, less_congr k n.0 q, less_congr k q n.0)

  scan-insert_maybe :
      (q k : K) (v : V) (m : List (K × V))
      → IsSorted m
      → (scan q (insert_maybe k v m).0
          ≡ (if same k q then some (elim (scan q m) [ none ↦ v | some old ↦ old ]) else scan q m))
        × ((insert_maybe k v m).1 ≡ elim (scan k m) [ none ↦ v | some old ↦ old ])
  unfolding insert_maybe
  scan-insert_maybe q k v [] s = (refl, refl)
  scan-insert_maybe q k v (n ∷ m) s =
      let ih = scan-insert_maybe q k v m s.1 in
      let c = less_congr k n.0 q in
      let d = less_congr k q n.0 in
      (
        ground (arith, ih, c, d, scan-Above q n.0 m s.0),
        ground (arith, ih, c, d, scan-Above k n.0 m s.0),
      )

  scan-erase :
      (q k : K) (m : List (K × V))
      → IsSorted m
      → scan q (erase k m) ≡ (if same k q then none else scan q m)
  unfolding erase
  scan-erase q k [] s = ground arith
  scan-erase q k (n ∷ m) s =
      ground (
        arith,
        scan-erase q k m s.1,
        less_congr k n.0 q,
        less_congr k q n.0,
        scan-Above q n.0 m s.0,
      )

  -- An insertion into sorted nodes keeps them sorted, and shows at the equivalent keys and nowhere else.
  pub get-insert :
      (q k : K) (v : V) (m : List (K × V))
      → IsSorted m
      → IsSorted (insert k v m)
        × (get_optional q (insert k v m) ≡ (if same k q then some v else get_optional q m))
  get-insert q k v m s =
      let t = insert-IsSorted k v m s in
      (
        t,
        rw (get_optional-scan q m s, get_optional-scan q (insert k v m) t) (scan-insert q k v m s),
      )

  -- On sorted nodes, which stay sorted, `insertMaybe` inserts only where no equivalent key is, and returns the value that is then there.
  pub get-insert_maybe :
      (q k : K) (v : V) (m : List (K × V))
      → IsSorted m
      → IsSorted (insert_maybe k v m).0
        × (get_optional q (insert_maybe k v m).0 ≡ (
            if same k q
            then some (elim (get_optional q m) [ none ↦ v | some old ↦ old ])
            else get_optional q m))
        × ((insert_maybe k v m).1 ≡ elim (get_optional k m) [ none ↦ v | some old ↦ old ])
  get-insert_maybe q k v m s =
      let t = insert_maybe-IsSorted k v m s in
      let r = scan-insert_maybe q k v m s in
      (
        t,
        rw (get_optional-scan q m s, get_optional-scan q (insert_maybe k v m).0 t) r.0,
        rw (get_optional-scan k m s) r.1,
      )

  -- An erasure from sorted nodes keeps them sorted, and clears the equivalent keys and no others.
  pub get-erase :
      (q k : K) (m : List (K × V))
      → IsSorted m
      → IsSorted (erase k m)
        × (get_optional q (erase k m) ≡ (if same k q then none else get_optional q m))
  get-erase q k m s =
      let t = erase-IsSorted k m s in
      (t, rw (get_optional-scan q m s, get_optional-scan q (erase k m) t) (scan-erase q k m s))

  abbrev pub scan_last : K → List (K × V) → Option V → Option V
  scan_last q [] old = old
  scan_last q (n ∷ others) old = scan_last q others (if same n.0 q then some n.1 else old)

  -- After many insertions into sorted nodes a key shows the last of the inserted values for it, or its old value.
  pub scan-insert_multiple :
      (q : K) (others m : List (K × V))
      → IsSorted m
      → scan q (insert_multiple others m) ≡ scan_last q others (scan q m)
  unfolding insert_multiple
  scan-insert_multiple q [] m s = refl
  scan-insert_multiple q (n ∷ others) m s =
      rw (← scan-insert q n.0 n.1 m s)
        (scan-insert_multiple q others (insert n.0 n.1 m) (insert-IsSorted n.0 n.1 m s))
