-- ===== src/BiMap/Inverse.antt =====
-- The two maps of Sawyer/BiMap.h are inverse to each other, for keys that the order tells apart.
use sawyer.Prelude.{
  ◌≡◌, ◌≢◌, ◌↔◌, ◌⊎◌, Bool, true, false, not, ap, if◌then◌else◌, Option, none, some, [], refl, ◌∙◌,
  inl, inr, Bool-cases,
}
use sawyer.Map
use sawyer.Map.{Comparator, get_optional}
use sawyer.Map.Order.{IsSorted}
use sawyer.Map.Lookup.{same, get_optional-scan}
use sawyer.Map.Update.{get-insert, get-erase}
use sawyer.BiMap.{erase, BiMap, erase_source, erase_target, insert, empty_bimap}
use sawyer.BiMap.Reversed.{same_refl, IsExact, erase-Reversed, insert-Reversed}

module _ {ℓ κ} {S : Type ℓ} {T : Type κ} ⦃source_order : Comparator S⦄
    ⦃target_order : Comparator T⦄ where
  -- Both maps are sorted, and each shows the pairs of the other.
  pub record IsInverse (b : BiMap S T) : Type (ℓ ⊔ κ) where
    pub sorted_forward : IsSorted b.forward
    pub sorted_reverse : IsSorted b.reverse
    pub there :
        (s : S) (t : T) → get_optional s b.forward ≡ some t → get_optional t b.reverse ≡ some s
    pub back :
        (t : T) (s : S) → get_optional t b.reverse ≡ some s → get_optional s b.forward ≡ some t

  -- The two sides of an empty map are inverse.
  pub empty_bimap-IsInverse : IsInverse empty_bimap
  unfolding empty_bimap
  empty_bimap-IsInverse = record {
    sorted_forward = tt;
    sorted_reverse = tt;
    there = λ s t h. cc (get_optional-scan {V = T} s [] tt, h);
    back = λ t s h. cc (get_optional-scan {V = S} t [] tt, h);
  }

module _ {ℓ κ} {S : Type ℓ} {T : Type κ} ⦃source_order : Comparator S⦄ ⦃target_order : Comparator T⦄
    (exact_s : IsExact S) (exact_t : IsExact T) where
  abbrev without : S → T → BiMap S T → BiMap S T
  without s t b = record { forward = Map.erase s b.forward; reverse = Map.erase t b.reverse }

  without-IsInverse :
      (s : S) (t : T) (b : BiMap S T)
      → IsInverse b
      → get_optional s b.forward ≡ some t
      → IsInverse (without s t b)
  without-IsInverse s t b i found = record {
    sorted_forward = (get-erase s s b.forward i.sorted_forward).0;
    sorted_reverse = (get-erase t t b.reverse i.sorted_reverse).0;
    there =
        erase-Reversed exact_t s t b.forward b.reverse i.sorted_forward i.sorted_reverse i.there
          (i.there s t found);
    back =
        erase-Reversed exact_s t s b.reverse b.forward i.sorted_reverse i.sorted_forward i.back
          found;
  }

  with-IsInverse :
      (s : S) (t : T) (b : BiMap S T)
      → IsInverse b
      → get_optional s b.forward ≡ none
      → get_optional t b.reverse ≡ none
      → IsInverse
          (record { forward = Map.insert s t b.forward; reverse = Map.insert t s b.reverse })
  with-IsInverse s t b i no_s no_t = record {
    sorted_forward = (get-insert s s t b.forward i.sorted_forward).0;
    sorted_reverse = (get-insert t t s b.reverse i.sorted_reverse).0;
    there =
        insert-Reversed exact_s exact_t s t b.forward b.reverse i.sorted_forward i.sorted_reverse
          i.there no_t;
    back =
        insert-Reversed exact_t exact_s t s b.reverse b.forward i.sorted_reverse i.sorted_forward
          i.back no_s;
  }

  abbrev erased : S → BiMap S T → Option T → BiMap S T × Bool
  erased s b none = (b, false)
  erased s b (some t) = (without s t b, true)

  -- For exact orders of both, `eraseSource` keeps the two sides inverse; the source is gone, every other source
  -- has its target still, and the answer is whether the source was there.
  pub erase_source-IsInverse :
      (s : S) (b : BiMap S T)
      → IsInverse b
      → IsInverse (erase_source s b).0
        × ((q : S)
            → get_optional q (erase_source s b).0.forward
              ≡ (if same s q then none else get_optional q b.forward))
        × ((erase_source s b).1 ≡ elim (get_optional s b.forward) [ none ↦ false | some t ↦ true ])
  unfolding erase_source
  erase_source-IsInverse s b i = go (get_optional s b.forward) refl
    where
      absent :
          get_optional s b.forward ≡ none
          → (q : S)
          → get_optional q b.forward ≡ (if same s q then none else get_optional q b.forward)
      absent e q = elim (Bool-cases (same s q)) [
        | inl p ↦
            let eq : s ≡ q = exact_s s q p in
            let gone : get_optional q b.forward ≡ none = rw (← eq) e in rw p gone
        | inr p ↦ rw p
      ]

      go :
          (found : Option T)
          → get_optional s b.forward ≡ found
          → IsInverse (erased s b found).0
            × ((q : S)
                → get_optional q (erased s b found).0.forward
                  ≡ (if same s q then none else get_optional q b.forward))
            × ((erased s b found).1 ≡ elim found [ none ↦ false | some t ↦ true ])
      go none e = (i, absent e, refl)
      go (some t) e =
          (without-IsInverse s t b i e, (λ q. (get-erase q s b.forward i.sorted_forward).1), refl)

  abbrev target_erased : T → BiMap S T → Option S → BiMap S T × Bool
  target_erased t b none = (b, false)
  target_erased t b (some s) = (without s t b, true)

  -- The same of `eraseTarget`, for the reverse map and what is left of the forward one.
  erase_target-forward :
      (t : T) (b : BiMap S T)
      → IsInverse b
      → IsInverse (erase_target t b).0
        × (get_optional t (erase_target t b).0.reverse ≡ none)
        × ((q : S) (u : T)
            → same t u ≡ false
            → get_optional q b.forward ≡ some u
            → get_optional q (erase_target t b).0.forward ≡ some u)
        × ((q : S)
            → get_optional q b.forward ≡ none
            → get_optional q (erase_target t b).0.forward ≡ none)
  unfolding erase_target
  erase_target-forward t b i = go (get_optional t b.reverse) refl
    where
      go :
          (found : Option S)
          → get_optional t b.reverse ≡ found
          → IsInverse (target_erased t b found).0
            × (get_optional t (target_erased t b found).0.reverse ≡ none)
            × ((q : S) (u : T)
                → same t u ≡ false
                → get_optional q b.forward ≡ some u
                → get_optional q (target_erased t b found).0.forward ≡ some u)
            × ((q : S)
                → get_optional q b.forward ≡ none
                → get_optional q (target_erased t b found).0.forward ≡ none)
      go none e = (i, e, (λ q u h k. k), λ q k. k)
      go (some s) e =
          let held = i.back t s e in
          (
            without-IsInverse s t b i held,
            (get-erase t t b.reverse i.sorted_reverse).1 ∙ rw (same_refl t),
            (λ q u other h. elim (Bool-cases (same s q)) [
              | inl p ↦
                  let eq : s ≡ q = exact_s s q p in
                  let held_q : get_optional q b.forward ≡ some t = rw (← eq) held in
                  let one : t ≡ u = cc (held_q, h) in
                  let wrong : same t t ≡ false = rw (← one) at other in cc (same_refl t, wrong)
              | inr p ↦ (get-erase q s b.forward i.sorted_forward).1 ∙ rw p h
            ]),
            (λ q h. elim (Bool-cases (same s q)) [
              | inl p ↦ (get-erase q s b.forward i.sorted_forward).1 ∙ rw p
              | inr p ↦ (get-erase q s b.forward i.sorted_forward).1 ∙ rw p h
            ]),
          )

  -- For exact orders of the sources and of the targets, `insert` keeps the two sides inverse; the source
  -- then has the target, and every other source keeps its target, unless that is the inserted one.
  pub insert-IsInverse :
      (s : S) (t : T) (b : BiMap S T)
      → IsInverse b
      → IsInverse (insert s t b)
        × (get_optional s (insert s t b).forward ≡ some t)
        × ((q : S) (u : T)
            → same s q ≡ false
            → same t u ≡ false
            → get_optional q b.forward ≡ some u
            → get_optional q (insert s t b).forward ≡ some u)
  unfolding insert
  insert-IsInverse s t b i =
      let (inverse, left, answer) = erase_source-IsInverse s b i in
      let c = (erase_source s b).0 in
      let (inverses, no_target, kept, still) = erase_target-forward t c inverse in
      let d = (erase_target t c).0 in
      let no_source : get_optional s c.forward ≡ none = left s ∙ rw (same_refl s) in
      (
        with-IsInverse s t d inverses (still s no_source) no_target,
        (get-insert s s t d.forward inverses.sorted_forward).1 ∙ rw (same_refl s),
        λ q u other apart h.
            (get-insert q s t d.forward inverses.sorted_forward).1
            ∙ rw other (kept q u apart (left q ∙ rw other h)),
      )

  abbrev pair_erased : (T → T → Bool) → S → T → BiMap S T → Option T → BiMap S T × Bool
  pair_erased eq s t b none = (b, false)
  pair_erased eq s t b (some u) = if not (eq u t) then (b, false) else (without s t b, true)

  -- For exact orders of the sources and of the targets, and for an `operator==` of targets that is
  -- equality, `erase` keeps the two sides inverse. It answers whether the source had just that target;
  -- then the source is gone, and otherwise nothing changes.
  pub erase-IsInverse :
      (eq : T → T → Bool)
      → ((t u : T) → (eq t u ≡ true) ↔ (t ≡ u))
      → (s : S) (t : T) (b : BiMap S T) → IsInverse b
      → IsInverse (erase eq s t b).0
        × (((get_optional s b.forward ≡ some t)
              × ((erase eq s t b).1 ≡ true)
              × (get_optional s (erase eq s t b).0.forward ≡ none))
            ⊎ ((get_optional s b.forward ≢ some t)
                × ((erase eq s t b).1 ≡ false)
                × ((erase eq s t b).0 ≡ b)))
  unfolding erase
  erase-IsInverse eq exact s t b i = go (get_optional s b.forward) refl
    where
      go :
          (found : Option T)
          → get_optional s b.forward ≡ found
          → IsInverse (pair_erased eq s t b found).0
            × (((found ≡ some t)
                  × ((pair_erased eq s t b found).1 ≡ true)
                  × (get_optional s (pair_erased eq s t b found).0.forward ≡ none))
                ⊎ ((found ≢ some t)
                    × ((pair_erased eq s t b found).1 ≡ false)
                    × ((pair_erased eq s t b found).0 ≡ b)))
      go none e = (i, inr ((λ h. cc h), refl, refl))
      go (some u) e = elim (Bool-cases (eq u t)) [
        | inl p ↦
            let one : u ≡ t = (exact u t).0 p in
            let held : get_optional s b.forward ≡ some t = e ∙ ap some one in
            rw p (
              without-IsInverse s t b i held,
              inl (
                ap some one,
                refl,
                (get-erase s s b.forward i.sorted_forward).1 ∙ rw (same_refl s),
              ),
            )
        | inr p ↦ rw p (i, inr ((λ h. cc ((exact u t).1 (cc h), p)), refl, refl))
      ]
