-- ===== src/BiMap/Reversed.antt =====
-- Two maps of Sawyer/BiMap.h where one shows the pairs of the other, for keys that the order tells
-- apart.
use sawyer.Prelude.{◌≡◌, true, false, none, some, List, sym, ap, ◌∙◌, inl, inr, Bool-cases}
use sawyer.Map
use sawyer.Map.{Comparator, get_optional}
use sawyer.Map.Order.{IsSorted}
use sawyer.Map.Lookup.{same}
use sawyer.Map.Update.{get-insert, get-erase}

module _ {ℓ} {K : Type ℓ} ⦃order : Comparator K⦄ where
  pub same_refl : (k : K) → same k k ≡ true
  same_refl k = rw (order.less_irrefl k)

-- An order that tells keys apart: equivalent keys are equal.
abbrev pub IsExact {ℓ} : (K : Type ℓ) → ⦃order : Comparator K⦄ → Type ℓ
IsExact K = (a b : K) → same a b ≡ true → a ≡ b

module _ {ℓ κ} {S : Type ℓ} {T : Type κ} ⦃source_order : Comparator S⦄
    ⦃target_order : Comparator T⦄ where
  -- What the first map shows, the second shows the other way round.
  abbrev pub Reversed : List (S × T) → List (T × S) → Type (ℓ ⊔ κ)
  Reversed m r = (s : S) (t : T) → get_optional s m ≡ some t → get_optional t r ≡ some s

  pub erase-Reversed :
      IsExact T
      → (s : S) (t : T) (m : List (S × T)) (r : List (T × S)) → IsSorted m
      → IsSorted r
      → Reversed m r
      → get_optional t r ≡ some s
      → Reversed (Map.erase s m) (Map.erase t r)
  erase-Reversed exact s t m r sm sr rev found q u h =
      let shown = (get-erase q s m sm).1 in
      let other = (get-erase u t r sr).1 in
      elim (Bool-cases (same s q)) [
        | inl p ↦ let gone : none ≡ some u = (sym (shown ∙ rw p)) ∙ h in cc
        | inr p ↦
            let old : get_optional u r ≡ some q = rev q u (sym (shown ∙ rw p) ∙ h) in
            elim (Bool-cases (same t u)) [
              | inl k ↦
                  let e : t ≡ u = exact t u k in
                  let found_u : get_optional u r ≡ some s = rw (← e) found in
                  let e2 : s ≡ q = cc (found_u, old) in
                  let wrong : same s s ≡ false = rw (← e2) at p in cc (same_refl s, wrong)
              | inr k ↦ other ∙ rw k old
            ]
      ]

  pub insert-Reversed :
      IsExact S
      → IsExact T
      → (s : S) (t : T) (m : List (S × T)) (r : List (T × S)) → IsSorted m
      → IsSorted r
      → Reversed m r
      → get_optional t r ≡ none
      → Reversed (Map.insert s t m) (Map.insert t s r)
  insert-Reversed exact_s exact_t s t m r sm sr rev missing q u h =
      let shown = (get-insert q s t m sm).1 in
      let other = (get-insert u t s r sr).1 in
      elim (Bool-cases (same s q)) [
        | inl p ↦
            let e : some t ≡ some u = sym (shown ∙ rw p) ∙ h in
            let eq : t ≡ u = cc e in
            let e2 : s ≡ q = exact_s s q p in
            let k : same t u ≡ true = rw (← eq) (same_refl t) in other ∙ rw k (ap some e2)
        | inr p ↦
            let old : get_optional u r ≡ some q = rev q u (sym (shown ∙ rw p) ∙ h) in
            elim (Bool-cases (same t u)) [
              | inl k ↦
                  let e : t ≡ u = exact_t t u k in
                  let none_u : get_optional u r ≡ none = rw (← e) missing in cc (none_u, old)
              | inr k ↦ other ∙ rw k old
            ]
      ]
