-- ===== src/BiMap/Tests.antt =====
-- A concrete one-to-one map, for Sawyer/BiMap.h.
use sawyer.Prelude.{◌==◌, ◌↔◌, ◌⊎◌, ◌≢◌, ℕ, ◌≡◌, true, false, ltb, none, some, [], ◌∷◌, refl, arith}
use sawyer.Map
use sawyer.Map.{Comparator, get_optional}
use sawyer.Map.Lookup.{same}
use sawyer.BiMap.{BiMap, empty_bimap, erase, insert}
use sawyer.BiMap.Reversed.{IsExact}
use sawyer.BiMap.Inverse.{IsInverse, empty_bimap-IsInverse, insert-IsInverse, erase-IsInverse}

less_irreflexive : (a : ℕ) → ltb a a ≡ false
less_irreflexive a = ground arith

less_transitive : (a b c : ℕ) → ltb a b ≡ true → ltb b c ≡ true → ltb a c ≡ true
less_transitive a b c p q = ground arith

less_cut : (a b c : ℕ) → ltb a b ≡ true → ltb a c ≡ false → ltb c b ≡ true
less_cut a b c p q = ground arith

instance abbrev in_order : Comparator ℕ
in_order = record {
  less = ltb;
  less_irrefl = less_irreflexive;
  less_trans = less_transitive;
  less_split = less_cut;
}

ℕ-IsExact : IsExact ℕ
ℕ-IsExact a b h = ground arith

insert_test :
    insert {S = ℕ} {T = ℕ} 2 9
      (record { forward = (1, 9) ∷ (2, 7) ∷ []; reverse = (7, 2) ∷ (9, 1) ∷ [] })
    ≡ (record { forward = (2, 9) ∷ []; reverse = (9, 2) ∷ [] })
unfolding insert Map.insert get_optional Map.erase
insert_test = refl

abbrev two_pairs : BiMap ℕ ℕ
two_pairs = insert 2 7 (insert 1 9 empty_bimap)

two_pairs-IsInverse : IsInverse two_pairs
two_pairs-IsInverse =
    (insert-IsInverse ℕ-IsExact ℕ-IsExact 2 7 (insert 1 9 empty_bimap)
      (insert-IsInverse ℕ-IsExact ℕ-IsExact 1 9 empty_bimap empty_bimap-IsInverse).0).0

insert-IsInverse_example :
    IsInverse (insert 2 9 two_pairs)
    × (get_optional 2 (insert 2 9 two_pairs).forward ≡ some 9)
    × ((q u : ℕ)
        → same {K = ℕ} 2 q ≡ false
        → same {K = ℕ} 9 u ≡ false
        → get_optional q two_pairs.forward ≡ some u
        → get_optional q (insert 2 9 two_pairs).forward ≡ some u)
insert-IsInverse_example = insert-IsInverse ℕ-IsExact ℕ-IsExact 2 9 two_pairs two_pairs-IsInverse

equal_exact : (t u : ℕ) → ((t == u) ≡ true) ↔ (t ≡ u)
equal_exact t u = ((λ h. ground arith), λ h. ground arith)

erase-IsInverse_example :
    IsInverse (erase (λ t u. t == u) 1 9 two_pairs).0
    × (((get_optional 1 two_pairs.forward ≡ some 9)
          × ((erase (λ t u. t == u) 1 9 two_pairs).1 ≡ true)
          × (get_optional 1 (erase (λ t u. t == u) 1 9 two_pairs).0.forward ≡ none))
        ⊎ ((get_optional 1 two_pairs.forward ≢ some 9)
            × ((erase (λ t u. t == u) 1 9 two_pairs).1 ≡ false)
            × ((erase (λ t u. t == u) 1 9 two_pairs).0 ≡ two_pairs)))
erase-IsInverse_example =
    erase-IsInverse ℕ-IsExact ℕ-IsExact (λ t u. t == u) equal_exact 1 9 two_pairs
      two_pairs-IsInverse
