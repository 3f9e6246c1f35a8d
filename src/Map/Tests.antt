-- ===== src/Map/Tests.antt =====
-- A concrete map with keys and values in ℕ, for Sawyer/Map.h.
use sawyer.Prelude.{ℕ, ◌≡◌, true, false, ltb, if◌then◌else◌, none, some, List, [], ◌∷◌, refl, arith}
use sawyer.Map.{Comparator, exists, get_optional, get, get_or_else, get_or_default, insert, erase}
use sawyer.Map.Order.{IsSorted}
use sawyer.Map.Lookup.{same, scan, get-scan}
use sawyer.Map.Update.{get-insert, get-erase}

less_irrefl : (a : ℕ) → ltb a a ≡ false
less_irrefl a = ground arith

less_trans : (a b c : ℕ) → ltb a b ≡ true → ltb b c ≡ true → ltb a c ≡ true
less_trans a b c p q = ground arith

less_split : (a b c : ℕ) → ltb a b ≡ true → ltb a c ≡ false → ltb c b ≡ true
less_split a b c p q = ground arith

instance abbrev by_value : Comparator ℕ
by_value = record {
  less = ltb;
  less_irrefl = less_irrefl;
  less_trans = less_trans;
  less_split = less_split;
}

abbrev colors : List (ℕ × ℕ)
colors = (2, 20) ∷ (5, 50) ∷ (9, 90) ∷ []

colors-IsSorted : IsSorted colors
colors-IsSorted = ((refl, (refl, tt)), ((refl, tt), (tt, tt)))

insert_test : insert 4 40 colors ≡ (2, 20) ∷ (4, 40) ∷ (5, 50) ∷ (9, 90) ∷ []
unfolding insert
insert_test = refl

erase_test : erase 5 colors ≡ (2, 20) ∷ (9, 90) ∷ []
unfolding erase
erase_test = refl

get-scan_example :
    (get 5 colors ≡ scan 5 colors)
    × (exists 5 colors ≡ elim (scan 5 colors) [ none ↦ false | some v ↦ true ])
    × (get_optional 5 colors ≡ scan 5 colors)
    × (get_or_else 5 7 colors ≡ elim (scan 5 colors) [ none ↦ 7 | some v ↦ v ])
    × (get_or_default 7 5 colors ≡ elim (scan 5 colors) [ none ↦ 7 | some v ↦ v ])
get-scan_example = get-scan 5 colors 7 colors-IsSorted

get-insert_example :
    IsSorted (insert 4 40 colors)
    × (get_optional 5 (insert 4 40 colors)
        ≡ (if same {K = ℕ} 4 5 then some 40 else get_optional 5 colors))
get-insert_example = get-insert 5 4 40 colors colors-IsSorted

get-erase_example :
    IsSorted (erase 5 colors)
    × (get_optional 9 (erase 5 colors) ≡ (if same {K = ℕ} 5 9 then none else get_optional 9 colors))
get-erase_example = get-erase 9 5 colors colors-IsSorted
