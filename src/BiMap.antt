-- ===== src/BiMap.antt =====
-- `Sawyer::Container::BiMap<Source, Target>` (Sawyer/BiMap.h): a one-to-one map as two maps.
pub mod Reversed
pub mod Inverse
mod Tests
use sawyer.Prelude.{
  ◌≡◌, Bool, true, false, not, ◌||◌, if◌then◌else◌, Option, none, some, List, [], ◌∷◌, ◌>>=◌,
}
use sawyer.Map
use sawyer.Map.{Comparator}

-- The members `forward_` and `reverse_`.
pub record BiMap {ℓ κ} (S : Type ℓ) (T : Type κ) : Type (ℓ ⊔ κ) where
  pub forward : List (S × T)
  pub reverse : List (T × S)

module _ {ℓ κ} {S : Type ℓ} {T : Type κ} where
  unfoldable pub empty_bimap : BiMap S T
  empty_bimap = record { forward = []; reverse = [] }

  unfoldable pub clear : BiMap S T → BiMap S T
  unfolding Map.clear
  clear b = record { forward = Map.clear b.forward; reverse = Map.clear b.reverse }

module _ {ℓ κ} {S : Type ℓ} {T : Type κ} ⦃source_order : Comparator S⦄
    ⦃target_order : Comparator T⦄ where
  -- The result, and whether the map was modified.
  unfoldable pub erase_source : S → BiMap S T → BiMap S T × Bool
  erase_source source b = elim (Map.get_optional source b.forward) [
    | none ↦ (b, false)
    | some target ↦ (
      record { forward = Map.erase source b.forward; reverse = Map.erase target b.reverse },
      true,
    )
  ]

  unfoldable pub erase_target : T → BiMap S T → BiMap S T × Bool
  erase_target target b = elim (Map.get_optional target b.reverse) [
    | none ↦ (b, false)
    | some source ↦ (
      record { forward = Map.erase source b.forward; reverse = Map.erase target b.reverse },
      true,
    )
  ]

  -- `eq` is `operator==` of the targets.
  unfoldable pub erase : (T → T → Bool) → S → T → BiMap S T → BiMap S T × Bool
  erase eq source target b = elim (Map.get_optional source b.forward) [
    | none ↦ (b, false)
    | some t ↦ if not (eq t target) then (b, false) else (
      record { forward = Map.erase source b.forward; reverse = Map.erase target b.reverse },
      true,
    )
  ]

  unfoldable pub insert : S → T → BiMap S T → BiMap S T
  unfolding erase_source erase_target
  insert source target b =
      let c = (erase_target target (erase_source source b).0).0 in
      record {
        forward = Map.insert source target c.forward;
        reverse = Map.insert target source c.reverse;
      }

module _ {ℓ κ ν} {S : Type ℓ} {U : Type κ} {T : Type ν} ⦃source_order : Comparator S⦄
    ⦃middle_order : Comparator U⦄ ⦃target_order : Comparator T⦄ where
  -- The constructor by composition: a loop over the nodes of the first map.
  unfoldable pub compose_loop : List (S × U) → List (U × T) → BiMap S T → BiMap S T
  compose_loop [] b c = c
  compose_loop (n ∷ a) b c = elim (Map.get_optional n.1 b) [
    | none ↦ compose_loop a b c
    | some target ↦ compose_loop a b (record {
      forward = Map.insert n.0 target c.forward;
      reverse = Map.insert target n.0 c.reverse;
    })
  ]

  unfoldable pub compose : BiMap S U → BiMap U T → BiMap S T
  unfolding compose_loop empty_bimap
  compose a b = compose_loop a.forward b.forward empty_bimap
