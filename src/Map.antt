-- ===== src/Map.antt =====
-- `Sawyer::Container::Map<K, T, Cmp>` (Sawyer/Map.h). The `std::map` that it wraps is a list of
-- nodes in the order of the comparator.
pub mod Order
pub mod Lookup
pub mod Update
mod Tests
use sawyer.Prelude.{
  Bool, true, false, not, ◌||◌, ◌≡◌, if◌then◌else◌, Option, none, some, List, [], ◌∷◌, ℕ, length,
}

-- The template parameter `Cmp`: a strict weak order, as `std::map` asks of it.
pub record Comparator {ℓ} (K : Type ℓ) : Type ℓ where
  pub less : K → K → Bool
  pub less_irrefl : (a : K) → less a a ≡ false
  pub less_trans : (a b c : K) → less a b ≡ true → less b c ≡ true → less a c ≡ true
  pub less_split : (a b c : K) → less a b ≡ true → less a c ≡ false → less c b ≡ true

-- An iterator of `std::map`: the nodes before it, the nearest first, and those from it on. The end
-- has no node after it.
pub record Cursor {ℓ κ} (K : Type ℓ) (V : Type κ) : Type (ℓ ⊔ κ) where
  pub before : List (K × V)
  pub after : List (K × V)

module _ {ℓ κ} {K : Type ℓ} {V : Type κ} where
  abbrev pub rewind : List (K × V) → List (K × V) → List (K × V)
  rewind [] after = after
  rewind (n ∷ before) after = rewind before (n ∷ after)

  abbrev pub at : List (K × V) → Option (K × V)
  at [] = none
  at (n ∷ after) = some n

  -- `map_.begin()` and `map_.end()`
  unfoldable pub begin : List (K × V) → Cursor K V
  begin m = record { before = []; after = m }

  unfoldable pub end_from : List (K × V) → List (K × V) → Cursor K V
  end_from before [] = record { before = before; after = [] }
  end_from before (n ∷ m) = end_from (n ∷ before) m

  unfoldable pub end : List (K × V) → Cursor K V
  unfolding end_from
  end m = end_from [] m

  -- `++iter` and `--iter`; `none` is undefined behaviour.
  unfoldable pub next : Cursor K V → Option (Cursor K V)
  next c = elim c.after [
    | [] ↦ none
    | n ∷ rest ↦ some (record { before = n ∷ c.before; after = rest })
  ]

  unfoldable pub prior : Cursor K V → Option (Cursor K V)
  prior c = elim c.before [
    | [] ↦ none
    | n ∷ rest ↦ some (record { before = rest; after = n ∷ c.after })
  ]

  unfoldable pub is_empty : List (K × V) → Bool
  is_empty [] = true
  is_empty (n ∷ m) = false

  unfoldable pub size : List (K × V) → ℕ
  size m = length m

  -- `none` is a failed assertion.
  unfoldable pub least : List (K × V) → Option K
  least [] = none
  least (n ∷ m) = some n.0

  unfoldable pub last_key : K → List (K × V) → K
  last_key k [] = k
  last_key k (n ∷ m) = last_key n.0 m

  unfoldable pub greatest : List (K × V) → Option K
  unfolding last_key
  greatest [] = none
  greatest (n ∷ m) = some (last_key n.0 m)

  unfoldable pub clear : List (K × V) → List (K × V)
  clear m = []

  -- eraseAt(iter); at the end it is undefined behaviour, here no change.
  unfoldable pub erase_at : Cursor K V → List (K × V)
  erase_at c = elim c.after [ [] ↦ rewind c.before [] | n ∷ rest ↦ rewind c.before rest ]

  -- eraseAtMultiple(begin, end)
  unfoldable pub erase_at_multiple : Cursor K V → Cursor K V → List (K × V)
  erase_at_multiple from to = rewind from.before to.after

module _ {ℓ κ} {K : Type ℓ} {V : Type κ} ⦃order : Comparator K⦄ where
  unfoldable pub lower_from : K → List (K × V) → List (K × V) → Cursor K V
  lower_from k before [] = record { before = before; after = [] }
  lower_from k before (n ∷ m) =
      if order.less n.0 k
      then lower_from k (n ∷ before) m
      else record { before = before; after = n ∷ m }

  unfoldable pub lower_bound : K → List (K × V) → Cursor K V
  unfolding lower_from
  lower_bound k m = lower_from k [] m

  upper_from : K → List (K × V) → List (K × V) → Cursor K V
  upper_from k before [] = record { before = before; after = [] }
  upper_from k before (n ∷ m) =
      if order.less k n.0
      then record { before = before; after = n ∷ m }
      else upper_from k (n ∷ before) m

  unfoldable pub upper_bound : K → List (K × V) → Cursor K V
  unfolding upper_from
  upper_bound k m = upper_from k [] m

  find_at : K → List (K × V) → Cursor K V → Cursor K V
  find_at k m c = elim c.after [ [] ↦ c | n ∷ rest ↦ if order.less k n.0 then end m else c ]

  unfoldable pub find : K → List (K × V) → Cursor K V
  unfolding find_at lower_bound end
  find k m = find_at k m (lower_bound k m)

  unfoldable pub exists : K → List (K × V) → Bool
  unfolding find
  exists k m = elim (find k m).after [ [] ↦ false | n ∷ rest ↦ true ]

  unfoldable pub get_optional : K → List (K × V) → Option V
  unfolding find
  get_optional k m = elim (find k m).after [ [] ↦ none | n ∷ rest ↦ some n.1 ]

  -- `none` is the thrown `std::domain_error`.
  unfoldable pub get : K → List (K × V) → Option V
  unfolding find
  get k m = elim (find k m).after [ [] ↦ none | n ∷ rest ↦ some n.1 ]

  unfoldable pub get_or_else : K → V → List (K × V) → V
  unfolding find
  get_or_else k dflt m = elim (find k m).after [ [] ↦ dflt | n ∷ rest ↦ n.1 ]

  -- `dflt` is the value that `Value()` makes.
  unfoldable pub get_or_default : V → K → List (K × V) → V
  unfolding find
  get_or_default dflt k m = elim (find k m).after [ [] ↦ dflt | n ∷ rest ↦ n.1 ]

  -- `std::map::insert`, and the assignment through its iterator if a key is there already: the
  -- node keeps that key.
  unfoldable pub insert : K → V → List (K × V) → List (K × V)
  insert k v [] = (k, v) ∷ []
  insert k v (n ∷ m) =
      if order.less n.0 k
      then n ∷ insert k v m
      else if order.less k n.0
      then (k, v) ∷ n ∷ m
      else (n.0, v) ∷ m

  -- The nodes after `insertMaybe`, and the value that the returned reference shows.
  unfoldable pub insert_maybe : K → V → List (K × V) → List (K × V) × V
  insert_maybe k v [] = ((k, v) ∷ [], v)
  insert_maybe k v (n ∷ m) =
      let rest = insert_maybe k v m in
      if order.less n.0 k
      then (n ∷ rest.0, rest.1)
      else if order.less k n.0
      then ((k, v) ∷ n ∷ m, v)
      else (n ∷ m, n.1)

  unfoldable pub insert_multiple : List (K × V) → List (K × V) → List (K × V)
  unfolding insert
  insert_multiple [] m = m
  insert_multiple (n ∷ others) m = insert_multiple others (insert n.0 n.1 m)

  unfoldable pub insert_maybe_multiple : List (K × V) → List (K × V) → List (K × V)
  unfolding insert_maybe
  insert_maybe_multiple [] m = m
  insert_maybe_multiple (n ∷ others) m = insert_maybe_multiple others (insert_maybe n.0 n.1 m).0

  -- `insertDefault` and `insertMaybeDefault`, with the value that `T()` makes.
  unfoldable pub insert_default : V → K → List (K × V) → List (K × V)
  unfolding insert
  insert_default dflt k m = insert k dflt m

  unfoldable pub insert_maybe_default : V → K → List (K × V) → List (K × V) × V
  unfolding insert_maybe
  insert_maybe_default dflt k m = insert_maybe k dflt m

  unfoldable pub erase : K → List (K × V) → List (K × V)
  erase k [] = []
  erase k (n ∷ m) =
      if order.less n.0 k then n ∷ erase k m else if order.less k n.0 then n ∷ m else m

  unfoldable pub erase_multiple : List K → List (K × V) → List (K × V)
  unfolding erase
  erase_multiple [] m = m
  erase_multiple (k ∷ ks) m = erase_multiple ks (erase k m)
