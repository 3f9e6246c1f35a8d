-- ===== src/IntervalMap/Insert/Merge.antt =====
-- Merging with the neighbours in `insert` of Sawyer/IntervalMap.h keeps what the map means.
use sawyer.Prelude.Word.{add_wrap, sub_wrap, add_wrap-cases, sub_wrap-cases}
use sawyer.Prelude.{
  ℕ, suc, ◌+◌, ◌-◌, ◌≤◌, ◌≡◌, true, ltb, ◌==◌, if◌then◌else◌, Option, none, some, ◌∷◌, inl, inr,
  arith, refl, ap, ◌∙◌, sym, Bool-cases,
}
use sawyer.Interval.{Interval, has, hull_of, size}
use sawyer.Map.{rewind, Cursor, erase_at}
use sawyer.IntervalMap.Change.{Inserting, merge_left, merge_left_at, merge_right, merge_right_at}
use sawyer.IntervalMap.Find.{find}
use sawyer.IntervalMap.Shape.{
  Ordered, Apart, total, Ordered-after, Ordered-before, Ordered-weaken, Counts, Counts-sub,
  Counts-size,
}
use sawyer.IntervalMap.Carve.{interval, total-rewind}
use sawyer.IntervalMap.Meaning.{Meaning, value_at}
use sawyer.IntervalMap.Lookup.{
  Found, find_cases, Ordered-replace, Apart-replace, Apart-after, Apart-rewind, Apart-past,
  Apart-join, erase_at-rewind, value_at-remove,
}
use sawyer.IntervalMap.{Nodes, Policy, interval_compare}

hull_of_le : (a b : ℕ) → a ≤ b → hull_of a b ≡ interval a b
unfolding hull_of
hull_of_le a b h = ground arith

-- The variables of `insert` make sense: the key has a hole in the nodes.
pub record Ready {ℓ} {V : Type ℓ} (top : ℕ) (s : Inserting V) : Type 0 where
  pub ordered : Ordered top 0 s.nodes
  pub apart : Apart s.key s.nodes
  pub full : s.key.lo ≤ s.key.hi
  pub fits : s.key.hi ≤ top
  pub counted : Counts top s.count (total s.nodes)

module _ {ℓ} {V : Type ℓ} {policy : Policy V} {D : Type 0} (meaning : Meaning policy D)
    (top : ℕ) where
  -- What the variables of `insert` stand for.
  abbrev pub shows : ℕ → Inserting V → Option D
  shows x s = if has s.key x then some (meaning.den s.key s.value x) else value_at meaning x s.nodes

  abbrev pub held : Inserting V → ℕ
  held s = total s.nodes + (s.key.hi + 1 - s.key.lo)

  pub record Keeps (s t : Inserting V) : Type 0 where
    pub ready : Ready top t
    pub shows_eq : (x : ℕ) → shows x t ≡ shows x s
    pub held_eq : held t ≡ held s

  Keeps-refl : (s : Inserting V) → Ready top s → Keeps s s
  Keeps-refl s r = record { ready = r; shows_eq = λ x. refl; held_eq = refl }

  -- The facts about the map without one of its nodes.
  module _ (s : Inserting V) (r : Ready top s) (x : ℕ) (c : Cursor Interval V) (n : Interval × V)
      (rest : Nodes V) (found : Found x s.nodes c n rest) (wide : 1 ≤ top) where
    node-Ordered : Ordered top 0 (n ∷ rest)
    node-Ordered = Ordered-after top c.before (n ∷ rest) (rw found.whole r.ordered)

    node-Apart : Apart s.key (n ∷ rest)
    node-Apart = Apart-after s.key c.before (n ∷ rest) (rw found.whole r.apart)

    removed : erase_at c ≡ rewind c.before rest
    removed = erase_at-rewind c n rest found.after_eq

    removed-Ordered : Ordered top 0 (rewind c.before rest)
    removed-Ordered =
        Ordered-replace top c.before (n ∷ rest) rest (rw found.whole r.ordered)
          (λ b (p, q, u, o). Ordered-weaken top b (suc n.0.hi) rest (omega arith) o)

    removed-Apart : Apart s.key (rewind c.before rest)
    removed-Apart =
        Apart-replace s.key c.before (n ∷ rest) rest (rw found.whole r.apart) (λ (p, q). q)

    removed_total : total (rewind c.before rest) + (n.0.hi + 1 - n.0.lo) ≡ total s.nodes
    removed_total =
        omega (
          arith,
          total-rewind c.before rest,
          total-rewind c.before (n ∷ rest),
          ap total found.whole,
        )

    removed_counted :
        Counts top (sub_wrap top s.count (size top n.0)) (total (rewind c.before rest))
    removed_counted =
        Counts-sub top s.count (size top n.0) (total (rewind c.before rest)) (n.0.hi + 1 - n.0.lo)
          (rw removed_total r.counted) (Counts-size top n.0 wide node-Ordered.1 node-Ordered.2)

    removed_shows :
        (y : ℕ)
        → value_at meaning y s.nodes ≡ (
            if has n.0 y
            then some (meaning.den n.0 n.1 y)
            else value_at meaning y (rewind c.before rest))
    removed_shows y =
        ap (value_at meaning y) (sym found.whole)
        ∙ value_at-remove meaning top y c.before rest n (rw found.whole r.ordered)

    removed_no_node : Apart n.0 (rewind c.before rest)
    removed_no_node =
        Apart-rewind n.0 c.before rest
          (Ordered-before top c.before n rest (rw found.whole r.ordered))
          (Apart-past top (suc n.0.hi) n.0 rest node-Ordered.3 (omega arith))

    -- Merging with the node to the left.
    left_Keeps :
        (v : V)
        → policy.merge n.0 n.1 s.key s.value ≡ some v
        → n.0.hi + 1 ≡ s.key.lo
        → Keeps s (record {
          key = interval n.0.lo s.key.hi;
          value = v;
          nodes = rewind c.before rest;
          count = sub_wrap top s.count (size top n.0);
        })
    left_Keeps v merged adjacent = record {
      ready = record {
        ordered = removed-Ordered;
        apart =
            Apart-join top 0 n.0 s.key (rewind c.before rest) removed-Ordered adjacent
              removed_no_node removed-Apart;
        full = omega (arith, r.full, node-Ordered.1);
        fits = r.fits;
        counted = removed_counted;
      };
      shows_eq = λ y. ground (
        arith,
        removed_shows y,
        meaning.den-merge n.0 s.key n.1 s.value v y merged node-Ordered.1 adjacent r.full,
      );
      held_eq = omega (arith, removed_total, r.full, node-Ordered.1);
    }

    -- Merging with the node to the right.
    right_Keeps :
        (v : V)
        → policy.merge s.key s.value n.0 n.1 ≡ some v
        → s.key.hi + 1 ≡ n.0.lo
        → Keeps s (record {
          key = interval s.key.lo n.0.hi;
          value = v;
          nodes = rewind c.before rest;
          count = sub_wrap top s.count (size top n.0);
        })
    right_Keeps v merged adjacent = record {
      ready = record {
        ordered = removed-Ordered;
        apart =
            Apart-join top 0 s.key n.0 (rewind c.before rest) removed-Ordered adjacent removed-Apart
              removed_no_node;
        full = omega (arith, r.full, node-Ordered.1);
        fits = node-Ordered.2;
        counted = removed_counted;
      };
      shows_eq = λ y. ground (
        arith,
        removed_shows y,
        meaning.den-merge s.key n.0 s.value n.1 v y merged r.full adjacent node-Ordered.1,
      );
      held_eq = omega (arith, removed_total, r.full, node-Ordered.1);
    }

    merge_left_at-Keeps : s.key.lo ≡ x + 1 → Keeps s (merge_left_at top policy c s)
    unfolding merge_left_at
    merge_left_at-Keeps e = go (policy.merge n.0 n.1 s.key s.value) refl
      where
        adjacent : n.0.hi + 1 ≡ s.key.lo
        adjacent = ground (arith, found.holds, node-Apart.0, r.full)

        test : (add_wrap top n.0.hi 1 == s.key.lo) ≡ true
        test = ground (arith, adjacent, add_wrap-cases top n.0.hi 1, r.full, r.fits)

        go :
            (o : Option V)
            → policy.merge n.0 n.1 s.key s.value ≡ o
            → Keeps s (merge_left_at top policy c s)
        go none merged =
            let same : merge_left_at top policy c s ≡ s = ground (arith, found.after_eq, test) in
            rw same (Keeps-refl s r)
        go (some v) merged =
            let same : merge_left_at top policy c s ≡ record {
              key = hull_of n.0.lo s.key.hi;
              value = v;
              nodes = erase_at c;
              count = sub_wrap top s.count (size top n.0);
            } =
              ground (arith, found.after_eq, test) in
            rw
              (
                same,
                hull_of_le n.0.lo s.key.hi (omega (arith, r.full, node-Ordered.1, adjacent)),
                removed,
              )
              (left_Keeps v merged adjacent)

    merge_right_at-Keeps : x ≡ s.key.hi + 1 → Keeps s (merge_right_at top policy c s)
    unfolding merge_right_at
    merge_right_at-Keeps e = go (policy.merge s.key s.value n.0 n.1) refl
      where
        adjacent : s.key.hi + 1 ≡ n.0.lo
        adjacent = ground (arith, found.holds, node-Apart.0, r.full)

        test : (add_wrap top s.key.hi 1 == n.0.lo) ≡ true
        test =
            ground (arith, adjacent, add_wrap-cases top s.key.hi 1, node-Ordered.1, node-Ordered.2)

        go :
            (o : Option V)
            → policy.merge s.key s.value n.0 n.1 ≡ o
            → Keeps s (merge_right_at top policy c s)
        go none merged =
            let same : merge_right_at top policy c s ≡ s = ground (arith, found.after_eq, test) in
            rw same (Keeps-refl s r)
        go (some v) merged =
            let same : merge_right_at top policy c s ≡ record {
              key = hull_of s.key.lo n.0.hi;
              value = v;
              nodes = erase_at c;
              count = sub_wrap top s.count (size top n.0);
            } =
              ground (arith, found.after_eq, test) in
            rw
              (
                same,
                hull_of_le s.key.lo n.0.hi (omega (arith, r.full, node-Ordered.1, adjacent)),
                removed,
              )
              (right_Keeps v merged adjacent)

  pub merge_left-Keeps :
      1 ≤ top → (s : Inserting V) → Ready top s → Keeps s (merge_left top policy s)
  unfolding merge_left
  merge_left-Keeps wide s r =
      let x = sub_wrap top s.key.lo 1 in
      elim (Bool-cases (ltb (sub_wrap top s.key.lo 1) s.key.lo)) [
        | inr out ↦ rw out (Keeps-refl s r)
        | inl inside ↦ rw inside (elim (find_cases top x s.nodes r.ordered) [
          | inl (missing, _) ↦
              let same : merge_left_at top policy (find x s.nodes) s ≡ s =
                unfold merge_left_at in ground arith in
              rw same (Keeps-refl s r)
          | inr (n, rest, found, _) ↦
              merge_left_at-Keeps s r x (find x s.nodes) n rest found wide
                (ground (arith, inside, sub_wrap-cases top s.key.lo 1, r.full, r.fits))
        ])
      ]

  pub merge_right-Keeps :
      1 ≤ top → (s : Inserting V) → Ready top s → Keeps s (merge_right top policy s)
  unfolding merge_right
  merge_right-Keeps wide s r =
      let x = add_wrap top s.key.hi 1 in
      elim (Bool-cases (ltb s.key.hi (add_wrap top s.key.hi 1))) [
        | inr out ↦ rw out (Keeps-refl s r)
        | inl inside ↦ rw inside (elim (find_cases top x s.nodes r.ordered) [
          | inl (missing, _) ↦
              let same : merge_right_at top policy (find x s.nodes) s ≡ s =
                unfold merge_right_at in ground arith in
              rw same (Keeps-refl s r)
          | inr (n, rest, found, _) ↦
              merge_right_at-Keeps s r x (find x s.nodes) n rest found wide
                (ground (arith, inside, add_wrap-cases top s.key.hi 1, r.fits))
        ])
      ]
