-- ===== src/Interval/Iterator/Moves.antt =====
-- Moves of the `Interval::ConstIterator` of Sawyer/Interval.h in both directions.
use sawyer.Prelude.Word.{add_wrap, sub_wrap, add_wrap-cases, sub_wrap-cases}
use sawyer.Prelude.{
  ℕ, ◌+◌, ◌-◌, ◌≤◌, ◌<◌, ◌≡◌, sym, ◌∙◌, true, false, ◌==◌, arith, refl, ◌⊎◌, Option, none, some,
  ◌>>=◌, Bool-cases, List, [], ◌∷◌, inl, inr,
}
use sawyer.Interval.Iterator.{ConstIterator, dereference, increment, decrement}

pub data Move : Type 0 where
  forward : Move
  back : Move

module _ (top : ℕ) where
  -- `++iter` and `--iter`
  unfoldable pub move : Move → ConstIterator → Option ConstIterator
  unfolding increment decrement
  move forward it = increment top it
  move back it = decrement top it

  -- A run of moves. `none` is a failed assertion in one of them.
  unfoldable pub move_all : List Move → ConstIterator → Option ConstIterator
  unfolding move
  move_all [] it = some it
  move_all (m ∷ moves) it = move m it >>= λ next. move_all moves next

  -- A position of an iterator: on a value, or just outside of either end.
  abbrev pub IsPosition : ConstIterator → Type 0
  IsPosition it =
      (it.first ≤ it.cur)
      × (it.cur ≤ it.last)
      × (it.last ≤ top)
      × (it.at_end ≡ true → (it.cur ≡ it.first) ⊎ (it.cur ≡ it.last))

  -- Over two or more values, a step forward and a step back cancel, from each position but the last.
  pub decrement-increment :
      (it next : ConstIterator)
      → IsPosition it
      → it.first < it.last
      → (it.at_end ≡ true → it.cur ≡ it.first)
      → increment top it ≡ some next
      → IsPosition next × (decrement top next ≡ some it)
  unfolding increment decrement
  decrement-increment it next p two notlast h =
      let up = add_wrap-cases top it.cur 1 in
      let down = sub_wrap-cases top next.cur 1 in (ground (arith, up), ground (arith, up, down))

  -- One move from a position, forward or back, passes its assertion and reaches a position of the same
  -- values. Over one value, it has left the value.
  move-IsPosition :
      (m : Move) (it : ConstIterator)
      → IsPosition it
      → (next : ConstIterator) × (move m it ≡ some next)
        × IsPosition next
        × (next.first ≡ it.first)
        × (next.last ≡ it.last)
        × (it.first ≡ it.last → next.at_end ≡ true)
  unfolding move increment decrement
  move-IsPosition forward it p = elim (Bool-cases (it.cur == it.last)) [
    | inl e ↦
        let q : it.cur ≡ it.last = ground arith in
        (record it { at_end = true }, rw e refl, (p.0, p.1, p.2, λ h. inr q), refl, refl, λ h. refl)
    | inr e ↦ elim (Bool-cases it.at_end) [
      | inl a ↦
          let f : (it.cur == it.first) ≡ true = ground arith in
          (
            record it { at_end = false },
            rw (e, a, f) refl,
            (p.0, p.1, p.2, λ h. ground arith),
            refl,
            refl,
            λ h. ground arith,
          )
      | inr a ↦
          let up : add_wrap top it.cur 1 ≡ it.cur + 1 =
            ground (arith, add_wrap-cases top it.cur 1) in
          (
            record it { cur = add_wrap top it.cur 1 },
            rw (e, a) refl,
            (omega (arith, up), ground (arith, up), p.2, λ h. ground arith),
            refl,
            refl,
            λ h. ground arith,
          )
    ]
  ]
  move-IsPosition back it p = elim (Bool-cases (it.cur == it.first)) [
    | inl e ↦
        let q : it.cur ≡ it.first = ground arith in
        (record it { at_end = true }, rw e refl, (p.0, p.1, p.2, λ h. inl q), refl, refl, λ h. refl)
    | inr e ↦ elim (Bool-cases it.at_end) [
      | inl a ↦
          let f : (it.cur == it.last) ≡ true = ground arith in
          (
            record it { at_end = false },
            rw (e, a, f) refl,
            (p.0, p.1, p.2, λ h. ground arith),
            refl,
            refl,
            λ h. ground arith,
          )
      | inr a ↦
          let down : sub_wrap top it.cur 1 ≡ it.cur - 1 =
            ground (arith, sub_wrap-cases top it.cur 1) in
          (
            record it { cur = sub_wrap top it.cur 1 },
            rw (e, a) refl,
            (ground (arith, down), ground (arith, down), p.2, λ h. ground arith),
            refl,
            refl,
            λ h. ground arith,
          )
    ]
  ]

  -- From a position of an iterator, every run of one or more increments and decrements, in any order,
  -- passes the assertions and ends at a position of the same values. Where the first value is the last
  -- one, it ends at a position with no value: no further move leads back to the value.
  pub move_all-IsPosition :
      (m : Move) (moves : List Move) (it : ConstIterator)
      → IsPosition it
      → (out : ConstIterator) × (move_all (m ∷ moves) it ≡ some out)
        × IsPosition out
        × (out.first ≡ it.first)
        × (out.last ≡ it.last)
        × (it.first ≡ it.last → dereference out ≡ none)
  unfolding move_all dereference
  move_all-IsPosition m [] it p =
      let (next, e, q, f, l, stuck) = move-IsPosition m it p in
      (next, rw e, q, f, l, λ h. rw (stuck h))
  move_all-IsPosition m (m2 ∷ moves) it p =
      let (next, e, q, f, l, stuck) = move-IsPosition m it p in
      let (out, e2, q2, f2, l2, stuck2) = move_all-IsPosition m2 moves next q in
      (out, rw e e2, q2, f2 ∙ f, l2 ∙ l, λ h. stuck2 (f ∙ h ∙ sym l))
