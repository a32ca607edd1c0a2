-- ===== src/Main/Watch.antt =====
-- When `_repeat_init` of src/main.c gives up.
use trace_server.Base.{
  ℕ, zero, suc, ◌+◌, ◌≤◌, ◌<◌, ◌≡◌, sym, ap, ◌∙◌, ◌⊎◌, inl, inr, ◌↔◌, Bool, true, false, arith,
  Bool-cases, ltb, ltb-true, ltb-false,
}
use trace_server.Main.{repeat_loop, repeat_init}

module _ (status_ok created : ℕ → Bool) where
  -- The server is up at round `i`, or is created there.
  abbrev pub IsUp : ℕ → Type 0
  IsUp i = (status_ok i ≡ true) ⊎ (created i ≡ true)

  -- The loop ends at the first round that is up, or after all.
  loop_ends :
      (left i : ℕ)
      → (i ≤ repeat_loop left status_ok created i)
        × (repeat_loop left status_ok created i ≤ i + left)
        × (repeat_loop left status_ok created i < i + left
            → IsUp (repeat_loop left status_ok created i))
        × ((j : ℕ)
            → i ≤ j
            → j < repeat_loop left status_ok created i
            → (status_ok j ≡ false) × (created j ≡ false))
  unfolding repeat_loop
  loop_ends zero i =
      (omega arith, omega arith, (λ h. absurd (omega arith)), λ j h k. absurd (omega arith))
  loop_ends (suc left) i = elim (Bool-cases (status_ok i)) [
    | inl ok ↦ rw ok (omega arith, omega arith, (λ h. inl ok), λ j h k. absurd (omega arith))
    | inr down ↦ elim (Bool-cases (created i)) [
      | inl made ↦
          rw (down, made) (omega arith, omega arith, (λ h. inr made), λ j h k. absurd (omega arith))
      | inr failed ↦
          let (low, high, up, before) = loop_ends left (i + 1) in
          rw (down, failed)
            (
              omega arith,
              omega arith,
              (λ h. up (omega arith)),
              λ j h k. elim (Bool-cases (ltb i j)) [
                | inl later ↦ before j (omega (arith, ltb-true later)) k
                | inr now ↦
                    let same : i ≡ j = omega (arith, ltb-false now) in
                    (ap status_ok (sym same) ∙ down, ap created (sym same) ∙ failed)
              ],
            )
    ]
  ]

  -- `_repeat_init` returns true exactly if in one of its `repeat_count` rounds the server is up already or can be
  -- created.
  pub repeat_init-IsUp :
      (repeat_count : ℕ)
      → (repeat_init status_ok created repeat_count ≡ true)
        ↔ ((i : ℕ) × (i < repeat_count) × IsUp i)
  unfolding repeat_init
  repeat_init-IsUp n =
      let (low, high, up, before) = loop_ends n 0 in
      (
        (λ e. (
          repeat_loop n status_ok created 0,
          omega (arith, ltb-true e),
          up (omega (arith, ltb-true e)),
        )),
        λ (i, h, is_up). elim (Bool-cases (ltb (repeat_loop n status_ok created 0) n)) [
          | inl in_time ↦ in_time
          | inr late ↦
              let (down, failed) = before i (omega arith) (omega (arith, ltb-false late)) in
              elim is_up [ inl ok ↦ absurd (cc) | inr made ↦ absurd (cc) ]
        ],
      )
