-- ===== src/Talk/Steps.antt =====
-- The loop of `client_talk` ends, and five rounds are enough for it.
use trace_server.Base.{
  ℕ, zero, suc, ◌+◌, ◌≤◌, ◌≡◌, refl, sym, ap, subst, ◌∙◌, arith, Bool, Option, none, some, ◌>>=◌,
}
use trace_server.Libevent.{Libevent}
use trace_server.Talk.{
  ClientOption, StepResult, once, again, all_finished, TalkResult, talk_continue, talk_finished,
  SkylogStore, TalkClient, StepOutcome, step_at, client_option_step, talk_loop,
}
use trace_server.Talk.Runs.{Runs, run_faults, run_once, run_finishes, run_again}
use trace_server.Talk.Shrinks.{rounds, rounds_bound, Shrinks, on, step_at-Shrinks, step-Shrinks}

module _ (L : Libevent) (Store : Type 0) (S : SkylogStore Store) where
  enough :
      (calloc_ok : Bool) (fuel extra : ℕ) (c : TalkClient L Store S) (w : Store) (o : ClientOption)
      → c.arg ≡ some o
      → rounds o.step ≤ fuel
      → talk_loop L Store S calloc_ok (fuel + extra) c w ≡ talk_loop L Store S calloc_ok fuel c w
  unfolding talk_loop client_option_step
  enough calloc_ok zero extra c w o e h = absurd (omega (arith, rounds_bound o.step))
  enough calloc_ok (suc fuel) extra c w o e h =
      let sum : suc fuel + extra ≡ suc (fuel + extra) = omega arith in
      ap (λ n. talk_loop L Store S calloc_ok n c w) sum
      ∙ rw (talk_loop, e)
          (go (enough calloc_ok fuel extra) (step_at L Store S o.step calloc_ok c o w)
            (step_at-Shrinks L Store S o.step calloc_ok c o w))
    where
      Again : Type 0
      Again =
          (c : TalkClient L Store S) (w : Store) (o : ClientOption)
          → c.arg ≡ some o
          → rounds o.step ≤ fuel
          → talk_loop L Store S calloc_ok (fuel + extra) c w
            ≡ talk_loop L Store S calloc_ok fuel c w

      after :
          ℕ
          → StepResult × TalkClient L Store S × Store
          → Option (TalkResult × TalkClient L Store S × Store)
      after n (ret, c', w') = elim ret [
        | again ↦ talk_loop L Store S calloc_ok n c' w'
        | once ↦ some (talk_continue, c', w')
        | all_finished ↦ some (talk_finished, c', w')
      ]

      go :
          Again
          → (out : StepOutcome L Store S) → Shrinks L Store S (rounds o.step) out
          → (out >>= after (fuel + extra)) ≡ (out >>= after fuel)
      go rest none s = refl
      go rest (some (again, c', w')) (on _ o' _ e' lt) = rest c' w' o' e' (omega arith)
      go rest (some (once, c', w')) s = refl
      go rest (some (all_finished, c', w')) s = refl

  -- The bounded loop is a run of the loop, if the bound is at least the rounds that are left.
  bounded-Runs :
      (calloc_ok : Bool) (fuel : ℕ) (c : TalkClient L Store S) (w : Store) (o : ClientOption)
      → c.arg ≡ some o
      → rounds o.step ≤ fuel
      → Runs L Store S calloc_ok c w (talk_loop L Store S calloc_ok fuel c w)
  unfolding talk_loop
  bounded-Runs calloc_ok zero c w o e h = absurd (omega (arith, rounds_bound o.step))
  bounded-Runs calloc_ok (suc fuel) c w o e h =
      subst (Runs L Store S calloc_ok c w)
        (sym (
          ap
            (λ arg. elim arg as (λ _. Option (TalkResult × TalkClient L Store S × Store)) [
              | none ↦ none
              | some o ↦ client_option_step L Store S calloc_ok c o w >>= λ (ret, c', w').
                  elim ret [
                    | again ↦ talk_loop L Store S calloc_ok fuel c' w'
                    | once ↦ some (talk_continue, c', w')
                    | all_finished ↦ some (talk_finished, c', w')
                  ]
            ])
            e))
        (go (bounded-Runs calloc_ok fuel) (client_option_step L Store S calloc_ok c o w) refl
          (step-Shrinks L Store S calloc_ok c o w))
    where
      Again : Type 0
      Again =
          (c : TalkClient L Store S) (w : Store) (o : ClientOption)
          → c.arg ≡ some o
          → rounds o.step ≤ fuel
          → Runs L Store S calloc_ok c w (talk_loop L Store S calloc_ok fuel c w)

      go :
          Again
          → (out : StepOutcome L Store S) → client_option_step L Store S calloc_ok c o w ≡ out
          → Shrinks L Store S (rounds o.step) out
          → Runs L Store S calloc_ok c w (
              out >>= λ (ret, c', w'). elim ret [
                | again ↦ talk_loop L Store S calloc_ok fuel c' w'
                | once ↦ some (talk_continue, c', w')
                | all_finished ↦ some (talk_finished, c', w')
              ])
      go rest none es s = run_faults c w o e es
      go rest (some (again, c', w')) es (on _ o' _ e' lt) =
          run_again c w o c' w' (talk_loop L Store S calloc_ok fuel c' w') e es
            (rest c' w' o' e' (omega arith))
      go rest (some (once, c', w')) es s = run_once c w o c' w' e es
      go rest (some (all_finished, c', w')) es s = run_finishes c w o c' w' e es

  -- The loop of `client_talk` ends, and five rounds are enough for it: from any client that has a request,
  -- what the loop with five rounds returns is the end of a run of the loop without a bound, so that it is
  -- `none` only if a step of the run faults; and with more rounds it returns the same.
  pub talk_loop-enough :
      (calloc_ok : Bool) (extra : ℕ) (c : TalkClient L Store S) (w : Store) (o : ClientOption)
      → c.arg ≡ some o
      → Runs L Store S calloc_ok c w (talk_loop L Store S calloc_ok 5 c w)
        × (talk_loop L Store S calloc_ok (5 + extra) c w ≡ talk_loop L Store S calloc_ok 5 c w)
  talk_loop-enough calloc_ok extra c w o e =
      let bound = (rounds_bound o.step).1 in
      (bounded-Runs calloc_ok 5 c w o e bound, enough calloc_ok 5 extra c w o e bound)

  pub talk_loop-Runs :
      (calloc_ok : Bool) (c : TalkClient L Store S) (w : Store) (o : ClientOption)
      → c.arg ≡ some o
      → Runs L Store S calloc_ok c w (talk_loop L Store S calloc_ok 5 c w)
  talk_loop-Runs calloc_ok c w o e = (talk_loop-enough calloc_ok 0 c w o e).0
