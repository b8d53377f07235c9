-- ===== src/Executor/Position/Left.antt =====
-- How many steps of the course are left of a rollout.
use batch_release.Base.{ℕ, suc, ◌*◌, ◌-◌, ◌≡◌, ◌⊎◌, refl, ap, ◌∙◌, inl, inr, arith, ◌≤◌}
use batch_release.Base.Int.{ℤ, pos, negsuc, ◌+ℤ◌, ◌≤ℤ◌, ◌<ℤ◌, pos_part, int_laws}
use batch_release.Release.{Phase, StepState}
use batch_release.Executor.Position.{Position}
use batch_release.Executor.Position.Course.{Course}
use batch_release.Executor.Position.Move.{IsOnStep, IsRolling, Move}

abbrev rank : StepState → ℕ
rank StepState.initial = 0
rank StepState.upgrade = 1
rank StepState.blocking = 2
rank StepState.completed = 3
rank (StepState.other s) = 0

-- How many of them are left, until the phase Finalizing.
abbrev left_in : Phase → ℕ → ℕ → StepState → ℕ
left_in Phase.initial steps step s = 0
left_in Phase.rolling_update steps step s = 4 * (steps - step) - rank s
left_in Phase.rolling_back steps step s = 0
left_in Phase.finalizing steps step s = 0
left_in Phase.completed steps step s = 0
left_in (Phase.other x) steps step s = 0

abbrev pub left : Position → ℕ
left p = left_in p.phase p.steps (pos_part p.step) p.state

-- `left`, in a rollout.
pub rolling_left :
    (p : Position) (s : StepState)
    → p.phase ≡ Phase.rolling_update
    → p.state ≡ s
    → left p ≡ 4 * (p.steps - pos_part p.step) - rank s
rolling_left p s h k =
    ap (λ (ph : Phase). left_in ph p.steps (pos_part p.step) p.state) h
    ∙ ap (λ (t : StepState). 4 * (p.steps - pos_part p.step) - rank t) k

-- The index of a step is a natural number below the number of steps.
below : (i : ℤ) (n : ℕ) → pos 0 ≤ℤ i → i <ℤ pos n → suc (pos_part i) ≤ n
below (pos m) n lo hi = omega arith
below (negsuc m) n lo hi = omega arith

pos_part-next : (i : ℤ) → pos 0 ≤ℤ i → pos_part (i +ℤ pos 1) ≡ suc (pos_part i)
unfolding ◌+ℤ◌
pos_part-next (pos m) lo = ground arith
pos_part-next (negsuc m) lo = absurd (omega arith)

rank_small : (s : StepState) → rank s ≤ 3
rank_small StepState.initial = omega arith
rank_small StepState.upgrade = omega arith
rank_small StepState.blocking = omega arith
rank_small StepState.completed = omega arith
rank_small (StepState.other s) = omega arith

-- The state of the step goes on.
pub state_left :
    (p : Position) (s t : StepState)
    → IsOnStep p
    → p.phase ≡ Phase.rolling_update
    → p.state ≡ s
    → suc (rank s) ≤ rank t
    → (q : Position) → q ≡ record p { state = t }
    → suc (left q) ≤ left p
state_left p s t on h k up q j =
    (let before = rolling_left p s h k in
      let after = ap left j ∙ rolling_left (record p { state = t }) t h refl in
      omega (arith, before, after, rank_small t, below p.step p.steps on.from_start on.before_end))

next_left :
    (p : Position)
    → IsOnStep p
    → p.phase ≡ Phase.rolling_update
    → p.state ≡ StepState.completed
    → p.step +ℤ pos 1 <ℤ pos p.steps
    → (q : Position) → q ≡ record p { step = p.step +ℤ pos 1; state = StepState.initial }
    → suc (left q) ≤ left p
next_left p on h k more q j =
    let before = rolling_left p _ h k in
    let next = record p { step = p.step +ℤ pos 1; state = StepState.initial } in
    let after = ap left j ∙ rolling_left next StepState.initial h refl in
    omega (
      int_laws,
      before,
      after,
      pos_part-next p.step on.from_start,
      below p.step p.steps on.from_start on.before_end,
    )

-- What changes the position brings the rollout nearer to its end.
pub Course-left :
    (p q : Position)
    → IsOnStep p
    → p.phase ≡ Phase.rolling_update
    → Course p q
    → (q ≡ p) ⊎ (suc (left q) ≤ left p)
Course-left p q on r (Course.start (inl k) h) =
    inr (state_left p StepState.initial StepState.upgrade on r k (omega arith) q h)
Course-left p q on r (Course.start (inr (s, k)) h) =
    inr (state_left p (StepState.other s) StepState.upgrade on r k (omega arith) q h)
Course-left p q on r (Course.wait k h) = inl h
Course-left p q on r (Course.block k h) =
    inr (state_left p StepState.upgrade StepState.blocking on r k (omega arith) q h)
Course-left p q on r (Course.hold k _ h) = inl h
Course-left p q on r (Course.pass k _ h) =
    inr (state_left p StepState.blocking StepState.completed on r k (omega arith) q h)
Course-left p q on r (Course.advance k more h) = inr (next_left p on r k more q h)
Course-left p q on r (Course.finish k end h) =
    let before = rolling_left p StepState.completed r k in
    inr (omega (arith, before, ap left h, below p.step p.steps on.from_start on.before_end))

pub Course-Move : (p q : Position) → IsRolling p.phase → Course p q → Move p q
Course-Move p q r (Course.start k h) = Move.start r k h
Course-Move p q r (Course.wait k h) = Move.stay h
Course-Move p q r (Course.block k h) = Move.block r k h
Course-Move p q r (Course.hold k _ h) = Move.stay h
Course-Move p q r (Course.pass k end h) = Move.pass r k end h
Course-Move p q r (Course.advance k more h) = Move.advance r k more h
Course-Move p q r (Course.finish k end h) = Move.finish r k end h
