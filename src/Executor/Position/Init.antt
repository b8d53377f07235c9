-- ===== src/Executor/Position/Init.antt =====
-- init leaves the position as it is, or takes the deployment over.
use batch_release.Base.{
  ◌≡◌, ◌⊎◌, refl, inl, inr, Bool, true, false, not, ◌||◌, Option, none, some, if◌then◌else◌,
}
use batch_release.Base.GoMap.{get}
use batch_release.Objects.{RollingUpdate}
use batch_release.Release.{current_stable_reversion_key}
use batch_release.Executor.Monad.{Env, Executor, M, Result, ok, err, panic}
use batch_release.Executor.Phases.{
  is_some, record_stable_version, save_limits, take_over, initialise,
}
use batch_release.Executor.Store.{update_de}
use batch_release.Executor.Position.{Position, position}
use batch_release.Executor.Position.Move.{taken}
use batch_release.Executor.Position.Storing.{IsRetry, update_de-Stays, record_stable_version-Stays}

-- What init leaves: the position as it was, or taken over.
abbrev pub Entered : Position → Result Bool × Executor → Type 0
Entered p (ok true, e) = position e ≡ taken p
Entered p (ok false, e) = position e ≡ p
Entered p (err x, e) = (position e ≡ p) ⊎ (position e ≡ taken p)
Entered p (panic x, e) = (position e ≡ p) ⊎ (position e ≡ taken p)

after_taken :
    (p : Position) (r : Result (Unit {0}) × Executor)
    → position r.1 ≡ taken p
    → Entered p (elim r.0 as (λ _. Result Bool × Executor) [
      | ok u ↦ (ok true, r.1)
      | err x ↦ (err x, r.1)
      | panic x ↦ (panic x, r.1)
    ])
after_taken p (ok u, e) h = h
after_taken p (err x, e) h = inr h
after_taken p (panic x, e) h = inr h

after_same :
    (p : Position) (r : Result (Unit {0}) × Executor)
    → position r.1 ≡ p
    → Entered p (elim r.0 as (λ _. Result Bool × Executor) [
      | ok u ↦ (ok false, r.1)
      | err x ↦ (err x, r.1)
      | panic x ↦ (panic x, r.1)
    ])
after_same p (ok u, e) h = h
after_same p (err x, e) h = inl h
after_same p (panic x, e) h = inl h

Entered-if :
    (p : Position) (e : Executor) (b : Bool) (m n : M Bool)
    → Entered p (m e)
    → Entered p (n e)
    → Entered p ((if b then m else n) e)
Entered-if p e true m n s t = s
Entered-if p e false m n s t = t

module _ (w : Env) (retry : IsRetry w) where
  take_over-Entered : (e : Executor) → Entered (position e) (take_over w e)
  unfolding take_over
  take_over-Entered e =
      after_taken (position e) (update_de w _ _) ((update_de-Stays w retry _).same _)

  save_limits-Entered :
      (limits : Option RollingUpdate) (e : Executor) → Entered (position e) (save_limits w limits e)
  unfolding save_limits
  save_limits-Entered none e = inl refl
  save_limits-Entered (some limits) e = refl

  pub initialise-Entered : (e : Executor) → Entered (position e) (initialise w e)
  unfolding initialise
  initialise-Entered e =
      Entered-if (position e) e
        (not (is_some e.br.status.max_unavailable) || not (is_some e.br.status.max_surge)) _ _
        (save_limits-Entered e.de.rolling_update e)
        (Entered-if (position e) e
          (not (is_some (get current_stable_reversion_key e.br.annotations))) _ _
          (after_same (position e) (record_stable_version w e.de.template e)
            ((record_stable_version-Stays w retry e.de.template).same e))
          (take_over-Entered e))
