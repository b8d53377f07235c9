-- ===== src/Executor/Safety/Held.antt =====
-- The Deployment that the executor holds, and the template and the selector that a view names, where
-- the server's answer to a write of its status takes its place.
use batch_release.Base.{◌≡◌, ap, ◌∙◌, Bool, true, false, List, if◌then◌else◌}
use batch_release.Base.Text.{Text}
use batch_release.Objects.{ReplicaSet, Deployment, DeploymentCondition}
use batch_release.Deployment.Annotations.{set_deployment_revision}
use batch_release.Executor.Monad.{
  Env, Executor, Client, Call, answer, gets, M, ◌>>=◌, update_deployment_status,
}
use batch_release.Executor.NewReplicaSet.{
  hold_de, with_progressing, update_held_de_status, try_update_held_de_status,
}
use batch_release.Executor.Safety.{
  View, view, IsFit, Good, Any, Safe, safe_rules, Safe-value, Safe-pure, Safe-throw, Safe-gets,
  Safe-if, Safe-step, Safe-bind, Safe-then, Safe-answer, Safe-hold_de, Safe-catch,
  Safe-record_event,
}

-- The server stores the template and the selector that it is sent.
pub record KeepsSpecs (c : Client) : Type 0 where
  pub patched :
      (calls : List Call) (from to rs : ReplicaSet)
      → c.on_patch_replica_set calls from to ≡ answer rs
      → rs.template ≡ to.template
  pub created :
      (calls : List Call) (sent rs : ReplicaSet)
      → c.on_create_replica_set calls sent ≡ answer rs
      → rs.template ≡ sent.template
  pub updated :
      (calls : List Call) (sent d : Deployment)
      → c.on_update_deployment_status calls sent ≡ answer d
      → (d.template ≡ sent.template) × (d.selector ≡ sent.selector)

-- A Deployment with the template and the selector of the view.
abbrev pub IsHeld : View → Deployment → Type 0
IsHeld v d = (d.template ≡ v.template) × (d.selector ≡ v.selector)

pub IsHeld-if :
    (v : View) (b : Bool) (c d : Deployment)
    → IsHeld v c
    → IsHeld v d
    → IsHeld v (if b then c else d)
IsHeld-if v true c d h k = h
IsHeld-if v false c d h k = k

pub IsHeld-with_progressing :
    (v : View) (d : Deployment) (c : DeploymentCondition)
    → IsHeld v d
    → IsHeld v (with_progressing d c)
unfolding with_progressing
IsHeld-with_progressing v d c h = h

pub IsHeld-revised :
    (v : View) (d : Deployment) (rev : Text)
    → IsHeld v d
    → IsHeld v (set_deployment_revision d rev).0
unfolding set_deployment_revision
IsHeld-revised v d rev h = h

module _ (v : View) where
  pub Safe-hold : (d : Deployment) → IsHeld v d → Safe v Any (hold_de d)
  Safe-hold d h = Safe-hold_de v d h.0 h.1

  -- The Deployment that is held is read.
  pub read_de-Safe : Safe v (IsHeld v) (gets (λ (e : Executor). e.de))
  read_de-Safe = record {
    run = λ e h. (h, (ap (λ (u : View). u.template) h, ap (λ (u : View). u.selector) h));
  }

  pub Safe-with_de :
      {B : Type 0} (Q : B → Type 0) (f : Deployment → M B)
      → ((d : Deployment) → IsHeld v d → Safe v Q (f d))
      → Safe v Q (gets (λ (e : Executor). e.de) >>= f)
  Safe-with_de Q f t = Safe-step v (IsHeld v) Q (gets (λ (e : Executor). e.de)) f read_de-Safe t

pub ruleset holding_rules = (
  safe_rules, Safe-with_de, Safe-hold, Safe-value, IsHeld-if, IsHeld-with_progressing,
  IsHeld-revised,
)

module _ (v : View) (w : Env) (keeps : KeepsSpecs w.client) where
  pub update_held_de_status-Safe : Safe v Any (update_held_de_status w)
  unfolding update_held_de_status
  update_held_de_status-Safe = Safe-with_de v Any _ (λ d held.
      Safe-step v (IsHeld v) Any _ _
        (Safe-answer v (IsHeld v) (λ calls. w.client.on_update_deployment_status calls d)
          (update_deployment_status d)
          (λ calls a h.
            ((keeps.updated calls d a h).0 ∙ held.0, (keeps.updated calls d a h).1 ∙ held.1)))
        (Safe-hold v))

  pub try_update-Safe : Safe v Any (try_update_held_de_status w)
  unfolding try_update_held_de_status
  try_update-Safe = search (safe_rules, update_held_de_status-Safe)
