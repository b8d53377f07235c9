-- ===== src/Executor/Scale/Effects.antt =====
-- What scaling one replica set does: it asks the server for exactly the difference, and touches
-- neither of the executor's objects.
use batch_release.Base.{◌≡◌, refl, ◌∙◌, inl, inr, Bool, true, false, ◌∷◌, arith, Bool-cases}
use batch_release.Base.Int.{ℤ, ◌+ℤ◌, ◌-ℤ◌, eqb_ℤ, add32, int_laws, eq_of_parts}
use batch_release.Objects.{ReplicaSet, Deployment}
use batch_release.Deployment.Annotations.{
  set_replicas_annotations, replicas_annotations_need_update,
}
use batch_release.Executor.Monad.{Env, Executor, Ends, IsServer, patch_replica_set, Ends-send}
use batch_release.Executor.Requests.{requested}
use batch_release.Executor.Scale.{
  max_surge, resized, announce, send_resized, scale_replica_set, scale_replica_set_and_record_event,
}

pub resized-replicas :
    (rs : ReplicaSet) (n : ℤ) (d : Deployment) (surge : ℤ) → (resized rs n d surge).replicas ≡ n
unfolding resized set_replicas_annotations
resized-replicas rs n d surge = refl

-- The step from `e` to `e'` asks for `k` more replicas and keeps the two objects.
pub record Asks (k : ℤ) (e e' : Executor) : Type 0 where
  pub asked : requested e' ≡ requested e +ℤ k
  pub same_br : e'.br ≡ e.br
  pub same_de : e'.de ≡ e.de

pub Asks-trans : (j k : ℤ) (e e' e'' : Executor) → Asks j e e' → Asks k e' e'' → Asks (j +ℤ k) e e''
Asks-trans j k e e' e'' p q = record {
  asked = q.asked ∙ rw p.asked (omega int_laws);
  same_br = q.same_br ∙ p.same_br;
  same_de = q.same_de ∙ p.same_de;
}

pub Asks-none : (t : ℤ) (e : Executor) → Asks (t -ℤ t) e e
Asks-none t e = record { asked = omega int_laws; same_br = refl; same_de = refl }

-- The same request under another name of its number.
pub Asks-eq : (j k : ℤ) (e e' : Executor) → j ≡ k → Asks j e e' → Asks k e e'
Asks-eq j k e e' h p = rw (← h) p

module _ (w : Env) (rs : ReplicaSet) (n : ℤ) (d : Deployment) (e : Executor) where
  abbrev Done : Bool × ReplicaSet → Executor → Type 0
  Done r e' = Asks (n -ℤ rs.replicas) e e'

  unscaled : rs.replicas ≡ n → Asks (n -ℤ rs.replicas) e e
  unscaled h = record { asked = rw h (omega int_laws); same_br = refl; same_de = refl }

  sent : ReplicaSet
  sent = resized rs n d (max_surge w e)

  asks : Asks (n -ℤ rs.replicas) e (record e { calls = patch_replica_set rs sent ∷ e.calls })
  unfolding sent
  asks = record {
    asked = rw (resized-replicas rs n d (max_surge w e)) (omega int_laws);
    same_br = refl;
    same_de = refl;
  }

  send_resized-Asks : (grows : Bool) → Ends Done IsServer (send_resized w grows rs sent e)
  unfolding send_resized
  send_resized-Asks grows =
      Ends-send Done (λ calls. w.client.on_patch_replica_set calls rs sent)
        (patch_replica_set rs sent) (announce grows) e (λ a h. ends grows a)
    where
      ends :
          (g : Bool) (a : ReplicaSet)
          → Ends Done IsServer
              (announce g a (record e { calls = patch_replica_set rs sent ∷ e.calls }))
      ends true a = record { asked = asks.asked; same_br = refl; same_de = refl }
      ends false a = asks

  pub scale_replica_set-Asks : Ends Done IsServer (scale_replica_set w rs n d e)
  unfolding scale_replica_set sent
  scale_replica_set-Asks = elim (Bool-cases (eqb_ℤ rs.replicas n)) [
    | inl same ↦
        elim (Bool-cases
          (replicas_annotations_need_update rs d.replicas (add32 d.replicas (max_surge w e)))) [
            | inl stale ↦ rw (same, stale) (send_resized-Asks false)
            | inr fresh ↦ rw (same, fresh) (unscaled (eq_of_parts rs.replicas n (ground arith)))
          ]
    | inr differs ↦ rw (differs) (send_resized-Asks true)
  ]

  pub scale_replica_set_and_record_event-Asks :
      Ends Done IsServer (scale_replica_set_and_record_event w rs n d e)
  unfolding scale_replica_set_and_record_event
  scale_replica_set_and_record_event-Asks = elim (Bool-cases (eqb_ℤ rs.replicas n)) [
    | inl same ↦ rw same (unscaled (eq_of_parts rs.replicas n (ground arith)))
    | inr differs ↦ rw differs scale_replica_set-Asks
  ]
