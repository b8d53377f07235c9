-- ===== src/Executor/Safety/NewReplicaSet.antt =====
-- getNewReplicaSet: which nil pointers it may read, and the template of the set that it returns.
use batch_release.Base.{
  ℕ, ◌≡◌, refl, sym, ◌∙◌, subst, Bool, true, false, ◌&&◌, Option, List, if◌then◌else◌,
}
use batch_release.Base.GoMap.{entries}
use batch_release.Base.Int.{ℤ}
use batch_release.Base.Text.{Text}
use batch_release.Labels.Lookup.{IsMap}
use batch_release.Objects.{ReplicaSet, Deployment, PodTemplate, Selector}
use batch_release.Deployment.Find.{equal_ignore_hash, without_hash}
use batch_release.Executor.Monad.{
  Env, Call, Answer, answer, refuse, not_found, conflict, already_exists, namespace_terminating,
  other_error, create_replica_set, deref, throw, server, ◌>>=◌, ◌>>◌,
}
use batch_release.Executor.NewReplicaSet.{
  ask, hold_de, with_collision, fresh_replica_set, try_update_held_de_status, resolve_existing,
  note_creation, after_creation, create_new,
}
use batch_release.Executor.Revision.{
  max_rev_history_length_in_chars, set_new_replica_set_annotations,
}
use batch_release.Executor.Safety.{
  View, IsFit, Any, Safe, Safe-pure, Safe-throw, Safe-when, Safe-step, Safe-then,
}
use batch_release.Executor.Safety.Held.{
  KeepsSpecs, IsHeld, Safe-hold, holding_rules, try_update-Safe,
}
use batch_release.Executor.Safety.Creating.{
  ComparesTemplates, hashed_template, template-annotated, IsNew, IsNew-eq, note_creation-Safe,
  report_failure-Safe,
}
use batch_release.Executor.OldSets.{current_partition}
use batch_release.Executor.Safety.Scaling.{current_partition-Safe}

both : (a b : Bool) → (a && b) ≡ true → b ≡ true
both true b h = h
both false b h = cc

module _ (v : View) (w : Env) (keeps : KeepsSpecs w.client)
    (compares : ComparesTemplates w.vendor) where
  collided-Safe :
      (de : Deployment)
      → IsHeld v de
      → Safe v (IsNew v w) (do
        hold_de (with_collision de)
        try_update_held_de_status w
        throw (server already_exists))
  unfolding with_collision
  collided-Safe de held = Safe-then v (IsNew v w) _ _ (Safe-hold v (with_collision de) held) (
      Safe-then v (IsNew v w) _ _ (try_update-Safe v w keeps)
        (Safe-throw v (IsNew v w) (server already_exists)))

  -- The set of that name is the new one only where the templates are equal.
  resolved-Safe :
      (de : Deployment) (owned : Bool) (rs : ReplicaSet) (n : ℤ) (rev : Text)
      → IsHeld v de
      → Safe v (IsNew v w) (
          if owned && equal_ignore_hash w.vendor de.template rs.template
          then note_creation w true rs n rev
          else (do
            hold_de (with_collision de)
            try_update_held_de_status w
            throw (server already_exists)))
  unfolding equal_ignore_hash
  resolved-Safe de owned rs n rev held =
      Safe-when v (IsNew v w) _ _ _
        (λ equal. note_creation-Safe v w keeps true rs n rev (
          subst (λ (t : PodTemplate). equal_ignore_hash w.vendor rs.template t ≡ true) held.0
            (compares.swapped (without_hash de.template) (without_hash rs.template)
              (both owned _ equal))))
        (collided-Safe de held)

  resolve_existing-Safe :
      (rs : ReplicaSet) (n : ℤ) (rev : Text) → Safe v (IsNew v w) (resolve_existing w rs n rev)
  unfolding resolve_existing
  resolve_existing-Safe rs n rev = search (holding_rules, resolved-Safe) depth 12

  -- A set that the server has created has the template that was sent.
  abbrev IsNewAnswer : Answer ReplicaSet → Type 0
  IsNewAnswer (answer rs) = IsNew v w rs
  IsNewAnswer (refuse x) = Unit {0}

  after_creation-Safe :
      (a : Answer ReplicaSet) (rs : ReplicaSet) (n : ℤ) (rev : Text)
      → IsNewAnswer a
      → Safe v (IsNew v w) (after_creation w a rs n rev)
  unfolding after_creation
  after_creation-Safe (answer rs') rs n rev new = note_creation-Safe v w keeps false rs' n rev new
  after_creation-Safe (refuse already_exists) rs n rev h = resolve_existing-Safe rs n rev
  after_creation-Safe (refuse namespace_terminating) rs n rev h = Safe-throw v (IsNew v w) _
  after_creation-Safe (refuse not_found) rs n rev h = report_failure-Safe v w keeps not_found rs
  after_creation-Safe (refuse conflict) rs n rev h = report_failure-Safe v w keeps conflict rs
  after_creation-Safe (refuse other_error) rs n rev h = report_failure-Safe v w keeps other_error rs

  asked-Safe :
      (rs : ReplicaSet)
      → IsNew v w rs
      → Safe v IsNewAnswer
          (ask (λ calls. w.client.on_create_replica_set calls rs) (create_replica_set rs))
  asked-Safe rs new = record {
    run = λ e h. (h, known e.calls (w.client.on_create_replica_set e.calls rs) refl);
  }
    where
      known :
          (calls : List Call) (a : Answer ReplicaSet)
          → w.client.on_create_replica_set calls rs ≡ a
          → IsNewAnswer a
      known calls (answer rs') k = IsNew-eq v w keeps rs rs' (keeps.created calls rs rs' k) new
      known calls (refuse x) k = tt

  created-Safe :
      (rs : ReplicaSet) (n : ℤ) (rev : Text)
      → IsNew v w rs
      → Safe v (IsNew v w) (do
        created ← ask (λ calls. w.client.on_create_replica_set calls rs) (create_replica_set rs)
        after_creation w created rs n rev)
  created-Safe rs n rev new =
      Safe-step v IsNewAnswer (IsNew v w) _ _ (asked-Safe rs new)
        (λ a k. after_creation-Safe a rs n rev k)

module _ (v : View) (fit : IsFit v) (w : Env) (keeps : KeepsSpecs w.client)
    (compares : ComparesTemplates w.vendor) where
  IsNew-fresh :
      (de : Deployment) (selector : Selector)
      → IsHeld v de
      → IsNew v w (fresh_replica_set w de selector)
  unfolding fresh_replica_set
  IsNew-fresh de selector held =
      subst
        (λ (t : PodTemplate).
          equal_ignore_hash w.vendor (fresh_replica_set w de selector).template t ≡ true)
        held.0
        (hashed_template w.vendor compares de.template
          (subst (λ (t : PodTemplate). IsMap (entries t.labels)) (sym held.0) fit.labelled) _)

  selector-Safe : (de : Deployment) → IsHeld v de → Safe v Any (deref de.selector)
  selector-Safe de held =
      subst (λ (o : Option Selector). Safe v Any (deref o)) (sym (held.1 ∙ fit.selected.1))
        (Safe-pure v fit.selected.0)

  -- Neither its size nor its annotations change the template of the set that is sent.
  IsNew-sized :
      (de : Deployment) (selector : Selector) (surge size : ℤ) (rev : Text) (limit : ℕ)
      → IsHeld v de
      → IsNew v w
          (set_new_replica_set_annotations de surge
            (record (fresh_replica_set w de selector) { replicas = size })
            rev
            false
            limit).0
  IsNew-sized de selector surge size rev limit held =
      let sized = record (fresh_replica_set w de selector) { replicas = size } in
      IsNew-eq v w keeps (fresh_replica_set w de selector)
        (set_new_replica_set_annotations de surge sized rev false limit).0
        (template-annotated de surge sized rev false limit) (IsNew-fresh de selector held)

  partition-Safe : Safe v Any current_partition
  partition-Safe = current_partition-Safe v fit.on_step

  created_fresh-Safe :
      (de : Deployment) (selector : Selector) (surge size count : ℤ) (rev : Text)
      → IsHeld v de
      → let new_rs =
          (set_new_replica_set_annotations de surge
            (record (fresh_replica_set w de selector) { replicas = size })
            rev
            false
            max_rev_history_length_in_chars).0 in
        Safe v (IsNew v w) (do
          created ←
              ask (λ calls. w.client.on_create_replica_set calls new_rs) (create_replica_set new_rs)
          after_creation w created new_rs count rev)
  created_fresh-Safe de selector surge size count rev held =
      created-Safe v w keeps compares _ count rev
        (IsNew-sized de selector surge size rev max_rev_history_length_in_chars held)

  pub create_new-Safe :
      (rss : List ReplicaSet) (rev : Text) → Safe v (IsNew v w) (create_new w rss rev)
  unfolding create_new
  create_new-Safe rss rev =
      search (holding_rules, selector-Safe, partition-Safe, created_fresh-Safe) depth 16
