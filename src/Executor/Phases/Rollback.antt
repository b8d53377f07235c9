-- ===== src/Executor/Phases/Rollback.antt =====
-- A rollback brings back the template that was recorded as the stable one.
use batch_release.Base.{◌≡◌, refl, ap, ◌∙◌, Bool, true, false, Option, some, [], ◌∷◌, if◌then◌else◌}
use batch_release.Base.GoMap.{GoMap, get, put, or_empty, make_if_nil, get-put}
use batch_release.Base.Text.{Text, codes, text_eq, text_eq_refl}
use batch_release.Objects.{PodTemplate}
use batch_release.Release.{
  Phase, rollback_mark, current_stable_reversion_key, current_stable_reversion_raw_key,
  last_stable_reversion_key, last_stable_reversion_raw_key,
}
use batch_release.Executor.Monad.{Env, Executor, pure, record_event, ◌>>◌}
use batch_release.Executor.Phases.{
  is_some, is_pre_rollback, phase_case, pre_rollback, stable_annotations, template_hash,
  with_rollback,
}
use batch_release.Executor.Steps.{no_requeue}
use batch_release.Executor.Store.{update_br}

get-put_same : (k v : Text) (m : GoMap) → get k (put k v m) ≡ some v
get-put_same k v m = get-put k k v m ∙ rw (text_eq_refl k) refl

get-put_other : (k j v : Text) (m : GoMap) → text_eq k j ≡ false → get j (put k v m) ≡ get j m
get-put_other k j v m h = get-put k j v m ∙ rw h refl

get-if :
    (j : Text) (b : Bool) (x y : GoMap) (r : Option Text)
    → get j x ≡ r
    → get j y ≡ r
    → get j (if b then x else y) ≡ r
get-if j true x y r h k = h
get-if j false x y r h k = k

-- What recordStableVersion writes is found under its keys, which differ.
module _ (hash yaml csv csvr : Text) (m : GoMap) where
  abbrev current : GoMap
  current =
      put current_stable_reversion_raw_key yaml
        (put current_stable_reversion_key hash (make_if_nil m))

  beside_last :
      (j x y : Text)
      → text_eq last_stable_reversion_raw_key j ≡ false
      → text_eq last_stable_reversion_key j ≡ false
      → (n : GoMap)
      → get j (put last_stable_reversion_raw_key x (put last_stable_reversion_key y n)) ≡ get j n
  beside_last j x y h k n =
      get-put_other last_stable_reversion_raw_key j x (put last_stable_reversion_key y n) h
      ∙ get-put_other last_stable_reversion_key j y n k

  pub get_current :
      get current_stable_reversion_key (stable_annotations hash yaml csv csvr m) ≡ some hash
  unfolding stable_annotations text_eq
  get_current =
      let n = put current_stable_reversion_key hash (make_if_nil m) in
      let found =
        get-put_other current_stable_reversion_raw_key current_stable_reversion_key yaml n refl
        ∙ get-put_same current_stable_reversion_key hash (make_if_nil m) in
      get-if current_stable_reversion_key (text_eq csv []) _ _ (some hash)
        (beside_last current_stable_reversion_key yaml hash refl refl _ ∙ found)
        (beside_last current_stable_reversion_key csvr csv refl refl _ ∙ found)

  get_current_raw :
      get current_stable_reversion_raw_key (stable_annotations hash yaml csv csvr m) ≡ some yaml
  unfolding stable_annotations text_eq
  get_current_raw =
      let found =
        get-put_same current_stable_reversion_raw_key yaml
          (put current_stable_reversion_key hash (make_if_nil m)) in
      get-if current_stable_reversion_raw_key (text_eq csv []) _ _ (some yaml)
        (beside_last current_stable_reversion_raw_key yaml hash refl refl _ ∙ found)
        (beside_last current_stable_reversion_raw_key csvr csv refl refl _ ∙ found)

  module _ (another : text_eq csv [] ≡ false) where
    pub get_last :
        get last_stable_reversion_key (stable_annotations hash yaml csv csvr m) ≡ some csv
    unfolding stable_annotations text_eq
    get_last = rw another (
        get-put_other last_stable_reversion_raw_key last_stable_reversion_key csvr
          (put last_stable_reversion_key csv current) refl
        ∙ get-put_same last_stable_reversion_key csv current)

    get_last_raw :
        get last_stable_reversion_raw_key (stable_annotations hash yaml csv csvr m) ≡ some csvr
    unfolding stable_annotations
    get_last_raw = rw another (
        get-put_same last_stable_reversion_raw_key csvr (put last_stable_reversion_key csv current))

module _ (w : Env) (t : PodTemplate) where
  pre_rollback-restores :
      (e : Executor) (reversion pod_template : Text)
      → text_eq reversion (template_hash w e) ≡ false
      → w.vendor.yaml_unmarshal pod_template ≡ some t
      → pre_rollback w reversion pod_template e
        ≡ (update_br w (with_rollback w t) >> pure no_requeue)
            (record e { events = codes "RollbackStarted" ∷ e.events })
  unfolding pre_rollback template_hash
  pre_rollback-restores e reversion pod_template differs read = rw (differs, read) refl

  -- The same with what the annotations hold, after the event that the switch records.
  requested-restores :
      (e : Executor) (reversion pod_template : Text) (o p : Option Text)
      → o ≡ some reversion
      → p ≡ some pod_template
      → text_eq reversion (template_hash w e) ≡ false
      → w.vendor.yaml_unmarshal pod_template ≡ some t
      → (record_event (codes "RollbackRequested") >> pre_rollback w (or_empty o) (or_empty p)) e
        ≡ (update_br w (with_rollback w t) >> pure no_requeue)
            (record e { events = codes "RollbackStarted" ∷ codes "RollbackRequested" ∷ e.events })
  unfolding template_hash
  requested-restores e reversion pod_template o p h k differs read =
      let e' = record e { events = codes "RollbackRequested" ∷ e.events } in
      ap (λ (x : Option Text). pre_rollback w (or_empty x) (or_empty p) e') h
      ∙ ap (λ (x : Option Text). pre_rollback w reversion (or_empty x) e') k
      ∙ pre_rollback-restores e' reversion pod_template differs read

module _ (w : Env) (hash yaml csv csvr mark : Text) (m : GoMap) (e : Executor)
    (recorded : e.br.annotations
      ≡ put rollback_mark mark (stable_annotations hash yaml csv csvr m)) where
  pub marked : is_pre_rollback e ≡ true
  unfolding is_pre_rollback
  marked =
      ap (λ (n : GoMap). is_some (get rollback_mark n)) recorded
      ∙ ap is_some (get-put_same rollback_mark mark (stable_annotations hash yaml csv csvr m))

  pub under_mark :
      (k : Text) (o : Option Text)
      → text_eq rollback_mark k ≡ false
      → get k (stable_annotations hash yaml csv csvr m) ≡ o
      → get k e.br.annotations ≡ o
  under_mark k o h found =
      ap (get k) recorded
      ∙ get-put_other rollback_mark k mark (stable_annotations hash yaml csv csvr m) h
      ∙ found

  -- The switch in the phase RollingUpdate takes the last template that was recorded.
  pub rolling-restores :
      (t : PodTemplate)
      → text_eq hash (template_hash w e) ≡ false
      → w.vendor.yaml_unmarshal yaml ≡ some t
      → phase_case w Phase.rolling_update e e
        ≡ (update_br w (with_rollback w t) >> pure no_requeue)
            (record e { events = codes "RollbackStarted" ∷ codes "RollbackRequested" ∷ e.events })
  unfolding phase_case text_eq
  rolling-restores t differs read = rw marked (
      requested-restores w t e hash yaml _ _
        (under_mark current_stable_reversion_key (some hash) refl
          (get_current hash yaml csv csvr m))
        (under_mark current_stable_reversion_raw_key (some yaml) refl
          (get_current_raw hash yaml csv csvr m))
        differs read)

  -- The switch in the phase Completed takes the one that was recorded before the last.
  pub completed-restores :
      (t : PodTemplate)
      → text_eq csv [] ≡ false
      → text_eq csv (template_hash w e) ≡ false
      → w.vendor.yaml_unmarshal csvr ≡ some t
      → phase_case w Phase.completed e e
        ≡ (update_br w (with_rollback w t) >> pure no_requeue)
            (record e { events = codes "RollbackStarted" ∷ codes "RollbackRequested" ∷ e.events })
  unfolding phase_case text_eq
  completed-restores t another differs read = rw marked (
      requested-restores w t e csv csvr _ _
        (under_mark last_stable_reversion_key (some csv) refl
          (get_last hash yaml csv csvr m another))
        (under_mark last_stable_reversion_raw_key (some csvr) refl
          (get_last_raw hash yaml csv csvr m another))
        differs read)
