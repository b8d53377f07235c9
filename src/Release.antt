-- ===== src/Release.antt =====
-- The BatchRelease resource (api/v1alpha1/batchrelease_types.go). A phase or a step state is a
-- string in the source: a value that is none of the constants is kept in `other`.
use batch_release.Base.{ℕ, Option, List}
use batch_release.Base.Int.{ℤ}
use batch_release.Base.Text.{Text, codes}
use batch_release.Base.GoMap.{GoMap}
use batch_release.Objects.{IntOrString, PodTemplate}

pub record WorkloadRef : Type 0 where
  pub api_version : Text
  pub kind : Text
  pub name : Text

pub record Step : Type 0 where
  pub replicas : IntOrString

pub record Strategy : Type 0 where
  pub steps : List Step

pub record BatchReleaseSpec : Type 0 where
  pub workload_ref : WorkloadRef
  pub strategy : Strategy
  pub template : PodTemplate

pub data Phase : Type 0 where
  initial rolling_update rolling_back finalizing completed : Phase
  other : Text → Phase

pub data StepState : Type 0 where
  initial upgrade blocking completed : StepState
  other : Text → StepState

abbrev pub step_blocking_message : Text
step_blocking_message = codes "Step is in blocking state and needs to be continued manually"

abbrev pub current_stable_reversion_key : Text
current_stable_reversion_key = codes "current-stable-reversion"

abbrev pub current_stable_reversion_raw_key : Text
current_stable_reversion_raw_key = codes "current-stable-reversion-raw"

abbrev pub last_stable_reversion_key : Text
last_stable_reversion_key = codes "last-stable-reversion"

abbrev pub last_stable_reversion_raw_key : Text
last_stable_reversion_raw_key = codes "last-stable-reversion-raw"

abbrev pub rollback_mark : Text
rollback_mark = codes "rollback"

abbrev pub reason_step_blocking : Text
reason_step_blocking = codes "StepBlocking"

abbrev pub control_info_anno : Text
control_info_anno = codes "batch-release.rollouts.yuyy.com/control-info"

pub record BatchReleaseStatus : Type 0 where
  pub phase : Phase
  pub current_step_index : ℤ
  pub current_step_state : StepState
  pub updated_ready_replicas : ℤ
  pub max_unavailable : Option IntOrString
  pub max_surge : Option IntOrString
  pub reason : Text
  pub message : Text
  pub observed_generation : ℤ
  pub observed_update_reversion : Text
  pub last_update_time : Option ℕ

pub record BatchRelease : Type 0 where
  pub name : Text
  pub namespace : Text
  pub generation : ℤ
  pub annotations : GoMap
  pub spec : BatchReleaseSpec
  pub status : BatchReleaseStatus
