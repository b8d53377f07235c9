-- ===== src/Examples/Sample.antt =====
-- A server that accepts everything, packages that behave as documented, and a small release of
-- ten replicas: the objects that the other examples share.
use batch_release.Base.{
  ℕ, ◌+◌, ◌-◌, ◌*◌, ◌/◌, ◌≡◌, refl, Bool, true, false, Option, none, some, [], ◌∷◌, if◌then◌else◌,
  leb, ◌==◌,
}
use batch_release.Base.Int.{ℤ, pos, leb_ℤ, pos_part}
use batch_release.Base.Text.{Text, codes, text_eq, text_eq_refl}
use batch_release.Objects.{
  IntOrString, int_value, str_value, PodTemplate, ReplicaSet, Deployment, rolling,
}
use batch_release.Release.{BatchRelease, Phase, StepState}
use batch_release.Vendor.{Vendor, IsVendor}
use batch_release.Executor.Monad.{Client, Env, Executor, answer, refuse, not_found}

-- The number in front of the first character that is no digit.
abbrev leading_number : ℕ → Text → ℕ
leading_number acc [] = acc
leading_number acc (c ∷ s) =
    let rest = leading_number (acc * 10 + (c - b'0')) s in
    if leb b'0' c then (if leb c b'9' then rest else acc) else acc

-- A percentage of a total, rounded up or down; "100%" is the total itself.
abbrev percent : Text → ℤ → Bool → ℤ × Bool
percent s t true = (
  if text_eq s (codes "100%") then t else pos ((leading_number 0 s * pos_part t + 99) / 100),
  false,
)
percent s t false =
    (if text_eq s (codes "100%") then t else pos (leading_number 0 s * pos_part t / 100), false)

abbrev scaled_value : IntOrString → ℤ → Bool → ℤ × Bool
scaled_value (int_value n) t up = (n, false)
scaled_value (str_value s) t up = percent s t up

abbrev value_or : Option IntOrString → IntOrString → IntOrString
value_or none d = d
value_or (some x) d = x

abbrev string_of : IntOrString → Text
string_of (int_value n) = []
string_of (str_value s) = s

abbrev pub vendor : Vendor
vendor = record {
  get_scaled_value = scaled_value;
  value_or_default = value_or;
  from_int = int_value;
  string = string_of;
  int32_min = λ a b. if leb_ℤ a b then a else b;
  int32_max = λ a b. if leb_ℤ a b then b else a;
  int_min = λ a b. if leb_ℤ a b then a else b;
  int_max = λ a b. if leb_ℤ a b then b else a;
  round_quotient = λ a b. pos ((2 * pos_part a + pos_part b) / (2 * pos_part b));
  deep_equal = λ s t. text_eq s.content t.content;
  dump = λ t. t.content;
  yaml_marshal = λ t. some t.content;
  yaml_unmarshal = λ s. some (record { labels = none; content = s });
  parse = λ s. str_value s;
  marshal_controller_ref = λ br. some br.name;
  is_valid_selector = λ s. true;
  is_controlled_by = λ rs d. true;
}

full_scale : (t : ℤ) (up : Bool) → scaled_value (str_value (codes "100%")) t up ≡ (t, false)
unfolding text_eq
full_scale t true = refl
full_scale t false = refl

default_value : (x d : IntOrString) → value_or (some x) d ≡ x
default_value x d = refl

pub vendor-IsVendor : IsVendor vendor
vendor-IsVendor = record {
  scaled_int = λ n t up. refl;
  scaled_full = full_scale;
  default_none = λ d. refl;
  default_some = default_value;
  from_int_value = λ n. refl;
  string_value = λ s. refl;
  int32_min_value = λ a b. refl;
  int32_max_value = λ a b. refl;
  int_min_value = λ a b. refl;
  int_max_value = λ a b. refl;
  deep_equal_refl = λ t. text_eq_refl t.content;
}

abbrev pub template : PodTemplate
template = record { labels = none; content = codes "v2" }

abbrev pub old_template : PodTemplate
old_template = record { labels = none; content = codes "v1" }

-- A replica set of a template, its age, its size, and how many of its pods are available.
abbrev pub replica_set : Text → PodTemplate → ℕ → ℕ → ℕ → ReplicaSet
replica_set name t created n available = record {
  name = name;
  namespace = codes "default";
  uid = name;
  labels = none;
  annotations = none;
  controller = some (codes "d");
  creation_timestamp = created;
  deletion_timestamp = none;
  replicas = pos n;
  min_ready_seconds = pos 0;
  selector = none;
  template = t;
  status = record {
    replicas = pos n;
    ready_replicas = pos available;
    available_replicas = pos available;
    conditions = [];
  };
}

abbrev pub deployment : Deployment
deployment = record {
  name = codes "web";
  namespace = codes "default";
  uid = codes "d";
  generation = pos 1;
  annotations = none;
  replicas = pos 10;
  selector = some (record { match_labels = none; match_expressions = none });
  template = template;
  paused = false;
  strategy_type = rolling;
  rolling_update =
      some (record {
        max_unavailable = some (int_value (pos 2));
        max_surge = some (int_value (pos 3));
      });
  min_ready_seconds = pos 0;
  progress_deadline_seconds = none;
  status = record {
    observed_generation = pos 1;
    replicas = pos 10;
    updated_replicas = pos 0;
    ready_replicas = pos 10;
    available_replicas = pos 10;
    unavailable_replicas = pos 0;
    conditions = [];
    collision_count = none;
  };
}

abbrev pub release_with : Phase → StepState → ℤ → BatchRelease
release_with phase state index = record {
  name = codes "release";
  namespace = codes "default";
  generation = pos 1;
  annotations = none;
  spec = record {
    workload_ref = record {
      api_version = codes "apps/v1";
      kind = codes "Deployment";
      name = codes "web";
    };
    strategy = record {
      steps =
          record { replicas = int_value (pos 2) }
          ∷ record { replicas = str_value (codes "50%") }
          ∷ record { replicas = str_value (codes "100%") }
          ∷ [];
    };
    template = template;
  };
  status = record {
    phase = phase;
    current_step_index = index;
    current_step_state = state;
    updated_ready_replicas = pos 0;
    max_unavailable = some (int_value (pos 2));
    max_surge = some (int_value (pos 3));
    reason = [];
    message = [];
    observed_generation = pos 1;
    observed_update_reversion = [];
    last_update_time = none;
  };
}

abbrev pub client : Client
client = record {
  on_patch_replica_set = λ calls from to. answer to;
  on_create_replica_set = λ calls rs. answer rs;
  on_get_replica_set = λ calls namespace name. refuse not_found;
  on_list_replica_sets = λ calls namespace selector. answer [];
  on_get_deployment = λ calls name namespace. answer deployment;
  on_update_deployment = λ calls d. answer d;
  on_update_deployment_status = λ calls d. answer d;
  on_patch_deployment = λ calls from to. answer to;
  on_get_batch_release =
      λ calls name namespace. answer (release_with Phase.initial StepState.initial (pos 0));
  on_update_batch_release = λ calls br. answer br;
  on_update_batch_release_status = λ calls br. answer br;
}

-- Go doubles the capacity of a small slice, so a power of two has no spare slot.
abbrev spare : ℕ → Bool
spare n = if n == 3 then true else false

abbrev pub env : Env
env = record {
  client = client;
  vendor = vendor;
  now = 1000;
  error_text = λ x. [];
  spare_capacity = spare;
  retry_on_conflict = λ m. m;
}

abbrev pub executor_at : Phase → StepState → ℤ → Executor
executor_at phase state index = record {
  br = release_with phase state index;
  de = deployment;
  calls = [];
  events = [];
}
