-- ===== src/Command.antt =====
-- The command (cmd/main.go), with SetupWithManager (internal/controller/batchrelease_controller.go):
-- its flags, the options of its servers, and the calls that start the manager. The packages flag and
-- controller-runtime are parameters. Left out are the options of the logger, the registration of the
-- types, and ctrl.GetConfigOrDie: where one of these fails, the program ends before the first call.
pub mod Servers
pub mod Order
use batch_release.Base.{
  Bool, true, false, not, ◌||◌, Option, none, some, List, [], ◌∷◌, ◌++◌, if◌then◌else◌,
}
use batch_release.Base.Text.{Text, codes}

-- What flag.Parse leaves in the variable of a flag, by the flag's name and its default.
pub record Flags : Type 0 where
  pub string_var : Text → Text → Text
  pub bool_var : Text → Bool → Bool

-- A certificate: its directory, and the names of its file and of its key's.
pub record Certificate : Type 0 where
  pub path : Text
  pub name : Text
  pub key : Text

-- The variables of main.
pub record Settings : Type 0 where
  pub metrics_addr : Text
  pub metrics_cert : Certificate
  pub webhook_cert : Certificate
  pub enable_leader_election : Bool
  pub probe_addr : Text
  pub secure_metrics : Bool
  pub enable_http2 : Bool

unfoldable pub settings_of : Flags → Settings
settings_of flags = record {
  metrics_addr = flags.string_var (codes "metrics-bind-address") (codes "0");
  metrics_cert = record {
    path = flags.string_var (codes "metrics-cert-path") [];
    name = flags.string_var (codes "metrics-cert-name") (codes "tls.crt");
    key = flags.string_var (codes "metrics-cert-key") (codes "tls.key");
  };
  webhook_cert = record {
    path = flags.string_var (codes "webhook-cert-path") [];
    name = flags.string_var (codes "webhook-cert-name") (codes "tls.crt");
    key = flags.string_var (codes "webhook-cert-key") (codes "tls.key");
  };
  enable_leader_election = flags.bool_var (codes "leader-elect") false;
  probe_addr = flags.string_var (codes "health-probe-bind-address") (codes ":8081");
  secure_metrics = flags.bool_var (codes "metrics-secure") true;
  enable_http2 = flags.bool_var (codes "enable-http2") false;
}

-- The field of tls.Config that main assigns.
pub record TlsConfig : Type 0 where
  pub next_protos : List Text

unfoldable pub disable_http2 : TlsConfig → TlsConfig
disable_http2 c = record c { next_protos = codes "http/1.1" ∷ [] }

unfoldable pub tls_opts : Settings → List (TlsConfig → TlsConfig)
tls_opts s = if s.enable_http2 then [] else disable_http2 ∷ []

-- webhook.Options
pub record WebhookOptions : Type 0 where
  pub tls_opts : List (TlsConfig → TlsConfig)
  pub cert_dir : Text
  pub cert_name : Text
  pub key_name : Text

-- The only filter that main uses.
pub data FilterProvider : Type 0 where
  with_authentication_and_authorization : FilterProvider

-- metricsserver.Options
pub record MetricsOptions : Type 0 where
  pub bind_address : Text
  pub secure_serving : Bool
  pub tls_opts : List (TlsConfig → TlsConfig)
  pub filter_provider : Option FilterProvider
  pub cert_dir : Text
  pub cert_name : Text
  pub key_name : Text

abbrev is_given : Text → Bool
is_given [] = false
is_given (c ∷ s) = true

unfoldable pub webhook_server_options : Settings → WebhookOptions
webhook_server_options s =
    let options : WebhookOptions = record {
      tls_opts = tls_opts s;
      cert_dir = [];
      cert_name = [];
      key_name = [];
    } in
    if is_given s.webhook_cert.path
    then record options {
      cert_dir = s.webhook_cert.path;
      cert_name = s.webhook_cert.name;
      key_name = s.webhook_cert.key;
    }
    else options

unfoldable pub metrics_server_options : Settings → MetricsOptions
metrics_server_options s =
    let options : MetricsOptions = record {
      bind_address = s.metrics_addr;
      secure_serving = s.secure_metrics;
      tls_opts = tls_opts s;
      filter_provider = none;
      cert_dir = [];
      cert_name = [];
      key_name = [];
    } in
    let filtered =
      (if s.secure_metrics
        then record options { filter_provider = some with_authentication_and_authorization }
        else options) in
    if is_given s.metrics_cert.path
    then record filtered {
      cert_dir = s.metrics_cert.path;
      cert_name = s.metrics_cert.name;
      key_name = s.metrics_cert.key;
    }
    else filtered

-- The fields of ctrl.Options that main sets; the scheme is a constant.
pub record ManagerOptions : Type 0 where
  pub metrics : MetricsOptions
  pub webhook_server : WebhookOptions
  pub health_probe_bind_address : Text
  pub leader_election : Bool
  pub leader_election_id : Text

unfoldable pub manager_options : Settings → ManagerOptions
manager_options s = record {
  metrics = metrics_server_options s;
  webhook_server = webhook_server_options s;
  health_probe_bind_address = s.probe_addr;
  leader_election = s.enable_leader_election;
  leader_election_id = codes "33402b1f.yuyy.com";
}

-- The objects of a controller, and the handlers of those that it watches.
pub data Kind : Type 0 where
  batch_release_kind replica_set_kind deployment_kind : Kind

pub data Handler : Type 0 where
  enqueue_request_for_replicaset enqueue_request_for_deployment : Handler

-- The calls of controller-runtime that may fail, or that a later one rests on.
pub data SetupCall : Type 0 where
  new_manager : ManagerOptions → SetupCall
  get_event_recorder_for : Text → SetupCall
  complete : Text → Kind → List (Kind × Handler) → SetupCall
  add_healthz_check add_readyz_check : Text → SetupCall
  start : SetupCall

-- Whether main goes on, or has exited with status 1 and a message.
pub data Progress : Type 0 where
  going : Progress
  exited : Text → Progress

-- The calls made so far, the latest first, are carried along.
abbrev pub Main : Type 0
Main = List SetupCall → Progress × List SetupCall

-- The next call, after a call that did not make main exit.
abbrev pub after : Main → Progress × List SetupCall → Progress × List SetupCall
after k (going, calls) = k calls
after k (exited message, calls) = (exited message, calls)

infixl 20 ◌>>◌
abbrev pub ◌>>◌ : Main → Main → Main
(m >> k) calls = after k (m calls)

-- `if err := ...; err != nil { setupLog.Error(err, message); os.Exit(1) }`
abbrev pub or_exit : Bool → Text → Progress
or_exit true message = going
or_exit false message = exited message

-- Whether controller-runtime accepts a call, by the calls before it.
module _ (accepts : List SetupCall → SetupCall → Bool) where
  abbrev pub attempt : SetupCall → Text → Main
  attempt call message calls = (or_exit (accepts calls call) message, call ∷ calls)

  -- A call that returns no error.
  abbrev pub perform : SetupCall → Main
  perform call calls = (going, call ∷ calls)

  -- SetupWithManager, with what its caller logs of its error.
  unfoldable pub setup_with_manager : Text → Main
  setup_with_manager message = do
    perform (get_event_recorder_for (codes "batch-release-controller"))
    attempt
        (complete (codes "batchrelease") batch_release_kind (
          (replica_set_kind, enqueue_request_for_replicaset)
          ∷ (deployment_kind, enqueue_request_for_deployment)
          ∷ []))
        message

  unfoldable pub main : Flags → Main
  main flags = do
    attempt (new_manager (manager_options (settings_of flags))) (codes "unable to start manager")
    setup_with_manager (codes "unable to create controller")
    attempt (add_healthz_check (codes "healthz")) (codes "unable to set up health check")
    attempt (add_readyz_check (codes "readyz")) (codes "unable to set up ready check")
    attempt start (codes "problem running manager")
