-- ===== src/Examples/Command.antt =====
-- The command where no flag is given, and the server for readiness refuses its check.
use batch_release.Base.{◌≡◌, Bool, true, false, none, some, List, [], ◌∷◌, if◌then◌else◌}
use batch_release.Base.Text.{codes}
use batch_release.Command.{
  Flags, TlsConfig, SetupCall, add_readyz_check, main, manager_options, settings_of,
  with_authentication_and_authorization,
}
use batch_release.Command.Order.{Ended, plan, main-Ended}
use batch_release.Command.Servers.{configured, manager_options-protects}

abbrev flags : Flags
flags = record { string_var = λ name default. default; bool_var = λ name default. default }

abbrev accepts : List SetupCall → SetupCall → Bool
accepts calls (add_readyz_check n) = false
accepts calls c = true

main-Ended_example : Ended accepts [] (plan flags) (main accepts flags [])
main-Ended_example = main-Ended accepts flags

abbrev http2 : TlsConfig
http2 = record { next_protos = codes "h2" ∷ [] }

manager_options-protects_example :
    let o = manager_options (settings_of flags) in
    let offered =
      (if flags.bool_var (codes "enable-http2") false
        then http2
        else record http2 { next_protos = codes "http/1.1" ∷ [] }) in
    (configured o.webhook_server.tls_opts http2 ≡ offered)
    × (configured o.metrics.tls_opts http2 ≡ offered)
    × (o.metrics.secure_serving ≡ flags.bool_var (codes "metrics-secure") true)
    × (o.metrics.filter_provider
        ≡ (if o.metrics.secure_serving then some with_authentication_and_authorization else none))
manager_options-protects_example = manager_options-protects flags http2
