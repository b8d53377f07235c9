-- ===== src/Command/Servers.antt =====
-- How the command serves: over which protocols, and who may read the metrics.
use batch_release.Base.{false, ◌≡◌, true, none, some, List, [], ◌∷◌, if◌then◌else◌, arith}
use batch_release.Base.Text.{codes}
use batch_release.Command.{
  Flags, settings_of, TlsConfig, disable_http2, tls_opts, webhook_server_options,
  metrics_server_options, manager_options, with_authentication_and_authorization,
}

-- A server applies the options to its configuration in their order.
abbrev pub configured : List (TlsConfig → TlsConfig) → TlsConfig → TlsConfig
configured [] c = c
configured (f ∷ fs) c = configured fs (f c)

-- Neither the webhook server nor the metrics server speaks HTTP/2 unless the flag enable-http2 is
-- set: without it each offers HTTP/1.1 alone, and with it the configuration stays as it is. The
-- metrics server serves securely exactly if the flag metrics-secure is set, and then, and only then,
-- lets authorized clients alone read. Both hold for all certificates.
pub manager_options-protects :
    (flags : Flags) (c : TlsConfig)
    → let o = manager_options (settings_of flags) in
      let offered =
        (if flags.bool_var (codes "enable-http2") false
          then c
          else record c { next_protos = codes "http/1.1" ∷ [] }) in
      (configured o.webhook_server.tls_opts c ≡ offered)
      × (configured o.metrics.tls_opts c ≡ offered)
      × (o.metrics.secure_serving ≡ flags.bool_var (codes "metrics-secure") true)
      × (o.metrics.filter_provider
          ≡ (if o.metrics.secure_serving then some with_authentication_and_authorization else none))
unfolding manager_options webhook_server_options metrics_server_options settings_of tls_opts
    disable_http2
manager_options-protects flags c = (ground arith, ground arith, ground arith, ground arith)
