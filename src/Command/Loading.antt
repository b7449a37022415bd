-- ===== src/Command/Loading.antt =====
-- What `setupConfig` makes of the settings.
use smolkafka.Prelude.{◌≡◌, refl, ap, ◌∙◌, sym, arith, inl, inr, Bool, true, false, some, List, []}
use smolkafka.Exec.{Result, ok, Result-cases}
use smolkafka.Disk.{Name}
use smolkafka.Config.{
  is_set, TlsConfig, Settings, Crypto, require_and_verify_client_cert, own_certificate,
  setup_tls_config,
}
use smolkafka.Config.Mutual.{IsAuthority, setup_tls_config-IsAuthority}
use smolkafka.Wiring
use smolkafka.Command.{
  System, Flag, flags, declares, Viper, read_settings, server_files, peer_files, side, config_of,
  load, setup_config,
}
use smolkafka.Command.Keys.{acl_mode_file_key}

-- A key that is neither a flag nor in the configuration file has no text.
pub record IsBound {S : Type 0} (viper : Viper S) (fs : List Flag) (in_file : Name → Bool)
    : Type 0 where
  pub unbound_lem :
      (k : Name) (s : S) → declares k fs ≡ false → in_file k ≡ false → viper.get_string k s ≡ []

module _ {S C P : Type 0} (viper : Viper S) (crypto : Crypto C P) where
  load-config_of :
      (s : S) (c : Wiring.Config (Settings C P))
      → (load viper crypto s).0 ≡ ok c
      → (server : _) × (peer : _) × (side viper crypto (server_files viper crypto s) ≡ ok server)
        × (c ≡ config_of viper crypto server peer s)
        × ((load viper crypto s).1 ≡ s)
  unfolding load
  load-config_of s c e = elim (Result-cases (side viper crypto (server_files viper crypto s))) [
    | inr (x, r) ↦ absurd (ground (arith, e, r))
    | inl (server, r) ↦ elim (Result-cases (side viper crypto (peer_files viper crypto s))) [
      | inr (x, q) ↦ absurd (ground (arith, e, r, q))
      | inl (peer, q) ↦ (server, peer, r, ground (arith, e, r, q), rw (r, q) refl)
    ]
  ]

  setup_config-load :
      (s : S) (c : Wiring.Config (Settings C P))
      → (setup_config viper crypto s).0 ≡ ok c
      → ((load viper crypto (setup_config viper crypto s).1).0 ≡ ok c)
  unfolding setup_config
  setup_config-load s c e = elim (Result-cases (viper.config_flag s)) [
    | inr (x, r) ↦ absurd (ground (arith, e, r))
    | inl (file, r) ↦
        let read = read_settings viper crypto (viper.set_config_file file s) in
        elim (Result-cases read.0) [
          | inr (x, q) ↦ absurd (ground (arith, e, r, q))
          | inl (u, q) ↦
              let t = read.1 in
              let whole : setup_config viper crypto s ≡ load viper crypto t = rw (r, q) refl in
              let loaded : (load viper crypto t).0 ≡ ok c =
                ap (λ (x : Result (Wiring.Config (Settings C P)) × S). x.0) (sym whole) ∙ e in
              let (_, _, _, _, same) = load-config_of t c loaded in
              ap (λ x. (load viper crypto x).0)
                (ap (λ (x : Result (Wiring.Config (Settings C P)) × S). x.1) whole ∙ same)
              ∙ loaded
        ]
  ]

  -- The settings of a side whose certificate and key are named.
  side-some :
      (cfg : TlsConfig) (found : _)
      → is_set cfg.cert_file ≡ true
      → is_set cfg.key_file ≡ true
      → side viper crypto cfg ≡ ok found
      → (x : Settings C P) × (found ≡ some x) × (setup_tls_config crypto cfg ≡ ok x)
  unfolding side
  side-some cfg found cert key e = elim (Result-cases (setup_tls_config crypto cfg)) [
    | inr (y, r) ↦ absurd (ground (arith, e, r, cert, key))
    | inl (x, r) ↦ (x, ground (arith, e, r, cert, key), r)
  ]

  -- If the settings name a certificate, a key and an authority for the server and `setupConfig`
  -- succeeds, the agent's server has that certificate, requires a certificate of its clients, and
  -- verifies it by the authority read from that file.
  pub setup_config-mutual :
      (s : S) (c : Wiring.Config (Settings C P))
      → (setup_config viper crypto s).0 ≡ ok c
      → is_set (server_files viper crypto (setup_config viper crypto s).1).cert_file ≡ true
      → is_set (server_files viper crypto (setup_config viper crypto s).1).key_file ≡ true
      → is_set (server_files viper crypto (setup_config viper crypto s).1).ca_file ≡ true
      → (x : Settings C P) × (ca : P) × (c.server_tls_config ≡ some x)
        × (x.client_auth ≡ require_and_verify_client_cert)
        × (x.client_cas ≡ some ca)
        × IsAuthority crypto (server_files viper crypto (setup_config viper crypto s).1) ca
        × (own_certificate crypto (server_files viper crypto (setup_config viper crypto s).1)
            ≡ ok x.certificates)
  unfolding server_files config_of
  setup_config-mutual s c e cert key authority =
      let t = (setup_config viper crypto s).1 in
      let (server, peer, found, same, _) = load-config_of t c (setup_config-load s c e) in
      let (x, is, made) = side-some (server_files viper crypto t) server cert key found in
      let (ca, has, clients, roots, auth, name, own) =
        setup_tls_config-IsAuthority crypto (server_files viper crypto t) x authority made in
      (
        x,
        ca,
        ap (λ (k : Wiring.Config (Settings C P)). k.server_tls_config) same ∙ is,
        auth,
        clients,
        has,
        own,
      )

  -- Whatever the flag for the file of the ACL model says, the agent is given no such file, unless
  -- the configuration file has the key that `setupConfig` looks up: no flag has it.
  pub setup_config-acl_model_file :
      (sys : System) (hostname : Name) (in_file : Name → Bool) (s : S)
      (c : Wiring.Config (Settings C P))
      → IsBound viper (flags sys hostname) in_file
      → in_file acl_mode_file_key ≡ false
      → (setup_config viper crypto s).0 ≡ ok c
      → c.acl_model_file ≡ []
  unfolding flags declares config_of
  setup_config-acl_model_file sys hostname in_file s c bound absent e =
      let t = (setup_config viper crypto s).1 in
      let (server, peer, found, same, _) = load-config_of t c (setup_config-load s c e) in
      ap (λ (k : Wiring.Config (Settings C P)). k.acl_model_file) same
      ∙ bound.unbound_lem acl_mode_file_key t refl absent
