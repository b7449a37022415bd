-- ===== src/Config/Mutual.antt =====
-- What `SetupTLSConfig` makes of a configuration.
use smolkafka.Prelude.{
  ◌≡◌, sym, ◌∙◌, arith, ap, inl, inr, true, none, some, List, if◌then◌else◌, Option-cases,
}
use smolkafka.Exec.{ok, Result-cases}
use smolkafka.Bytes.{Bytes}
use smolkafka.Config.{
  is_set, TlsConfig, no_client_cert, require_and_verify_client_cert, Settings, Crypto,
  zero_settings, own_certificate, verified_by, authority, with_authority, setup_tls_config,
}

-- The authority `ca` is read from the file that the configuration names.
pub record IsAuthority {C P : Type 0} (crypto : Crypto C P) (cfg : TlsConfig) (ca : P)
    : Type 0 where
  pub bytes : Bytes
  pub read_lem : crypto.read_file cfg.ca_file ≡ ok bytes
  pub parsed : crypto.pool_of bytes ≡ some ca

module _ {C P : Type 0} (crypto : Crypto C P) where
  authority-IsAuthority :
      (cfg : TlsConfig) (ca : P) → authority crypto cfg ≡ ok ca → IsAuthority crypto cfg ca
  unfolding authority
  authority-IsAuthority cfg ca e = elim (Result-cases (crypto.read_file cfg.ca_file)) [
    | inr (x, r) ↦ absurd (ground (arith, e, r))
    | inl (b, r) ↦ elim (Option-cases (crypto.pool_of b)) [
      | inl p ↦ absurd (ground (arith, e, r, p))
      | inr (ca', p) ↦ record { bytes = b; read_lem = r; parsed = ground (arith, e, r, p) }
    ]
  ]

  authority_of :
      (cfg : TlsConfig) (certs : List C) (t : Settings C P)
      → is_set cfg.ca_file ≡ true
      → own_certificate crypto cfg ≡ ok certs
      → setup_tls_config crypto cfg ≡ ok t
      → (ca : P) × (authority crypto cfg ≡ ok ca)
        × (t ≡ verified_by crypto cfg ca (record zero_settings { certificates = certs }))
  unfolding setup_tls_config with_authority
  authority_of cfg certs t named own e = elim (Result-cases (authority crypto cfg)) [
    | inr (x, q) ↦ absurd (ground (arith, e, own, named, q))
    | inl (ca, q) ↦ (ca, q, ground (arith, e, own, named, q))
  ]

  own_of :
      (cfg : TlsConfig) (t : Settings C P)
      → setup_tls_config crypto cfg ≡ ok t
      → (certs : List C) × (own_certificate crypto cfg ≡ ok certs)
  unfolding setup_tls_config
  own_of cfg t e = elim (Result-cases (own_certificate crypto cfg)) [
    | inr (x, r) ↦ absurd (ground (arith, e, r))
    | inl (certs, r) ↦ (certs, r)
  ]

  verified_by_lem :
      (cfg : TlsConfig) (ca : P) (certs : List C)
      → let t = verified_by crypto cfg ca (record zero_settings { certificates = certs }) in
        (t.client_cas ≡ (if cfg.server then some ca else none))
        × (t.root_cas ≡ (if cfg.server then none else some ca))
        × (t.client_auth ≡ (if cfg.server then require_and_verify_client_cert else no_client_cert))
        × (t.server_name ≡ cfg.server_address)
        × (t.certificates ≡ certs)
  unfolding verified_by
  verified_by_lem cfg ca certs =
      (ground arith, ground arith, ground arith, ground arith, ground arith)

  -- Where an authority is named, what `SetupTLSConfig` returns has the authority read from that file:
  -- a server for its clients, whose certificates it requires, and a client for the server.
  pub setup_tls_config-IsAuthority :
      (cfg : TlsConfig) (t : Settings C P)
      → is_set cfg.ca_file ≡ true
      → setup_tls_config crypto cfg ≡ ok t
      → (ca : P) × IsAuthority crypto cfg ca
        × (t.client_cas ≡ (if cfg.server then some ca else none))
        × (t.root_cas ≡ (if cfg.server then none else some ca))
        × (t.client_auth ≡ (if cfg.server then require_and_verify_client_cert else no_client_cert))
        × (t.server_name ≡ cfg.server_address)
        × (own_certificate crypto cfg ≡ ok t.certificates)
  setup_tls_config-IsAuthority cfg t named e =
      let (certs, own) = own_of cfg t e in
      let (ca, parsed, same) = authority_of cfg certs t named own e in
      let (clients, roots, auth, name, mine) = verified_by_lem cfg ca certs in
      (
        ca,
        authority-IsAuthority cfg ca parsed,
        ap (λ (s : Settings C P). s.client_cas) same ∙ clients,
        ap (λ (s : Settings C P). s.root_cas) same ∙ roots,
        ap (λ (s : Settings C P). s.client_auth) same ∙ auth,
        ap (λ (s : Settings C P). s.server_name) same ∙ name,
        own ∙ ap ok (sym mine ∙ ap (λ (s : Settings C P). s.certificates) (sym same)),
      )
