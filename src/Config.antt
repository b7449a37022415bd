-- ===== src/Config.antt =====
-- internal/config: where the files of a configuration are, and how they become settings of TLS. The
-- files, the environment and the cryptography are parameters.
pub mod Mutual
pub mod Files
use smolkafka.Prelude.{Bool, true, false, ◌&&◌, Option, none, some, List, [], ◌∷◌, if◌then◌else◌}
use smolkafka.Exec.{Error, Result, ok, err, bad_root_certificate, panic, map_result}
use smolkafka.Bytes.{Bytes}
use smolkafka.Disk.{Name}

-- Whether a string is not empty.
abbrev pub is_set : Name → Bool
is_set [] = false
is_set (c ∷ n) = true

-- What `configFile` asks of the system: an environment variable, which is empty where it is not set,
-- the home directory, and `filepath.Join`.
pub record System : Type 0 where
  pub getenv : Name → Name
  pub home_dir : Result Name
  pub join : List Name → Name

abbrev pub config_dir : Name
config_dir = b'C' ∷ b'O' ∷ b'N' ∷ b'F' ∷ b'I' ∷ b'G' ∷ b'_' ∷ b'D' ∷ b'I' ∷ b'R' ∷ []

abbrev pub home_config : Name
home_config = b'.' ∷ b'p' ∷ b'r' ∷ b'o' ∷ b'g' ∷ b'l' ∷ b'o' ∷ b'g' ∷ []

-- A home directory that is not known panics.
at_home : System → Name → Result Name → Result Name
at_home sys filename (ok home) = ok (sys.join (home ∷ home_config ∷ filename ∷ []))
at_home sys filename (err e) = err panic

-- `configFile`
pub config_file : System → Name → Result Name
config_file sys filename =
    let dir = sys.getenv config_dir in
    if is_set dir then ok (sys.join (dir ∷ filename ∷ [])) else at_home sys filename sys.home_dir

-- `TLSConfig`
pub record TlsConfig : Type 0 where
  pub cert_file : Name
  pub key_file : Name
  pub ca_file : Name
  pub server_address : Name
  pub server : Bool

-- `tls.ClientAuthType`, as far as the code sets it.
pub data ClientAuth : Type 0 where
  no_client_cert : ClientAuth
  require_and_verify_client_cert : ClientAuth

-- The fields of `tls.Config` that the code sets, with the types of certificates and of pools.
pub record Settings (C P : Type 0) : Type 0 where
  pub certificates : List C
  pub root_cas : Option P
  pub client_cas : Option P
  pub client_auth : ClientAuth
  pub server_name : Name

-- `tls.LoadX509KeyPair`, `os.ReadFile`, and `AppendCertsFromPEM` to a new pool, which may find no
-- certificate.
pub record Crypto (C P : Type 0) : Type 0 where
  pub load_key_pair : Name → Name → Result C
  pub read_file : Name → Result Bytes
  pub pool_of : Bytes → Option P

abbrev pub zero_settings : {C P : Type 0} → Settings C P
zero_settings = record {
  certificates = [];
  root_cas = none;
  client_cas = none;
  client_auth = no_client_cert;
  server_name = [];
}

module _ {C P : Type 0} (crypto : Crypto C P) where
  -- The certificate of the side that is set up, where both of its files are named.
  unfoldable pub own_certificate : TlsConfig → Result (List C)
  own_certificate cfg =
      if is_set cfg.cert_file && is_set cfg.key_file
      then map_result (λ c. c ∷ []) (crypto.load_key_pair cfg.cert_file cfg.key_file)
      else ok []

  -- The authority that the other side is verified by: a server verifies its clients.
  unfoldable pub verified_by : TlsConfig → P → Settings C P → Settings C P
  verified_by cfg ca t =
      if cfg.server
      then record t {
        client_cas = some ca;
        client_auth = require_and_verify_client_cert;
        server_name = cfg.server_address;
      }
      else record t { root_cas = some ca; server_name = cfg.server_address }

  unfoldable pub authority : TlsConfig → Result P
  authority cfg = elim (crypto.read_file cfg.ca_file) [
    | err e ↦ err e
    | ok b ↦ elim (crypto.pool_of b) [
      | some ca ↦ ok ca
      | none ↦ err (bad_root_certificate cfg.ca_file)
    ]
  ]

  unfoldable pub with_authority : TlsConfig → Settings C P → Result (Settings C P)
  with_authority cfg t =
      if is_set cfg.ca_file then map_result (λ ca. verified_by cfg ca t) (authority cfg) else ok t

  -- `SetupTLSConfig`
  unfoldable pub setup_tls_config : TlsConfig → Result (Settings C P)
  setup_tls_config cfg = elim (own_certificate cfg) [
    | ok certs ↦ with_authority cfg (record zero_settings { certificates = certs })
    | err e ↦ err e
  ]
