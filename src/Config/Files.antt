-- ===== src/Config/Files.antt =====
-- The files that internal/config/files.go names, where `configFile` finds them. A package's variables
-- are set before anything runs, so that a home directory that is not known ends the program.
use smolkafka.Prelude.{[], ◌∷◌}
use smolkafka.Exec.{Exec, pure, lift, ◌>>=◌}
use smolkafka.Disk.{Name}
use smolkafka.Config.{System, config_file}

abbrev pub ca_name : Name
ca_name = b'c' ∷ b'a' ∷ b'.' ∷ b'p' ∷ b'e' ∷ b'm' ∷ []

abbrev pub server_cert_name : Name
server_cert_name = b's' ∷ b'e' ∷ b'r' ∷ b'v' ∷ b'e' ∷ b'r' ∷ b'.' ∷ b'p' ∷ b'e' ∷ b'm' ∷ []

abbrev pub server_key_name : Name
server_key_name =
    b's' ∷ b'e' ∷ b'r' ∷ b'v' ∷ b'e' ∷ b'r' ∷ b'-' ∷ b'k' ∷ b'e' ∷ b'y' ∷ b'.' ∷ b'p' ∷ b'e' ∷ b'm'
    ∷ []

abbrev pub client_cert_name : Name
client_cert_name = b'c' ∷ b'l' ∷ b'i' ∷ b'e' ∷ b'n' ∷ b't' ∷ b'.' ∷ b'p' ∷ b'e' ∷ b'm' ∷ []

abbrev pub client_key_name : Name
client_key_name =
    b'c' ∷ b'l' ∷ b'i' ∷ b'e' ∷ b'n' ∷ b't' ∷ b'-' ∷ b'k' ∷ b'e' ∷ b'y' ∷ b'.' ∷ b'p' ∷ b'e' ∷ b'm'
    ∷ []

abbrev pub root_client_cert_name : Name
root_client_cert_name =
    b'r' ∷ b'o' ∷ b'o' ∷ b't' ∷ b'-' ∷ b'c' ∷ b'l' ∷ b'i' ∷ b'e' ∷ b'n' ∷ b't' ∷ b'.' ∷ b'p' ∷ b'e'
    ∷ b'm' ∷ []

abbrev pub root_client_key_name : Name
root_client_key_name =
    b'r' ∷ b'o' ∷ b'o' ∷ b't' ∷ b'-' ∷ b'c' ∷ b'l' ∷ b'i' ∷ b'e' ∷ b'n' ∷ b't' ∷ b'-' ∷ b'k' ∷ b'e'
    ∷ b'y' ∷ b'.' ∷ b'p' ∷ b'e' ∷ b'm' ∷ []

abbrev pub nobody_client_cert_name : Name
nobody_client_cert_name =
    b'n' ∷ b'o' ∷ b'b' ∷ b'o' ∷ b'd' ∷ b'y' ∷ b'-' ∷ b'c' ∷ b'l' ∷ b'i' ∷ b'e' ∷ b'n' ∷ b't' ∷ b'.'
    ∷ b'p' ∷ b'e' ∷ b'm' ∷ []

abbrev pub nobody_client_key_name : Name
nobody_client_key_name =
    b'n' ∷ b'o' ∷ b'b' ∷ b'o' ∷ b'd' ∷ b'y' ∷ b'-' ∷ b'c' ∷ b'l' ∷ b'i' ∷ b'e' ∷ b'n' ∷ b't' ∷ b'-'
    ∷ b'k' ∷ b'e' ∷ b'y' ∷ b'.' ∷ b'p' ∷ b'e' ∷ b'm' ∷ []

abbrev pub acl_model_name : Name
acl_model_name = b'm' ∷ b'o' ∷ b'd' ∷ b'e' ∷ b'l' ∷ b'.' ∷ b'c' ∷ b'o' ∷ b'n' ∷ b'f' ∷ []

abbrev pub acl_policy_name : Name
acl_policy_name = b'p' ∷ b'o' ∷ b'l' ∷ b'i' ∷ b'c' ∷ b'y' ∷ b'.' ∷ b'c' ∷ b's' ∷ b'v' ∷ []

-- The variables.
pub record ConfigFiles : Type 0 where
  pub ca_file : Name
  pub server_cert_file : Name
  pub server_key_file : Name
  pub client_cert_file : Name
  pub client_key_file : Name
  pub root_client_cert_file : Name
  pub root_client_key_file : Name
  pub nobody_client_cert_file : Name
  pub nobody_client_key_file : Name
  pub acl_model_file : Name
  pub acl_policy_file : Name

-- What the variables are set to.
pub config_files : {S : Type 0} → System → Exec S ConfigFiles
config_files sys = do
  ca_file ← lift (config_file sys ca_name)
  server_cert_file ← lift (config_file sys server_cert_name)
  server_key_file ← lift (config_file sys server_key_name)
  client_cert_file ← lift (config_file sys client_cert_name)
  client_key_file ← lift (config_file sys client_key_name)
  root_client_cert_file ← lift (config_file sys root_client_cert_name)
  root_client_key_file ← lift (config_file sys root_client_key_name)
  nobody_client_cert_file ← lift (config_file sys nobody_client_cert_name)
  nobody_client_key_file ← lift (config_file sys nobody_client_key_name)
  acl_model_file ← lift (config_file sys acl_model_name)
  acl_policy_file ← lift (config_file sys acl_policy_name)
  pure (record {
    ca_file = ca_file;
    server_cert_file = server_cert_file;
    server_key_file = server_key_file;
    client_cert_file = client_cert_file;
    client_key_file = client_key_file;
    root_client_cert_file = root_client_cert_file;
    root_client_key_file = root_client_key_file;
    nobody_client_cert_file = nobody_client_cert_file;
    nobody_client_key_file = nobody_client_key_file;
    acl_model_file = acl_model_file;
    acl_policy_file = acl_policy_file;
  })
