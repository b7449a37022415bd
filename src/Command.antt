-- ===== src/Command.antt =====
-- cmd/smolkafka/main.go: the flags, the agent's configuration made of them, and the run of the agent.
-- The libraries of the command line and of the settings, and the system, are parameters.
pub mod Keys
pub mod Loading
pub mod Running
use smolkafka.Prelude.{
  ℕ, Bool, true, false, ◌&&◌, ◌||◌, Option, none, some, List, [], ◌∷◌, if◌then◌else◌,
}
use smolkafka.Exec.{Error, Result, ok, err, map_result, Exec, lift, gets, modify, ◌>>=◌, ◌>>◌}
use smolkafka.Disk.{Name, name_eq}
use smolkafka.Text.{ℤ, pos}
use smolkafka.Config.{is_set, TlsConfig, Settings, Crypto, setup_tls_config}
use smolkafka.Agent.{Agent, Parts, shutdown}
use smolkafka.Wiring
use smolkafka.Startup.{Library}
use smolkafka.Membership.{Serf}
use smolkafka.Command.Keys.*

-- The default of a flag, by its type; no list is nil.
pub data Default : Type 0 where
  text : Name → Default
  number : ℤ → Default
  texts : Option (List Name) → Default
  switch : Bool → Default

pub record Flag : Type 0 where
  pub name : Name
  pub default : Default

-- `os.Hostname`, `os.TempDir` and `path.Join`.
pub record System : Type 0 where
  pub hostname : Result Name
  pub temp_dir : Name
  pub join : List Name → Name

abbrev smolkafka_name : Name
smolkafka_name = b's' ∷ b'm' ∷ b'o' ∷ b'l' ∷ b'k' ∷ b'a' ∷ b'f' ∷ b'k' ∷ b'a' ∷ []

abbrev default_bind_addr : Name
default_bind_addr =
    b'1' ∷ b'2' ∷ b'7' ∷ b'.' ∷ b'0' ∷ b'.' ∷ b'0' ∷ b'.' ∷ b'1' ∷ b':' ∷ b'8' ∷ b'4' ∷ b'0' ∷ b'1'
    ∷ []

unfoldable pub flags : System → Name → List Flag
flags sys hostname =
    record { name = config_file_key; default = text [] }
    ∷ record { name = data_dir_key; default = text (sys.join (sys.temp_dir ∷ smolkafka_name ∷ [])) }
    ∷ record { name = node_name_key; default = text hostname }
    ∷ record { name = bind_addr_key; default = text default_bind_addr }
    ∷ record { name = rpc_port_key; default = number (pos 8400) }
    ∷ record { name = start_join_addrs_key; default = texts none }
    ∷ record { name = bootstrap_key; default = switch false }
    ∷ record { name = acl_model_file_key; default = text [] }
    ∷ record { name = acl_policy_file_key; default = text [] }
    ∷ record { name = server_tls_cert_file_key; default = text [] }
    ∷ record { name = server_tls_key_file_key; default = text [] }
    ∷ record { name = server_tls_ca_file_key; default = text [] }
    ∷ record { name = peer_tls_cert_file_key; default = text [] }
    ∷ record { name = peer_tls_key_file_key; default = text [] }
    ∷ record { name = peer_tls_ca_file_key; default = text [] }
    ∷ []

-- `setupFlags`: the flags that are bound to settings. Without a host name the command ends.
pub setup_flags : System → Result (List Flag)
setup_flags sys = map_result (flags sys) sys.hostname

-- Whether a flag has the name.
unfoldable pub declares : Name → List Flag → Bool
declares k [] = false
declares k (f ∷ fs) = name_eq f.name k || declares k fs

-- What `setupConfig` calls of cobra and viper: the flag "config-file", `SetConfigFile`,
-- `ReadInConfig`, the error of a file that is not there, and the lookups.
pub record Viper (S : Type 0) : Type 0 where
  pub config_flag : S → Result Name
  pub set_config_file : Name → S → S
  pub read_in_config : Exec S Unit
  pub is_not_found : Error → Bool
  pub get_string : Name → S → Name
  pub get_int : Name → S → ℤ
  pub get_string_slice : Name → S → Option (List Name)
  pub get_bool : Name → S → Bool

module _ {S C P : Type 0} (viper : Viper S) (crypto : Crypto C P) where
  -- A file that is not there is no error.
  unfoldable pub tolerated : Result (Unit {0}) → Result (Unit {0})
  tolerated (ok _) = ok tt
  tolerated (err e) = if viper.is_not_found e then ok tt else err e

  unfoldable pub read_settings : Exec S Unit
  read_settings s = let (r, s') = viper.read_in_config s in (tolerated r, s')

  -- The files of the server's side and of its peers'.
  unfoldable pub server_files : S → TlsConfig
  server_files s = record {
    cert_file = viper.get_string server_tls_cert_file_key s;
    key_file = viper.get_string server_tls_key_file_key s;
    ca_file = viper.get_string server_tls_ca_file_key s;
    server_address = [];
    server = true;
  }

  unfoldable pub peer_files : S → TlsConfig
  peer_files s = record {
    cert_file = viper.get_string peer_tls_cert_file_key s;
    key_file = viper.get_string peer_tls_key_file_key s;
    ca_file = viper.get_string peer_tls_ca_file_key s;
    server_address = [];
    server = false;
  }

  -- The settings of one side, which are nil unless the certificate and the key are named.
  unfoldable pub side : TlsConfig → Result (Option (Settings C P))
  side cfg =
      if is_set cfg.cert_file && is_set cfg.key_file
      then map_result some (setup_tls_config crypto cfg)
      else ok none

  unfoldable pub config_of :
      Option (Settings C P) → Option (Settings C P) → S → Wiring.Config (Settings C P)
  config_of server peer s = record {
    server_tls_config = server;
    peer_tls_config = peer;
    data_dir = viper.get_string data_dir_key s;
    bind_addr = viper.get_string bind_addr_key s;
    rpc_port = viper.get_int rpc_port_key s;
    node_name = viper.get_string node_name_key s;
    start_join_addrs = viper.get_string_slice start_join_addrs_key s;
    acl_model_file = viper.get_string acl_mode_file_key s;
    acl_policy_file = viper.get_string acl_policy_file_key s;
    bootstrap = viper.get_bool bootstrap_key s;
  }

  -- `setupConfig`, after the settings have been read.
  unfoldable pub load : Exec S (Wiring.Config (Settings C P))
  load = do
    server ← λ s. (side (server_files s), s)
    peer ← λ s. (side (peer_files s), s)
    gets (config_of server peer)

  -- `setupConfig`
  unfoldable pub setup_config : Exec S (Wiring.Config (Settings C P))
  setup_config = do
    config_file ← λ s. (viper.config_flag s, s)
    modify (viper.set_config_file config_file)
    read_settings
    load

-- `run` on the agent that `New` gave: `wait` is what becomes of it until a signal comes.
pub run : {S : Type 0} → Parts S → (Agent S → Agent S) → Result (Agent S) → Result (Unit {0})
run parts wait (ok agent) = (shutdown parts (wait agent)).0
run parts wait (err e) = err e

-- `viper.BindPFlags`, and what `Execute` does before `PreRunE`: it parses the arguments by the flags.
pub record Cobra (V : Type 0) : Type 0 where
  pub bind_flags : List Flag → Exec V Unit
  pub parse : List Flag → Exec V Unit

module _ {V S M H O C P : Type 0} (cobra : Cobra V) (viper : Viper V) (crypto : Crypto C P)
    (sys : System) (pkg : Wiring.Packages S M (Settings C P) H O)
    (lib : Library S H (Wiring.StreamLayer M (Settings C P))) (serf : Serf S H)
    (parts : Parts (Wiring.Parts S M H))
    (wait : Agent (Wiring.Parts S M H) → Agent (Wiring.Parts S M H)) where
  -- `Execute`: `setupConfig` before the run, which an error of it prevents.
  unfoldable pub execute : List Flag → S → Exec V Unit
  execute fs world = do
    cobra.parse fs
    config ← setup_config viper crypto
    lift (run parts wait (Wiring.new pkg lib serf config world))

  -- `main`, which ends by `log.Fatal` on an error.
  unfoldable pub main : S → Exec V Unit
  main world = do fs ← lift (setup_flags sys); cobra.bind_flags fs; execute fs world
