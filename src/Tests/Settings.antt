-- ===== src/Tests/Settings.antt =====
-- The command, the agent's parts and the interceptors at concrete inputs.
use smolkafka.Prelude.{ℕ, ◌≡◌, refl, inr, Bool, true, false, none, some, [], ◌∷◌}
use smolkafka.Exec.{Error, ok, err}
use smolkafka.Disk.{Name}
use smolkafka.Text.{pos, host_port}
use smolkafka.Server.{tls_info, authenticate}
use smolkafka.Server.Calls.{Context, Around, unary_chain, chained, produce_call, consume_call}
use smolkafka.Server.Calls.Chains.{IsTransparent, produce_call-IsShutOut}
use smolkafka.Startup
use smolkafka.Startup.{self_server}
use smolkafka.Membership
use smolkafka.Membership.{State, handle_join}
use smolkafka.Wiring
use smolkafka.Wiring.{Packages, StreamLayer, rpc_addr_tag, rpc_addr, log_config, membership_config}
use smolkafka.Wiring.Addresses.{handler_of, member_of, handle_join-bootstrapped}
use smolkafka.Config.{
  Crypto, Settings, require_and_verify_client_cert, no_client_cert, own_certificate, verified_by,
  authority, with_authority, setup_tls_config,
}
use smolkafka.Config.Mutual.{IsAuthority}
use smolkafka.Command.{
  System, Viper, flags, declares, tolerated, read_settings, server_files, peer_files, side,
  config_of, load, setup_config,
}
use smolkafka.Command.Loading.{IsBound, setup_config-mutual, setup_config-acl_model_file}
use smolkafka.Tests.{hello}
use smolkafka.Tests.Services.{counting, consumers}
use smolkafka.Tests.Starting.{counter}

abbrev system : System
system = record { hostname = ok (b'h' ∷ []); temp_dir = b't' ∷ []; join = λ ns. [] }

abbrev text_of : Bool → Name
text_of true = b'x' ∷ []
text_of false = []

-- Every flag is given the same text, and there is no configuration file.
abbrev settings : Viper (Unit {0})
settings = record {
  config_flag = λ s. ok [];
  set_config_file = λ n s. s;
  read_in_config = λ s. (ok tt, s);
  is_not_found = λ e. false;
  get_string = λ k s. text_of (declares k (flags system (b'h' ∷ [])));
  get_int = λ k s. pos 8400;
  get_string_slice = λ k s. none;
  get_bool = λ k s. true;
}

abbrev crypto : Crypto ℕ ℕ
crypto = record { load_key_pair = λ c k. ok 1; read_file = λ n. ok []; pool_of = λ b. some 2 }

abbrev server_settings : Settings ℕ ℕ
server_settings = record {
  certificates = 1 ∷ [];
  root_cas = none;
  client_cas = some 2;
  client_auth = require_and_verify_client_cert;
  server_name = [];
}

abbrev peer_settings : Settings ℕ ℕ
peer_settings = record {
  certificates = 1 ∷ [];
  root_cas = some 2;
  client_cas = none;
  client_auth = no_client_cert;
  server_name = [];
}

abbrev loaded : Wiring.Config (Settings ℕ ℕ)
loaded = config_of settings crypto (some server_settings) (some peer_settings) tt

loads : (setup_config settings crypto tt).0 ≡ ok loaded
unfolding setup_config read_settings tolerated load side server_files peer_files config_of flags
    declares own_certificate verified_by authority with_authority setup_tls_config
loads = refl

setup_config-mutual_example :
    (x : Settings ℕ ℕ) × (ca : ℕ) × (loaded.server_tls_config ≡ some x)
    × (x.client_auth ≡ require_and_verify_client_cert)
    × (x.client_cas ≡ some ca)
    × IsAuthority crypto (server_files settings crypto (setup_config settings crypto tt).1) ca
    × (own_certificate crypto (server_files settings crypto (setup_config settings crypto tt).1)
        ≡ ok x.certificates)
unfolding server_files flags declares
setup_config-mutual_example = setup_config-mutual settings crypto tt loaded loads refl refl refl

settings-IsBound : IsBound settings (flags system (b'h' ∷ [])) (λ k. false)
settings-IsBound = record { unbound_lem = λ k s undeclared absent. rw undeclared refl }

setup_config-acl_model_file_example : loaded.acl_model_file ≡ []
setup_config-acl_model_file_example =
    setup_config-acl_model_file settings crypto system (b'h' ∷ []) (λ k. false) tt loaded
      settings-IsBound refl loads

-- A network whose addresses are not looked at.
abbrev network : Packages ℕ ℕ ℕ ℕ ℕ
network = record {
  split_host_port = λ n. ok (b'l' ∷ [], []);
  resolve_tcp_addr = λ n. ok (record { ip = n; port = 0 });
  new_development = λ s. (ok tt, s);
  listen = λ n s. (ok 1, s);
  new_mux = λ m. m;
  match_raft = λ m. m;
  match_any = λ m. m;
  grpc_of = λ c. record {
    register_views = λ s. (ok tt, s);
    stream_interceptor = λ is. 0;
    unary_interceptor = λ is. 0;
    new_server = λ os s. (ok 2, s);
    register_health = λ h s. (ok tt, s);
    register_log = λ h s. (ok tt, s);
  };
  creds = λ t. 0;
  serve = λ h m s. s;
  raft_of = λ h. counter [];
  before_ticks = [];
}

abbrev agent_config : Wiring.Config ℕ
agent_config = record {
  server_tls_config = none;
  peer_tls_config = none;
  data_dir = [];
  bind_addr = b'l' ∷ [];
  rpc_port = pos 8400;
  node_name = b'n' ∷ [];
  start_join_addrs = none;
  acl_model_file = [];
  acl_policy_file = [];
  bootstrap = true;
}

abbrev log_settings : Startup.Config (StreamLayer ℕ ℕ)
log_settings = record {
  local_id = b'n' ∷ [];
  timeouts = record { heartbeat = 0; election = 0; leader_lease = 0; commit = 0 };
  bind_addr = host_port (b'l' ∷ []) (pos 8400);
  stream_layer = some (record { ln = 1; server_tls_config = none; peer_tls_config = none });
  bootstrap = true;
  segment = record { max_store_bytes = 0; max_index_bytes = 0; initial_offset = 0 };
}

abbrev member_settings : Membership.Config
member_settings = record {
  node_name = b'n' ∷ [];
  bind_addr = b'l' ∷ [];
  tags = (rpc_addr_tag, host_port (b'l' ∷ []) (pos 8400)) ∷ [];
  start_join_addrs = none;
}

logs : log_config network agent_config 1 ≡ ok log_settings
unfolding log_config rpc_addr
logs = refl

members : membership_config network agent_config ≡ ok member_settings
unfolding membership_config rpc_addr
members = refl

abbrev quiet : State ℕ
quiet = record { inner = 0; lines = [] }

handle_join-bootstrapped_example :
    handle_join
      (handler_of (counter (self_server log_settings ∷ [])))
      (member_of member_settings (host_port (b'l' ∷ []) (pos 8400)))
      quiet
    ≡ quiet
handle_join-bootstrapped_example =
    handle_join-bootstrapped network agent_config 1 log_settings member_settings
      (counter (self_server log_settings ∷ [])) (host_port (b'l' ∷ []) (pos 8400)) quiet logs
      members refl refl

abbrev plain : {A : Type 0} → Around ℕ A
plain = record { add_tags = λ next. next; log_call = λ next. next }

plain-IsTransparent : {A : Type 0} → IsTransparent (plain {A = A})
plain-IsTransparent = record { add_tags_lem = λ n c s. refl; log_call_lem = λ n c s. refl }

-- Somebody who may only consume.
abbrev consumer : Context
consumer = record { peer = tls_info ((((b'c' ∷ []) ∷ [])) ∷ []); subject = none }

produce_call-IsShutOut_example :
    ((x : Error) × (chained plain unary_chain
          (produce_call counting consumers (some hello))
          consumer
          0
        ≡ (err x, 0)))
    × ((x : Error) × (chained plain unary_chain (consume_call counting consumers 0) consumer 0
          ≡ (err x, 0)))
unfolding authenticate
produce_call-IsShutOut_example =
    produce_call-IsShutOut counting consumers plain plain (some hello) 0 consumer 0
      plain-IsTransparent plain-IsTransparent (inr (b'c' ∷ [], refl, refl))
