-- ===== src/Tests/Examples.antt =====
-- examples/main.go over small packages, and internal/config/files.go, at concrete inputs.
use smolkafka.Prelude.{ℕ, ◌≡◌, refl, Bool, true, false, none, some, List, [], ◌∷◌, arith}
use smolkafka.Exec.{ok, Exec}
use smolkafka.Exec.Returns.{Returns}
use smolkafka.Disk.{Name}
use smolkafka.Platform.{Record}
use smolkafka.Log.{Log}
use smolkafka.Log.Setup.{empty_dir}
use smolkafka.Config.{Crypto, setup_tls_config, with_authority, authority, own_certificate}
use smolkafka.Config.Files.{ConfigFiles}
use smolkafka.Service.{Machine}
use smolkafka.Server.{tls_info, authenticate}
use smolkafka.Server.Calls.{
  Context, Around, Grpc, stream_chain, unary_chain, chained, produce_call, consume_call,
}
use smolkafka.Server.Calls.Chains.{IsTransparent}
use smolkafka.Example.{Packages, greeting, own_log, main, server_tls, client_tls}
use smolkafka.Example.Holding.{at_offset}
use smolkafka.Example.Works.{Works}
use smolkafka.Example.Runs.{main-AsPrinted}
use smolkafka.Tests.{toy}
use smolkafka.Tests.Logs.{usual}

-- The log of the service, and the requests of the stream that are not served yet.
abbrev World : Type 0
World = Log × List Record

abbrev machine : Machine World
machine = record { get = λ s. s.0; put = λ s l. (l, s.1) }

abbrev everyone : Name → Name → Name → Bool
everyone subject object action = true

abbrev root : Context
root = record { peer = tls_info (((b'r' ∷ []) ∷ []) ∷ []); subject = none }

abbrev around : {A : Type 0} → Around World A
around = record { add_tags = λ n. n; log_call = λ n. n }

around-IsTransparent : {A : Type 0} → IsTransparent (around {A = A})
around-IsTransparent = record { add_tags_lem = λ n c s. refl; log_call_lem = λ n c s. refl }

abbrev answer : Exec World ℕ
answer (l, []) = (ok 0, (l, []))
answer (l, r ∷ rs) =
    chained around stream_chain (produce_call (own_log toy machine) everyone (some r)) root (l, rs)

abbrev grpc : Grpc World ℕ ℕ
grpc = record {
  register_views = λ s. (ok tt, s);
  stream_interceptor = λ is. 0;
  unary_interceptor = λ is. 0;
  new_server = λ options s. (ok 2, s);
  register_health = λ h s. (ok tt, s);
  register_log = λ h s. (ok tt, s);
}

abbrev packages : Packages World ℕ ℕ ℕ ℕ
packages = record {
  listen = λ addr s. (ok 1, s);
  addr_of = λ h. b':' ∷ [];
  mkdir_temp = λ pattern s. (ok pattern, s);
  dir_of = λ dir s. empty_dir;
  creds = λ t. 0;
  grpc_of = λ model policy. grpc;
  serve = λ server listener s. s;
  new_client = λ addr t s. (ok 3, s);
  produce = λ conn r.
      chained around unary_chain (produce_call (own_log toy machine) everyone (some r)) root;
  consume =
      λ conn off. chained around unary_chain (consume_call (own_log toy machine) everyone off) root;
  produce_stream = λ conn s. (ok 4, s);
  send = λ stream r s. (ok tt, (s.0, r ∷ s.1));
  recv = λ stream. answer;
  close_conn = λ conn s. s;
  stop = λ server s. s;
  remove_all = λ dir s. s;
  close_listener = λ listener s. s;
}

abbrev crypto : Crypto ℕ ℕ
crypto = record { load_key_pair = λ c k. ok 1; read_file = λ n. ok []; pool_of = λ b. some 2 }

abbrev file : Name
file = b'f' ∷ []

abbrev files : ConfigFiles
files = record {
  ca_file = file;
  server_cert_file = file;
  server_key_file = file;
  client_cert_file = file;
  client_key_file = file;
  root_client_cert_file = file;
  root_client_key_file = file;
  nobody_client_cert_file = file;
  nobody_client_key_file = file;
  acl_model_file = file;
  acl_policy_file = file;
}

packages-Works : Works packages toy machine crypto everyone files around around root (b'r' ∷ [])
unfolding server_tls client_tls setup_tls_config with_authority authority own_certificate
    authenticate
packages-Works = record {
  subject_lem = refl;
  allowed = refl;
  clear = around-IsTransparent;
  read_clear = around-IsTransparent;
  get_put = λ s l. refl;
  listens = λ s. (1, refl, tt);
  has_server_tls = λ addr. (_, refl);
  has_client_tls = (_, refl);
  makes_dir = λ s. (_, refl, refl);
  grpc_lem = record {
    register_views_lem = λ s. (tt, refl, refl);
    new_server_lem = λ options s. (2, refl, refl);
    register_health_lem = λ h s. (tt, refl, refl);
    register_log_lem = λ h s. (tt, refl, refl);
  };
  serve_lem = λ h l s. refl;
  connects = λ addr t s. (3, refl, refl);
  produces = λ conn r s. refl;
  consumes = λ conn off s. refl;
  opens = λ conn s. (4, refl, refl);
  answers = λ stream r s. refl;
  clean_lem = λ h s. refl;
  stop_lem = λ h s. refl;
  remove_all_lem = λ dir s. refl;
  close_listener_lem = λ h s. refl;
  marshals = λ b n le short small. (n ∷ 0 ∷ 0 ∷ b, refl, omega arith, omega arith);
}

main-AsPrinted_example : Returns (main packages toy machine crypto files (usual, [])) (λ printed t.
    (printed.produced ≡ 0)
    × (printed.consumed ≡ at_offset 0 greeting)
    × (printed.confirmed ≡ 1 ∷ 2 ∷ 3 ∷ [])
    × (t.0.dir.exists ≡ false))
main-AsPrinted_example = main-AsPrinted packages-Works (usual, [])
