-- ===== src/Example/Works.antt =====
-- What the example prints, over packages that do what they are asked for.
use smolkafka.Prelude.{ℕ, ◌^◌, ◌≤◌, ◌<◌, ◌≡◌, Bool, true, some, List, length}
use smolkafka.Exec.{ok, Exec, ◌>>◌}
use smolkafka.Exec.Returns.{Returns}
use smolkafka.Bytes.{Bytes}
use smolkafka.Disk.{Name}
use smolkafka.Platform.{Platform, Record}
use smolkafka.Log.{Log}
use smolkafka.Log.Setup.{empty_dir}
use smolkafka.Config.{Settings, Crypto}
use smolkafka.Config.Files.{ConfigFiles}
use smolkafka.Service.{Machine}
use smolkafka.Server.{authenticate, object_wildcard, produce_action}
use smolkafka.Server.Calls.{
  Context, Around, Grpc, stream_chain, unary_chain, chained, produce_call, consume_call,
}
use smolkafka.Server.Calls.Chains.{IsTransparent}
use smolkafka.Example.{Packages, any_port, dir_pattern, of_value, own_log, server_tls, client_tls}

-- The call succeeds, and the log stays as it is.
abbrev pub Spares : {S A : Type 0} → Machine S → Exec S A → Type 0
Spares {S} machine m = (s : S) → Returns (m s) (λ _ t. machine.get t ≡ machine.get s)

-- gRPC's part of `NewGRPCServer` does not touch the log.
pub record GrpcSpares {S H O : Type 0} (machine : Machine S) (g : Grpc S H O) : Type 0 where
  pub register_views_lem : Spares machine g.register_views
  pub new_server_lem : (options : List O) → Spares machine (g.new_server options)
  pub register_health_lem : (h : H) → Spares machine (g.register_health h)
  pub register_log_lem : (h : H) → Spares machine (g.register_log h)

-- The certificates are there, the system gives a port and an empty directory, and a call of the client
-- is a call of the server's handler behind its interceptors.
pub record Works {S H O C P : Type 0} (pkg : Packages S H O C P) (os : Platform)
    (machine : Machine S) (crypto : Crypto C P) (enforce : Name → Name → Name → Bool)
    (files : ConfigFiles) (around : Around S ℕ) (reading : Around S Record) (ctx : Context)
    (subject : Name) : Type 0 where
  -- The client has authenticated as one that may produce.
  pub subject_lem : authenticate ctx.peer ≡ ok subject
  pub allowed : enforce subject object_wildcard produce_action ≡ true
  pub clear : IsTransparent around
  pub read_clear : IsTransparent reading
  pub get_put : (s : S) (l : Log) → machine.get (machine.put s l) ≡ l
  pub listens : (s : S) → Returns (pkg.listen any_port s) (λ _ _. Unit {0})
  pub has_server_tls : (addr : Name) → (t : Settings C P) × (server_tls crypto files addr ≡ ok t)
  pub has_client_tls : (t : Settings C P) × (client_tls crypto files ≡ ok t)
  pub makes_dir :
      (s : S) → Returns (pkg.mkdir_temp dir_pattern s) (λ dir t. pkg.dir_of dir t ≡ empty_dir)
  pub grpc_lem : GrpcSpares machine (pkg.grpc_of files.acl_model_file files.acl_policy_file)
  pub serve_lem : (h l : H) (s : S) → machine.get (pkg.serve h l s) ≡ machine.get s
  pub connects : (addr : Name) (t : Settings C P) → Spares machine (pkg.new_client addr t)
  pub produces :
      (conn : H) (r : Record) (s : S)
      → pkg.produce conn r s
        ≡ chained around unary_chain (produce_call (own_log os machine) enforce (some r)) ctx s
  pub consumes :
      (conn : H) (off : ℕ) (s : S)
      → pkg.consume conn off s
        ≡ chained reading unary_chain (consume_call (own_log os machine) enforce off) ctx s
  pub opens : (conn : H) → Spares machine (pkg.produce_stream conn)
  pub answers :
      (stream : H) (r : Record) (s : S)
      → (pkg.send stream r >> pkg.recv stream) s
        ≡ chained around stream_chain (produce_call (own_log os machine) enforce (some r)) ctx s
  pub clean_lem : (h : H) (s : S) → machine.get (pkg.close_conn h s) ≡ machine.get s
  pub stop_lem : (h : H) (s : S) → machine.get (pkg.stop h s) ≡ machine.get s
  pub remove_all_lem : (dir : Name) (s : S) → machine.get (pkg.remove_all dir s) ≡ machine.get s
  pub close_listener_lem : (h : H) (s : S) → machine.get (pkg.close_listener h s) ≡ machine.get s
  -- A short record is marshalled to few bytes, and to five at least.
  pub marshals :
      (b : Bytes) (n : ℕ)
      → 5 ≤ length b
      → length b < 100
      → n < 100
      → (p : Bytes) × (os.marshal (record (of_value b) { offset = n }) ≡ ok p)
        × (5 ≤ length p)
        × (length p < 2 ^ 32)
