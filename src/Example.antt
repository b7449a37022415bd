-- ===== src/Example.antt =====
-- examples/main.go: a server and a client of it in one process, over a log in a new directory. The
-- network, gRPC, casbin and the directories of the system are parameters; what becomes of the log of
-- the service stands in a state of theirs.
pub mod Works
pub mod Holding
pub mod Around
pub mod Runs
use smolkafka.Prelude.{ℕ, true, false, Option, none, some, List, [], ◌∷◌}
use smolkafka.Exec.{Result, ok, err, panic, Exec, pure, lift, modify, zoom, ◌>>=◌, ◌>>◌}
use smolkafka.Bytes.{Bytes}
use smolkafka.Disk.{Name, Dir}
use smolkafka.Platform.{Platform, Record}
use smolkafka.Segment
use smolkafka.Log
use smolkafka.Log.{Log}
use smolkafka.Config.{TlsConfig, Settings, Crypto, setup_tls_config}
use smolkafka.Config.Files.{ConfigFiles}
use smolkafka.Service.{Machine}
use smolkafka.Server.{CommitLog}
use smolkafka.Server.Calls.{Grpc, new_grpc_server}

abbrev pub any_port : Name
any_port = b'1' ∷ b'2' ∷ b'7' ∷ b'.' ∷ b'0' ∷ b'.' ∷ b'0' ∷ b'.' ∷ b'1' ∷ b':' ∷ b'0' ∷ []

abbrev pub dir_pattern : Name
dir_pattern =
    b's' ∷ b'm' ∷ b'o' ∷ b'l' ∷ b'k' ∷ b'a' ∷ b'f' ∷ b'k' ∷ b'a' ∷ b'-' ∷ b'e' ∷ b'x' ∷ b'a' ∷ b'm'
    ∷ b'p' ∷ b'l' ∷ b'e' ∷ []

abbrev pub greeting : Bytes
greeting =
    b'H' ∷ b'e' ∷ b'l' ∷ b'l' ∷ b'o' ∷ b' ' ∷ b's' ∷ b'm' ∷ b'o' ∷ b'l' ∷ b'k' ∷ b'a' ∷ b'f' ∷ b'k'
    ∷ b'a' ∷ b'!' ∷ []

abbrev pub stream_values : List Bytes
stream_values =
    (b'S' ∷ b't' ∷ b'r' ∷ b'e' ∷ b'a' ∷ b'm' ∷ b' ' ∷ b'1' ∷ [])
    ∷ (b'S' ∷ b't' ∷ b'r' ∷ b'e' ∷ b'a' ∷ b'm' ∷ b' ' ∷ b'2' ∷ [])
    ∷ (b'S' ∷ b't' ∷ b'r' ∷ b'e' ∷ b'a' ∷ b'm' ∷ b' ' ∷ b'3' ∷ [])
    ∷ []

-- `internalLog.Config{}`
abbrev pub zero_config : Segment.Config
zero_config = record { max_store_bytes = 0; max_index_bytes = 0; initial_offset = 0 }

-- `&api.Record{Value: ...}`
abbrev pub of_value : Bytes → Record
of_value b = record { value = b; offset = 0; term = 0; type = 0 }

-- What is called beside the code of this repository, with the types of what a call gives, of options
-- and of certificates and pools: `net.Listen`, `Addr`, `os.MkdirTemp` and what the new directory has,
-- `grpc.Creds`, gRPC with the service over the log and the authorizer of a model and a policy,
-- `Serve` beside the caller, `grpc.NewClient`, the client's calls, and what is deferred.
pub record Packages (S H O C P : Type 0) : Type 0 where
  pub listen : Name → Exec S H
  pub addr_of : H → Name
  pub mkdir_temp : Name → Exec S Name
  pub dir_of : Name → S → Dir
  pub creds : Settings C P → O
  pub grpc_of : Name → Name → Grpc S H O
  pub serve : H → H → S → S
  pub new_client : Name → Settings C P → Exec S H
  pub produce : H → Record → Exec S ℕ
  pub consume : H → ℕ → Exec S Record
  pub produce_stream : H → Exec S H
  pub send : H → Record → Exec S Unit
  pub recv : H → Exec S ℕ
  pub close_conn : H → S → S
  pub stop : H → S → S
  pub remove_all : Name → S → S
  pub close_listener : H → S → S

-- What `main` has set up, for its deferred calls too.
pub record Demo (H : Type 0) : Type 0 where
  pub listener : H
  pub dir : Name
  pub server : H
  pub conn : H

-- What is printed of the calls.
pub record Printed : Type 0 where
  pub produced : ℕ
  pub consumed : Record
  pub confirmed : List ℕ

module _ {S H O C P : Type 0} (pkg : Packages S H O C P) where
  -- The round of the loop over `streamMsgs`.
  pub send_recv : H → Bytes → Exec S ℕ
  send_recv stream m = do pkg.send stream (of_value m); pkg.recv stream

  pub send_each : H → List Bytes → Exec S (List ℕ)
  send_each stream [] = pure []
  send_each stream (m ∷ ms) = do
    off ← send_recv stream m
    offs ← send_each stream ms
    pure (off ∷ offs)

  -- The third part of `main`.
  pub demonstrate : H → Exec S Printed
  demonstrate conn = do
    produced ← pkg.produce conn (of_value greeting)
    consumed ← pkg.consume conn produced
    stream ← pkg.produce_stream conn
    confirmed ← send_each stream stream_values
    pure (record { produced = produced; consumed = consumed; confirmed = confirmed })

module _ {S : Type 0} (os : Platform) (machine : Machine S) where
  -- The log as a `CommitLog`; a record that is not there is a nil pointer.
  append_own : Option Record → Exec Log ℕ
  append_own none l = (err panic, l)
  append_own (some r) l = Log.append os r l

  pub own_log : CommitLog S
  own_log = record {
    append = λ r. zoom machine.get machine.put (append_own r);
    read = λ off. zoom machine.get machine.put (Log.read os off);
  }

module _ {C P : Type 0} (crypto : Crypto C P) where
  -- The TLS settings of both sides.
  unfoldable pub server_tls : ConfigFiles → Name → Result (Settings C P)
  server_tls files addr = setup_tls_config crypto (record {
    cert_file = files.server_cert_file;
    key_file = files.server_key_file;
    ca_file = files.ca_file;
    server_address = addr;
    server = true;
  })

  unfoldable pub client_tls : ConfigFiles → Result (Settings C P)
  client_tls files = setup_tls_config crypto (record {
    cert_file = files.root_client_cert_file;
    key_file = files.root_client_key_file;
    ca_file = files.ca_file;
    server_address = [];
    server = false;
  })

module _ {S H O C P : Type 0} (pkg : Packages S H O C P) (os : Platform) (machine : Machine S)
    (crypto : Crypto C P) where
  -- `NewLog` in the directory.
  pub open_log : Name → Exec S Unit
  open_log dir s =
      let (r, l) = Log.new_log os (pkg.dir_of dir s) zero_config in (r, machine.put s l)

  -- The first two parts of `main`.
  pub set_up : ConfigFiles → Exec S (Demo H)
  set_up files = do
    listener ← pkg.listen any_port
    server_side ← lift (server_tls crypto files (pkg.addr_of listener))
    dir ← pkg.mkdir_temp dir_pattern
    open_log dir
    server ←
        new_grpc_server (pkg.grpc_of files.acl_model_file files.acl_policy_file)
          (pkg.creds server_side ∷ [])
    modify (pkg.serve server listener)
    client_side ← lift (client_tls crypto files)
    conn ← pkg.new_client (pkg.addr_of listener) client_side
    pure (record { listener = listener; dir = dir; server = server; conn = conn })

  -- What `main` has deferred, the last first. No error of it is read.
  pub clean_up : Demo H → S → S
  clean_up demo s =
      let stopped = pkg.stop demo.server (pkg.close_conn demo.conn s) in
      let removed = machine.put stopped (Log.remove os (machine.get stopped)).1 in
      pkg.close_listener demo.listener (pkg.remove_all demo.dir removed)

  -- `main`. `log.Fatalf` ends the process, with nothing that was deferred done.
  pub main : ConfigFiles → Exec S Printed
  main files = do
    demo ← set_up files
    printed ← demonstrate pkg demo.conn
    modify (clean_up demo)
    pure printed
