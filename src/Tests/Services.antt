-- ===== src/Tests/Services.antt =====
-- The picker, the membership, the services and the cluster at concrete inputs.
use mathlib.Core.List.{Perm, filter_map}
use mathlib.Core.List.Perm
use smolkafka.Prelude.{
  inl, ℕ, ◌+◌, ◌≡◌, refl, Bool, true, false, some, List, [], ◌∷◌, ◌++◌, arith, get_elem?,
}
use smolkafka.Exec.{ok, err, eof, not_leader}
use smolkafka.Bytes.{Bytes}
use smolkafka.Disk.{Name, name_eq}
use smolkafka.Platform.{Record}
use smolkafka.Picker.{Picker, build}
use smolkafka.Membership.{
  Member, member_leave, member_failed, other, Handler, State, is_local, event_handler,
}
use smolkafka.Membership.Events.{leave_all, event_handler-local}
use smolkafka.Server
use smolkafka.Server.{
  CommitLog, Turn, done, serve, produce, consume, produce_stream, consume_stream, Entry, Memory,
  memory_append, memory_read, found, body, status, handle_produce, handle_consume,
}
use smolkafka.Agent.{Agent, Parts, run_all, tear_down}
use smolkafka.Agent.Shutdown.{asked, serving_failed, stop_all, stop_all-tear_down}
use smolkafka.Resolver.{Address, addresses, serve_servers, resolve_now}
use smolkafka.Resolver.Roles.{ready, build-resolve_now}
use smolkafka.Cluster
use smolkafka.Cluster.{get_servers, info_of, Raft, join}
use smolkafka.Service.{Machine, commit_log}
use smolkafka.Service.Written.{consume-produce}
use smolkafka.Cluster.Replicated.{replicated_append}
use smolkafka.Raft.{fsm_apply, append_command}
use smolkafka.Log.{Log}
use smolkafka.Log.Holds.{Holds}
use smolkafka.Tests.{toy, hello}
use smolkafka.Tests.Logs.{fresh, fresh-Holds, aligned, store_limit, at_five}

-- A leader and two followers.
abbrev roles : List (ℕ × Bool)
roles = (1, false) ∷ (2, true) ∷ (3, false) ∷ []

abbrev picker : Picker
picker = record { leader = some 2; followers = 1 ∷ 3 ∷ []; current = 0 }

-- A handler that keeps the names of the members.
abbrev keeps : Handler (List Name)
keeps = record {
  join = λ n a ns. (ok tt, ns ++ (n ∷ []));
  leave = λ n ns. (err not_leader, ns ++ (n ∷ []));
}

abbrev member : ℕ → Member
member n = record { name = n ∷ []; rpc_addr = [] }

abbrev start : State (List Name)
start = record { inner = []; lines = [] }

event_handler-local_example :
    (event_handler keeps
        (1 ∷ [])
        (member_leave (member 2 ∷ member 1 ∷ member 3 ∷ []) ∷ other ∷ [])
        start
      ≡ (false, leave_all keeps (1 ∷ []) (member 2 ∷ []) start))
    × (event_handler keeps
          (1 ∷ [])
          (member_failed (member 2 ∷ member 1 ∷ member 3 ∷ []) ∷ other ∷ [])
          start
        ≡ (false, leave_all keeps (1 ∷ []) (member 2 ∷ []) start))
unfolding is_local
event_handler-local_example =
    event_handler-local keeps (1 ∷ []) (member 2 ∷ []) (member 1) (member 3 ∷ []) (other ∷ []) start
      (refl, tt) refl

-- A log that counts its records and gives a record at each offset.
abbrev at_offset : ℕ → Record
at_offset n = record hello { offset = n }

abbrev pub counting : CommitLog ℕ
counting = record { append = λ r n. (ok n, n + 1); read = λ off n. (ok (at_offset off), n) }

abbrev pub anyone : Name → Name → Name → Bool
anyone subject object action = true

-- Consuming is all that is allowed.
abbrev pub consumers : Name → Name → Name → Bool
consumers subject object action = name_eq action Server.consume_action

abbrev rounds : List (Turn ℕ)
rounds = serve (λ n. n) (ok tt) ∷ serve (λ n. n + 1) (ok tt) ∷ done ∷ []

second_sent : get_elem? (consume_stream counting anyone [] 5 rounds 0).0 1 ≡ some (at_offset 6)
unfolding consume_stream consume Server.authorize
second_sent = refl

abbrev entry : Entry
entry = record { value = 1 ∷ []; offset = 0 }

abbrev memory : Memory
memory = record { value = 2 ∷ []; offset = 0 } ∷ []

-- A leader that keeps its configuration and the machine's log.
abbrev pub Leader : Type 0
Leader = List Cluster.Server × Log

abbrev node : ℕ → ℕ → Cluster.Server
node i a = record { id = i ∷ []; address = a ∷ [] }

abbrev drop_id : Name → List Cluster.Server → List Cluster.Server
drop_id id [] = []
drop_id id (srv ∷ srvs) =
    let rest = drop_id id srvs in elim (name_eq srv.id id) [ true ↦ rest | false ↦ srv ∷ rest ]

abbrev pub toy_raft : Raft Leader
toy_raft = record {
  apply = λ b (srvs, l). let (r, l') = fsm_apply toy b l in (ok r, (srvs, l'));
  get_configuration = λ (srvs, l). (ok srvs, (srvs, l));
  add_voter = λ id addr (srvs, l). (ok tt, (srvs ++ (record { id = id; address = addr } ∷ []), l));
  remove_server = λ id (srvs, l). (ok tt, (drop_id id srvs, l));
  leader = λ _. 2 ∷ [];
  shutdown = λ x. (ok tt, x);
}

abbrev three : Leader
three = (node 1 1 ∷ node 2 2 ∷ node 3 3 ∷ [], fresh)

abbrev command : Bytes
command = 0 ∷ 0 ∷ 3 ∷ 1 ∷ 104 ∷ 105 ∷ []

command_lem : append_command toy hello ≡ ok command
unfolding append_command
command_lem = refl

replicated_append_example :
    ((Cluster.append toy_raft toy hello three).0 ≡ ok 5)
    × Holds (Cluster.append toy_raft toy hello three).1.1 5 (at_five ∷ [])
replicated_append_example =
    replicated_append toy_raft toy (λ (x : Leader). x.1) hello command at_five three 5 [] refl refl
      command_lem fresh-Holds (inl aligned) refl (omega (arith, store_limit)) (omega arith)

abbrev pub machine : Machine Leader
machine = record { get = λ x. x.1; put = λ x l. (x.0, l) }

consume-produce_example :
    let (x, s) = produce (commit_log toy_raft toy machine) anyone [] (some hello) three in
    (x ≡ ok 5) × ((consume (commit_log toy_raft toy machine) anyone [] 5 s).0 ≡ ok (at_offset 5))
consume-produce_example =
    consume-produce toy_raft toy machine anyone [] hello command at_five three 5 [] refl refl refl
      command_lem fresh-Holds (inl aligned) refl (omega (arith, store_limit)) (omega arith)

-- Connections by the first character of the address.
abbrev conn : Name → ℕ
conn [] = 0
conn (c ∷ cs) = c

-- The three connections come in another order than that of the configuration.
abbrev address : ℕ → Bool → Address
address n is_leader = record { addr = n ∷ []; is_leader = is_leader }

shuffled :
    Perm
      (address 2 true ∷ address 1 false ∷ address 3 false ∷ [])
      (resolve_now (serve_servers toy_raft three).0 (record { told = []; failures = [] })).told
unfolding resolve_now serve_servers get_servers info_of addresses
shuffled = Perm.swap (address 1 false) (address 2 true) (address 3 false ∷ [])

build-resolve_now_example :
    let (x, q) =
      build (ready conn (address 2 true ∷ address 1 false ∷ address 3 false ∷ [])) picker in
    (x ≡ ok tt) × (q.leader ≡ some 2) × Perm q.followers (1 ∷ 3 ∷ []) × (q.current ≡ 0)
unfolding filter_map
build-resolve_now_example =
    build-resolve_now toy_raft conn three (node 1 1 ∷ node 2 2 ∷ node 3 3 ∷ [])
      (record { told = []; failures = [] }) picker
      (address 2 true ∷ address 1 false ∷ address 3 false ∷ []) refl tt shuffled

-- Parts that count what is done to them, and of which the log cannot be closed.
abbrev parts : Parts ℕ
parts = record {
  leave = λ n. (ok tt, n + 1);
  graceful_stop = λ n. n + 10;
  close_log = λ n. (err eof, n + 100);
}

abbrev agent : Agent ℕ
agent = record { parts = 0; is_shutdown = false; is_channel_closed = false }

-- A failing multiplexer, and then two calls of `Shutdown`.
stop_all-tear_down_example : stop_all parts (serving_failed eof ∷ asked ∷ asked ∷ []) agent ≡ (
  err eof ∷ ok tt ∷ ok tt ∷ [],
  record { parts = (run_all (tear_down parts) 0).1; is_shutdown = true; is_channel_closed = true },
)
unfolding run_all tear_down
stop_all-tear_down_example =
    stop_all-tear_down parts (serving_failed eof) (asked ∷ asked ∷ []) agent refl refl
