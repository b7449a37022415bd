-- ===== src/Tests/Starting.antt =====
-- The start of a server at concrete inputs: the picker's rounds, Raft's connections, and how the log
-- and Raft are set up.
use smolkafka.Prelude.{
  ℕ, zero, suc, ◌+◌, ◌<◌, ◌≡◌, refl, inr, true, none, some, List, [], ◌∷◌, ◌++◌, arith, take, drop,
  get_elem?,
}
use smolkafka.Exec.{ok}
use smolkafka.Bytes.{Bytes}
use smolkafka.Disk.{Name}
use smolkafka.Picker
use smolkafka.Picker.{Picker}
use smolkafka.Picker.RoundRobin.{pick_each}
use smolkafka.Picker.Fairness.{pick_each-follower}
use smolkafka.Stream
use smolkafka.Stream.{Net, wrapped, matches, accept}
use smolkafka.Stream.Matching.{Delivery, accept-dial}
use smolkafka.Raft.{nothing}
use smolkafka.Cluster.{Raft, Server}
use smolkafka.Log.Setup.{empty_dir}
use smolkafka.Tests.{toy}
use smolkafka.Startup
use smolkafka.Startup.{Library, tick, time_out, wait_for_leader, new_distributed_log}
use smolkafka.Startup.Waiting.{wait_for_leader-time_out}
use smolkafka.Startup.Bootstrap.{Keeps, IsMember, new_distributed_log-IsMember}

abbrev three_followers : Picker
three_followers = record { leader = none; followers = 7 ∷ 8 ∷ 9 ∷ []; current = 4 }

pick_each-follower_example :
    (i : ℕ) × (i < 3) × (get_elem? (pick_each 3 Picker.consume three_followers) i ≡ some (ok 8))
pick_each-follower_example =
    pick_each-follower Picker.consume three_followers 8 1 refl refl (omega arith) refl

-- A line on which what is written is what is read, and TLS adds to the number of a connection.
abbrev line : Net Bytes ℕ ℕ
line = record {
  dial = λ n t s. (ok 1, []);
  accept = λ s. (ok 2, s);
  close = λ s. (ok tt, s);
  addr = λ s. [];
  write = λ c b s. (ok tt, s ++ b);
  read = λ c n s. (ok (take n s), drop n s);
  tls_client = λ t c. c + t;
  tls_server = λ t c. c + t;
}

abbrev all_of : ℕ → Bytes → Bytes
all_of c s = s

abbrev AnyEnds : ℕ → ℕ → Bytes → Type 0
AnyEnds c c' s = Unit

line-Delivery : Delivery line all_of AnyEnds
line-Delivery = record {
  dial_lem = λ n t s c e. refl;
  write_lem = λ c b s e. refl;
  read_lem = λ c c' s e. refl;
}

accept-dial_example :
    (11 ≡ wrapped line.tls_client (some 10) 1)
    × (matches line 2 (1 ∷ []) ≡ true)
    × ((accept line (some 20) (1 ∷ [])).0 ≡ ok (wrapped line.tls_server (some 20) 2))
unfolding Stream.dial wrapped
accept-dial_example =
    accept-dial line all_of AnyEnds (some 20) (some 10) [] 0 [] (1 ∷ []) 1 2 11 line-Delivery refl
      refl refl tt refl

-- Raft, as a counter that tells whether there is a leader.
abbrev pub name_of : ℕ → Name
name_of zero = []
name_of (suc n) = b'n' ∷ []

abbrev pub counter : List Server → Raft ℕ
counter servers = record {
  apply = λ b n. (ok nothing, n);
  get_configuration = λ n. (ok servers, n);
  add_voter = λ i a n. (ok tt, n + 1);
  remove_server = λ i n. (ok tt, n + 1);
  leader = λ n. name_of n;
  shutdown = λ n. (ok tt, n);
}

wait_for_leader-time_out_example :
    (wait_for_leader (counter []) (tick (λ n. n) ∷ tick (λ n. n + 1) ∷ time_out ∷ []) 0).0
    ≡ some (ok tt)
wait_for_leader-time_out_example =
    wait_for_leader-time_out (counter []) ((λ n. n) ∷ (λ n. n + 1) ∷ []) [] 0

-- Raft's packages over a count of the clusters that were begun; there is state already.
abbrev packages : Library ℕ ℕ ℕ
packages = record {
  join = λ ns. [];
  mkdir_all = λ n s. (ok tt, s);
  platform = toy;
  dir_of = λ n s. empty_dir;
  keep = λ n l s. (1, s);
  new_bolt_store = λ n s. (ok 2, s);
  new_file_snapshot_store = λ n k s. (ok 3, s);
  new_network_transport = λ l k t. 4;
  default_timeouts = record { heartbeat = 1; election = 1; leader_lease = 1; commit = 1 };
  new_raft = λ n t a b c d e s. (ok 5, s);
  has_existing_state = λ a b c s. (ok true, s);
  bootstrap_cluster = λ h ss s. (ok tt, s + 1);
}

abbrev NoneBegun : ℕ → Type 0
NoneBegun s = s ≡ 0

abbrev founder : Startup.Config ℕ
founder = record {
  local_id = b'n' ∷ [];
  timeouts = record { heartbeat = 0; election = 0; leader_lease = 0; commit = 0 };
  bind_addr = b'a' ∷ [];
  stream_layer = none;
  bootstrap = true;
  segment = record { max_store_bytes = 0; max_index_bytes = 0; initial_offset = 0 };
}

packages-Keeps : Keeps NoneBegun packages
packages-Keeps = record {
  mkdir_all_lem = λ n s p. p;
  keep_lem = λ n l s p. p;
  new_bolt_store_lem = λ n s p. p;
  new_file_snapshot_store_lem = λ n k s p. p;
  new_raft_lem = λ n t a b c d e s p. p;
  has_existing_state_lem = λ a b c s p. p;
}

founder-IsMember : IsMember packages NoneBegun founder
founder-IsMember = record { why = inr (λ a b c s p e. cc e) }

new_distributed_log-IsMember_example : NoneBegun (new_distributed_log packages [] founder 0).1
new_distributed_log-IsMember_example =
    new_distributed_log-IsMember packages NoneBegun founder [] packages-Keeps founder-IsMember 0
      refl
