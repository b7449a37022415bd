-- ===== src/Stream.antt =====
-- `StreamLayer` of internal/log/distributed.go, and the matcher of internal/agent/agent.go that picks
-- Raft's connections out of those of one port. The network is a parameter, with a state of its own.
pub mod Matching
use smolkafka.Prelude.{
  ℕ, Bool, true, false, ◌&&◌, Option, none, some, List, [], ◌∷◌, ◌++◌, ◌==◌, take, if◌then◌else◌,
}
use smolkafka.Exec.{Error, Result, ok, err, not_raft_rpc, Exec, pure, lift, ◌>>=◌, ◌>>◌}
use smolkafka.Bytes.{Bytes}
use smolkafka.Disk.{Name}

-- What the code calls of the packages net and crypto/tls, with the types of connections and of TLS
-- settings: `net.Dialer.Dial` within a timeout, `Listener.Accept`, `Listener.Close`, `Conn.Write`,
-- `Conn.Read` of so many bytes at most, `tls.Client` and `tls.Server`.
pub record Net (S C T : Type 0) : Type 0 where
  pub dial : Name → ℕ → Exec S C
  pub accept : Exec S C
  pub close : Exec S Unit
  pub addr : S → Name
  pub write : C → Bytes → Exec S Unit
  pub read : C → ℕ → Exec S Bytes
  pub tls_client : T → C → C
  pub tls_server : T → C → C

-- `RaftRPC`
abbrev pub raft_rpc : ℕ
raft_rpc = 1

-- The buffer of one byte after a `Read` into it: what was read, over a zero.
pub first_of : Bytes → Bytes
first_of p = take 1 (p ++ (0 ∷ []))

-- `bytes.Equal` with the byte of `RaftRPC`.
pub is_raft_rpc : Bytes → Bool
is_raft_rpc [] = false
is_raft_rpc (b ∷ []) = b == raft_rpc
is_raft_rpc (b ∷ c ∷ p) = false

pub matched : Result Bytes → Bool
matched (ok p) = is_raft_rpc (first_of p)
matched (err e) = false

-- A connection under TLS, where there are settings for it.
unfoldable pub wrapped : {C T : Type 0} → (T → C → C) → Option T → C → C
wrapped tls none c = c
wrapped tls (some t) c = tls t c

module _ {S C T : Type 0} (net : Net S C T) where
  -- The matcher of `setupLog`, on a connection of the multiplexer.
  pub matches : C → S → Bool
  matches c s = matched (net.read c 1 s).0

  -- `StreamLayer.Dial`
  unfoldable pub dial : Option T → Name → ℕ → Exec S C
  dial peer_tls address timeout = do
    conn ← net.dial address timeout
    net.write conn (raft_rpc ∷ [])
    pure (wrapped net.tls_client peer_tls conn)

  checked : Option T → C → Bytes → Result C
  checked server_tls conn p =
      if is_raft_rpc (first_of p)
      then ok (wrapped net.tls_server server_tls conn)
      else err not_raft_rpc

  -- `StreamLayer.Accept`
  pub accept : Option T → Exec S C
  accept server_tls = do conn ← net.accept; p ← net.read conn 1; lift (checked server_tls conn p)

  -- `StreamLayer.Close` and `Addr`
  pub close : Exec S Unit
  close = net.close

  pub address : S → Name
  address s = net.addr s
