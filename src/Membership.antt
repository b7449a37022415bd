-- ===== src/Membership.antt =====
-- internal/discovery/membership.go: Serf's events, handed to a handler. Serf is a library; the
-- handler is a parameter, with a state of its own.
pub mod Events
use smolkafka.Prelude.{
  ℕ, ◌≡◌, refl, Bool, true, false, Option, none, some, List, [], ◌∷◌, ◌++◌, if◌then◌else◌,
}
use smolkafka.Exec.{Error, Result, ok, err, not_leader, Exec, pure, lift, modify, ◌>>=◌, ◌>>◌}
use smolkafka.Disk.{Name, name_eq}

-- `serf.Member`, and its tag "rpc_addr", which is empty where the tag is not set.
pub record Member : Type 0 where
  pub name : Name
  pub rpc_addr : Name

-- `serf.Event`, by its type.
pub data Event : Type 0 where
  member_join : List Member → Event
  member_leave : List Member → Event
  member_failed : List Member → Event
  other : Event

-- `Handler`
pub record Handler (S : Type 0) : Type 0 where
  pub join : Name → Name → Exec S Unit
  pub leave : Name → Exec S Unit

-- The level of a line of the log.
pub data Level : Type 0 where
  debug : Level
  error : Level

-- A line of the log: its level, the error and the member.
pub record Line : Type 0 where
  pub level : Level
  pub cause : Error
  pub member : Member

-- The handler's state, and the lines logged so far.
pub record State (S : Type 0) : Type 0 where
  pub inner : S
  pub lines : List Line

-- `logError`: an error that a server which does not lead is bound to have is not one to report.
pub level_of : Error → Level
level_of not_leader = debug
level_of _ = error

pub log_error : {S : Type 0} → Result (Unit {0}) → Member → State S → State S
log_error (ok _) m s = s
log_error (err e) m s = record s {
  lines = s.lines ++ (record { level = level_of e; cause = e; member = m } ∷ []);
}

module _ {S : Type 0} (h : Handler S) where
  -- `handleJoin` and `handleLeave`
  pub handle_join : Member → State S → State S
  handle_join m s =
      let (r, t) = h.join m.name m.rpc_addr s.inner in log_error r m (record s { inner = t })

  pub handle_leave : Member → State S → State S
  handle_leave m s = let (r, t) = h.leave m.name s.inner in log_error r m (record s { inner = t })

-- `isLocal`, for the node whose name comes first.
unfoldable pub is_local : Name → Member → Bool
is_local local m = name_eq local m.name

module _ {S : Type 0} (h : Handler S) (local : Name) where
  -- The members of a join.
  pub handle_joins : List Member → State S → State S
  handle_joins [] s = s
  handle_joins (m ∷ ms) s = handle_joins ms (if is_local local m then s else handle_join h m s)

  -- The members of a leave or a failure, and whether the loop goes on to the next event.
  pub handle_leaves : List Member → State S → Bool × State S
  handle_leaves [] s = (true, s)
  handle_leaves (m ∷ ms) s =
      let rest = handle_leaves ms (handle_leave h m s) in
      if is_local local m then (false, s) else rest

  -- A round of `eventHandler`.
  pub handle_event : Event → State S → Bool × State S
  handle_event (member_join ms) s = (true, handle_joins ms s)
  handle_event (member_leave ms) s = handle_leaves ms s
  handle_event (member_failed ms) s = handle_leaves ms s
  handle_event other s = (true, s)

  -- `eventHandler` on the events that come, one after the other, and whether it still runs.
  pub event_handler : List Event → State S → Bool × State S
  event_handler [] s = (true, s)
  event_handler (e ∷ es) s =
      let (goes_on, s') = handle_event e s in
      let rest = event_handler es s' in if goes_on then rest else (false, s')

-- `Config`, with the addresses to join by, which may be nil.
pub record Config : Type 0 where
  pub node_name : Name
  pub bind_addr : Name
  pub tags : List (Name × Name)
  pub start_join_addrs : Option (List Name)

-- `net.TCPAddr`, the address as text.
pub record TcpAddr : Type 0 where
  pub ip : Name
  pub port : ℕ

-- What `setupSerf` sets of `serf.Config`.
pub record SerfConfig : Type 0 where
  pub bind_addr : Name
  pub bind_port : ℕ
  pub tags : List (Name × Name)
  pub node_name : Name

-- What the code calls of Serf and of the package net, and how it starts `eventHandler` beside itself.
-- A Serf is named by what `serf.Create` gives.
pub record Serf (S H : Type 0) : Type 0 where
  pub resolve_tcp_addr : Name → Result TcpAddr
  pub create : SerfConfig → Exec S H
  pub start_handler : H → S → S
  pub join : H → List Name → Exec S Unit
  pub leave : H → Exec S Unit
  pub members : H → S → List Member

module _ {S H : Type 0} (serf : Serf S H) where
  join_existing : H → Option (List Name) → Exec S Unit
  join_existing node none = pure tt
  join_existing node (some addrs) = serf.join node addrs

  -- `setupSerf`
  pub setup_serf : Config → Exec S H
  setup_serf c = do
    addr ← lift (serf.resolve_tcp_addr c.bind_addr)
    node ← serf.create (record {
      bind_addr = addr.ip;
      bind_port = addr.port;
      tags = c.tags;
      node_name = c.node_name;
    })
    modify (serf.start_handler node)
    join_existing node c.start_join_addrs
    pure node

  -- `New`, `Members` and `Leave`
  pub new_membership : Config → Exec S H
  new_membership c = setup_serf c

  pub members : H → S → List Member
  members node s = serf.members node s

  pub leave_cluster : H → Exec S Unit
  leave_cluster node = serf.leave node
