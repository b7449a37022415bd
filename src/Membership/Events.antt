-- ===== src/Membership/Events.antt =====
-- What the handler is told, event by event.
use smolkafka.Prelude.{◌≡◌, refl, ap, true, false, List, [], ◌∷◌, ◌++◌, if◌then◌else◌}
use smolkafka.Exec.{Error, Result, ok, err, not_leader}
use smolkafka.Disk.{Name, name_eq}
use smolkafka.Membership.{
  Member, Event, member_join, member_leave, member_failed, other, Handler, State, Line, Level,
  debug, error, handle_join, log_error, handle_leave, is_local, handle_leaves, handle_event,
  event_handler,
}

-- A join that the handler takes and that changes nothing leaves nothing in the log.
pub handle_join-quiet :
    {S : Type 0} (h : Handler S) (m : Member) (s : State S)
    → h.join m.name m.rpc_addr s.inner ≡ (ok tt, s.inner)
    → handle_join h m s ≡ s
unfolding handle_join log_error
handle_join-quiet h m s e =
    ap (λ (x : Result (Unit {0}) × _). log_error x.0 m (record s { inner = x.1 })) e

-- A call of the handler, of a member that joins or of one that leaves.
pub data Call : Type 0 where
  joins : Member → Call
  leaves : Member → Call

-- The level for an error, and what is logged of a call's result.
abbrev pub severity : Error → Level
severity not_leader = debug
severity _ = error

abbrev pub reported : Result (Unit {0}) → Member → List Line
reported (ok _) m = []
reported (err e) m = record { level = severity e; cause = e; member = m } ∷ []

module _ {S : Type 0} (h : Handler S) (local : Name) where
  -- One call of the handler for each member that leaves.
  abbrev pub leave_all : List Member → State S → State S
  leave_all [] s = s
  leave_all (m ∷ ms) s = leave_all ms (handle_leave h m s)

  -- Nobody among the members is the local one.
  abbrev pub NoLocal : List Member → Type 0
  NoLocal [] = Unit
  NoLocal (m ∷ ms) = (is_local local m ≡ false) × NoLocal ms

  handle_leaves-local :
      (before : List Member) (m : Member) (after : List Member) (s : State S)
      → NoLocal before
      → is_local local m ≡ true
      → handle_leaves h local (before ++ (m ∷ after)) s ≡ (false, leave_all before s)
  unfolding handle_leaves
  handle_leaves-local [] m after s others_only is = rw is refl
  handle_leaves-local (b ∷ before) m after s (not_local, others_only) is =
      rw not_local (handle_leaves-local before m after (handle_leave h b s) others_only is)

  -- A leave or a failure of the local member ends the loop: the handler is told of the members
  -- before it, and neither of those after it nor of any later event.
  pub event_handler-local :
      (before : List Member) (m : Member) (after : List Member) (es : List Event) (s : State S)
      → NoLocal before
      → is_local local m ≡ true
      → (event_handler h local (member_leave (before ++ (m ∷ after)) ∷ es) s
          ≡ (false, leave_all before s))
        × (event_handler h local (member_failed (before ++ (m ∷ after)) ∷ es) s
            ≡ (false, leave_all before s))
  unfolding event_handler handle_event
  event_handler-local before m after es s others_only is =
      let e = handle_leaves-local before m after s others_only is in (rw e refl, rw e refl)

  -- The members of the list with another name than the local one's.
  abbrev pub joiners : List Member → List Call
  joiners [] = []
  joiners (m ∷ ms) = let rest = joiners ms in if name_eq local m.name then rest else joins m ∷ rest

  abbrev pub leavers : List Member → List Call
  leavers [] = []
  leavers (m ∷ ms) = leaves m ∷ leavers ms

  -- The calls that events ask for, whoever the local member is among those who leave.
  abbrev pub calls : List Event → List Call
  calls [] = []
  calls (member_join ms ∷ es) = joiners ms ++ calls es
  calls (member_leave ms ∷ es) = leavers ms ++ calls es
  calls (member_failed ms ∷ es) = leavers ms ++ calls es
  calls (other ∷ es) = calls es

  -- Nobody who leaves or fails has the local member's name.
  abbrev pub Foreign : List Member → Type 0
  Foreign [] = Unit
  Foreign (m ∷ ms) = (name_eq local m.name ≡ false) × Foreign ms

  abbrev pub AllGo : List Event → Type 0
  AllGo [] = Unit
  AllGo (member_join ms ∷ es) = AllGo es
  AllGo (member_leave ms ∷ es) = Foreign ms × AllGo es
  AllGo (member_failed ms ∷ es) = Foreign ms × AllGo es
  AllGo (other ∷ es) = AllGo es

  -- What one call of the handler makes of its state, and the line logged if it fails.
  abbrev pub make : Call → S → List Line × S
  make (joins m) s = let (r, t) = h.join m.name m.rpc_addr s in (reported r m, t)
  make (leaves m) s = let (r, t) = h.leave m.name s in (reported r m, t)

  -- The calls in turn, each on the state that the one before it leaves, and the lines.
  abbrev pub make_all : List Call → S → List Line × S
  make_all [] s = ([], s)
  make_all (c ∷ cs) s =
      let (before, t) = make c s in let (after, u) = make_all cs t in (before ++ after, u)

  -- The handler's state after the calls, and the lines logged so far with theirs behind them.
  abbrev pub after_calls : List Call → State S → State S
  after_calls cs s = record {
    inner = (make_all cs s.inner).1;
    lines = s.lines ++ (make_all cs s.inner).0;
  }
