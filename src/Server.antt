-- ===== src/Server.antt =====
-- internal/server: the gRPC service over a commit log, and the HTTP service over a log in memory.
-- gRPC, casbin, JSON and the router are libraries: what they do for a call is a parameter.
pub mod Access
pub mod Streams
pub mod Following
pub mod CatchingUp
pub mod Memory
pub mod Calls
pub mod Routes
use smolkafka.Prelude.{
  ℕ, zero, suc, ◌+◌, ◌%◌, ◌^◌, Bool, true, false, Option, none, some, List, [], ◌∷◌, ◌++◌, ltb,
  if◌then◌else◌, length, get_elem?,
}
use smolkafka.Exec.{
  Error, Result, ok, err, offset_out_of_range, offset_not_found, permission_denied, unknown_peer,
  panic, Exec, pure, lift, gets, map_result, ◌>>=◌, ◌>>◌,
}
use smolkafka.Bytes.{Bytes}
use smolkafka.Disk.{Name}
use smolkafka.Platform.{Record}

-- `CommitLog` of internal/server/server.go, with the state of what implements it.
pub record CommitLog (S : Type 0) : Type 0 where
  pub append : Option Record → Exec S ℕ
  pub read : ℕ → Exec S Record

-- The constants of internal/server/server.go.
abbrev pub object_wildcard : Name
object_wildcard = b'*' ∷ []

abbrev pub produce_action : Name
produce_action = b'p' ∷ b'r' ∷ b'o' ∷ b'd' ∷ b'u' ∷ b'c' ∷ b'e' ∷ []

abbrev pub consume_action : Name
consume_action = b'c' ∷ b'o' ∷ b'n' ∷ b's' ∷ b'u' ∷ b'm' ∷ b'e' ∷ []

-- `Authorize` of internal/auth/authorizer.go, with casbin's decision for a parameter.
unfoldable pub authorize : (Name → Name → Name → Bool) → Name → Name → Name → Result (Unit {0})
authorize enforce subject object action =
    if enforce subject object action then ok tt else err permission_denied

-- The peer of a call: whether it was found, and what it authenticated by.
pub data Peer : Type 0 where
  missing : Peer
  no_auth_info : Peer
  other_auth_info : Peer
  -- The common names of the leaves of the verified chains.
  tls_info : List (List Name) → Peer

-- `authenticate`: the subject put in the context. An index out of range panics.
unfoldable pub authenticate : Peer → Result Name
authenticate missing = err unknown_peer
authenticate no_auth_info = ok []
authenticate other_auth_info = ok []
authenticate (tls_info []) = err panic
authenticate (tls_info ([] ∷ chains)) = err panic
authenticate (tls_info ((name ∷ names) ∷ chains)) = ok name

-- What happens in a round of `ConsumeStream`: the call is over, or is served after other calls have
-- changed the log, and then its response is sent.
pub data Turn (S : Type 0) : Type 0 where
  done : Turn S
  serve : (S → S) → Result (Unit {0}) → Turn S

-- What a stream has come to: it runs on, or it returned.
pub data Outcome : Type 0 where
  running : Outcome
  returned : Result (Unit {0}) → Outcome

-- The case `api.ErrOffsetOutOfRange` of the type switch in `ConsumeStream`.
pub is_out_of_range : Error → Bool
is_out_of_range (offset_out_of_range n) = true
is_out_of_range _ = false

module _ {S : Type 0} (log : CommitLog S) (enforce : Name → Name → Name → Bool)
    (subject : Name) where
  -- `Produce`
  pub produce : Option Record → Exec S ℕ
  produce r = do lift (authorize enforce subject object_wildcard produce_action); log.append r

  -- `Consume`
  unfoldable pub consume : ℕ → Exec S Record
  consume off = do lift (authorize enforce subject object_wildcard produce_action); log.read off

  -- `ProduceStream` on the requests received before `Recv` fails with `last`, each with what `Send` of
  -- its response returns: the offsets that were sent, the error returned and the log.
  pub produce_stream : List (Option Record × Result (Unit {0})) → Error → S → List ℕ × (Error × S)
  produce_stream [] last s = ([], (last, s))
  produce_stream ((r, sent) ∷ rs) last s =
      let (x, s') = produce r s in
      let (offs, (e, s'')) = produce_stream rs last s' in
      elim x [
        | err e' ↦ ([], (e', s'))
        | ok off ↦ elim sent [ ok _ ↦ (off ∷ offs, (e, s'')) | err e' ↦ ([], (e', s')) ]
      ]

  -- `ConsumeStream` from the offset on, for so many turns: the records sent, what it came to, and the
  -- log.
  unfoldable pub consume_stream : ℕ → List (Turn S) → S → List Record × (Outcome × S)
  consume_stream off [] s = ([], (running, s))
  consume_stream off (done ∷ ts) s = ([], (returned (ok tt), s))
  consume_stream off (serve others sent ∷ ts) s =
      let (x, s') = consume off (others s) in
      let (rs, o) = consume_stream ((off + 1) % 2 ^ 64) ts s' in
      let again = consume_stream off ts s' in
      elim x [
        | ok r ↦ elim sent [ ok _ ↦ (r ∷ rs, o) | err e ↦ ([], (returned (err e), s')) ]
        | err e ↦ if is_out_of_range e then again else ([], (returned (err e), s'))
      ]

-- `Log` and `Record` of internal/server/log.go.
pub record Entry : Type 0 where
  pub value : Bytes
  pub offset : ℕ

abbrev pub Memory : Type 0
Memory = List Entry

-- `Append`
pub memory_append : Entry → Exec Memory ℕ
memory_append e m = (ok (length m), m ++ (record e { offset = length m } ∷ []))

-- `Read`
unfoldable pub found : Option Entry → Result Entry
found (some e) = ok e
found none = err panic

unfoldable pub memory_read : ℕ → Exec Memory Entry
memory_read off m =
    (if ltb off (length m) then found (get_elem? m off) else err offset_not_found, m)

-- What a handler answers: a body with status 200, or an error's status.
pub data Answer (A : Type 0) : Type 0 where
  body : A → Answer A
  status : ℕ → Answer A

-- `json.Encoder.Encode` of what is answered, by its error.
abbrev encoded : {A : Type 0} → (A → Result (Unit {0})) → A → Answer A
encoded encode a = elim (encode a) [ ok _ ↦ body a | err _ ↦ status 500 ]

-- `handleProduce`, on what the request's body is decoded to.
pub handle_produce : (ℕ → Result (Unit {0})) → Result Entry → Memory → Answer ℕ × Memory
handle_produce encode (err e) m = (status 400, m)
handle_produce encode (ok e) m = elim (memory_append e m).0 [
  | ok off ↦ (encoded encode off, (memory_append e m).1)
  | err _ ↦ (status 500, (memory_append e m).1)
]

pub refused : (Entry → Result (Unit {0})) → Error → Answer Entry
refused encode offset_not_found = status 404
refused encode _ = encoded encode (record { value = []; offset = 0 })

-- `handleConsume`. Any other error than one that is not found would be answered by an empty record;
-- `Read` has none.
pub handle_consume : (Entry → Result (Unit {0})) → Result ℕ → Memory → Answer Entry × Memory
handle_consume encode (err e) m = (status 400, m)
handle_consume encode (ok off) m = elim (memory_read off m).0 [
  | ok e ↦ (encoded encode e, m)
  | err e' ↦ (refused encode e', m)
]
