-- ===== src/Server/Calls.antt =====
-- `NewGRPCServer` of internal/server/server.go: what a call passes before it is served. The
-- interceptors of the tags and of the log are libraries'.
pub mod Chains
use smolkafka.Prelude.{ℕ, Bool, Option, none, some, List, [], ◌∷◌, ◌++◌}
use smolkafka.Exec.{Result, ok, err, panic, Exec, pure, lift, map_result, ◌>>=◌, ◌>>◌}
use smolkafka.Disk.{Name}
use smolkafka.Platform.{Record}
use smolkafka.Server.{Peer, CommitLog, authenticate, produce, consume}

-- What the code reads of a call's context: the peer, and the value of `subjectContextKey`.
pub record Context : Type 0 where
  pub peer : Peer
  pub subject : Option Name

-- `grpc_ctxtags`, `grpc_zap` and `grpc_auth` with `authenticate`.
pub data Interceptor : Type 0 where
  tags : Interceptor
  logging : Interceptor
  auth : Interceptor

-- The chains of `NewGRPCServer`, of the streams and of the other calls.
abbrev pub stream_chain : List Interceptor
stream_chain = tags ∷ auth ∷ logging ∷ []

abbrev pub unary_chain : List Interceptor
unary_chain = tags ∷ logging ∷ auth ∷ []

-- `subject`: a value that is not there panics.
pub subject_of : Option Name → Result Name
subject_of none = err panic
subject_of (some name) = ok name

-- The context that `authenticate` returns.
pub with_subject : Context → Result Context
with_subject ctx = map_result (λ name. record ctx { subject = some name }) (authenticate ctx.peer)

-- The interceptors of libraries, around what is called next.
pub record Around (S A : Type 0) : Type 0 where
  pub add_tags : (Context → Exec S A) → Context → Exec S A
  pub log_call : (Context → Exec S A) → Context → Exec S A

module _ {S A : Type 0} (around : Around S A) where
  intercept : Interceptor → (Context → Exec S A) → Context → Exec S A
  intercept tags next = around.add_tags next
  intercept logging next = around.log_call next
  intercept auth next = λ ctx. lift (with_subject ctx) >>= next

  -- `ChainUnaryServer` and `ChainStreamServer`: the first one is the outermost.
  pub chained : List Interceptor → (Context → Exec S A) → Context → Exec S A
  chained [] handler = handler
  chained (i ∷ is) handler = intercept i (chained is handler)

-- A handler that begins by `subject` of its context.
pub as_subject : {S A : Type 0} → (Name → Exec S A) → Context → Exec S A
as_subject call ctx = do name ← lift (subject_of ctx.subject); call name

module _ {S : Type 0} (log : CommitLog S) (enforce : Name → Name → Name → Bool) where
  -- `Produce` and `Consume`, with the subject out of the context.
  pub produce_call : Option Record → Context → Exec S ℕ
  produce_call r = as_subject (λ name. produce log enforce name r)

  pub consume_call : ℕ → Context → Exec S Record
  consume_call off = as_subject (λ name. consume log enforce name off)

-- What `NewGRPCServer` calls of gRPC, with the type of options: the views of opencensus, the server
-- with its two chains, and the services.
pub record Grpc (S H O : Type 0) : Type 0 where
  pub register_views : Exec S Unit
  pub stream_interceptor : List Interceptor → O
  pub unary_interceptor : List Interceptor → O
  pub new_server : List O → Exec S H
  pub register_health : H → Exec S Unit
  pub register_log : H → Exec S Unit

-- `NewGRPCServer`
unfoldable pub new_grpc_server : {S H O : Type 0} → Grpc S H O → List O → Exec S H
new_grpc_server g options = do
  g.register_views
  server ←
      g.new_server
        (options ++ (g.stream_interceptor stream_chain ∷ g.unary_interceptor unary_chain ∷ []))
  g.register_health server
  g.register_log server
  pure server
