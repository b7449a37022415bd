-- ===== src/Server/Routes.antt =====
-- `NewHTTPServer` of internal/server/http.go and the command cmd/server/main.go that starts it, and the
-- status of api/v1/errors.go. The router, the JSON codec and the status's details are libraries'.
use smolkafka.Prelude.{ℕ, List, [], ◌∷◌, ◌++◌}
use smolkafka.Exec.{Result, ok, err}
use smolkafka.Disk.{Name}
use smolkafka.Names.{decimal}
use smolkafka.Server.{Memory}

-- A request's body as one of the two handlers decodes it, and its answer.
pub data Handler : Type 0 where
  produces : Handler
  consumes : Handler

-- A route of `mux.Router`: the path, the method and the handler.
pub record Route : Type 0 where
  pub path : Name
  pub method : Name
  pub handler : Handler

-- The fields of `http.Server` that are set, beside the log in memory.
pub record HttpServer : Type 0 where
  pub addr : Name
  pub routes : List Route
  pub log : Memory

-- `NewHTTPServer`, by `newHTTPServer` with an empty log.
pub new_http_server : Name → HttpServer
new_http_server addr = record {
  addr = addr;
  routes =
      record { path = b'/' ∷ []; method = b'P' ∷ b'O' ∷ b'S' ∷ b'T' ∷ []; handler = produces }
      ∷ record { path = b'/' ∷ []; method = b'G' ∷ b'E' ∷ b'T' ∷ []; handler = consumes }
      ∷ [];
  log = [];
}

-- `main` of cmd/server/main.go, up to `ListenAndServe`.
pub main_server : HttpServer
main_server = new_http_server (b':' ∷ b'8' ∷ b'0' ∷ b'8' ∷ b'0' ∷ [])

-- `status.Status`, with the details as locale and message.
pub record Status : Type 0 where
  pub code : ℕ
  pub message : Name
  pub details : List (Name × Name)

abbrev out_of_range_text : Name
out_of_range_text =
    b'o' ∷ b'f' ∷ b'f' ∷ b's' ∷ b'e' ∷ b't' ∷ b' ' ∷ b'o' ∷ b'u' ∷ b't' ∷ b' ' ∷ b'o' ∷ b'f' ∷ b' '
    ∷ b'r' ∷ b'a' ∷ b'n' ∷ b'g' ∷ b'e' ∷ b':' ∷ b' ' ∷ []

abbrev outside_text : Name
outside_text =
    b'T' ∷ b'h' ∷ b'e' ∷ b' ' ∷ b'r' ∷ b'e' ∷ b'q' ∷ b'u' ∷ b'e' ∷ b's' ∷ b't' ∷ b'e' ∷ b'd' ∷ b' '
    ∷ b'o' ∷ b'f' ∷ b'f' ∷ b's' ∷ b'e' ∷ b't' ∷ b' ' ∷ b'i' ∷ b's' ∷ b' ' ∷ b'o' ∷ b'u' ∷ b't'
    ∷ b's' ∷ b'i' ∷ b'd' ∷ b'e' ∷ b' ' ∷ b't' ∷ b'h' ∷ b'e' ∷ b' ' ∷ b'l' ∷ b'o' ∷ b'g' ∷ 39 ∷ b's'
    ∷ b' ' ∷ b'r' ∷ b'a' ∷ b'n' ∷ b'g' ∷ b'e' ∷ b':' ∷ b' ' ∷ []

abbrev en_us : Name
en_us = b'e' ∷ b'n' ∷ b'-' ∷ b'U' ∷ b'S' ∷ []

or_without : Status → Result Status → Status
or_without st (ok with_details) = with_details
or_without st (err e) = st

-- `GRPCStatus` of an offset out of range, with `WithDetails`, which may fail.
pub grpc_status : (Status → List (Name × Name) → Result Status) → ℕ → Status
grpc_status with_details offset =
    let st : Status = record {
      code = 404;
      message = out_of_range_text ++ decimal offset;
      details = [];
    } in
    or_without st (with_details st ((en_us, outside_text ++ decimal offset) ∷ []))
