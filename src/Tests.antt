-- ===== src/Tests.antt =====
-- Concrete inputs for the theorems.
pub mod Storage
pub mod Logs
pub mod RaftLog
pub mod Replicas
pub mod Services
pub mod Streams
pub mod Starting
pub mod Settings
pub mod Examples
use smolkafka.Prelude.{ℕ, ◌≡◌, refl, ap, ◌∙◌, sym, Option, none, some, List, [], ◌∷◌}
use smolkafka.Exec.{Result, ok, err, eof}
use smolkafka.Bytes.{Bytes}
use smolkafka.Platform.{Platform, Record, ProduceRequest}

-- A wire format with the three numbers of a record before its value.
abbrev pub marshal : Record → Result Bytes
marshal r = ok (r.offset ∷ r.term ∷ r.type ∷ r.value)

abbrev pub unmarshal : Bytes → Result Record
unmarshal (o ∷ t ∷ y ∷ v) = ok (record { value = v; offset = o; term = t; type = y })
unmarshal _ = err eof

abbrev marshal_option : Option Record → Result Bytes
marshal_option none = ok []
marshal_option (some r) = marshal r

abbrev unmarshal_request : Bytes → Result ProduceRequest
unmarshal_request (o ∷ t ∷ y ∷ v) =
    ok (record { record_field = some (record { value = v; offset = o; term = t; type = y }) })
unmarshal_request _ = ok (record { record_field = none })

abbrev payload_of : Result Bytes → Bytes
payload_of (ok b) = b
payload_of (err _) = []

pub unmarshal-marshal : (r : Record) (b : Bytes) → marshal r ≡ ok b → unmarshal b ≡ ok r
unmarshal-marshal r b e = sym (ap (λ x. unmarshal (payload_of x)) e)

pub unmarshal-marshal_option :
    (o : Option Record) (b : Bytes)
    → marshal_option o ≡ ok b
    → unmarshal_request b ≡ ok (record { record_field = o })
unmarshal-marshal_option none b e = sym (ap (λ x. unmarshal_request (payload_of x)) e)
unmarshal-marshal_option (some r) b e = sym (ap (λ x. unmarshal_request (payload_of x)) e)

abbrev pub toy : Platform
toy = record {
  map_file = λ b. ok b;
  sync = λ b. ok b;
  map_file_lem = λ b h. refl;
  sync_lem = λ b. refl;
  marshal = marshal;
  unmarshal = unmarshal;
  marshal_request = λ r. marshal_option r.record_field;
  unmarshal_request = unmarshal_request;
  unmarshal-marshal = unmarshal-marshal;
  unmarshal-marshal_request = λ r b e. unmarshal-marshal_option r.record_field b e;
}

abbrev pub hello : Record
hello = record { value = 104 ∷ 105 ∷ []; offset = 0; term = 3; type = 1 }
