-- ===== src/Platform.antt =====
-- The third-party code that internal/log uses: the memory maps of tysonmote/gommap, and the wire
-- format of google.golang.org/protobuf for the messages of api/v1/log.proto.
use smolkafka.Prelude.{ℕ, ◌<◌, ◌≡◌, Option, length}
use smolkafka.Exec.{Result, ok}
use smolkafka.Bytes.{Bytes}

-- `api.Record`.
pub record Record : Type 0 where
  pub value : Bytes
  pub offset : ℕ
  pub term : ℕ
  pub type : ℕ

-- `api.ProduceRequest`, with the record that it may lack.
pub record ProduceRequest : Type 0 where
  pub record_field : Option Record

pub record Platform : Type 0 where
  -- `gommap.Map` of a file with these contents: the bytes of the map.
  pub map_file : Bytes → Result Bytes
  -- `MMap.Sync`: the contents of the file afterwards.
  pub sync : Bytes → Result Bytes
  -- A shared map of a file that is not empty has the file's bytes, and a sync writes them back.
  pub map_file_lem : (b : Bytes) → 0 < length b → map_file b ≡ ok b
  pub sync_lem : (b : Bytes) → sync b ≡ ok b
  -- `proto.Marshal` and `proto.Unmarshal`.
  pub marshal : Record → Result Bytes
  pub unmarshal : Bytes → Result Record
  pub marshal_request : ProduceRequest → Result Bytes
  pub unmarshal_request : Bytes → Result ProduceRequest
  -- What was marshalled is unmarshalled to the same message.
  pub unmarshal-marshal : (r : Record) (b : Bytes) → marshal r ≡ ok b → unmarshal b ≡ ok r
  pub unmarshal-marshal_request :
      (r : ProduceRequest) (b : Bytes) → marshal_request r ≡ ok b → unmarshal_request b ≡ ok r
