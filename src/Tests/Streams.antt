-- ===== src/Tests/Streams.antt =====
-- The stream of a consumer at concrete inputs.
use mathlib.Core.Path.{subst}
use smolkafka.Prelude.{
  ℕ, suc, ◌+◌, ◌<◌, ◌≡◌, refl, ap, sym, ◌∙◌, List, [], ◌∷◌, ◌++◌, append-nil, arith, length,
  length-append,
}
use smolkafka.Exec.{ok}
use smolkafka.Bytes.{Bytes}
use smolkafka.Platform.{Record}
use smolkafka.Segment.{Config}
use smolkafka.Log
use smolkafka.Log.Append.{log_append_lem}
use smolkafka.Log.Suits.{AllLong, AllLong-end, Suits}
use smolkafka.Server.{Turn, serve, consume_stream}
use smolkafka.Server.Following.{OnlyAppend, AsFollowed}
use smolkafka.Service.{commit_log}
use smolkafka.Service.Followed.{
  Serves, Decoded, length-Decoded, Decoded-end, consume_stream-Serves, consume_stream-behind,
}
use smolkafka.Tests.{toy, hello}
use smolkafka.Tests.Logs.{usual, usual_lem, usual_store, usual-Suits}
use smolkafka.Tests.Services.{Leader, toy_raft, machine, anyone}

-- A log at the usual limits, with room for so many records of five bytes.
abbrev Room : ℕ → Config → List Bytes → Type 0
Room n c ps = (c ≡ usual.config) × AllLong 5 ps × (length ps + n < 1000)

abbrev Has : ℕ → Leader → List Record → Type 0
Has = Serves toy machine 0 Room

-- What the machine does with a command of the same record.
abbrev more : Leader → Leader
more (srvs, l) = (srvs, (Log.append toy hello l).1)

abbrev numbered : ℕ → Record
numbered n = record hello { offset = n }

more-Has :
    (n : ℕ) (s : Leader) (rs : List Record)
    → Has (suc n) s rs
    → Has n (more s) (rs ++ (numbered (length rs) ∷ []))
more-Has n s rs h =
    let l = machine.get s in
    let (config, long, few) = h.room in
    let count = length-Decoded toy h.payloads rs h.decoded in
    let p = length rs ∷ 3 ∷ 1 ∷ 104 ∷ 105 ∷ [] in
    let at : 0 + length h.payloads ≡ length rs = omega (arith, count) in
    let (_, _, (_, holds, same)) =
      log_append_lem toy l 0 h.payloads hello p h.holds
        (subst (λ c. Suits c h.payloads) (sym config) (usual-Suits h.payloads long))
        (ap (λ n. toy.marshal (numbered n)) at)
        (omega (arith, usual_store, ap (λ (c : Config). c.max_store_bytes) config))
        (omega (arith, few)) in
    record {
      payloads = h.payloads ++ (p ∷ []);
      holds = holds;
      decoded = Decoded-end toy h.payloads rs p (numbered (length rs)) h.decoded refl;
      room = (
        same ∙ config,
        AllLong-end 5 h.payloads p long (omega arith),
        omega (arith, few, length-append h.payloads (p ∷ [])),
      );
    }

-- The state before the stream, and with a record in the log.
abbrev empty : Leader
empty = ([], usual)

empty-Has : (n : ℕ) → n < 1000 → Has n empty []
empty-Has n few = record {
  payloads = [];
  holds = usual_lem.2.0;
  decoded = tt;
  room = (refl, tt, omega arith);
}

-- A record is appended before the first turn, and none before the second.
abbrev turns : List (Turn Leader)
turns = serve more (ok tt) ∷ serve (λ s. s) (ok tt) ∷ []

turns-OnlyAppend : OnlyAppend Has turns
turns-OnlyAppend = (
  λ s rs h. (numbered (length rs) ∷ [], more-Has 1 s rs h),
  (
    λ s rs h. (
      [],
      record {
        payloads = h.payloads;
        holds = h.holds;
        decoded = subst (Decoded toy h.payloads) (sym (append-nil rs)) h.decoded;
        room = (h.room.0, h.room.1, omega (arith, h.room));
      },
    ),
    tt,
  ),
)

consume_stream-Serves_example :
    AsFollowed
      (commit_log toy_raft toy machine)
      anyone
      []
      0
      Has
      0
      []
      (consume_stream (commit_log toy_raft toy machine) anyone [] 0 turns empty)
consume_stream-Serves_example =
    consume_stream-Serves toy_raft toy machine 0 Room anyone [] 0 turns empty [] (λ s l. refl) refl
      turns-OnlyAppend (omega arith) (empty-Has 2 (omega arith))

-- Two records are there before.
consume_stream-behind_example :
    (consume_stream (commit_log toy_raft toy machine) anyone [] 0 turns (more (more empty))).0
    ≡ numbered 0 ∷ numbered 1 ∷ []
consume_stream-behind_example =
    consume_stream-behind toy_raft toy machine 0 Room anyone [] 0 turns (more (more empty))
      (numbered 0 ∷ numbered 1 ∷ []) (λ s l. refl) refl turns-OnlyAppend tt (omega arith)
      (omega arith)
      (more-Has 2 (more empty) (numbered 0 ∷ []) (more-Has 3 empty [] (empty-Has 4 (omega arith))))
