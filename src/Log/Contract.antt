-- ===== src/Log/Contract.antt =====
-- What a log promises, whatever calls its owner makes: a sequence of payloads, with the offset of the
-- first of them.
pub mod Runs
pub mod Bounds
use smolkafka.Prelude.{
  ℕ, ◌+◌, ◌%◌, ◌^◌, ◌<◌, ◌≤◌, ◌≡◌, ◌⊎◌, Bool, List, [], ◌∷◌, ◌++◌, some, length, get_elem?,
}
use smolkafka.Exec.{Result, ok, err, offset_out_of_range, Exec, ◌>>=◌, ◌>>◌}
use smolkafka.Bytes.{Bytes}
use smolkafka.Platform.{Platform, Record}
use smolkafka.Segment.{Config}
use smolkafka.Log
use smolkafka.Log.{Log}
use smolkafka.Log.Offsets.{before}
use smolkafka.Log.Suits.{Suits}

pub record Contents : Type 0 where
  pub first : ℕ
  pub payloads : List Bytes

-- The offset that the next record gets.
abbrev pub next_of : Contents → ℕ
next_of a = a.first + length a.payloads

-- A call of the log; `restart` closes it and opens it again on its directory.
pub data Call : Type 0 where
  append : Record → Call
  read : ℕ → Call
  lowest_offset highest_offset : Call
  truncate : ℕ → Call
  restart : Call

pub data Answer : Type 0 where
  an_offset : Result ℕ → Answer
  a_record : Result Record → Answer
  finished : Result (Unit {0}) → Answer

-- The offset is that of one of the payloads.
pub record IsAt (a : Contents) (off : ℕ) (p : Bytes) : Type 0 where
  pub place : ℕ
  pub place_lem : off ≡ a.first + place
  pub payload_lem : get_elem? a.payloads place ≡ some p

abbrev IsOutside : Contents → ℕ → Type 0
IsOutside a off = (off < a.first) ⊎ (next_of a ≤ off)

-- What was cut off the front, and what stays.
pub record IsCut (lowest : ℕ) (a a' : Contents) : Type 0 where
  pub gone : List Bytes
  pub split : a.payloads ≡ gone ++ a'.payloads
  pub first_lem : a'.first ≡ a.first + length gone
  pub below : (gone ≡ []) ⊎ (a'.first ≤ lowest + 1)

module _ (os : Platform) where
  -- What a call may answer, and what it leaves.
  pub data Promise : Call → Answer → Contents → Contents → Type 0 where
    appended :
        (r : Record) (a : Contents) (p : Bytes)
        → os.marshal (record r { offset = next_of a }) ≡ ok p
        → Promise
            (append r)
            (an_offset (ok (next_of a)))
            a
            (record a { payloads = a.payloads ++ (p ∷ []) })
    found :
        (off : ℕ) (a : Contents) (p : Bytes)
        → IsAt a off p
        → Promise (read off) (a_record (os.unmarshal p)) a a
    outside :
        (off : ℕ) (a : Contents)
        → IsOutside a off
        → Promise (read off) (a_record (err (offset_out_of_range off))) a a
    lowest : (a : Contents) → Promise lowest_offset (an_offset (ok a.first)) a a
    highest : (a : Contents) → Promise highest_offset (an_offset (ok (before (next_of a)))) a a
    cut : (n : ℕ) (a a' : Contents) → IsCut n a a' → Promise (truncate n) (finished (ok tt)) a a'
    restarted : (a : Contents) → Promise restart (finished (ok tt)) a a

  -- A run of calls with their answers.
  pub data Promised : List Call → List Answer → Contents → Contents → Type 0 where
    none_left : (a : Contents) → Promised [] [] a a
    one_more :
        (c : Call) (cs : List Call) (x : Answer) (xs : List Answer) (a b a' : Contents)
        → Promise c x a b
        → Promised cs xs b a'
        → Promised (c ∷ cs) (x ∷ xs) a a'

  -- When a call may be made of a log so configured: a record must be one that can be marshalled, with
  -- room for it below the bounds of the machine's integers and limits that suit what is there, and a
  -- record must be left by a cut.
  abbrev pub MayCall : Config → Call → Contents → Type 0
  MayCall c (append r) a =
      (p : Bytes) × (os.marshal (record r { offset = next_of a }) ≡ ok p)
      × (c.max_store_bytes + length p + 8 < 2 ^ 63)
      × (next_of a + 1 < 2 ^ 63)
      × Suits c a.payloads
  MayCall c (read off) a = Unit
  MayCall c lowest_offset a = Unit
  MayCall c highest_offset a = Unit
  MayCall c (truncate n) a = (n + 1 < 2 ^ 64) × (n + 1 < next_of a)
  MayCall c restart a = Unit

  abbrev pub MayRun : Config → List Call → Contents → Type 0
  MayRun c [] a = Unit
  MayRun c (call ∷ calls) a =
      MayCall c call a × ((x : Answer) (b : Contents) → Promise call x a b → MayRun c calls b)

  -- `Close`, and `NewLog` on the same directory with the same configuration.
  pub restart_log : Exec Log Unit
  restart_log = do Log.close os; λ k. Log.new_log os k.dir k.config

  -- A call of the log.
  pub perform : Call → Log → Answer × Log
  perform (append r) l = let (x, l') = Log.append os r l in (an_offset x, l')
  perform (read off) l = let (x, l') = Log.read os off l in (a_record x, l')
  perform lowest_offset l = (an_offset (Log.lowest_offset l), l)
  perform highest_offset l = (an_offset (Log.highest_offset l), l)
  perform (truncate n) l = let (x, l') = Log.truncate os n l in (finished x, l')
  perform restart l = let (x, l') = restart_log l in (finished x, l')

  pub perform_all : List Call → Log → List Answer × Log
  perform_all [] l = ([], l)
  perform_all (c ∷ cs) l =
      let (x, l') = perform c l in let (xs, l'') = perform_all cs l' in (x ∷ xs, l'')
