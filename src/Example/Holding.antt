-- ===== src/Example/Holding.antt =====
-- What the calls of the example's client do to the log.
use mathlib.Core.Path.{subst}
use smolkafka.Prelude.{
  ℕ, ◌+◌, ◌≤◌, ◌<◌, ◌≡◌, refl, ap, sym, ◌∙◌, Bool, some, List, [], ◌∷◌, ◌++◌, arith, inr, get_elem?,
  length,
}
use smolkafka.Exec.{ok}
use smolkafka.Exec.Returns.{Returns}
use smolkafka.Bytes.{Bytes}
use smolkafka.Disk.{Name}
use smolkafka.Platform.{Platform, Record}
use smolkafka.Segment.{Config}
use smolkafka.Log
use smolkafka.Log.{Log, with_defaults}
use smolkafka.Log.Holds.{Holds}
use smolkafka.Log.Read.{log_read_lem}
use smolkafka.Log.Suits.{AllLong, AllLong-end}
use smolkafka.Log.Append.{log_append_lem}
use smolkafka.Config.{Crypto}
use smolkafka.Config.Files.{ConfigFiles}
use smolkafka.Service.{Machine}
use smolkafka.Server.Calls.{Context, Around}
use smolkafka.Server.Calls.Chains.{produce_call-permitted, consume_call-permitted}
use smolkafka.Example.{Packages, of_value, append_own, own_log, send_recv}
use smolkafka.Example.Works.{Works}

-- The log of the service holds the payloads, at the usual limits.
pub record Holding {S : Type 0} (machine : Machine S) (fs : List Bytes) (s : S) : Type 0 where
  pub holds : Holds (machine.get s) 0 fs
  pub long : AllLong 5 fs
  pub store_lem : (machine.get s).config.max_store_bytes ≡ 1024
  pub index_lem : (machine.get s).config.max_index_bytes ≡ 1024

-- What a log has that was put in its place.
pub Holding-of :
    {S : Type 0} (machine : Machine S) (fs : List Bytes) (s : S) (l : Log)
    → machine.get s ≡ l
    → Holds l 0 fs
    → AllLong 5 fs
    → l.config.max_store_bytes ≡ 1024
    → l.config.max_index_bytes ≡ 1024
    → Holding machine fs s
Holding-of machine fs s l e holds long store index = record {
  holds = subst (λ k. Holds k 0 fs) (sym e) holds;
  long = long;
  store_lem = ap (λ (k : Log). k.config.max_store_bytes) e ∙ store;
  index_lem = ap (λ (k : Log). k.config.max_index_bytes) e ∙ index;
}

pub Holding-same :
    {S : Type 0} (machine : Machine S) (fs : List Bytes) (s t : S)
    → machine.get t ≡ machine.get s
    → Holding machine fs s
    → Holding machine fs t
Holding-same machine fs s t e h =
    Holding-of machine fs t (machine.get s) e h.holds h.long h.store_lem h.index_lem

-- The record of a value at its offset.
abbrev pub at_offset : ℕ → Bytes → Record
at_offset n b = record (of_value b) { offset = n }

module _ {S H O C P : Type 0} {pkg : Packages S H O C P} {os : Platform} {machine : Machine S}
    {crypto : Crypto C P} {enforce : Name → Name → Name → Bool} {files : ConfigFiles}
    {around : Around S ℕ} {reading : Around S Record} {ctx : Context} {subject : Name}
    (w : Works pkg os machine crypto enforce files around reading ctx subject) where
  -- What a call by the client comes to.
  pub produce_call_lem :
      (conn : H) (r : Record) (s : S)
      → pkg.produce conn r s ≡ (own_log os machine).append (some r) s
  produce_call_lem conn r s =
      w.produces conn r s
      ∙ (produce_call-permitted (own_log os machine) enforce around (some r) ctx subject s w.clear
          w.subject_lem w.allowed).0

  pub consume_call_lem :
      (conn : H) (off : ℕ) (s : S) → pkg.consume conn off s ≡ (own_log os machine).read off s
  consume_call_lem conn off s =
      w.consumes conn off s
      ∙ consume_call-permitted (own_log os machine) enforce reading off ctx subject s w.read_clear
          w.subject_lem w.allowed

  pub send_recv_lem :
      (stream : H) (b : Bytes) (s : S)
      → send_recv pkg stream b s ≡ (own_log os machine).append (some (of_value b)) s
  unfolding send_recv
  send_recv_lem stream b s =
      w.answers stream (of_value b) s
      ∙ (produce_call-permitted (own_log os machine) enforce around (some (of_value b)) ctx subject
          s w.clear w.subject_lem w.allowed).1

  -- A value was appended behind the payloads, at the offset that was returned.
  abbrev pub Appended : List Bytes → Bytes → ℕ → S → Type 0
  Appended fs b off t =
      (off ≡ length fs)
      × ((p : Bytes) × (os.marshal (at_offset (length fs) b) ≡ ok p)
          × Holding machine (fs ++ (p ∷ [])) t)

  -- A record more.
  pub append-Holding :
      (fs : List Bytes) (b : Bytes) (s : S)
      → Holding machine fs s
      → 5 ≤ length b
      → length b < 100
      → length fs < 99
      → Returns ((own_log os machine).append (some (of_value b)) s) (Appended fs b)
  unfolding own_log append_own
  append-Holding fs b s h le short few =
      let l = machine.get s in
      let (p, m, p_long, p_short) = w.marshals b (length fs) le short (omega arith) in
      let here : 0 + length fs ≡ length fs = omega arith in
      let (off, e, (at, holds, config)) =
        log_append_lem os l 0 fs (of_value b) p h.holds
          (inr (5, 85, h.long, omega (arith, h.store_lem), omega (arith, h.index_lem)))
          (ap (λ k. os.marshal (at_offset k b)) here ∙ m) (omega (arith, h.store_lem, p_short))
          (omega arith) in
      let l' = (Log.append os (of_value b) l).1 in
      (
        off,
        e,
        (
          at ∙ here,
          (
            p,
            m,
            Holding-of machine (fs ++ (p ∷ [])) (machine.put s l') l' (w.get_put s l') holds
                (AllLong-end 5 fs p h.long p_long)
                (ap (λ (c : Config). c.max_store_bytes) config ∙ h.store_lem)
                (ap (λ (c : Config). c.max_index_bytes) config ∙ h.index_lem),
          ),
        ),
      )

  pub read-Holding :
      (fs : List Bytes) (k : ℕ) (p : Bytes) (r : Record) (s : S)
      → Holding machine fs s
      → get_elem? fs k ≡ some p
      → os.unmarshal p ≡ ok r
      → Returns ((own_log os machine).read k s) (λ q t. (q ≡ r) × Holding machine fs t)
  unfolding own_log
  read-Holding fs k p r s h at e =
      let l = machine.get s in
      let here : 0 + k ≡ k = omega arith in
      let (got, holds, config) = log_read_lem os l 0 k fs p h.holds at in
      let l' = (Log.read os k l).1 in
      let same = ap (λ n. (Log.read os n l).1) here in
      (
        r,
        ap (λ n. (Log.read os n l).0) (sym here) ∙ got ∙ e,
        (
          refl,
          Holding-of machine fs (machine.put s l') (Log.read os (0 + k) l).1
              (w.get_put s l' ∙ sym same) holds h.long
              (ap (λ (c : Config). c.max_store_bytes) config ∙ h.store_lem)
              (ap (λ (c : Config). c.max_index_bytes) config ∙ h.index_lem),
        ),
      )
