-- ===== src/Server/Streams.antt =====
-- The two streams, over any commit log that numbers its records one after the other.
use smolkafka.Prelude.{
  ℕ, zero, suc, ◌+◌, ◌%◌, ◌^◌, ◌<◌, ◌≡◌, refl, ap, ◌∙◌, sym, inl, inr, Bool, true, Bool-cases,
  Option, some, none, List, [], ◌∷◌, arith, length, get_elem?,
}
use smolkafka.Exec.{Error, Result, ok, err, Result-cases}
use smolkafka.Exec.Returns.{Returns}
use smolkafka.Disk.{Name}
use smolkafka.Platform.{Record}
use smolkafka.Server.{
  CommitLog, object_wildcard, produce_action, Turn, done, serve, produce, consume, is_out_of_range,
  produce_stream, consume_stream,
}
use smolkafka.Server.Access.{permitted_lem}

-- The requests for these records, of which every response is sent.
abbrev pub requests : List Record → List (Option Record × Result (Unit {0}))
requests [] = []
requests (r ∷ rs) = (some r, ok tt) ∷ requests rs

-- So many offsets, one after the other.
abbrev pub offsets_from : ℕ → ℕ → List ℕ
offsets_from n zero = []
offsets_from n (suc k) = n ∷ offsets_from (n + 1) k

module _ {S : Type 0} (log : CommitLog S) (enforce : Name → Name → Name → Bool)
    (subject : Name) where
  -- A request of the stream that is served and answered.
  produce_stream-sent :
      (r : Option Record) (rs : List (Option Record × Result (Unit {0}))) (last : Error) (s t : S)
      (off : ℕ)
      → produce log enforce subject r s ≡ (ok off, t)
      → produce_stream log enforce subject ((r, ok tt) ∷ rs) last s ≡ (
        off ∷ (produce_stream log enforce subject rs last t).0,
        (produce_stream log enforce subject rs last t).1,
      )
  unfolding produce_stream
  produce_stream-sent r rs last s t off e =
      rw (ap (λ (x : Result ℕ × S). x.0) e, ap (λ (x : Result ℕ × S). x.1) e, produce_stream) refl

  -- Over a log that appends every record at the next offset, a subject that may produce is sent
  -- the offset of each record of its stream in order, if each response can be sent, and the stream
  -- ends with the error of `Recv`.
  pub produce_stream-offsets :
      (IsNext : S → ℕ → Type 0)
      → ((r : Record) (s : S) (n : ℕ)
          → IsNext s n
          → Returns (log.append (some r) s) (λ off t. (off ≡ n) × IsNext t (n + 1)))
      → (rs : List Record) (last : Error) (s : S) (n : ℕ) → IsNext s n
      → enforce subject object_wildcard produce_action ≡ true
      → ((produce_stream log enforce subject (requests rs) last s).0 ≡ offsets_from n (length rs))
        × ((produce_stream log enforce subject (requests rs) last s).1.0 ≡ last)
  unfolding produce_stream
  produce_stream-offsets IsNext appends [] last s n h allowed = (refl, refl)
  produce_stream-offsets IsNext appends (r ∷ rs) last s n h allowed =
      let (off, e, (at, k)) = appends r s n h in
      let served = (permitted_lem log enforce subject (some r) 0 s allowed).0 in
      let (offs, ends) =
        produce_stream-offsets IsNext appends rs last (log.append (some r) s).1 (n + 1) k allowed in
      let step =
        produce_stream-sent (some r) (requests rs) last s (log.append (some r) s).1 n
          (served ∙ ap (λ (x : Result ℕ). (x, (log.append (some r) s).1)) (e ∙ ap ok at)) in
      (
        ap (λ (x : List ℕ × (Error × S)). x.0) step ∙ ap (λ t. n ∷ t) offs,
        ap (λ (x : List ℕ × (Error × S)). x.1.0) step ∙ ends,
      )

  -- The read of one turn.
  consumed-offset :
      (off : ℕ) (s : S) (r : Record)
      → ((o : ℕ) (t : S) (q : Record) → (log.read o t).0 ≡ ok q → q.offset ≡ o)
      → enforce subject object_wildcard produce_action ≡ true
      → (consume log enforce subject off s).0 ≡ ok r
      → r.offset ≡ off
  consumed-offset off s r reads allowed e = reads off s r (
      sym (
        ap (λ (x : Result Record × S). x.0)
          (permitted_lem log enforce subject none off s allowed).1)
      ∙ e)

  -- Over a log whose reads return the record at the offset asked for, a subject that may produce
  -- is streamed records of consecutive offsets from the one it asked for, whatever happens to the
  -- log meanwhile and however often its end is met, as long as the offset does not wrap.
  pub consume_stream-offsets :
      ((o : ℕ) (t : S) (q : Record) → (log.read o t).0 ≡ ok q → q.offset ≡ o)
      → (off : ℕ) (ts : List (Turn S)) (s : S) (i : ℕ) (r : Record)
      → enforce subject object_wildcard produce_action ≡ true
      → off + length ts < 2 ^ 64
      → get_elem? (consume_stream log enforce subject off ts s).0 i ≡ some r
      → r.offset ≡ off + i
  unfolding consume_stream
  consume_stream-offsets reads off [] s i r allowed small at = cc
  consume_stream-offsets reads off (done ∷ ts) s i r allowed small at = cc
  consume_stream-offsets reads off (serve others (ok u) ∷ ts) s zero r allowed small at =
      elim (Result-cases (consume log enforce subject off (others s)).0) [
        | inl (q, e) ↦
            let is : some q ≡ some r = rw (e, consume_stream) at at in
            consumed-offset off (others s) r reads allowed (e ∙ cc is) ∙ omega arith
        | inr (x, e) ↦ elim (Bool-cases (is_out_of_range x)) [
          | inl again ↦
              consume_stream-offsets reads off ts (consume log enforce subject off (others s)).1
                zero r allowed (omega arith) (rw (e, again, consume_stream) at at)
          | inr stops ↦ cc (rw (e, stops, consume_stream) at at)
        ]
      ]
  consume_stream-offsets reads off (serve others (ok u) ∷ ts) s (suc i) r allowed small at =
      elim (Result-cases (consume log enforce subject off (others s)).0) [
        | inl (q, e) ↦
            consume_stream-offsets reads ((off + 1) % 2 ^ 64) ts
              (consume log enforce subject off (others s)).1 i r allowed (omega arith)
              (rw (e, consume_stream) at at)
            ∙ omega arith
        | inr (x, e) ↦ elim (Bool-cases (is_out_of_range x)) [
          | inl again ↦
              consume_stream-offsets reads off ts (consume log enforce subject off (others s)).1
                (suc i) r allowed (omega arith) (rw (e, again, consume_stream) at at)
          | inr stops ↦ cc (rw (e, stops, consume_stream) at at)
        ]
      ]
  consume_stream-offsets reads off (serve others (err x) ∷ ts) s i r allowed small at =
      elim (Result-cases (consume log enforce subject off (others s)).0) [
        | inl (q, e) ↦ cc (rw (e, consume_stream) at at)
        | inr (x, e) ↦ elim (Bool-cases (is_out_of_range x)) [
          | inl again ↦
              consume_stream-offsets reads off ts (consume log enforce subject off (others s)).1 i r
                allowed (omega arith) (rw (e, again, consume_stream) at at)
          | inr stops ↦ cc (rw (e, stops, consume_stream) at at)
        ]
      ]
