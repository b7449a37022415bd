-- ===== src/Server/Memory.antt =====
-- The HTTP service: what is produced can be consumed.
use smolkafka.Prelude.{
  ℕ, ◌<◌, ◌≤◌, ◌≡◌, refl, ap, ◌∙◌, some, [], ◌∷◌, ◌++◌, arith, ltb, lt→ltb, inl, inr, Bool-cases,
  Option-cases, length, length-append, get_elem?, get_elem?-lt, get_elem?-append_end,
  get_elem?-append_left,
}
use smolkafka.Exec.{Result, ok, err, offset_not_found}
use smolkafka.Server.{
  Entry, Memory, memory_append, memory_read, found, body, status, refused, handle_produce,
  handle_consume,
}

read-at : (m : Memory) (i : ℕ) (e : Entry) → get_elem? m i ≡ some e → memory_read i m ≡ (ok e, m)
unfolding memory_read found
read-at m i e at = rw (lt→ltb i (length m) (get_elem?-lt m i at), at) refl

read-beyond : (m : Memory) (i : ℕ) → length m ≤ i → memory_read i m ≡ (err offset_not_found, m)
unfolding memory_read
read-beyond m i h = ground arith

was_there : (m : Memory) (i : ℕ) (e : Entry) → (memory_read i m).0 ≡ ok e → get_elem? m i ≡ some e
unfolding memory_read found
was_there m i e h = elim (Bool-cases (ltb i (length m))) [
  | inl lt ↦ elim (Option-cases (get_elem? m i)) [
    | inl none_there ↦ cc (rw (lt, none_there) at h)
    | inr (old, at) ↦ at ∙ cc (rw (lt, at) at h)
  ]
  | inr past ↦ cc (rw past at h)
]

-- What is appended to the log in memory is read at the offset that was returned, with that offset
-- for its own, and what an offset gave before it still gives.
pub memory_read-memory_append :
    (e old : Entry) (m : Memory) (i : ℕ)
    → (memory_read i m).0 ≡ ok old
    → ((memory_append e m).0 ≡ ok (length m))
      × ((memory_read (length m) (memory_append e m).1).0 ≡ ok (record e { offset = length m }))
      × ((memory_read i (memory_append e m).1).0 ≡ ok old)
unfolding memory_append
memory_read-memory_append e old m i before =
    let new : Entry = record e { offset = length m } in
    let there = was_there m i old before in
    (
      refl,
      ap (λ (x : Result Entry × Memory). x.0)
          (read-at (m ++ (new ∷ [])) (length m) new (get_elem?-append_end m new (length m) refl)),
      ap (λ (x : Result Entry × Memory). x.0)
          (read-at (m ++ (new ∷ [])) i old
            (get_elem?-append_left m (new ∷ []) i (get_elem?-lt m i there) ∙ there)),
    )

-- A POST is answered by the next offset, and a GET of that offset by the record, with that offset
-- for its own; a GET past it has status 404.
pub handle_consume-handle_produce :
    (e : Entry) (m : Memory) (off : ℕ)
    → length m < off
    → ((handle_produce (λ _. ok tt) (ok e) m).0 ≡ body (length m))
      × ((handle_consume (λ _. ok tt) (ok (length m)) (handle_produce (λ _. ok tt) (ok e) m).1).0
          ≡ body (record e { offset = length m }))
      × ((handle_consume (λ _. ok tt) (ok off) (handle_produce (λ _. ok tt) (ok e) m).1).0
          ≡ status 404)
unfolding handle_produce handle_consume memory_append refused
handle_consume-handle_produce e m off past =
    let new : Entry = record e { offset = length m } in
    let m' = m ++ (new ∷ []) in
    let got =
      ap (λ (x : Result Entry × Memory). x.0)
        (read-at m' (length m) new (get_elem?-append_end m new (length m) refl)) in
    let missed =
      ap (λ (x : Result Entry × Memory). x.0)
        (read-beyond m' off (omega (arith, length-append m (new ∷ [])))) in
    (refl, rw (got, handle_consume) refl, rw (missed, handle_consume) refl)
