-- ===== src/Log/Contract/Runs.antt =====
-- The log keeps its promise, call after call.
use mathlib.Core.Path.{subst}
use smolkafka.Prelude.{
  ℕ, ◌+◌, ◌-◌, ◌<◌, ◌≤◌, ◌≡◌, refl, sym, ap, ◌∙◌, ◌⊎◌, inl, inr, List, [], ◌∷◌, ◌++◌, some, arith,
  length, get_elem?, get_elem?-some, dec_lt,
}
use smolkafka.Exec.{Result, ok}
use smolkafka.Bytes.{Bytes}
use smolkafka.Platform.{Platform, Record}
use smolkafka.Segment.{Config}
use smolkafka.Log
use smolkafka.Log.{Log}
use smolkafka.Log.Holds.{Holds}
use smolkafka.Log.Suits.{Suits}
use smolkafka.Log.Append.{log_append_lem}
use smolkafka.Log.Read.{log_read_lem, log_read-past}
use smolkafka.Log.Truncate.{truncate_lem}
use smolkafka.Log.Offsets.{offsets_lem}
use smolkafka.Log.Restart.{close-new_log}
use smolkafka.Log.Contract.{
  Contents, next_of, Call, append, read, lowest_offset, highest_offset, truncate, restart,
  an_offset, a_record, finished, Promise, appended, found, outside, lowest, highest, cut, restarted,
  Promised, none_left, one_more, MayCall, MayRun, restart_log, perform, perform_all,
}

-- The log has the contents, and is configured so.
pub record Has (c : Config) (l : Log) (a : Contents) : Type 0 where
  pub holds : Holds l a.first a.payloads
  pub config_lem : l.config ≡ c

-- The log keeps the promise in a call.
abbrev Keeps : Platform → Config → Call → Log → Contents → Type 0
Keeps os c call l a =
    (b : Contents) × Promise os call (perform os call l).0 a b × Has c (perform os call l).1 b

place_of :
    (off : ℕ) (a : Contents)
    → ((k : ℕ) × (p : Bytes) × (get_elem? a.payloads k ≡ some p) × (off ≡ a.first + k))
      ⊎ ((off < a.first) ⊎ (next_of a ≤ off))
place_of off a = elim (dec_lt off a.first) [
  | yes below ↦ inr (inl below)
  | no above ↦ elim (dec_lt off (next_of a)) [
    | yes inside ↦
        let (p, at) = get_elem?-some a.payloads (off - a.first) (omega arith) in
        inl (off - a.first, p, at, omega arith)
    | no past ↦ inr (inr (omega arith))
  ]
]

module _ (os : Platform) (c : Config) where
  perform-append :
      (r : Record) (l : Log) (a : Contents)
      → Has c l a
      → MayCall os c (append r) a
      → Keeps os c (append r) l a
  unfolding perform
  perform-append r l a h (p, m, room, small, suits) =
      let (off, e, (is, holds, same)) =
        log_append_lem os l a.first a.payloads r p h.holds
          (subst (λ k. Suits k a.payloads) (sym h.config_lem) suits) m
          (omega (arith, room, ap (λ (k : Config). k.max_store_bytes) h.config_lem)) small in
      (
        record a { payloads = a.payloads ++ (p ∷ []) },
        subst
            (λ x.
              Promise os (append r) (an_offset x) a
                (record a { payloads = a.payloads ++ (p ∷ []) }))
            (sym (e ∙ ap ok is)) (appended r a p m),
        record { holds = holds; config_lem = same ∙ h.config_lem },
      )

  pub perform-read : (off : ℕ) (l : Log) (a : Contents) → Has c l a → Keeps os c (read off) l a
  unfolding perform
  perform-read off l a h = elim (place_of off a) [
    | inl (k, p, at, is) ↦
        let (e, holds, same) = log_read_lem os l a.first k a.payloads p h.holds at in
        (
          a,
          subst (λ x. Promise os (read off) (a_record x) a a)
              (sym (ap (λ o. (Log.read os o l).0) is ∙ e))
              (found off a p (record { place = k; place_lem = is; payload_lem = at })),
          subst (λ o. Has c (Log.read os o l).1 a) (sym is)
              (record { holds = holds; config_lem = same ∙ h.config_lem }),
        )
    | inr out ↦
        let e = log_read-past os l a.first off a.payloads h.holds out in
        (
          a,
          subst (λ (x : Result Record × Log). Promise os (read off) (a_record x.0) a a) (sym e)
              (outside off a out),
          subst (λ (x : Result Record × Log). Has c x.1 a) (sym e) h,
        )
  ]

  perform-truncate :
      (n : ℕ) (l : Log) (a : Contents)
      → Has c l a
      → MayCall os c (truncate n) a
      → Keeps os c (truncate n) l a
  unfolding perform
  perform-truncate n l a h (small, lt) =
      let (u, e, t) = truncate_lem os l a.first n a.payloads h.holds small lt in
      let b : Contents = record { first = a.first + length t.gone; payloads = t.stay } in
      (
        b,
        subst (λ x. Promise os (truncate n) (finished x) a b) (sym e)
            (cut n a b
              (record { gone = t.gone; split = t.split; first_lem = refl; below = t.below })),
        record { holds = t.holds; config_lem = t.config_lem ∙ h.config_lem },
      )

  pub perform-restart : (l : Log) (a : Contents) → Has c l a → Keeps os c restart l a
  unfolding perform restart_log
  perform-restart l a h =
      let (u, closed, (v, opened, (holds, same))) = close-new_log os l a.first a.payloads h.holds in
      let e : restart_log os l ≡ Log.new_log os (Log.close os l).1.dir (Log.close os l).1.config =
        rw closed refl in
      (
        a,
        subst (λ (x : Result (Unit {0}) × Log). Promise os restart (finished x.0) a a) (sym e)
            (subst (λ x. Promise os restart (finished x) a a) (sym opened) (restarted a)),
        subst (λ (x : Result (Unit {0}) × Log). Has c x.1 a) (sym e)
            (record { holds = holds; config_lem = same ∙ h.config_lem }),
      )

  perform-Keeps :
      (call : Call) (l : Log) (a : Contents) → Has c l a → MayCall os c call a → Keeps os c call l a
  unfolding perform
  perform-Keeps (append r) l a h may = perform-append r l a h may
  perform-Keeps (read off) l a h may = perform-read off l a h
  perform-Keeps lowest_offset l a h may = (
    a,
    subst (λ x. Promise os lowest_offset (an_offset x) a a)
        (sym (offsets_lem l a.first a.payloads h.holds).0) (lowest a),
    h,
  )
  perform-Keeps highest_offset l a h may = (
    a,
    subst (λ x. Promise os highest_offset (an_offset x) a a)
        (sym (offsets_lem l a.first a.payloads h.holds).1) (highest a),
    h,
  )
  perform-Keeps (truncate n) l a h may = perform-truncate n l a h may
  perform-Keeps restart l a h may = perform-restart l a h

  -- A log keeps its promise in every run of calls, whatever their order: appends, reads, the two
  -- offsets, truncations, and the log closed and opened again. From a log that has some contents,
  -- each call, made when it may be (a record that can be marshalled and has room below 2 ^ 63,
  -- while the limits suit the payloads: the index limit is a multiple of 12, or every payload is
  -- so long that the store is full first; a truncation below the last offset and below 2 ^ 64 -
  -- 1), answers as the sequence of payloads does, and the log has what the sequence then is.
  pub perform_all-Promised :
      (calls : List Call) (l : Log) (a : Contents)
      → Has c l a
      → MayRun os c calls a
      → (b : Contents) × Promised os calls (perform_all os calls l).0 a b
        × Has c (perform_all os calls l).1 b
  unfolding perform_all
  perform_all-Promised [] l a h may = (a, none_left a, h)
  perform_all-Promised (call ∷ calls) l a h (may, rest) =
      let (b, kept, has) = perform-Keeps call l a h may in
      let (d, promised, final) =
        perform_all-Promised calls (perform os call l).1 b has
          (rest (perform os call l).0 b kept) in
      (d, one_more call calls (perform os call l).0 _ a b d kept promised, final)
