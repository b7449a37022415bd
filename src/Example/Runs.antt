-- ===== src/Example/Runs.antt =====
-- The run of the example, up to what it prints and what is left of its log.
use mathlib.Core.Path.{subst}
use smolkafka.Prelude.{
  ℕ, ◌+◌, ◌≤◌, ◌<◌, ◌≡◌, refl, ap, sym, ◌∙◌, Bool, false, List, [], ◌∷◌, ◌++◌, arith, length,
  length-append,
}
use smolkafka.Exec.Returns.{Returns, Returns-bind}
use smolkafka.Bytes.{Bytes}
use smolkafka.Disk.{Name}
use smolkafka.Platform.{Platform, Record}
use smolkafka.Config.{Crypto}
use smolkafka.Config.Files.{ConfigFiles}
use smolkafka.Service.{Machine}
use smolkafka.Server.Calls.{Context, Around}
use smolkafka.Server.Streams.{offsets_from}
use smolkafka.Example.{
  Packages, Printed, greeting, stream_values, of_value, send_recv, send_each, demonstrate, set_up,
  main,
}
use smolkafka.Example.Works.{Works}
use smolkafka.Example.Holding.{
  Holding, Holding-same, at_offset, Appended, produce_call_lem, consume_call_lem, send_recv_lem,
  append-Holding, read-Holding,
}
use smolkafka.Example.Around.{set_up-Holding, clean_up-removed}

module _ {S H O C P : Type 0} {pkg : Packages S H O C P} {os : Platform} {machine : Machine S}
    {crypto : Crypto C P} {enforce : Name → Name → Name → Bool} {files : ConfigFiles}
    {around : Around S ℕ} {reading : Around S Record} {ctx : Context} {subject : Name}
    (w : Works pkg os machine crypto enforce files around reading ctx subject) where
  -- So many were, one after the other.
  abbrev AppendedAll : ℕ → ℕ → List ℕ → S → Type 0
  AppendedAll n k offs t = (offs ≡ offsets_from n k) × ((gs : List Bytes) × Holding machine gs t)

  -- The loop of the stream.
  abbrev AllFit : List Bytes → Type 0
  AllFit [] = Unit
  AllFit (b ∷ bs) = (5 ≤ length b) × (length b < 100) × AllFit bs

  stream_values-AllFit : AllFit stream_values
  stream_values-AllFit =
      (omega arith, omega arith, (omega arith, omega arith, (omega arith, omega arith, tt)))

  send_each-Holding :
      (fs : List Bytes) (stream : H) (bs : List Bytes) (s : S)
      → Holding machine fs s
      → AllFit bs
      → length fs + length bs < 100
      → Returns (send_each pkg stream bs s) (AppendedAll (length fs) (length bs))
  unfolding send_each
  send_each-Holding fs stream [] s h fit few = ([], refl, (refl, (fs, h)))
  send_each-Holding fs stream (b ∷ bs) s h (le, short, fit) few =
      let more = (λ (p : Bytes). length-append fs (p ∷ [])) in
      let all = AppendedAll (length fs) (length (b ∷ bs)) in
      Returns-bind (send_recv pkg stream b) _ s (Appended w fs b) all
        (subst (λ x. Returns x (Appended w fs b)) (sym (send_recv_lem w stream b s))
          (append-Holding w fs b s h le short (omega arith)))
        (λ off t (at, (p, m, k)).
          Returns-bind (send_each pkg stream bs) _ t
            (AppendedAll (length (fs ++ (p ∷ []))) (length bs)) all
            (send_each-Holding (fs ++ (p ∷ [])) stream bs t k fit (omega (arith, more p)))
            (λ offs u (are, last). (
              off ∷ offs,
              refl,
              (
                ap (λ n. n ∷ offs) at
                    ∙ ap (λ xs. length fs ∷ xs) are
                    ∙ ap (λ n. length fs ∷ offsets_from n (length bs)) (more p),
                last,
              ),
            )))

  -- The calls of the example, on a log that holds nothing yet.
  abbrev AsPrinted : Printed → S → Type 0
  AsPrinted printed t =
      (printed.produced ≡ 0)
      × (printed.consumed ≡ at_offset 0 greeting)
      × (printed.confirmed ≡ 1 ∷ 2 ∷ 3 ∷ [])
      × ((gs : List Bytes) × Holding machine gs t)

  demonstrate-AsPrinted :
      (conn : H) (s : S) → Holding machine [] s → Returns (demonstrate pkg conn s) AsPrinted
  unfolding demonstrate
  demonstrate-AsPrinted conn s h =
      Returns-bind (pkg.produce conn (of_value greeting)) _ s (Appended w [] greeting) AsPrinted
        (subst (λ x. Returns x (Appended w [] greeting))
          (sym (produce_call_lem w conn (of_value greeting) s))
          (append-Holding w [] greeting s h (omega arith) (omega arith) (omega arith)))
        (λ off t (at, (p, m, k)).
          let r = at_offset 0 greeting in
          let Consumed = (λ (q : Record) (u : S). (q ≡ r) × Holding machine (p ∷ []) u) in
          Returns-bind (pkg.consume conn off) _ t Consumed AsPrinted
            (subst (λ x. Returns x Consumed)
              (sym (ap (λ n. pkg.consume conn n t) at ∙ consume_call_lem w conn 0 t))
              (read-Holding w (p ∷ []) 0 p r t k refl (os.unmarshal-marshal r p m)))
            (λ q u (is, k').
              Returns-bind (pkg.produce_stream conn) _ u (λ _ v. machine.get v ≡ machine.get u)
                AsPrinted (w.opens conn u)
                (λ stream v same.
                  Returns-bind (send_each pkg stream stream_values) _ v (AppendedAll 1 3) AsPrinted
                    (send_each-Holding (p ∷ []) stream stream_values v
                      (Holding-same machine (p ∷ []) u v same k') stream_values-AllFit
                      (omega arith))
                    (λ offs x (are, last). (
                      record { produced = off; consumed = q; confirmed = offs },
                      refl,
                      (at, is, are, last),
                    )))))

  -- The example does what it shows: where the certificates are there, the system gives a port and
  -- an empty directory, the libraries do not touch the log, a call of the client is one of the
  -- server's handlers behind their interceptors, the client is authenticated as one that may
  -- produce, and short records are marshalled to few bytes, `main` returns: the record produced
  -- has the offset 0 and is consumed as it was produced, the three of the stream are confirmed at
  -- 1, 2 and 3, and the log's directory is gone.
  pub main-AsPrinted :
      (s : S)
      → Returns (main pkg os machine crypto files s) (λ printed t.
        (printed.produced ≡ 0)
        × (printed.consumed ≡ at_offset 0 greeting)
        × (printed.confirmed ≡ 1 ∷ 2 ∷ 3 ∷ [])
        × ((machine.get t).dir.exists ≡ false))
  unfolding main
  main-AsPrinted s =
      let Done = (λ (printed : Printed) (t : S).
        (printed.produced ≡ 0)
        × (printed.consumed ≡ at_offset 0 greeting)
        × (printed.confirmed ≡ 1 ∷ 2 ∷ 3 ∷ [])
        × ((machine.get t).dir.exists ≡ false)) in
      Returns-bind (set_up pkg os machine crypto files) _ s (λ _ t. Holding machine [] t) Done
        (set_up-Holding w s)
        (λ demo t held.
          Returns-bind (demonstrate pkg demo.conn) _ t AsPrinted Done
            (demonstrate-AsPrinted demo.conn t held)
            (λ printed u (produced, consumed, confirmed, last).
              (printed, refl, (produced, consumed, confirmed, clean_up-removed w demo u last))))
