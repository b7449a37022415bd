-- ===== src/Raft/Agreement.antt =====
-- Machines that are given the same commands agree, however their logs are cut into segments.
use mathlib.Core.Path.{subst}
use smolkafka.Prelude.{
  ℕ, ◌+◌, ◌^◌, ◌<◌, ◌≡◌, refl, ap, sym, ◌∙◌, List, [], ◌∷◌, ◌++◌, append-nil, append_assoc, arith,
  length, length-append,
}
use smolkafka.Exec.{ok}
use smolkafka.Bytes.{Bytes}
use smolkafka.Platform.{Platform, Record}
use smolkafka.Segment.{Config}
use smolkafka.Log.{Log}
use smolkafka.Log.Holds.{Holds}
use smolkafka.Log.Suits.{Suits, Suits-left}
use smolkafka.Log.Append.{log_append_lem}
use smolkafka.Raft.{Reply, response, reply_of, fsm_apply, append_command}
use smolkafka.Raft.Commands.{fsm_apply-append_command}

-- The replies that follow one another from an offset on, one for each command.
abbrev pub responses : ℕ → List Bytes → List Reply
responses n [] = []
responses n (b ∷ bs) = response n ∷ responses (n + 1) bs

module _ (os : Platform) where
  -- Commands applied in the order in which Raft has committed them.
  abbrev pub apply_all : List Bytes → Log → List Reply × Log
  apply_all [] l = ([], l)
  apply_all (b ∷ bs) l =
      let (x, l') = fsm_apply os b l in let (xs, l'') = apply_all bs l' in (x ∷ xs, l'')

  -- `bs` are the commands of records that are marshalled to `ps` from the offset `n` on, with room for
  -- each in a log that is so configured.
  abbrev pub AreCommands : Config → ℕ → List Record → List Bytes → List Bytes → Type 0
  AreCommands c n [] [] [] = Unit
  AreCommands c n (r ∷ rs) (b ∷ bs) (p ∷ ps) =
      (append_command os r ≡ ok b)
      × (os.marshal (record r { offset = n }) ≡ ok p)
      × (c.max_store_bytes + length p + 8 < 2 ^ 63)
      × (n + 1 < 2 ^ 63)
      × AreCommands c (n + 1) rs bs ps
  AreCommands c n _ _ _ = ⊥

  pub no_commands :
      (c : Config) (n : ℕ) (rs : List Record) (ps : List Bytes) → AreCommands c n rs [] ps → ps ≡ []
  no_commands c n [] [] h = refl
  no_commands c n [] (p ∷ ps) h = absurd h
  no_commands c n (r ∷ rs) ps h = absurd h

  -- The last of the commands, apart from those before it.
  pub record LastCommand (c : Config) (n : ℕ) (bs : List Bytes) (b : Bytes) (ps : List Bytes)
      : Type 0 where
    pub records : List Record
    pub rec : Record
    pub payloads : List Bytes
    pub payload : Bytes
    pub ps_lem : ps ≡ payloads ++ (payload ∷ [])
    pub before : AreCommands c n records bs payloads
    pub command_lem : append_command os rec ≡ ok b
    pub marshal_lem : os.marshal (record rec { offset = n + length payloads }) ≡ ok payload
    pub store_room : c.max_store_bytes + length payload + 8 < 2 ^ 63
    pub offset_room : n + length payloads + 1 < 2 ^ 63

  pub last_command :
      (c : Config) (n : ℕ) (rs : List Record) (bs : List Bytes) (b : Bytes) (ps : List Bytes)
      → AreCommands c n rs (bs ++ (b ∷ [])) ps
      → LastCommand c n bs b ps
  last_command c n [] [] b ps h = absurd h
  last_command c n [] (x ∷ bs) b ps h = absurd h
  last_command c n (r ∷ rs) [] b [] h = absurd h
  last_command c n (r ∷ rs) (x ∷ bs) b [] h = absurd h
  last_command c n (r ∷ s ∷ rs) [] b (p ∷ ps) (e, m, room, small, h) = absurd h
  last_command c n (r ∷ []) [] b (p ∷ q ∷ ps) (e, m, room, small, h) = absurd h
  last_command c n (r ∷ []) [] b (p ∷ []) (e, m, room, small, h) = record {
    records = [];
    rec = r;
    payloads = [];
    payload = p;
    ps_lem = refl;
    before = tt;
    command_lem = e;
    marshal_lem = ap (λ k. os.marshal (record r { offset = k })) (omega arith) ∙ m;
    store_room = room;
    offset_room = omega arith;
  }
  last_command c n (r ∷ rs) (x ∷ bs) b (p ∷ ps) (e, m, room, small, h) =
      let l = last_command c (n + 1) rs bs b ps h in
      record {
        records = r ∷ l.records;
        rec = l.rec;
        payloads = p ∷ l.payloads;
        payload = l.payload;
        ps_lem = ap (λ t. p ∷ t) l.ps_lem;
        before = (e, m, room, small, l.before);
        command_lem = l.command_lem;
        marshal_lem =
            ap (λ k. os.marshal (record l.rec { offset = k })) (omega arith) ∙ l.marshal_lem;
        store_room = l.store_room;
        offset_room = omega (arith, l.offset_room);
      }

  -- A command, and what the log is configured by afterwards.
  pub apply-Holds :
      (r : Record) (b p : Bytes) (l : Log) (base : ℕ) (fs : List Bytes)
      → append_command os r ≡ ok b
      → Holds l base fs
      → Suits l.config fs
      → os.marshal (record r { offset = base + length fs }) ≡ ok p
      → l.config.max_store_bytes + length p + 8 < 2 ^ 63
      → base + length fs + 1 < 2 ^ 63
      → ((fsm_apply os b l).0 ≡ response (base + length fs))
        × Holds (fsm_apply os b l).1 base (fs ++ (p ∷ []))
        × ((fsm_apply os b l).1.config ≡ l.config)
  unfolding reply_of
  apply-Holds r b p l base fs e h suits m room small =
      let applied = fsm_apply-append_command os r b l e in
      let (off, returned, (at, holds, same)) =
        log_append_lem os l base fs r p h suits m room small in
      let log_lem = ap (λ (x : Reply × Log). x.1) applied in
      (
        ap (λ (x : Reply × Log). x.0) applied ∙ ap reply_of returned ∙ ap response at,
        subst (λ k. Holds k base (fs ++ (p ∷ []))) (sym log_lem) holds,
        ap (λ (k : Log). k.config) log_lem ∙ same,
      )

  pub apply_all-Holds :
      (c : Config) (n : ℕ) (rs : List Record) (bs ps : List Bytes) (l : Log) (base : ℕ)
      (fs : List Bytes)
      → Holds l base fs
      → l.config ≡ c
      → Suits c (fs ++ ps)
      → n ≡ base + length fs
      → AreCommands c n rs bs ps
      → ((apply_all bs l).0 ≡ responses n bs)
        × Holds (apply_all bs l).1 base (fs ++ ps)
        × ((apply_all bs l).1.config ≡ c)
  apply_all-Holds c n [] [] [] l base fs h same suits here are =
      (refl, subst (Holds l base) (sym (append-nil fs)) h, same)
  apply_all-Holds c n [] [] (p ∷ ps) l base fs h same suits here are = absurd are
  apply_all-Holds c n [] (b ∷ bs) ps l base fs h same suits here are = absurd are
  apply_all-Holds c n (r ∷ rs) [] ps l base fs h same suits here are = absurd are
  apply_all-Holds c n (r ∷ rs) (b ∷ bs) [] l base fs h same suits here are = absurd are
  apply_all-Holds c n (r ∷ rs) (b ∷ bs) (p ∷ ps) l base fs h same suits here
        (e, m, room, small, are) =
      let (reply, holds, kept) =
        apply-Holds r b p l base fs e h
          (subst (λ k. Suits k fs) (sym same) (Suits-left c fs (p ∷ ps) suits))
          (ap (λ k. os.marshal (record r { offset = k })) (sym here) ∙ m)
          (omega (arith, room, ap (λ (k : Config). k.max_store_bytes) same)) (omega arith) in
      let (replies, all, config) =
        apply_all-Holds c (n + 1) rs bs ps (fsm_apply os b l).1 base (fs ++ (p ∷ [])) holds
          (kept ∙ same) (subst (Suits c) (sym (append_assoc fs (p ∷ []) ps)) suits)
          (omega (arith, here, length-append fs (p ∷ []))) are in
      (
        ap (λ x. x ∷ (apply_all bs (fsm_apply os b l).1).0) (reply ∙ ap response (sym here))
            ∙ ap (λ xs. response n ∷ xs) replies,
        subst (Holds (apply_all bs (fsm_apply os b l).1).1 base) (append_assoc fs (p ∷ []) ps) all,
        config,
      )

  -- Servers agree: two machines whose logs hold the same payloads, each with its own limits and
  -- its own segments, give the same replies to the same commands of records, if both have room for
  -- them, and their logs then hold the same payloads.
  pub apply_all-Agree :
      (rs : List Record) (bs ps : List Bytes) (l m : Log) (base : ℕ) (fs : List Bytes)
      → Holds l base fs
      → Holds m base fs
      → Suits l.config (fs ++ ps)
      → Suits m.config (fs ++ ps)
      → AreCommands l.config (base + length fs) rs bs ps
      → AreCommands m.config (base + length fs) rs bs ps
      → ((apply_all bs l).0 ≡ (apply_all bs m).0)
        × Holds (apply_all bs l).1 base (fs ++ ps)
        × Holds (apply_all bs m).1 base (fs ++ ps)
  apply_all-Agree rs bs ps l m base fs hl hm al am rl rm =
      let n = base + length fs in
      let (xl, holds_l, _) = apply_all-Holds l.config n rs bs ps l base fs hl refl al refl rl in
      let (xm, holds_m, _) = apply_all-Holds m.config n rs bs ps m base fs hm refl am refl rm in
      (xl ∙ sym xm, holds_l, holds_m)
