-- ===== src/Log/Position.antt =====
-- `Append` of a log and the positions of its stores' descriptors.
use smolkafka.Prelude.{
  ℕ, ◌+◌, ◌^◌, ◌<◌, ◌≡◌, refl, ◌∙◌, sym, ap, Bool, true, false, List, [], ◌∷◌, ◌++◌, arith, length,
  length-append, flatten, if◌then◌else◌,
}
use mathlib.Core.Path.{subst}
use smolkafka.Exec.{ok, pure, Exec}
use smolkafka.Exec.Returns.{Returns}
use smolkafka.Bytes.{Bytes}
use smolkafka.Platform.{Platform, Record}
use smolkafka.Index.{add64}
use smolkafka.Store.Position.{Stays, AtEnd}
use smolkafka.Segment
use smolkafka.Segment.{Segment, Config, is_maxed}
use smolkafka.Segment.Position.{segment_append-AtEnd, Holds-AtEnd}
use smolkafka.Segment.Reopen.{new_segment-fresh}
use smolkafka.Log.{
  Log, in_list, with_last, on_active_of, on_active, ignore_error, new_segment, append,
}
use smolkafka.Log.Holds.{Holds}
use smolkafka.Log.Suits.{Suits, Suits-room}
use smolkafka.Log.Pending.{Pending}
use smolkafka.Log.Append.{Holds-Pending, append_active-Pending, is_maxed-Pending}

-- No store's file holds anything behind the position of its descriptor.
abbrev pub AllAtEnd : List Segment → Type 0
AllAtEnd [] = Unit
AllAtEnd (s ∷ ss) = AtEnd s.store × AllAtEnd ss

AllAtEnd-end :
    (ss : List Segment) (s : Segment) → AllAtEnd ss → AtEnd s.store → AllAtEnd (ss ++ (s ∷ []))
AllAtEnd-end [] s h k = (k, tt)
AllAtEnd-end (t ∷ ss) s (ht, h) k = (ht, AllAtEnd-end ss s h k)

with_last-AllAtEnd :
    {A : Type 0} (m : Exec Segment A)
    → Stays (λ (s : Segment). AtEnd s.store) m
    → Stays AllAtEnd (with_last m)
unfolding with_last
with_last-AllAtEnd m hm [] h = tt
with_last-AllAtEnd m hm (s ∷ []) (hs, h) = (hm s hs, tt)
with_last-AllAtEnd m hm (s ∷ t ∷ ss) (hs, h) = (hs, with_last-AllAtEnd m hm (t ∷ ss) h)

on_active-AllAtEnd :
    {A : Type 0} (m : Exec Segment A) (l : Log)
    → Stays (λ (s : Segment). AtEnd s.store) m
    → l.active ≡ in_list
    → AllAtEnd l.segments
    → AllAtEnd (on_active m l).1.segments
unfolding on_active on_active_of
on_active-AllAtEnd m l hm active h = rw active (with_last-AllAtEnd m hm l.segments h)

module _ (os : Platform) where
  new_segment-AllAtEnd :
      (base : ℕ) (earlier : List (List Bytes)) (last : List Bytes) (l : Log)
      → Pending base earlier last l
      → 0 < length last
      → base + length (flatten earlier) + length last < 2 ^ 63
      → AllAtEnd l.segments
      → AllAtEnd (new_segment os (base + length (flatten earlier) + length last) l).1.segments
  unfolding new_segment
  new_segment-AllAtEnd base earlier last l h some small k =
      let off = base + length (flatten earlier) + length last in
      let (s, e, (hs, _, _, _, _, _)) =
        new_segment-fresh os off l.config l.dir h.fresh.exists_lem
          (h.fresh.no_store off (omega arith) small) (h.fresh.no_index off (omega arith) small)
          h.index_pos h.index_small small in
      rw (e, new_segment) (AllAtEnd-end l.segments s k (Holds-AtEnd s hs))

  settle-AllAtEnd :
      (base off : ℕ) (b : Bool) (earlier : List (List Bytes)) (last : List Bytes) (l : Log)
      → Pending base earlier last l
      → 0 < length last
      → add64 off 1 ≡ base + length (flatten earlier) + length last
      → base + length (flatten earlier) + length last < 2 ^ 63
      → AllAtEnd l.segments
      → Returns
          ((if b then ignore_error (new_segment os (add64 off 1)) else pure tt) l)
          (λ _ l'. AllAtEnd l'.segments)
  settle-AllAtEnd base off true earlier last l h some at small k =
      (tt, refl, rw at (new_segment-AllAtEnd base earlier last l h some small k))
  settle-AllAtEnd base off false earlier last l h some at small k = (tt, refl, k)

  -- `Append` leaves nothing behind the positions where there was nothing, in a new segment or not.
  pub append-AllAtEnd :
      (l : Log) (base : ℕ) (fs : List Bytes) (r : Record) (p : Bytes)
      → Holds l base fs
      → Suits l.config fs
      → os.marshal (record r { offset = base + length fs }) ≡ ok p
      → l.config.max_store_bytes + length p + 8 < 2 ^ 63
      → base + length fs + 1 < 2 ^ 63
      → AllAtEnd l.segments
      → Returns (append os r l) (λ _ l'. AllAtEnd l'.segments)
  unfolding append
  append-AllAtEnd l base fs r p h suits m store_small small k =
      let total : length fs ≡ length (flatten h.earlier) + length h.last =
        ap length h.all_lem ∙ length-append (flatten h.earlier) h.last in
      let next : base + length fs ≡ base + length (flatten h.earlier) + length h.last =
        omega (arith, total) in
      let last' = h.last ++ (p ∷ []) in
      let count = length-append h.last (p ∷ []) in
      let (off, e1, (at, pending, c1)) =
        append_active-Pending os base h.earlier h.last l r p (Holds-Pending os l base fs h)
          (ap (λ n. os.marshal (record r { offset = n })) (sym next) ∙ m)
          (Suits-room l.config (flatten h.earlier) h.last (subst (Suits l.config) h.all_lem suits)
            h.store_room h.index_room)
          (omega arith) in
      let l1 = (on_active (Segment.append os r) l).1 in
      let (b, e2, (maxed, pending2, c2)) = is_maxed-Pending os base h.earlier last' l1 pending in
      let l2 = (on_active (λ s. (ok (is_maxed s), s)) l1).1 in
      let k1 : AllAtEnd l1.segments =
        on_active-AllAtEnd (Segment.append os r) l (segment_append-AtEnd os r) h.active_lem k in
      let k2 : AllAtEnd l2.segments =
        on_active-AllAtEnd (λ s. (ok (is_maxed s), s)) l1 (λ s a. a) pending.active_lem k1 in
      let (u, e3, k3) =
        settle-AllAtEnd base off b h.earlier last' l2 pending2 (omega (arith, count))
          (omega (arith, count, at, total)) (omega (arith, count, total)) k2 in
      rw (e1, e2, e3, append) (off, refl, k3)
