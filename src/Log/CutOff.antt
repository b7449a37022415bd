-- ===== src/Log/CutOff.antt =====
-- What `Truncate` makes of the segments of a log: those that go and those that stay.
use mathlib.Core.Path.{subst}
use smolkafka.Prelude.{
  ℕ, ◌+◌, ◌≤◌, ◌<◌, ◌≡◌, ◌⊎◌, ◌∙◌, inl, inr, true, false, none, List, [], ◌∷◌, ◌++◌, arith, length,
  flatten, Bool-cases, leb, if◌then◌else◌,
}
use smolkafka.Bytes.{Bytes}
use smolkafka.Disk.{Name, name_eq, eq_of_name_eq, Dir, lookup}
use smolkafka.Names.{store_name, index_name}
use smolkafka.Segment.{Segment, Config}
use smolkafka.Segment.Remove.{Removed}
use smolkafka.Log.{in_list, is_below, active_after}
use smolkafka.Disk.Listing.{file_names}
use smolkafka.Log.Chain.{Chain}
use smolkafka.Log.Starts.{names_cut}

-- No file comes up that was not there.
abbrev pub Shrinks : Dir → Dir → Type 0
Shrinks d d' = (n : Name) → lookup n d.files ≡ none → lookup n d'.files ≡ none

pub Removed-Shrinks : (s t : Segment) (d d' : Dir) → Removed s d t d' → Shrinks d d'
Removed-Shrinks s t d d' h n gone = elim (Bool-cases (name_eq (store_name s.base_offset) n)) [
  | inl e ↦
      subst (λ m. lookup m d'.files ≡ none) (eq_of_name_eq (store_name s.base_offset) n e)
        h.no_store
  | inr ns ↦ elim (Bool-cases (name_eq (index_name s.base_offset) n)) [
    | inl e ↦
        subst (λ m. lookup m d'.files ≡ none) (eq_of_name_eq (index_name s.base_offset) n e)
          h.no_index
    | inr ni ↦ h.spares n ns ni ∙ gone
  ]
]

-- The last segment is not removed.
abbrev pub LastAbove : ℕ → List Segment → Type 0
LastAbove lowest [] = ⊥
LastAbove lowest (s ∷ []) = is_below lowest s ≡ false
LastAbove lowest (s ∷ t ∷ ss) = LastAbove lowest (t ∷ ss)

pub LastAbove-cons :
    (lowest : ℕ) (s : Segment) (ss : List Segment) → LastAbove lowest ss → LastAbove lowest (s ∷ ss)
LastAbove-cons lowest s [] h = absurd h
LastAbove-cons lowest s (t ∷ ss) h = h

pub LastAbove-only :
    (lowest : ℕ) (s : Segment) (ss : List Segment)
    → is_below lowest s ≡ false
    → (length ss ≡ 0) ⊎ LastAbove lowest ss
    → LastAbove lowest (s ∷ ss)
LastAbove-only lowest s [] h o = h
LastAbove-only lowest s (t ∷ ss) h (inl e) = absurd (omega arith)
LastAbove-only lowest s (t ∷ ss) h (inr o) = o

pub active_after-LastAbove :
    (lowest : ℕ) (ss : List Segment)
    → LastAbove lowest ss
    → active_after lowest in_list ss ≡ in_list
unfolding active_after
active_after-LastAbove lowest [] h = absurd h
active_after-LastAbove lowest (s ∷ []) h = rw h
active_after-LastAbove lowest (s ∷ t ∷ ss) h = active_after-LastAbove lowest (t ∷ ss) h

-- The segments whose next offset is above the one after `lowest`.
abbrev pub staying : ℕ → List Segment → List Segment
staying lowest [] = []
staying lowest (s ∷ ss) =
    let rest = staying lowest ss in if leb s.next_offset (lowest + 1) then rest else s ∷ rest

-- The segments `ss` from `base` on, with the payloads `pss`, fall into those that end at `lowest` or
-- before and those that end after it. The loop keeps the latter, `kept_ss`, leaves all of them as
-- `all_ss`, and the directory as `d'`.
pub record Cut (c : Config) (base lowest : ℕ) (pss : List (List Bytes)) (d : Dir)
    (kept_ss all_ss : List Segment) (d' : Dir) : Type 0 where
  pub gone : List (List Bytes)
  pub kept : List (List Bytes)
  pub split : pss ≡ gone ++ kept
  pub chain : Chain c (base + length (flatten gone)) kept_ss kept
  pub below : (gone ≡ []) ⊎ (base + length (flatten gone) ≤ lowest + 1)
  pub above :
      (ks : List Bytes) (kss : List (List Bytes))
      → kept ≡ ks ∷ kss
      → lowest + 1 < base + length (flatten gone) + length ks
  pub exists_lem : d'.exists ≡ true
  pub shrinks : Shrinks d d'
  pub names_lem : file_names d'.files ≡ names_cut base gone (file_names d.files)
  pub same_length : length all_ss ≡ length pss
  pub active_lem : (kept ≡ []) ⊎ LastAbove lowest all_ss
