-- ===== src/Store/Frames.antt =====
-- What a store holds: the bytes on file and in the buffer, and the framing of records.
use smolkafka.Prelude.{
  ℕ, ◌+◌, ◌≡◌, refl, ◌∙◌, sym, ap, false, List, [], ◌∷◌, ◌++◌, arith, length, length-append,
  append_assoc, append-nil,
}
use smolkafka.Bytes.{Bytes, put_uint64, length-put_uint64}
use smolkafka.Store.{Store}

-- The whole contents, the buffered bytes last.
abbrev pub bytes : Store → Bytes
bytes s = s.file.contents ++ s.buf

-- A store that is open, whose writer has not failed, with the bytes `b` and the size `n`.
pub record Shows (s : Store) (b : Bytes) (n : ℕ) : Type 0 where
  pub is_open : s.file.is_closed ≡ false
  pub not_failed : s.failed ≡ false
  pub bytes_lem : bytes s ≡ b
  pub size_lem : s.size ≡ n

-- A record on file: its length in eight bytes, and its payload.
unfoldable pub frame : Bytes → Bytes
frame p = put_uint64 (length p) ++ p

pub frames : List Bytes → Bytes
frames [] = []
frames (p ∷ ps) = frame p ++ frames ps

pub length-frame : (p : Bytes) → length (frame p) ≡ length p + 8
unfolding frame
length-frame p =
    length-append (put_uint64 (length p)) p ∙ omega (arith, length-put_uint64 (length p))

pub frames-append : (ps qs : List Bytes) → frames (ps ++ qs) ≡ frames ps ++ frames qs
unfolding frames
frames-append [] qs = refl
frames-append (p ∷ ps) qs =
    ap (λ t. frame p ++ t) (frames-append ps qs)
    ∙ sym (append_assoc (frame p) (frames ps) (frames qs))

pub frames-cons : (p : Bytes) (ps : List Bytes) → frames (p ∷ ps) ≡ frame p ++ frames ps
unfolding frames
frames-cons p ps = refl

pub frames-nil : frames [] ≡ []
unfolding frames
frames-nil = refl

pub frames-end : (ps : List Bytes) (p : Bytes) → frames (ps ++ (p ∷ [])) ≡ frames ps ++ frame p
frames-end ps p =
    frames-append ps (p ∷ []) ∙ ap (λ b. frames ps ++ b) (unfold frames in append-nil (frame p))
