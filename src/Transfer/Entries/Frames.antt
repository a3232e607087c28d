-- ===== src/Transfer/Entries/Frames.antt =====
-- What goes over the wire for a listing: the frames, and which entries stand in each of them.
use libre_connect.Base.{
  ℕ, ◌+◌, ◌≤◌, ◌≡◌, refl, sym, ap, ◌∙◌, List, [], ◌∷◌, ◌++◌, length, append_assoc, append-nil,
  length-append, ltb, if◌then◌else◌, arith, All, Bool-cases, inl, inr,
}
use libre_connect.Wire.Primitive.{big_endian, length-big_endian}
use libre_connect.Wire.Files.{
  FileEntry, file_entry, encode_file_entry, FileEntryFits, file_entry-IsLawful,
}
use libre_connect.Wire.Vector.{all_size, encode_all, length-encode_all}

abbrev pub chunk_size : List FileEntry → ℕ
chunk_size = all_size file_entry

abbrev pub encode_chunk : List FileEntry → List ℕ
encode_chunk = encode_all encode_file_entry

abbrev pub frame_header : List FileEntry → List ℕ
frame_header chunk = big_endian 8 (chunk_size chunk) ++ big_endian 8 (length chunk)

unfoldable pub frame : List FileEntry → List ℕ
frame chunk = frame_header chunk ++ encode_chunk chunk

abbrev pub frames : List (List FileEntry) → List ℕ
frames = encode_all frame

-- The greedy cut: an entry that does not fit behind those that wait starts a new frame.
unfoldable pub chunks : ℕ → List FileEntry → List FileEntry → List (List FileEntry)
chunks capacity waiting [] = waiting ∷ []
chunks capacity waiting (entry ∷ entries) =
    let next = waiting ∷ chunks capacity (entry ∷ []) entries in
    let same = chunks capacity (waiting ++ (entry ∷ [])) entries in
    if ltb capacity (16 + chunk_size waiting + file_entry.size entry) then next else same

abbrev pub concat : List (List FileEntry) → List FileEntry
concat [] = []
concat (c ∷ cs) = c ++ concat cs

pub chunk_size-snoc :
    (chunk : List FileEntry) (entry : FileEntry)
    → chunk_size (chunk ++ (entry ∷ [])) ≡ chunk_size chunk + file_entry.size entry
unfolding all_size
chunk_size-snoc [] entry = omega arith
chunk_size-snoc (e ∷ chunk) entry = omega (arith, chunk_size-snoc chunk entry)

pub encode_chunk-snoc :
    (chunk : List FileEntry) (entry : FileEntry)
    → encode_chunk (chunk ++ (entry ∷ [])) ≡ encode_chunk chunk ++ encode_file_entry entry
encode_chunk-snoc [] entry = append-nil (encode_file_entry entry)
encode_chunk-snoc (e ∷ chunk) entry =
    rw (encode_chunk-snoc chunk entry)
      (sym (append_assoc (encode_file_entry e) (encode_chunk chunk) _))

pub length-frame_header : (chunk : List FileEntry) → length (frame_header chunk) ≡ 16
length-frame_header chunk = omega (
  arith,
  length-append (big_endian 8 (chunk_size chunk)) (big_endian 8 (length chunk)),
  length-big_endian 8 (chunk_size chunk),
  length-big_endian 8 (length chunk),
)

pub length-frame : (chunk : List FileEntry) → length (frame chunk) ≡ 16 + chunk_size chunk
unfolding frame
length-frame chunk = omega (
  arith,
  length-append (frame_header chunk) (encode_chunk chunk),
  length-frame_header chunk,
  length-encode_all file_entry-IsLawful chunk,
)

-- No entry is lost, doubled or moved by the cut.
pub concat-chunks :
    (capacity : ℕ) (waiting entries : List FileEntry)
    → concat (chunks capacity waiting entries) ≡ waiting ++ entries
unfolding chunks
concat-chunks capacity waiting [] = refl
concat-chunks capacity waiting (entry ∷ entries) =
    elim (Bool-cases (ltb capacity (16 + chunk_size waiting + file_entry.size entry))) [
      | inl full ↦ rw full (ap (◌++◌ waiting) (concat-chunks capacity (entry ∷ []) entries))
      | inr room ↦ rw room (
          concat-chunks capacity (waiting ++ (entry ∷ [])) entries
          ∙ append_assoc waiting (entry ∷ []) entries)
    ]

-- What a receiver with a buffer of that capacity asks of every frame.
pub record IsFrame (capacity : ℕ) (chunk : List FileEntry) : Type 0 where
  pub fits : All FileEntryFits chunk
  pub room : 16 + chunk_size chunk ≤ capacity

-- The frames of a cut; all but the last hold an entry at least.
abbrev pub AreFrames : ℕ → List (List FileEntry) → Type 0
AreFrames capacity [] = Unit
AreFrames capacity (c ∷ cs) =
    IsFrame capacity c × (AreFrames capacity cs × All (λ d. 1 ≤ length d) cs)
