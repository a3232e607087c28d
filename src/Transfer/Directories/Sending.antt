-- ===== src/Transfer/Directories/Sending.antt =====
-- What `CoSendDirectory` writes.
use libre_connect.Base.{
  ℕ, ◌+◌, ◌≡◌, refl, sym, ap, ◌∙◌, Bool, true, false, not, ◌||◌, List, [], ◌∷◌, ◌++◌, append_assoc,
  append-nil, length, replicate, length-append, length-replicate, ok, some, arith,
}
use libre_connect.Wire.Buffer.{write_at, write_at-write_at, write_at_all, length-write_at}
use libre_connect.Wire.Codec.{ok_path}
use libre_connect.Wire.Primitive.{primitive, big_endian, length-big_endian}
use libre_connect.Wire.Text.{is_empty, size_t-IsLawful}
use libre_connect.Wire.Files.{FileHeader, file_header, encode_file_header, file_header-IsLawful}
use libre_connect.Transfer.Channel.{Channel, is_connected, then_ok}
use libre_connect.Transfer.Files.Sending.{CanSend, MaySend, send_ok, async_write_ok}
use libre_connect.Transfer.Paths.{FilePath}
use libre_connect.Transfer.Paths.Plain.{join}
use libre_connect.Transfer.Directories.{
  Source, source_header, header_frame, write_frame, send_source, send_sources, send_listed,
  last_marker, begin_send, on_exception, co_send_directory,
}

-- A file of the directory: the names of its path, and its contents.
abbrev pub File : Type 0
File = FilePath × List ℕ

abbrev pub source_of : File → Source
source_of (names, contents) = record {
  relative_path = join names;
  file_size = length contents;
  file = some contents;
}

abbrev pub sources_of : List File → List Source
sources_of [] = []
sources_of (file ∷ files) = source_of file ∷ sources_of files

abbrev pub header_bytes : FileHeader → List ℕ
header_bytes h = big_endian 8 (file_header.size h) ++ encode_file_header h

abbrev pub file_bytes : File → Bool → List ℕ
file_bytes file last = header_bytes (source_header (source_of file) last) ++ file.1

abbrev pub files_bytes : List File → List ℕ
files_bytes [] = []
files_bytes (file ∷ files) = file_bytes file (is_empty files) ++ files_bytes files

-- The bytes of a directory; an empty one is a header without a file.
abbrev pub directory_bytes : List File → List ℕ
directory_bytes [] = header_bytes last_marker
directory_bytes (file ∷ files) = files_bytes (file ∷ files)

header_frame_ok : (h : FileHeader) → header_frame h ≡ ok (header_bytes h, 8 + file_header.size h)
unfolding header_frame primitive
header_frame_ok h =
    let n : ℕ = file_header.size h in
    let blank = replicate {A = ℕ} (n + 8) 0 in
    let wide : length blank ≡ n + 8 = length-replicate (n + 8) 0 in
    let first = write_at blank 0 (big_endian 8 n) in
    let eight : length (big_endian 8 n) ≡ 8 = length-big_endian 8 n in
    let same : length first ≡ length blank =
      length-write_at blank 0 (big_endian 8 n) (omega (arith, eight)) in
    let long : length (encode_file_header h) ≡ n = file_header-IsLawful.length-encode h in
    rw (size_t-IsLawful.writes n blank 0 (omega arith)) (
      file_header-IsLawful.writes h first 8 (omega (arith, same, wide))
      ∙ ok_path
          (write_at-write_at blank 0 8 (big_endian 8 n) (encode_file_header h)
              (omega (arith, eight)) (omega (arith, long, wide))
            ∙ write_at_all blank (header_bytes h) (
                omega (
                  arith,
                  eight,
                  long,
                  wide,
                  length-append (big_endian 8 n) (encode_file_header h),
                )))
          refl)

write_frame_ok :
    (h : FileHeader) (ch : Channel)
    → ch.outcomes ≡ []
    → write_frame (header_frame h) ch ≡ (ok tt, record ch { sent = ch.sent ++ header_bytes h })
unfolding write_frame
write_frame_ok h ch o = rw (header_frame_ok h) (rw (async_write_ok (header_bytes h) ch o) refl)

send_source_ok :
    (file : File) (last : Bool) (ch : Channel)
    → ch.has_socket ≡ true
    → CanSend ch
    → (ch' : Channel) × (send_source (source_of file) last ch ≡ (ok tt, ch'))
      × (ch'.sent ≡ ch.sent ++ file_bytes file last)
      × CanSend ch'
      × (ch'.has_socket ≡ true)
unfolding send_source
send_source_ok file last ch h c =
    let header = source_header (source_of file) last in
    let framed = record ch { sent = ch.sent ++ header_bytes header } in
    let (ch', run, written, able, same) = send_ok file.1 framed h c in
    (
      ch',
      rw (write_frame_ok header ch c.0) (rw run refl),
      written ∙ append_assoc ch.sent (header_bytes header) file.1,
      able,
      same ∙ h,
    )

same_end : (files : List File) → is_empty (sources_of files) ≡ is_empty files
same_end [] = refl
same_end (file ∷ files) = refl

send_sources_ok :
    (files : List File) (ch : Channel)
    → ch.has_socket ≡ true
    → CanSend ch
    → (ch' : Channel) × (send_sources (sources_of files) ch ≡ (ok tt, ch'))
      × (ch'.sent ≡ ch.sent ++ files_bytes files)
unfolding send_sources
send_sources_ok [] ch h c = (ch, refl, sym (append-nil ch.sent))
send_sources_ok (file ∷ files) ch h c =
    let (ch', run, written, able, open_) = send_source_ok file (is_empty files) ch h c in
    let (ch'', rest, others) = send_sources_ok files ch' open_ able in
    (
      ch'',
      then_ok (send_source (source_of file) (is_empty (sources_of files))) _ ch
            (ap (λ (b : Bool). send_source (source_of file) b ch) (same_end files) ∙ run)
          ∙ rest,
      others
          ∙ ap (λ (l : List ℕ). l ++ files_bytes files) written
          ∙ append_assoc ch.sent (file_bytes file (is_empty files)) (files_bytes files),
    )

may_send :
    (ch : Channel)
    → MaySend ch
    → (not ch.has_socket || not (is_connected ch.connection_state) || ch.send) ≡ false
may_send ch m = rw (m.socket, m.open_state, m.idle)

-- A directory of readable files, on a channel over which one may send: `CoSendDirectory` succeeds, has
-- written each file behind its header, in the order of the iterator, the last one marked as such or
-- one header without a file for an empty directory, and the channel may send again.
pub co_send_directory_ok :
    (files : List File) (ch : Channel)
    → MaySend ch
    → (ch' : Channel) × (co_send_directory (some (sources_of files)) ch ≡ (ok tt, ch'))
      × (ch'.sent ≡ ch.sent ++ directory_bytes files)
      × (ch'.send ≡ false)
unfolding co_send_directory send_listed
co_send_directory_ok [] ch m = (
  record ch {
    sent = ch.sent ++ directory_bytes [];
    send = false;
    progress = 0;
    current_file_size = 0;
    current_file_progress = 0;
  },
  rw (may_send ch m) (ap on_exception (write_frame_ok last_marker (begin_send ch) m.unbroken)),
  refl,
  refl,
)
co_send_directory_ok (file ∷ files) ch m =
    let (ch', run, written) =
      send_sources_ok (file ∷ files) (begin_send ch) m.socket (m.unbroken, m.room) in
    (record ch' { send = false }, rw (may_send ch m) (ap on_exception run), written, refl)
