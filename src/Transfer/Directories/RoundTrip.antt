-- ===== src/Transfer/Directories/RoundTrip.antt =====
-- A directory sent from one end arrives at the other.
use libre_connect.Base.{
  ℕ, zero, suc, ◌+◌, ◌≤◌, ◌<◌, ◌≡◌, refl, sym, ap, ◌∙◌, Bool, true, false, not, ◌||◌, List, [], ◌∷◌,
  ◌++◌, append_assoc, append-nil, length, drop, replicate, length-append, length-replicate, le→ltb,
  ok, some, arith, All,
}
use libre_connect.Wire.Buffer.{Buffer, write_at}
use libre_connect.Wire.Primitive.{primitive, big_endian, length-big_endian}
use libre_connect.Wire.Text.{text, is_empty, size_t, size_t-IsLawful}
use libre_connect.Wire.Pair.{bool}
use libre_connect.Wire.Files.{file_header, encode_file_header, file_header-IsLawful}
use libre_connect.Transfer.Channel.{Channel, is_connected}
use libre_connect.Transfer.Files.Sending.{MaySend}
use libre_connect.Transfer.Files.Receiving.{MayReceive, read_bytes_ok}
use libre_connect.Transfer.Paths.{FilePath}
use libre_connect.Transfer.Directories.{
  Storage, Written, Run, over, go_on, more_files, directory_rounds, directory_round, begin_round,
  size_read, bytes_read, header_read, receive_in, reset_receive, on_system_error, begin_receive,
  co_receive_directory, co_send_directory, last_marker, max_header_size, source_header,
}
use libre_connect.Transfer.Directories.Sending.{
  File, source_of, sources_of, header_bytes, file_bytes, files_bytes, directory_bytes,
  co_send_directory_ok,
}
use libre_connect.Transfer.Directories.Receiving.{
  IsWorking, IsSendable, CanReceive, directory_round_ok, written,
}

-- Where a file of the directory is written.
abbrev pub written_of : FilePath → List File → List Written
written_of base [] = []
written_of base (file ∷ files) =
    record { path = base ++ file.0; contents = file.1 } ∷ written_of base files

-- No link stands on the way to a file.
abbrev pub IsLinkless : Storage → FilePath → File → Type 0
IsLinkless st base file = st.weakly_canonical (base ++ file.0) ≡ some (base ++ file.0)

length-files_bytes : (files : List File) → length files ≤ length (files_bytes files)
length-files_bytes [] = omega arith
length-files_bytes (file ∷ files) = omega (
  arith,
  length-append (file_bytes file (is_empty files)) (files_bytes files),
  long file (is_empty files),
  length-files_bytes files,
)
  where
    long : (file : File) (last : Bool) → 8 ≤ length (file_bytes file last)
    long file last =
        let h = source_header (source_of file) last in
        omega (
          arith,
          length-append (header_bytes h) file.1,
          length-append (big_endian 8 (file_header.size h)) (encode_file_header h),
          length-big_endian 8 (file_header.size h),
        )

marker_size : file_header.size last_marker ≡ 17
unfolding file_header text primitive bool
marker_size = refl

module _ (st : Storage) (working : IsWorking st) (base : FilePath) where
  directory_rounds_ok :
      (file : File) (files : List File) (fuel : ℕ) (rest : List ℕ) (buffer : Buffer) (ch : Channel)
      → length files < fuel
      → All IsSendable (file ∷ files)
      → All (IsLinkless st base) (file ∷ files)
      → length buffer ≡ max_header_size
      → CanReceive ch
      → ch.incoming ≡ files_bytes (file ∷ files) ++ rest
      → (ch' : Channel) × (directory_rounds fuel st base buffer ch
          ≡ (ok tt, (written_of base (file ∷ files), ch')))
        × (ch'.incoming ≡ rest)
  unfolding directory_rounds
  directory_rounds_ok file files zero rest buffer ch f s l w b e = absurd (omega arith)
  directory_rounds_ok file [] (suc fuel) rest buffer ch f s l w b e =
      let (buffer', ch', run, wide, left, able) =
        directory_round_ok st working base file true rest buffer ch s.0 l.0 w b
          (e ∙ ap (λ (x : List ℕ). x ++ rest) (append-nil (file_bytes file true))) in
      (ch', ap (go_on (directory_rounds fuel st base)) run, left)
  directory_rounds_ok file (next ∷ files) (suc fuel) rest buffer ch f s l w b e =
      let (buffer', ch', run, wide, left, able) =
        directory_round_ok st working base file false (files_bytes (next ∷ files) ++ rest) buffer ch
          s.0 l.0 w b
          (e ∙ append_assoc (file_bytes file false) (files_bytes (next ∷ files)) rest) in
      let (ch'', others, behind) =
        directory_rounds_ok next files fuel rest buffer' ch' (omega arith) s.1 l.1 wide able left in
      (
        ch'',
        ap (go_on (directory_rounds fuel st base)) run
            ∙ ap (more_files (record { path = base ++ file.0; contents = file.1 } ∷ [])) others,
        behind,
      )

  marker_round :
      (rest : List ℕ) (buffer : Buffer) (ch : Channel)
      → length buffer ≡ max_header_size
      → ch.incoming ≡ header_bytes last_marker ++ rest
      → directory_round st base buffer ch ≡ (over, ([], record ch { incoming = rest }))
  unfolding directory_round begin_round size_read bytes_read header_read
  marker_round rest buffer ch wide e =
      let n : ℕ = file_header.size last_marker in
      let bytes = encode_file_header last_marker in
      let long : length bytes ≡ n = file_header-IsLawful.length-encode last_marker in
      let sized : size_t.deserialize (big_endian 8 n) 0 ≡ ok (n, 0 + size_t.size n) =
        size_t-IsLawful.reads n (big_endian 8 n) 0 [] (omega (arith, marker_size)) (omega arith)
          (sym (append-nil (big_endian 8 n))) in
      let parsed : file_header.deserialize (write_at buffer 0 bytes) 0 ≡ ok (last_marker, 0 + n) =
        file_header-IsLawful.reads last_marker (write_at buffer 0 bytes) 0 (drop n buffer)
          (omega arith, (omega arith, omega arith)) (omega arith)
          (written buffer bytes n long (omega (arith, marker_size, wide))) in
      rw
        (read_bytes_ok 8 (big_endian 8 n) (bytes ++ rest) ch
          (e ∙ append_assoc (big_endian 8 n) bytes rest) (length-big_endian 8 n))
        (rw sized (
          rw (le→ltb max_header_size n (omega (arith, marker_size))) (
            rw (read_bytes_ok n bytes rest (record ch { incoming = bytes ++ rest }) refl long)
              (rw parsed refl))))

  received_ok :
      (files : List File) (rest : List ℕ) (ch : Channel)
      → All IsSendable files
      → All (IsLinkless st base) files
      → CanReceive ch
      → ch.incoming ≡ directory_bytes files ++ rest
      → (ch' : Channel) × (directory_rounds
            (length ch.incoming + 1)
            st
            base
            (replicate max_header_size 0)
            ch
          ≡ (ok tt, (written_of base files, ch')))
        × (ch'.incoming ≡ rest)
  unfolding directory_rounds
  received_ok [] rest ch s l b e =
      let more : length ch.incoming + 1 ≡ suc (length ch.incoming) = omega arith in
      (
        record ch { incoming = rest },
        ap (λ (k : ℕ). directory_rounds k st base (replicate max_header_size 0) ch) more
            ∙ ap (go_on (directory_rounds (length ch.incoming) st base)) (
                marker_round rest (replicate max_header_size 0) ch
                  (length-replicate {A = ℕ} max_header_size 0) e),
        refl,
      )
  received_ok (file ∷ files) rest ch s l b e =
      directory_rounds_ok file files (length ch.incoming + 1) rest (replicate max_header_size 0) ch
        (omega (
          arith,
          ap length e,
          length-append (files_bytes (file ∷ files)) rest,
          length-files_bytes (file ∷ files),
        ))
        s l (length-replicate {A = ℕ} max_header_size 0) b e

may_receive :
    (ch : Channel)
    → MayReceive ch
    → (not ch.has_socket || not (is_connected ch.connection_state) || ch.receive) ≡ false
may_receive ch m = rw (m.socket, m.open_state, m.idle)

directory_open :
    (st : Storage) (path base : FilePath) (ch : Channel)
    → MayReceive ch
    → st.creates path ≡ true
    → st.weakly_canonical path ≡ some base
    → co_receive_directory st path ch
      ≡ reset_receive (
          on_system_error (
            directory_rounds
              (length ch.incoming + 1)
              st
              base
              (replicate max_header_size 0)
              (begin_receive ch)))
unfolding co_receive_directory receive_in
directory_open st path base ch m c e = rw (may_receive ch m) (rw c (rw e refl))

-- A directory of files with plain names, short paths and sizes below 2 ^ 64, on a channel over which
-- one may send and that has sent nothing yet; at the other end a channel that may receive and a file
-- system on which every file can be written, with no link below the directory. `CoReceiveDirectory`
-- writes just these files, in order, with their contents and at their places under the directory,
-- whatever the sizes of the buffers; it reads up to the end of the directory; and both channels are
-- free again.
pub directory_round_trip :
    (st : Storage) (path base : FilePath) (files : List File) (rest : List ℕ)
    (sender receiver : Channel)
    → IsWorking st
    → st.weakly_canonical path ≡ some base
    → All IsSendable files
    → All (IsLinkless st base) files
    → MaySend sender
    → sender.sent ≡ []
    → MayReceive receiver
    → (sender' receiver' : Channel) × (co_send_directory (some (sources_of files)) sender
        ≡ (ok tt, sender'))
      × (co_receive_directory st path (record receiver { incoming = sender'.sent ++ rest })
          ≡ (ok tt, (written_of base files, receiver')))
      × (receiver'.incoming ≡ rest)
      × (sender'.send ≡ false)
      × (receiver'.receive ≡ false)
directory_round_trip st path base files rest sender receiver working canonical s l m quiet m' =
    let (sender', run, sent, free) = co_send_directory_ok files sender m in
    let stream : sender'.sent ++ rest ≡ directory_bytes files ++ rest =
      ap (λ (x : List ℕ). x ++ rest)
        (sent ∙ ap (λ (x : List ℕ). x ++ directory_bytes files) quiet) in
    let ready = record receiver { incoming = sender'.sent ++ rest } in
    let (receiver', got, left) =
      received_ok st working base files rest (begin_receive ready) s l (m'.socket, m'.room)
        stream in
    (
      sender',
      record receiver' { receive = false },
      run,
      directory_open st path base ready
            (record {
              open_state = m'.open_state;
              idle = m'.idle;
              socket = m'.socket;
              room = m'.room;
            })
            (working.creating path) canonical
          ∙ ap (λ (x : Run). reset_receive (on_system_error x)) got,
      left,
      free,
      refl,
    )
