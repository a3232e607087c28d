-- ===== src/Transfer/Entries/RoundTrip.antt =====
-- A listing arrives as it was sent.
use libre_connect.Base.{
  ℕ, ◌+◌, ◌^◌, ◌≤◌, ◌<◌, ◌≡◌, refl, sym, ap, ◌∙◌, true, false, not, ◌||◌, List, [], ◌∷◌, ◌++◌,
  length, length-append, append_assoc, ltb, arith, ok, All, All-append, Bool-cases, inl, inr,
  ltb→le, subst,
}
use libre_connect.Wire.Buffer.{write_at, length-write_at, drop-write_at}
use libre_connect.Wire.Primitive.{big_endian, length-big_endian}
use libre_connect.Wire.Vector.{all_size}
use libre_connect.Wire.Files.{FileEntry, file_entry, FileEntryFits}
use libre_connect.Transfer.Channel.{Channel, connected, then_ok, is_connected, async_read}
use libre_connect.Transfer.Entries.{
  co_send_directory_entries, co_receive_directory_entries, receive_listing, take_size,
  reset_receive, receive_frames,
}
use libre_connect.Transfer.Entries.Frames.{
  chunk_size, frames, chunks, concat, IsFrame, AreFrames, concat-chunks, chunk_size-snoc,
}
use libre_connect.Transfer.Entries.Listing.{IsReady, listing_bytes, co_send_directory_entries_ok}
use libre_connect.Transfer.Entries.Receiver.{async_read_ok, take_size_ok, receive_frames_ok}

module _ (capacity : ℕ) where
  abbrev pub Fitting : List FileEntry → Type 0
  Fitting entries = All FileEntryFits entries × All (λ e. 16 + file_entry.size e ≤ capacity) entries

  chunks-nonempty :
      (waiting entries : List FileEntry)
      → 1 ≤ length waiting
      → All (λ d. 1 ≤ length d) (chunks capacity waiting entries)
  unfolding chunks
  chunks-nonempty waiting [] h = (h, tt)
  chunks-nonempty waiting (entry ∷ entries) h =
      elim (Bool-cases (ltb capacity (16 + chunk_size waiting + file_entry.size entry))) [
        | inl full ↦ rw full (h, chunks-nonempty (entry ∷ []) entries (omega arith))
        | inr room ↦ rw room (
            chunks-nonempty (waiting ++ (entry ∷ [])) entries
              (omega (arith, length-append waiting (entry ∷ []))))
      ]

  -- Every frame of the cut fits into the receiver's buffer.
  chunks-AreFrames :
      (waiting entries : List FileEntry)
      → IsFrame capacity waiting
      → Fitting entries
      → AreFrames capacity (chunks capacity waiting entries)
  unfolding chunks all_size
  chunks-AreFrames waiting [] f g = (f, (tt, tt))
  chunks-AreFrames waiting (entry ∷ entries) f g =
      elim (Bool-cases (ltb capacity (16 + chunk_size waiting + file_entry.size entry))) [
        | inl full ↦ rw full (
          f,
          (
            chunks-AreFrames (entry ∷ []) entries
                (record { fits = (g.0.0, tt); room = omega (arith, g.1.0) }) (g.0.1, g.1.1),
            chunks-nonempty (entry ∷ []) entries (omega arith),
          ),
        )
        | inr room ↦ rw room (
            chunks-AreFrames (waiting ++ (entry ∷ [])) entries
              (record {
                fits = All-append FileEntryFits waiting (entry ∷ []) f.fits (g.0.0, tt);
                room = omega (arith, ltb→le _ _ room, chunk_size-snoc waiting entry);
              })
              (g.0.1, g.1.1))
      ]

  chunks-cons :
      (waiting entries : List FileEntry)
      → (c : List FileEntry) × (cs : List (List FileEntry)) × (chunks capacity waiting entries
          ≡ c ∷ cs)
  unfolding chunks
  chunks-cons waiting [] = (waiting, [], refl)
  chunks-cons waiting (entry ∷ entries) =
      elim (Bool-cases (ltb capacity (16 + chunk_size waiting + file_entry.size entry))) [
        | inl full ↦ (waiting, chunks capacity (entry ∷ []) entries, rw full)
        | inr room ↦
            let (c, cs, e) = chunks-cons (waiting ++ (entry ∷ [])) entries in (c, cs, rw room e)
      ]

-- A channel on which a listing may be received.
pub record IsListening (ch : Channel) (capacity : ℕ) : Type 0 where
  pub open_state : ch.connection_state ≡ connected
  pub idle : ch.receive ≡ false
  pub socket : ch.has_socket ≡ true
  pub whole : length ch.buffer_in ≡ capacity
  pub room : 16 ≤ capacity
  pub small : capacity < 256 ^ 8

IsFrame-nil : (capacity : ℕ) → 16 ≤ capacity → IsFrame capacity []
unfolding all_size
IsFrame-nil capacity h = record { fits = tt; room = h }

receive_listing_ok :
    (entries : List FileEntry) (ch : Channel) (capacity : ℕ) (rest : List ℕ)
    → length ch.buffer_in ≡ capacity
    → 16 ≤ capacity
    → capacity < 256 ^ 8
    → length entries < 2 ^ 64
    → Fitting capacity entries
    → ch.incoming ≡ listing_bytes capacity entries ++ rest
    → (ch' : Channel) × (receive_listing ch ≡ (ok entries, ch')) × (ch'.incoming ≡ rest)
unfolding receive_listing
receive_listing_ok entries ch capacity rest w r s n g e =
    let (c, cs, cut) = chunks-cons capacity [] entries in
    let whole : concat (c ∷ cs) ≡ entries =
      ap concat (sym cut) ∙ concat-chunks capacity [] entries in
    let (ch', run, z) =
      receive_frames_ok cs c capacity [] rest ch₁ (length ch₁.incoming) length₁ s
        (subst (AreFrames capacity) cut
          (chunks-AreFrames capacity [] entries (IsFrame-nil capacity r) g))
        (ap (λ (l : List (List FileEntry)). frames l ++ rest) cut) (omega arith)
        (omega (arith, ap length whole)) in
    (
      ch',
      then_ok (async_read 0 8) _ ch (
            async_read_ok 0 8 count (frames (chunks capacity [] entries) ++ rest) ch
              (e ∙ append_assoc count _ rest) (length-big_endian 8 (length entries)))
          ∙ then_ok (take_size 0) _ ch₁ read_count
          ∙ ap (λ (l : List FileEntry). receive_frames (length ch₁.incoming) (length l) [] ch₁)
              (sym whole)
          ∙ run
          ∙ ap (λ (l : List FileEntry). (ok l, ch')) whole,
      z,
    )
  where
    count : List ℕ
    count = big_endian 8 (length entries)

    ch₁ : Channel
    ch₁ = record ch {
      buffer_in = write_at ch.buffer_in 0 count;
      incoming = frames (chunks capacity [] entries) ++ rest;
    }

    inside : 0 + length count ≤ length ch.buffer_in
    inside = omega (arith, length-big_endian 8 (length entries))

    length₁ : length ch₁.buffer_in ≡ capacity
    length₁ = length-write_at ch.buffer_in 0 count inside ∙ w

    read_count : take_size 0 ch₁ ≡ (ok (length entries, 8), ch₁)
    read_count =
        take_size_ok (length entries) 0 _ ch₁ (omega arith) (omega arith)
          (drop-write_at ch.buffer_in 0 count inside)

co_receive_directory_entries_ok :
    (entries : List FileEntry) (ch : Channel) (capacity : ℕ) (rest : List ℕ)
    → IsListening ch capacity
    → length entries < 2 ^ 64
    → Fitting capacity entries
    → ch.incoming ≡ listing_bytes capacity entries ++ rest
    → (ch' : Channel) × (co_receive_directory_entries ch ≡ (ok entries, ch'))
      × (ch'.incoming ≡ rest)
      × (ch'.receive ≡ false)
unfolding co_receive_directory_entries
co_receive_directory_entries_ok entries ch capacity rest l n g e =
    let (ch', run, z) =
      receive_listing_ok entries (record ch { receive = true; progress = 0 }) capacity rest l.whole
        l.room l.small n g e in
    (record ch' { receive = false }, rw may_receive (ap reset_receive run), z, refl)
  where
    may_receive :
        (not ch.has_socket || not (is_connected ch.connection_state) || ch.receive) ≡ false
    may_receive = rw (l.socket, l.open_state, l.idle)

-- A sender that is ready and has sent nothing, and a receiver with a buffer of the same capacity: for
-- every listing whose entries each fit into one frame, and whatever follows on the stream, both
-- coroutines return without an exception, the receiver returns the same entries in the same order and
-- leaves just what follows unread, and both channels are free again.
pub listing_round_trip :
    (entries : List FileEntry) (sender receiver : Channel) (capacity : ℕ) (rest : List ℕ)
    → IsReady sender capacity
    → sender.sent ≡ []
    → IsListening receiver capacity
    → length entries < 2 ^ 64
    → Fitting capacity entries
    → (sender' receiver' : Channel) × (co_send_directory_entries entries sender ≡ (ok tt, sender'))
      × (co_receive_directory_entries (record receiver { incoming = sender'.sent ++ rest })
          ≡ (ok entries, receiver'))
      × (receiver'.incoming ≡ rest)
      × (sender'.send ≡ false)
      × (receiver'.receive ≡ false)
listing_round_trip entries sender receiver capacity rest r z l n g =
    let (sender', run, written, cleared) =
      co_send_directory_entries_ok entries sender capacity r g.1 in
    let (receiver', run', left, cleared') =
      co_receive_directory_entries_ok entries (record receiver { incoming = sender'.sent ++ rest })
        capacity rest
        (record {
          open_state = l.open_state;
          idle = l.idle;
          socket = l.socket;
          whole = l.whole;
          room = l.room;
          small = l.small;
        })
        n g
        (ap (λ (s : List ℕ). s ++ rest)
          (written ∙ ap (λ (s : List ℕ). s ++ listing_bytes capacity entries) z)) in
    (sender', receiver', run, run', left, cleared, cleared')
