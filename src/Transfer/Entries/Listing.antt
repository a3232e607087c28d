-- ===== src/Transfer/Entries/Listing.antt =====
-- A listing sent and received: what the sender writes, and that the receiver gets it.
use libre_connect.Base.{
  ℕ, ◌+◌, ◌≤◌, ◌≡◌, refl, ap, ◌∙◌, true, false, not, ◌||◌, List, [], ◌++◌, length, take,
  append_assoc, arith, ok, All,
}
use libre_connect.Wire.Buffer.{write_at, length-write_at, take-write_at}
use libre_connect.Wire.Primitive.{big_endian, length-big_endian}
use libre_connect.Wire.Files.{FileEntry, file_entry}
use libre_connect.Transfer.Channel.{
  Channel, connected, then_ok, add_size, is_connected, send_buffer,
}
use libre_connect.Transfer.Entries.{
  put_size, send_frame, send_entries, send_listing, send_last, co_send_directory_entries,
}
use libre_connect.Transfer.Entries.Frames.{frames, chunks}
use libre_connect.Transfer.Entries.Sender.{
  fresh, put_size_ok, send_buffer_ok, send_frame_ok, send_entries_ok,
}

-- A channel over which a listing may be sent: connected, not sending, and no write will fail.
pub record IsReady (ch : Channel) (capacity : ℕ) : Type 0 where
  pub open_state : ch.connection_state ≡ connected
  pub idle : ch.send ≡ false
  pub socket : ch.has_socket ≡ true
  pub unbroken : ch.outcomes ≡ []
  pub whole : length ch.buffer_out ≡ capacity
  pub room : 16 ≤ capacity

abbrev pub listing_bytes : ℕ → List FileEntry → List ℕ
listing_bytes capacity entries =
    big_endian 8 (length entries) ++ frames (chunks capacity [] entries)

send_listing_ok :
    (entries : List FileEntry) (ch : Channel) (capacity : ℕ)
    → IsReady ch capacity
    → All (λ e. 16 + file_entry.size e ≤ capacity) entries
    → (ch' : Channel) × (send_listing entries ch ≡ (ok tt, ch'))
      × (ch'.sent ≡ ch.sent ++ listing_bytes capacity entries)
      × (ch'.send ≡ false)
unfolding send_listing send_last
send_listing_ok entries ch capacity r h =
    let p₂ = fresh ch₂ capacity _ r.socket r.unbroken length₁ refl r.room in
    let (ch₃, offset, count, last, sent, run₃, p₃, e₃) =
      send_entries_ok entries ch₂ capacity 16 0 [] ch₂.sent p₂ h in
    let (ch₄, run₄, p₄) = send_frame_ok ch₃ capacity offset count last sent p₃ in
    (
      record ch₄ { send = false },
      then_ok (put_size (length entries) 0) _ ch₀
            (put_size_ok (length entries) 0 ch₀ (omega (arith, r)))
          ∙ then_ok (send_buffer 8) _ ch₁ (send_buffer_ok 8 ch₁ r.socket r.unbroken)
          ∙ then_ok (send_entries entries 16 0) _ ch₂ run₃
          ∙ then_ok (send_frame offset count) _ ch₃ run₄,
      p₄.written
          ∙ e₃
          ∙ ap (λ (l : List ℕ). (ch.sent ++ l) ++ frames (chunks capacity [] entries)) first
          ∙ append_assoc ch.sent _ _,
      refl,
    )
  where
    ch₀ : Channel
    ch₀ = record ch { send = true; progress = 0 }

    ch₁ : Channel
    ch₁ = record ch₀ { buffer_out = write_at ch.buffer_out 0 (big_endian 8 (length entries)) }

    inside : 0 + length (big_endian 8 (length entries)) ≤ length ch.buffer_out
    inside = omega (arith, r, length-big_endian 8 (length entries))

    length₁ : length ch₁.buffer_out ≡ capacity
    length₁ = length-write_at ch.buffer_out 0 (big_endian 8 (length entries)) inside ∙ r.whole

    ch₂ : Channel
    ch₂ = record ch₁ {
      sent = ch₁.sent ++ take 8 ch₁.buffer_out;
      progress = add_size ch₁.progress 8;
    }

    first : take 8 ch₁.buffer_out ≡ big_endian 8 (length entries)
    first =
        take-write_at ch.buffer_out 0 (big_endian 8 (length entries)) 8 inside
          (omega (arith, length-big_endian 8 (length entries)))

-- On a channel that is ready, a listing whose entries each fit into a frame is written whole: the
-- number of its entries and the frames of the greedy cut. Then the channel may send again.
pub co_send_directory_entries_ok :
    (entries : List FileEntry) (ch : Channel) (capacity : ℕ)
    → IsReady ch capacity
    → All (λ e. 16 + file_entry.size e ≤ capacity) entries
    → (ch' : Channel) × (co_send_directory_entries entries ch ≡ (ok tt, ch'))
      × (ch'.sent ≡ ch.sent ++ listing_bytes capacity entries)
      × (ch'.send ≡ false)
unfolding co_send_directory_entries
co_send_directory_entries_ok entries ch capacity r h =
    let (ch', run, written, cleared) = send_listing_ok entries ch capacity r h in
    (ch', rw may_send run, written, cleared)
  where
    may_send : (not (is_connected ch.connection_state) || ch.send) ≡ false
    may_send = rw (r.open_state, r.idle)
