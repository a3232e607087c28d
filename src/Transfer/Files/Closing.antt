-- ===== src/Transfer/Files/Closing.antt =====
-- How `CoReceiveFileData` ends, whatever the peer sends and the sink does.
use libre_connect.Base.{
  ℕ, zero, suc, ◌+◌, ◌-◌, ◌≤◌, ◌<◌, ◌≡◌, refl, Bool, true, false, not, ◌||◌, List, [], ◌++◌, length,
  take, drop, length-append, length-take, take-append-drop, sym, if◌then◌else◌, Result, ok, err,
  end_of_stream, bad_header, arith, le_or_lt, inl, inr, min, le→ltb, lt→ltb,
}
use libre_connect.Wire.Buffer.{write_at, length-write_at}
use libre_connect.Wire.Files.{FileHeader, file_header}
use libre_connect.Transfer.Channel.{Channel, is_connected, async_read, ◌>>=◌, M, throw}
use libre_connect.Transfer.Entries.Receiver.{async_read_ok}
use libre_connect.Transfer.Files.{
  read_bytes, receive_chunks, receive_data, closed_on_error, co_receive_file_data,
}
use libre_connect.Transfer.Files.Receiving.{MayReceive, receive_open, no_header}

-- The sink has got n bytes, or the transfer has failed; d calls of `Disconnect` were spawned.
abbrev Whole : ℕ → ℕ → Result (List ℕ) × Channel → Type 0
Whole n d (ok got, ch) = (length got ≡ n) × (ch.disconnects ≡ d)
Whole n d (err e, ch) = ch.disconnects ≡ d

-- `CoReceiveFileData` is over: it returns and the sink has got n bytes, or it throws and has spawned
-- one more `Disconnect` than d; the channel may receive again.
abbrev pub IsOver : ℕ → ℕ → Result (List ℕ) × Channel → Type 0
IsOver n d (ok got, ch) = (length got ≡ n) × ((ch.disconnects ≡ d) × (ch.receive ≡ false))
IsOver n d (err e, ch) = (ch.disconnects ≡ d + 1) × (ch.receive ≡ false)

closed_on_error-IsOver :
    (n d : ℕ) (r : Result (List ℕ) × Channel) → Whole n d r → IsOver n d (closed_on_error r)
closed_on_error-IsOver n d (ok got, ch) w = (w.0, (w.1, refl))
closed_on_error-IsOver n d (err e, ch) w = (omega (arith, w), refl)

Whole-if :
    (b : Bool) (n d : ℕ) (r s : Result (List ℕ) × Channel)
    → (b ≡ true → Whole n d r)
    → (b ≡ false → Whole n d s)
    → Whole n d (if b then r else s)
Whole-if true n d r s h k = h refl
Whole-if false n d r s h k = k refl

async_read_short :
    (offset n : ℕ) (ch : Channel)
    → length ch.incoming < n
    → async_read offset n ch ≡ (err end_of_stream, record ch { incoming = [] })
unfolding async_read
async_read_short offset n ch h = rw (lt→ltb (length ch.incoming) n h) refl

chunks-Whole :
    (fuel n received : ℕ) (sink : List ℕ → Bool) (got : List ℕ) (ch : Channel)
    → n - received ≤ fuel
    → received ≤ n
    → length got ≡ received
    → 1 ≤ length ch.buffer_in
    → Whole n ch.disconnects (receive_chunks fuel n received sink got ch)
unfolding receive_chunks
chunks-Whole zero n received sink got ch f le l b = (omega arith, refl)
chunks-Whole (suc fuel) n received sink got ch f le l b = elim (le_or_lt n received) [
  | inl over ↦ rw (le→ltb received n over) (omega arith, refl)
  | inr more ↦
      let count : ℕ = min (length ch.buffer_in) (n - received) in
      let bytes = take count ch.incoming in
      let buffer = write_at ch.buffer_in 0 bytes in
      rw (lt→ltb received n more) (elim (le_or_lt count (length ch.incoming)) [
        | inl enough ↦
            let whole : length bytes ≡ count = omega (arith, length-take count ch.incoming) in
            let wide : length buffer ≡ length ch.buffer_in =
              length-write_at ch.buffer_in 0 bytes (omega (arith, whole)) in
            let chunk = take count buffer in
            rw
              (async_read_ok 0 count bytes (drop count ch.incoming) ch
                (sym (take-append-drop count ch.incoming)) whole)
              (Whole-if (sink chunk) n ch.disconnects _ _
                (λ _.
                  chunks-Whole fuel n (received + count) sink (got ++ chunk) _ (omega arith)
                    (omega arith) (omega (arith, length-append got chunk, length-take count buffer))
                    (omega arith))
                (λ _. refl))
        | inr short ↦ rw (async_read_short 0 count ch short) refl
      ])
]

data-Whole :
    (n : ℕ) (sink : List ℕ → Bool) (r : Result (FileHeader × ℕ)) (ch : Channel)
    → 1 ≤ length ch.buffer_in
    → Whole n ch.disconnects (receive_data n sink r ch)
unfolding receive_data
data-Whole n sink (err e) ch b = refl
data-Whole n sink (ok (header, _)) ch b = go _
  where
    go :
        (x : Bool)
        → Whole n ch.disconnects ((if x then throw bad_header else receive_chunks n n 0 sink []) ch)
    go true = refl
    go false = chunks-Whole n n 0 sink [] ch (omega arith) (omega arith) refl b

-- Whatever the peer sends before its stream ends and whichever chunks the sink refuses: on a channel
-- over which a file may be received `CoReceiveFileData` ends with the channel free again, and either
-- returns when the sink has got as many bytes as expected, with no call of `Disconnect`, or throws and
-- has spawned one.
pub co_receive_file_data-IsOver :
    (n : ℕ) (sink : List ℕ → Bool) (ch : Channel)
    → MayReceive ch
    → IsOver n ch.disconnects (co_receive_file_data n sink ch)
unfolding read_bytes
co_receive_file_data-IsOver n sink ch m =
    rw (receive_open n sink ch may_receive) (closed_on_error-IsOver n ch.disconnects _ (go _))
  where
    may_receive :
        (not ch.has_socket || not (is_connected ch.connection_state) || ch.receive) ≡ false
    may_receive = rw (m.socket, m.open_state, m.idle)

    ch₀ : Channel
    ch₀ = record ch {
      receive = true;
      progress = 0;
      current_file_progress = 0;
      current_file_size = n;
    }

    k : List ℕ → M (List ℕ)
    k bytes = receive_data n sink (file_header.deserialize bytes 0)

    go :
        (x : Bool)
        → Whole n ch.disconnects (
            ((λ c. if x then (err end_of_stream, record c { incoming = [] }) else (
              ok (take (file_header.size no_header) c.incoming),
              record c { incoming = drop (file_header.size no_header) c.incoming },
            ))
                >>= k)
              ch₀)
    go true = refl
    go false = data-Whole n sink _ _ m.room
