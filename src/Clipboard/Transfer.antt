-- ===== src/Clipboard/Transfer.antt =====
-- A text sent by one peer arrives at the other.
use mathlib.Core.List.{Permᴰ}
use libre_connect.Base.{
  same_text, ℕ, ◌+◌, ◌-◌, ◌^◌, ◌≤◌, ◌<◌, ◌≡◌, sym, ap, ◌∙◌, false, List, [], ◌∷◌, ◌++◌, length,
  some, arith, ◌⊎◌,
}
use libre_connect.Wire.Text.{Text, text, is_empty}
use libre_connect.Clipboard.{
  Message, update_info_request, update_finished_request, Peer, normalize_clipboard_text,
  send_fragments, fragment_count, messages_of, is_echo, send_clipboard_text, timer_expires, handle,
  Event, and_then, copied, counted,
}
use libre_connect.Clipboard.Fragments.{
  length-send_fragments, length-send_fragments_le, length-resize, IsFragment, covers-append,
  covers-Perm, All-Perm, All-halves, send_fragments-IsFragment, send_fragments-covers,
}
use libre_connect.Clipboard.Arrival.{
  size_lem, not_empty, HasArrived, prepared, large_messages, finish_among, finish_among-arrives,
}

module _ (limit now : ℕ) (t : Text) (p : Peer) where
  pub sent_lem :
      is_empty t ≡ false
      → same_text (normalize_clipboard_text t) p.last_local_clipboard_sent ≡ false
      → is_echo now (normalize_clipboard_text t) p ≡ false
      → send_clipboard_text limit now t p
        ≡ (messages_of limit t, record p { last_local_clipboard_sent = normalize_clipboard_text t })
  unfolding send_clipboard_text
  sent_lem e f g = rw (e, f, g)

-- What the sender puts between the first and the last message.
abbrev pub fragments : ℕ → Text → List Message
fragments limit t = send_fragments (length t) (limit - 128) t 0

-- A text whose package is larger than the limit, which is not the one sent last and no echo. The
-- receiver may hold anything in its buffer before the announcement. Its handlers of the fragments count
-- and copy them in any order, interleaved on several threads: each sent fragment is copied once, and as
-- many are counted as are sent. The handler of the last message comes when all of this is done, or
-- while a count is outstanding, where it waits. Then no copy goes over the end of the buffer, and when
-- a timer has expired behind all of it, the receiver shows the same text and has remembered it against
-- an echo.
pub large_text_arrives :
    (limit now done later : ℕ) (t : Text) (sender receiver : Peer) (before after : List Event)
    → 128 < limit
    → limit < text.size t
    → length t < 2 ^ 53
    → same_text (normalize_clipboard_text t) sender.last_local_clipboard_sent ≡ false
    → is_echo now (normalize_clipboard_text t) sender ≡ false
    → Permᴰ (copied before ++ copied after) (fragments limit t)
    → counted before + counted after ≡ length (fragments limit t)
    → (after ≡ []) ⊎ (1 ≤ counted after)
    → (announcement : Message) × ((send_clipboard_text limit now t sender).0
        ≡ announcement ∷ (fragments limit t ++ (update_finished_request ∷ [])))
      × (receiver' : Peer) × (and_then
            (handle done announcement receiver)
            (finish_among done before after)
          ≡ some receiver')
      × HasArrived t (timer_expires later receiver')
unfolding handle
large_text_arrives limit now done later t sender receiver before after k h s f g d n o =
    let m : ℕ = limit - 128 in
    let not_nil : is_empty t ≡ false = not_empty t (omega (arith, size_lem t)) in
    let all : length t ≡ length t - 0 = omega arith in
    let count : fragment_count (length t) m ≡ length (fragments limit t) =
      ap (λ (i : ℕ). fragment_count i m) all
      ∙ sym (length-send_fragments (length t) m t 0 (omega arith) (omega arith)) in
    let (receiver', run, arrived) =
      finish_among-arrives done later t before after (prepared m t receiver) not_nil
        (length-resize (length t) receiver.buffer)
        (omega (arith, count, length-send_fragments_le (length t) m t 0)) (n ∙ sym count)
        (All-halves (IsFragment t) (copied before) (copied after) (
          All-Perm (IsFragment t) (copied before ++ copied after) (fragments limit t) d
            (send_fragments-IsFragment (length t) m t 0)))
        (λ i l.
          sym (covers-append i (copied before) (copied after))
          ∙ covers-Perm i (copied before ++ copied after) (fragments limit t) d
          ∙ send_fragments-covers (length t) m t 0 i (omega arith) (omega arith) (omega arith) l)
        o in
    (
      update_info_request (length t) (fragment_count (length t) m),
      ap (λ (r : List Message × Peer). r.0) (sent_lem limit now t sender not_nil f g)
          ∙ large_messages limit t h,
      receiver',
      run,
      arrived,
    )
