-- ===== src/Clipboard/Tests.antt =====
-- Small texts and a small package limit.
use mathlib.Core.List.{Permᴰ}
use libre_connect.Base.{
  same_text, ◌+◌, ◌≡◌, refl, sym, ap, subst, false, List, [], ◌∷◌, ◌++◌, length, some,
  if◌then◌else◌, arith, replicate, inr, get_elem?,
}
use libre_connect.Wire.Text.{Text, text, is_empty}
use libre_connect.Clipboard.{
  Peer, Message, fragmented_clipboard_update, update_finished_request, normalize_clipboard_text,
  is_echo, messages_of, send_fragments, send_clipboard_text, clipboard_reports, handle, handle_all,
  timer_expires, and_then, run_events, finish_or_wait, Event, counts, copies, copied, counted,
}
use libre_connect.Clipboard.Arrival.{HasArrived, finish_among}
use libre_connect.Clipboard.Transfer.{fragments, large_text_arrives}
use libre_connect.Clipboard.Race.{early_finish}
use libre_connect.Clipboard.Echo.{small_text_overwritten, small_text_echoed}

abbrev peer : Text → Peer
peer buffer = record {
  last_local_clipboard_sent = [];
  last_remote_clipboard_applied = [];
  last_remote_clipboard_applied_at = 0;
  buffer = buffer;
  left_fragments = 0;
  waiting = 0;
  last_text = [];
}

abbrev hello : Text
hello = 72 ∷ 105 ∷ []

abbrev windows_hello : Text
windows_hello = 72 ∷ 13 ∷ 105 ∷ []

abbrev long : Text
long = replicate 130 65

hello_size : text.size hello ≡ 10
unfolding text
hello_size = refl

hello_kept : same_text (normalize_clipboard_text hello) [] ≡ false
unfolding same_text normalize_clipboard_text
hello_kept = refl

abbrev longer : Text
longer = replicate 200 65

longer_size : text.size longer ≡ 208
unfolding text
longer_size = refl

longer_new : same_text (normalize_clipboard_text longer) [] ≡ false
unfolding same_text normalize_clipboard_text
longer_new = refl

longer_no_echo : is_echo 5000 (normalize_clipboard_text longer) (peer []) ≡ false
unfolding is_echo same_text normalize_clipboard_text
longer_no_echo = refl

-- With a limit of 200 bytes a fragment holds 72.
three_pieces :
    fragments 200 longer
    ≡ fragmented_clipboard_update 0 (replicate 72 65)
      ∷ fragmented_clipboard_update 72 (replicate 72 65)
      ∷ fragmented_clipboard_update 144 (replicate 56 65)
      ∷ []
unfolding send_fragments
three_pieces = refl

-- The second fragment is copied before the first one, and the handler of the last message comes when two
-- fragments have been counted and one has been copied.
abbrev first_events : List Event
first_events = counts ∷ counts ∷ copies 72 (replicate 72 65) ∷ []

abbrev last_events : List Event
last_events = copies 0 (replicate 72 65) ∷ counts ∷ copies 144 (replicate 56 65) ∷ []

copied_once : Permᴰ (copied first_events ++ copied last_events) (fragments 200 longer)
copied_once =
    subst (λ (ms : List Message). Permᴰ (copied first_events ++ copied last_events) ms)
      (sym three_pieces) (Permᴰ.swap refl refl)

counted_once : counted first_events + counted last_events ≡ length (fragments 200 longer)
counted_once = sym (ap length three_pieces)

large_text_arrives_example :
    (announcement : Message) × ((send_clipboard_text 200 5000 longer (peer [])).0
      ≡ announcement ∷ (fragments 200 longer ++ (update_finished_request ∷ [])))
    × (receiver' : Peer) × (and_then
          (handle 6000 announcement (peer (1 ∷ 2 ∷ [])))
          (finish_among 6000 first_events last_events)
        ≡ some receiver')
    × HasArrived longer (timer_expires 6010 receiver')
large_text_arrives_example =
    large_text_arrives 200 5000 6000 6010 longer (peer []) (peer (1 ∷ 2 ∷ [])) first_events
      last_events (omega arith) (omega (arith, longer_size)) (omega arith) longer_new longer_no_echo
      copied_once counted_once (inr (omega arith))

-- Three fragments are counted, and the second one is copied.
abbrev early_events : List Event
early_events = counts ∷ counts ∷ counts ∷ copies 72 (replicate 72 65) ∷ []

abbrev announced : Peer
announced = record (peer (replicate 200 0)) { left_fragments = 3 }

early_finish_example :
    (p' : Peer) × (run_events early_events announced ≡ some p')
    × (get_elem? (finish_or_wait 6000 p').last_text 5 ≡ get_elem? announced.buffer 5)
early_finish_example =
    early_finish 6000 longer early_events announced 5 refl (omega arith)
      (record { part = refl; inside = omega arith }, tt) refl (omega arith) refl

same_normal : normalize_clipboard_text windows_hello ≡ normalize_clipboard_text hello
unfolding normalize_clipboard_text
same_normal = refl

small_text_overwritten_example :
    (p' : Peer) × (handle_all 5000 (messages_of 1000 hello) (peer long) ≡ some p')
    × (p'.last_text ≡ (if is_empty long then hello else long))
    × (p'.last_local_clipboard_sent ≡ normalize_clipboard_text long)
    × (p'.last_remote_clipboard_applied ≡ normalize_clipboard_text long)
small_text_overwritten_example =
    small_text_overwritten 1000 5000 hello (peer long) (omega (arith, hello_size)) refl refl

windows_other : same_text windows_hello hello ≡ false
unfolding same_text
windows_other = refl

-- The platform of the receiver puts a carriage return in.
small_text_echoed_example :
    (p' : Peer) × (handle_all 5000 (messages_of 1000 hello) (peer []) ≡ some p')
    × (p'.last_text ≡ hello)
    × (clipboard_reports 1000 5010 hello p' ≡ ([], p'))
    × ((clipboard_reports 1000 5010 windows_hello p').0 ≡ messages_of 1000 windows_hello)
    × ((send_clipboard_text 1000 5010 hello p').0 ≡ messages_of 1000 hello)
small_text_echoed_example =
    small_text_echoed 1000 5000 5010 hello windows_hello (peer []) (omega (arith, hello_size)) refl
      refl hello_kept windows_other same_normal refl refl
