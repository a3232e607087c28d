-- ===== src/Clipboard.antt =====
-- modules/clipboard-sync: `ClipboardSyncModule`, and the static state of utilities/clipboard that it
-- writes. One peer is a record; its handlers take a message and the time. `none` stands for a `memcpy`
-- behind the end of the buffer. The package limit is an argument, so that runs can be small; the code
-- has `max_package_size`. What a send puts on the wire is the list of its messages in order; the
-- fragments follow when the announcement has been answered. The handlers of the fragments are posted to
-- a context of several threads: in Events and Transfer each is two events, which interleave with the
-- others. `handle` and `handle_all` are whole handlers, one behind the other.
pub mod Positions
pub mod Fragments
pub mod Events
pub mod Arrival
pub mod Transfer
pub mod Race
pub mod Echo
mod Tests
use libre_connect.Base.{
  same_text, ℕ, zero, suc, ◌+◌, ◌-◌, ◌*◌, ◌/◌, ◌%◌, ◌^◌, ◌≤◌, ◌≡◌, Bool, true, false, not, ◌||◌,
  ◌&&◌, List, [], ◌∷◌, ◌++◌, length, take, drop, replicate, ltb, leb, ◌==◌, if◌then◌else◌, Option,
  none, some, min,
}
use libre_connect.Wire.Buffer.{Buffer, write_at}
use libre_connect.Wire.Text.{Text, text, is_empty}

-- `MAX_PACKAGE_SIZE` and `REMOTE_ECHO_SUPPRESSION_WINDOW` in milliseconds
abbrev pub max_package_size : ℕ
max_package_size = 1024 * 256

abbrev pub remote_echo_suppression_window : ℕ
remote_echo_suppression_window = 1500

pub data Message : Type 0 where
  update_clipboard : Text → Message
  update_info_request : ℕ → ℕ → Message
  fragmented_clipboard_update : ℕ → Text → Message
  update_finished_request : Message

pub record Peer : Type 0 where
  pub last_local_clipboard_sent : Text
  pub last_remote_clipboard_applied : Text
  pub last_remote_clipboard_applied_at : ℕ
  pub buffer : Buffer
  pub left_fragments : ℕ
  -- handlers of `UPDATE_FINISHED_REQUEST` that wait on their timer
  pub waiting : ℕ
  -- `lastText` of `TextClipboard`: the text that it hands to the platform
  pub last_text : Text

-- `std::ranges::remove(text, '\r')`
unfoldable pub normalize_clipboard_text : Text → Text
normalize_clipboard_text [] = []
normalize_clipboard_text (c ∷ cs) =
    let rest = normalize_clipboard_text cs in if c == 13 then rest else c ∷ rest

unfoldable pub set_text : Text → Peer → Peer
set_text t p = if is_empty t then p else record p { last_text = t }

-- `offset < text.size()` and its body; every round takes a byte at least.
unfoldable pub send_fragments : ℕ → ℕ → Text → ℕ → List Message
send_fragments zero max_frag_size t offset = []
send_fragments (suc fuel) max_frag_size t offset =
    let fragment_size = min (length t - offset) max_frag_size in
    let rest = send_fragments fuel max_frag_size t (offset + fragment_size) in
    if ltb offset (length t)
    then fragmented_clipboard_update offset (take fragment_size (drop offset t)) ∷ rest
    else []

-- `std::ceil(static_cast<double>(text.size()) / MAX_FRAG_SIZE)`, for sizes below 2^53: these are
-- doubles, and a quotient that is not an integer is further from the integer below it than rounding
-- goes, so that its ceiling is the exact one.
abbrev pub fragment_count : ℕ → ℕ → ℕ
fragment_count size max_frag_size = (size + (max_frag_size - 1)) / max_frag_size

unfoldable pub messages_of : ℕ → Text → List Message
messages_of limit t =
    let max_frag_size = limit - 128 in
    if ltb limit (text.size t)
    then update_info_request (length t) (fragment_count (length t) max_frag_size)
      ∷ (send_fragments (length t) max_frag_size t 0 ++ (update_finished_request ∷ []))
    else update_clipboard t ∷ update_finished_request ∷ []

-- The text came from the peer not long ago.
unfoldable pub is_echo : ℕ → Text → Peer → Bool
is_echo now normalized p =
    same_text normalized p.last_remote_clipboard_applied
    && leb (now - p.last_remote_clipboard_applied_at) remote_echo_suppression_window

unfoldable pub send_clipboard_text : ℕ → ℕ → Text → Peer → List Message × Peer
send_clipboard_text limit now t p =
    let normalized = normalize_clipboard_text t in
    let sent = record p { last_local_clipboard_sent = normalized } in
    if is_empty t
    then ([], p)
    else if same_text normalized p.last_local_clipboard_sent
    then ([], p)
    else if is_echo now normalized p
    then ([], sent)
    else (messages_of limit t, sent)

-- What the clipboard listener does with the text that it finds, in an enabled module.
unfoldable pub clipboard_reports : ℕ → ℕ → Text → Peer → List Message × Peer
clipboard_reports limit now current_text p =
    if same_text current_text p.last_text
    then ([], p)
    else send_clipboard_text limit now current_text p

-- What both handlers post to the strand.
unfoldable pub apply_remote : ℕ → Text → Peer → Peer
apply_remote now t p = set_text t (record p {
  last_remote_clipboard_applied = normalize_clipboard_text t;
  last_remote_clipboard_applied_at = now;
  last_local_clipboard_sent = normalize_clipboard_text t;
})

-- `m_buffer.resize(size)`
unfoldable pub resize : ℕ → Buffer → Buffer
resize size buffer = take size buffer ++ replicate (size - length buffer) 0

-- The handler of `UPDATE_FINISHED_REQUEST` up to its first wait, and when its timer expires.
unfoldable pub finish_or_wait : ℕ → Peer → Peer
finish_or_wait now p =
    if ltb 0 p.left_fragments
    then record p { waiting = p.waiting + 1 }
    else apply_remote now p.buffer p

unfoldable pub timer_expires : ℕ → Peer → Peer
timer_expires now p =
    if ltb 0 p.left_fragments || (p.waiting == 0)
    then p
    else apply_remote now p.buffer (record p { waiting = p.waiting - 1 })

-- The handler of `FRAGMENTED_CLIPBOARD_UPDATE` counts the fragment and then copies it.
unfoldable pub count_fragment : Peer → Peer
count_fragment p = record p { left_fragments = (p.left_fragments + 2 ^ 64 - 1) % 2 ^ 64 }

unfoldable pub copy_fragment : ℕ → Text → Peer → Option Peer
copy_fragment offset fragment p =
    if ltb (length p.buffer) (offset + length fragment)
    then none
    else some (record p { buffer = write_at p.buffer offset fragment })

-- A whole handler without anything in between.
unfoldable pub handle : ℕ → Message → Peer → Option Peer
handle now (update_clipboard t) p = some (apply_remote now t p)
handle now (update_info_request size count) p =
    some (record p { buffer = resize size p.buffer; left_fragments = count })
handle now (fragmented_clipboard_update offset fragment) p =
    copy_fragment offset fragment (count_fragment p)
handle now update_finished_request p = some (finish_or_wait now p)

abbrev pub and_then : Option Peer → (Peer → Option Peer) → Option Peer
and_then none f = none
and_then (some p) f = f p

abbrev pub handle_all : ℕ → List Message → Peer → Option Peer
handle_all now [] p = some p
handle_all now (m ∷ ms) p = and_then (handle now m p) (handle_all now ms)

-- The handlers of fragments run on several threads: one of them counts its fragment, or copies it.
pub data Event : Type 0 where
  counts : Event
  copies : ℕ → Text → Event

abbrev pub run_event : Event → Peer → Option Peer
run_event counts p = some (count_fragment p)
run_event (copies offset fragment) p = copy_fragment offset fragment p

abbrev pub run_events : List Event → Peer → Option Peer
run_events [] p = some p
run_events (e ∷ es) p = and_then (run_event e p) (run_events es)

-- What has been copied, and how many fragments have been counted.
abbrev pub copied : List Event → List Message
copied [] = []
copied (counts ∷ es) = copied es
copied (copies offset fragment ∷ es) = fragmented_clipboard_update offset fragment ∷ copied es

abbrev pub counted : List Event → ℕ
counted [] = 0
counted (counts ∷ es) = counted es + 1
counted (copies offset fragment ∷ es) = counted es
