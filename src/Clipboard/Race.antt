-- ===== src/Clipboard/Race.antt =====
-- The counter of fragments runs ahead of their copies.
use libre_connect.Base.{
  ℕ, ◌^◌, ◌<◌, ◌≡◌, refl, ap, ◌∙◌, false, List, length, some, arith, All, get_elem?,
}
use libre_connect.Wire.Text.{Text}
use libre_connect.Clipboard.{Peer, Event, run_events, finish_or_wait, copied, counted}
use libre_connect.Clipboard.Fragments.{IsFragment, covers}
use libre_connect.Clipboard.Events.{run_events-HasRun}
use libre_connect.Clipboard.Arrival.{not_empty, finished}

-- When the handlers have counted all fragments but not copied them all, whatever the order in which they
-- did the rest, the handler of the last message does not wait: the text that the receiver shows has,
-- at the position of every byte that was not copied, what the buffer held there before.
pub early_finish :
    (now : ℕ) (t : Text) (before : List Event) (p : Peer) (i : ℕ)
    → length p.buffer ≡ length t
    → p.left_fragments < 2 ^ 64
    → All (IsFragment t) (copied before)
    → counted before ≡ p.left_fragments
    → i < length t
    → covers i (copied before) ≡ false
    → (p' : Peer) × (run_events before p ≡ some p')
      × (get_elem? (finish_or_wait now p').last_text i ≡ get_elem? p.buffer i)
early_finish now t before p i b s f n l c =
    let (p', run, h) = run_events-HasRun t before p b f (omega arith) s in
    let shown =
      finished now p'.buffer p' (not_empty p'.buffer (omega (arith, h.size))) refl
        (omega (arith, h.left)) in
    (p', run, ap (λ (u : Text). get_elem? u i) shown.shown ∙ h.others i c)
