-- ===== src/Clipboard/Echo.antt =====
-- What keeps two peers from sending the same text back and forth, and what does not.
use libre_connect.Base.{
  same_text, same_text_refl, ℕ, ◌-◌, ◌≤◌, ◌≡◌, ◌≢◌, refl, sym, ap, ◌∙◌, Bool, true, false, ◌&&◌,
  List, [], ◌∷◌, ltb, leb, ◌==◌, if◌then◌else◌, some, arith, le→ltb, All, Bool-cases, inl, inr,
  ==→ne, ==→eq,
}
use libre_connect.Wire.Text.{Text, text, is_empty}
use libre_connect.Clipboard.{
  Message, update_clipboard, update_finished_request, Peer, normalize_clipboard_text, set_text,
  messages_of, is_echo, remote_echo_suppression_window, send_clipboard_text, clipboard_reports,
  apply_remote, finish_or_wait, handle, handle_all,
}
use libre_connect.Clipboard.Arrival.{set_text_lem}
use libre_connect.Clipboard.Transfer.{sent_lem}

-- Line endings are made equal once and for all: no carriage return is left, and a text without any
-- stays as it is.
pub normalize_clipboard_text_lem :
    (t : Text)
    → All (λ c. c ≢ 13) (normalize_clipboard_text t)
      × (All (λ c. c ≢ 13) t → normalize_clipboard_text t ≡ t)
unfolding normalize_clipboard_text
normalize_clipboard_text_lem [] = (tt, λ h. refl)
normalize_clipboard_text_lem (c ∷ cs) =
    let (a, b) = normalize_clipboard_text_lem cs in
    elim (Bool-cases (c == 13)) [
      | inl cr ↦ rw cr (a, λ h. absurd (h.0 (==→eq c 13 cr)))
      | inr other ↦ rw other ((==→ne c 13 other, a), λ h. ap (◌∷◌ c) (b h.1))
    ]

-- Nothing is sent, and nothing changes.
silent :
    (limit now : ℕ) (t : Text) (p : Peer)
    → same_text (normalize_clipboard_text t) p.last_local_clipboard_sent ≡ true
    → send_clipboard_text limit now t p ≡ ([], p)
unfolding send_clipboard_text
silent limit now t p h = rw h (choice (is_empty t))
  where
    choice : (g : Bool) → ◌≡◌ {A = List Message × Peer} (if g then ([], p) else ([], p)) ([], p)
    choice true = refl
    choice false = refl

apply_remote-sent :
    (now : ℕ) (t : Text) (p : Peer)
    → (apply_remote now t p).last_local_clipboard_sent ≡ normalize_clipboard_text t
unfolding apply_remote set_text
apply_remote-sent now t p = choice (is_empty t)
  where
    q : Peer
    q = record p {
      last_remote_clipboard_applied = normalize_clipboard_text t;
      last_remote_clipboard_applied_at = now;
      last_local_clipboard_sent = normalize_clipboard_text t;
    }

    choice :
        (g : Bool)
        → (if g then q else record q { last_text = t }).last_local_clipboard_sent
          ≡ normalize_clipboard_text t
    choice true = refl
    choice false = refl

-- A text that has just been received, or one that differs from it in carriage returns only, is not sent
-- back, at whatever time the clipboard reports it.
pub received-not_sent :
    (limit now later : ℕ) (t u : Text) (p : Peer)
    → normalize_clipboard_text u ≡ normalize_clipboard_text t
    → send_clipboard_text limit later u (apply_remote now t p) ≡ ([], apply_remote now t p)
received-not_sent limit now later t u p e = silent limit later u (apply_remote now t p) (
    ap (same_text (normalize_clipboard_text u)) (apply_remote-sent now t p ∙ sym e)
    ∙ same_text_refl (normalize_clipboard_text u))

small_messages :
    (limit : ℕ) (t : Text)
    → text.size t ≤ limit
    → messages_of limit t ≡ update_clipboard t ∷ update_finished_request ∷ []
unfolding messages_of
small_messages limit t h = rw (le→ltb limit (text.size t) h)

-- Both handlers, one behind the other.
both :
    (now : ℕ) (t : Text) (p : Peer)
    → p.left_fragments ≡ 0
    → is_empty t ≡ false
    → handle_all now (update_clipboard t ∷ update_finished_request ∷ []) p
      ≡ some (apply_remote now p.buffer (apply_remote now t p))
unfolding handle finish_or_wait apply_remote
both now t p l e =
    let idle : ltb 0 p.left_fragments ≡ false = le→ltb 0 p.left_fragments (omega arith) in
    rw
      (set_text_lem t
        (record p {
          last_remote_clipboard_applied = normalize_clipboard_text t;
          last_remote_clipboard_applied_at = now;
          last_local_clipboard_sent = normalize_clipboard_text t;
        })
        e)
      (rw idle refl)

apply_remote-fields :
    (now : ℕ) (t : Text) (p : Peer)
    → (apply_remote now t p).last_text ≡ (if is_empty t then p.last_text else t)
      × ((apply_remote now t p).last_remote_clipboard_applied ≡ normalize_clipboard_text t)
unfolding apply_remote set_text
apply_remote-fields now t p = choice (is_empty t)
  where
    q : Peer
    q = record p {
      last_remote_clipboard_applied = normalize_clipboard_text t;
      last_remote_clipboard_applied_at = now;
      last_local_clipboard_sent = normalize_clipboard_text t;
    }

    choice :
        (g : Bool)
        → ((if g then q else record q { last_text = t }).last_text ≡ (if g then p.last_text else t))
          × ((if g then q else record q { last_text = t }).last_remote_clipboard_applied
              ≡ normalize_clipboard_text t)
    choice true = (refl, refl)
    choice false = (refl, refl)

-- A text that fits into one package is followed by `UPDATE_FINISHED_REQUEST` too. A receiver that waits
-- for no fragments handles both without waiting; afterwards it shows the text only if its fragment
-- buffer is empty, else what that buffer holds from an earlier large text, and what it has marked as
-- sent and as applied is that buffer, not the text.
pub small_text_overwritten :
    (limit now : ℕ) (t : Text) (p : Peer)
    → text.size t ≤ limit
    → is_empty t ≡ false
    → p.left_fragments ≡ 0
    → (p' : Peer) × (handle_all now (messages_of limit t) p ≡ some p')
      × (p'.last_text ≡ (if is_empty p.buffer then t else p.buffer))
      × (p'.last_local_clipboard_sent ≡ normalize_clipboard_text p.buffer)
      × (p'.last_remote_clipboard_applied ≡ normalize_clipboard_text p.buffer)
small_text_overwritten limit now t p s e l =
    let shown = apply_remote-fields now t p in
    let fields = apply_remote-fields now p.buffer (apply_remote now t p) in
    (
      apply_remote now p.buffer (apply_remote now t p),
      ap (λ (ms : List Message). handle_all now ms p) (small_messages limit t s) ∙ both now t p l e,
      fields.0
          ∙ ap (λ (u : Text). if is_empty p.buffer then u else p.buffer)
              (shown.0 ∙ ap (λ (g : Bool). if g then p.last_text else t) e),
      apply_remote-sent now p.buffer (apply_remote now t p),
      fields.1,
    )

-- Nothing is remembered, so nothing counts as an echo.
forgotten :
    (limit later : ℕ) (u : Text) (p : Peer)
    → is_empty u ≡ false
    → same_text (normalize_clipboard_text u) [] ≡ false
    → p.last_local_clipboard_sent ≡ []
    → p.last_remote_clipboard_applied ≡ []
    → (send_clipboard_text limit later u p).0 ≡ messages_of limit u
unfolding is_echo
forgotten limit later u p e n sent applied =
    let recent : Bool =
      leb (later - p.last_remote_clipboard_applied_at) remote_echo_suppression_window in
    ap (λ (r : List Message × Peer). r.0)
      (sent_lem limit later u p e (ap (same_text (normalize_clipboard_text u)) sent ∙ n) (
        ap (λ (v : Text). same_text (normalize_clipboard_text u) v && recent) applied
        ∙ ap (λ (g : Bool). g && recent) n))

unreported :
    (limit later : ℕ) (t : Text) (p : Peer)
    → p.last_text ≡ t
    → clipboard_reports limit later t p ≡ ([], p)
unfolding clipboard_reports
unreported limit later t p e = rw (ap (same_text t) e ∙ same_text_refl t) refl

reported :
    (limit later : ℕ) (t u : Text) (p : Peer)
    → p.last_text ≡ t
    → same_text u t ≡ false
    → clipboard_reports limit later u p ≡ send_clipboard_text limit later u p
unfolding clipboard_reports
reported limit later t u p e f = rw (ap (same_text u) e ∙ f) refl

-- A receiver that has never got a large text shows the small one, but has forgotten it as an echo. Its
-- clipboard listener does not react to exactly this text. But it sends back the whole text as the
-- platform gives it, whatever the time, where this is another text with the same characters other than
-- carriage returns; and it sends back the text itself where it sends a snapshot of its clipboard, as
-- `REQUEST_SYNC` makes it do. This is for texts that do not consist of carriage returns only.
pub small_text_echoed :
    (limit now later : ℕ) (t u : Text) (p : Peer)
    → text.size t ≤ limit
    → is_empty t ≡ false
    → is_empty u ≡ false
    → same_text (normalize_clipboard_text t) [] ≡ false
    → same_text u t ≡ false
    → normalize_clipboard_text u ≡ normalize_clipboard_text t
    → p.left_fragments ≡ 0
    → p.buffer ≡ []
    → (p' : Peer) × (handle_all now (messages_of limit t) p ≡ some p')
      × (p'.last_text ≡ t)
      × (clipboard_reports limit later t p' ≡ ([], p'))
      × ((clipboard_reports limit later u p').0 ≡ messages_of limit u)
      × ((send_clipboard_text limit later t p').0 ≡ messages_of limit t)
unfolding normalize_clipboard_text
small_text_echoed limit now later t u p s e e' n d w l b =
    let (p', run, shown, sent, applied) = small_text_overwritten limit now t p s e l in
    let shows = shown ∙ ap (λ (v : Text). if is_empty v then t else v) b in
    let sent' = sent ∙ ap normalize_clipboard_text b in
    let applied' = applied ∙ ap normalize_clipboard_text b in
    (
      p',
      run,
      shows,
      unreported limit later t p' shows,
      ap (λ (r : List Message × Peer). r.0) (reported limit later t u p' shows d)
          ∙ forgotten limit later u p' e' (ap (λ (v : Text). same_text v []) w ∙ n) sent' applied',
      forgotten limit later t p' e n sent' applied',
    )
