-- ===== src/Clipboard/Arrival.antt =====
-- The handler of the last message of a large text, and when its timer expires.

use libre_connect.Base.{
  ℕ, ◌+◌, ◌-◌, ◌^◌, ◌≤◌, ◌<◌, ◌≡◌, refl, sym, ap, ◌∙◌, Bool, true, false, ◌||◌, List, [], ◌∷◌, ◌++◌,
  length, ltb, if◌then◌else◌, Option, some, arith, subst, le→ltb, lt→ltb, ◌==◌, ==→eq, ◌⊎◌, inl,
  inr, All, get_elem?,
}
use libre_connect.Wire.Text.{Text, text, is_empty}
use libre_connect.Clipboard.{
  update_info_request, update_finished_request, Peer, normalize_clipboard_text, set_text,
  send_fragments, fragment_count, messages_of, apply_remote, resize, finish_or_wait, timer_expires,
  Event, and_then, run_events, copied, counted,
}
use libre_connect.Clipboard.Positions.{Agrees, same_elements, some-injective}
use libre_connect.Clipboard.Fragments.{IsFragment, covers}
use libre_connect.Clipboard.Events.{HasRun, run_events-HasRun}

pub size_lem : (t : Text) → text.size t ≡ 8 + length t
unfolding text
size_lem t = refl

pub not_empty : (t : Text) → 1 ≤ length t → is_empty t ≡ false
not_empty [] h = absurd (omega arith)
not_empty (c ∷ cs) h = refl

pub set_text_lem :
    (t : Text) (p : Peer) → is_empty t ≡ false → set_text t p ≡ record p { last_text = t }
unfolding set_text
set_text_lem t p h = rw h

-- What the receiver has behind a large text.
pub record HasArrived (t : Text) (p : Peer) : Type 0 where
  pub shown : p.last_text ≡ t
  pub remembered : p.last_remote_clipboard_applied ≡ normalize_clipboard_text t
  pub marked : p.last_local_clipboard_sent ≡ normalize_clipboard_text t
  pub complete : p.left_fragments ≡ 0

-- The first message makes room.
abbrev pub prepared : ℕ → Text → Peer → Peer
prepared m t p = record p {
  buffer = resize (length t) p.buffer;
  left_fragments = fragment_count (length t) m;
}

pub applied :
    (now : ℕ) (t : Text) (p : Peer)
    → is_empty t ≡ false
    → p.left_fragments ≡ 0
    → HasArrived t (apply_remote now t p)
unfolding apply_remote
applied now t p h l =
    subst (HasArrived t) (sym (set_text_lem t _ h))
      (record { shown = refl; remembered = refl; marked = refl; complete = l })

pub finished :
    (now : ℕ) (t : Text) (p : Peer)
    → is_empty t ≡ false
    → p.buffer ≡ t
    → p.left_fragments ≡ 0
    → HasArrived t (finish_or_wait now p)
unfolding finish_or_wait
finished now t p h b l =
    subst (HasArrived t)
      (ap (λ (u : Text). apply_remote now u p) (sym b) ∙ guard (ltb 0 p.left_fragments) done)
      (applied now t p h l)
  where
    done : ltb 0 p.left_fragments ≡ false
    done = le→ltb 0 p.left_fragments (omega arith)

    guard :
        (g : Bool)
        → g ≡ false
        → apply_remote now p.buffer p
          ≡ (if g then record p { waiting = p.waiting + 1 } else apply_remote now p.buffer p)
    guard true e = cc
    guard false e = refl

pub large_messages :
    (limit : ℕ) (t : Text)
    → limit < text.size t
    → messages_of limit t
      ≡ update_info_request (length t) (fragment_count (length t) (limit - 128))
        ∷ (send_fragments (length t) (limit - 128) t 0 ++ (update_finished_request ∷ []))
unfolding messages_of
large_messages limit t h = rw (lt→ltb limit (text.size t) h)

finish_fields :
    (now : ℕ) (p : Peer)
    → ((finish_or_wait now p).buffer ≡ p.buffer)
      × ((finish_or_wait now p).left_fragments ≡ p.left_fragments)
unfolding finish_or_wait apply_remote set_text
finish_fields now p = choice (ltb 0 p.left_fragments) (is_empty p.buffer)
  where
    marked : Peer
    marked = record p {
      last_remote_clipboard_applied = normalize_clipboard_text p.buffer;
      last_remote_clipboard_applied_at = now;
      last_local_clipboard_sent = normalize_clipboard_text p.buffer;
    }

    after : Bool → Bool → Peer
    after g e =
        if g
        then record p { waiting = p.waiting + 1 }
        else if e
        then marked
        else record marked { last_text = p.buffer }

    choice :
        (g e : Bool)
        → ((after g e).buffer ≡ p.buffer) × ((after g e).left_fragments ≡ p.left_fragments)
    choice true e = (refl, refl)
    choice false true = (refl, refl)
    choice false false = (refl, refl)

-- Where a counted fragment is missing, the handler waits.
finish_waits :
    (now : ℕ) (p : Peer) → 1 ≤ p.left_fragments → (finish_or_wait now p).waiting ≡ p.waiting + 1
unfolding finish_or_wait
finish_waits now p h = rw (lt→ltb 0 p.left_fragments (omega arith)) refl

timer_applies :
    (now : ℕ) (t : Text) (p : Peer)
    → is_empty t ≡ false
    → p.buffer ≡ t
    → p.left_fragments ≡ 0
    → HasArrived t p ⊎ (1 ≤ p.waiting)
    → HasArrived t (timer_expires now p)
unfolding timer_expires
timer_applies now t p e b l h = choice (p.waiting == 0) refl h
  where
    q : Peer
    q = record p { waiting = p.waiting - 1 }

    done : ltb 0 p.left_fragments ≡ false
    done = le→ltb 0 p.left_fragments (omega arith)

    choice :
        (z : Bool)
        → (p.waiting == 0) ≡ z
        → HasArrived t p ⊎ (1 ≤ p.waiting)
        → HasArrived t
            (if ltb 0 p.left_fragments || (p.waiting == 0) then p else apply_remote now p.buffer q)
    choice true z (inl a) = rw (done, z) a
    choice true z (inr w) = absurd (omega (arith, ==→eq p.waiting 0 z))
    choice false z _ =
        rw (done, z)
          (subst (HasArrived t) (ap (λ (u : Text). apply_remote now u q) (sym b))
            (applied now t q e l))

-- The handler of the last message is reached between the other handlers.
abbrev pub finish_among : ℕ → List Event → List Event → Peer → Option Peer
finish_among now before after p =
    and_then (run_events before p) (λ q. run_events after (finish_or_wait now q))

completed :
    (t : Text) (before after : List Event) (p q r s : Peer)
    → HasRun t before p q
    → r.buffer ≡ q.buffer
    → HasRun t after r s
    → ((i : ℕ) → i < length t → (covers i (copied before) || covers i (copied after)) ≡ true)
    → s.buffer ≡ t
completed t before after p q r s h e k c =
    same_elements s.buffer t k.size
      (λ i l. choice i (covers i (copied before)) (covers i (copied after)) refl refl (c i l))
  where
    choice :
        (i : ℕ) (x y : Bool)
        → covers i (copied before) ≡ x
        → covers i (copied after) ≡ y
        → (x || y) ≡ true
        → Agrees t s.buffer i
    choice i true y f g u = (k.agrees i).1 (ap (λ (b : List ℕ). get_elem? b i) e ∙ (h.agrees i).0 f)
    choice i false true f g u = (k.agrees i).0 g
    choice i false false f g u = cc

pub finish_among-arrives :
    (now later : ℕ) (t : Text) (before after : List Event) (p : Peer)
    → is_empty t ≡ false
    → length p.buffer ≡ length t
    → p.left_fragments < 2 ^ 64
    → counted before + counted after ≡ p.left_fragments
    → All (IsFragment t) (copied before) × All (IsFragment t) (copied after)
    → ((i : ℕ) → i < length t → (covers i (copied before) || covers i (copied after)) ≡ true)
    → (after ≡ []) ⊎ (1 ≤ counted after)
    → (p' : Peer) × (finish_among now before after p ≡ some p')
      × HasArrived t (timer_expires later p')
finish_among-arrives now later t before after p e b s n f c o =
    let (q, run_q, h) = run_events-HasRun t before p b f.0 (omega arith) s in
    let (same, left) = finish_fields now q in
    let r : Peer = finish_or_wait now q in
    let (p', run, k) =
      run_events-HasRun t after r (ap length same ∙ h.size) f.1 (omega (arith, h.left, left))
        (omega (arith, h.left, left)) in
    let whole : p'.buffer ≡ t = completed t before after p q r p' h same k c in
    (
      p',
      ap (λ (x : Option Peer). and_then x (λ y. run_events after (finish_or_wait now y))) run_q
          ∙ run,
      timer_applies later t p' e whole (omega (arith, k.left, left, h.left))
          (state q p' h run k left whole o),
    )
  where
    state :
        (q p' : Peer)
        → HasRun t before p q
        → run_events after (finish_or_wait now q) ≡ some p'
        → HasRun t after (finish_or_wait now q) p'
        → (finish_or_wait now q).left_fragments ≡ q.left_fragments
        → p'.buffer ≡ t
        → (after ≡ []) ⊎ (1 ≤ counted after)
        → HasArrived t p' ⊎ (1 ≤ p'.waiting)
    state q p' h run k left whole (inl none_left) =
        let same : finish_or_wait now q ≡ p' =
          some-injective _ p' (
            ap (λ (es : List Event). run_events es (finish_or_wait now q)) (sym none_left) ∙ run) in
        inl (
          subst (HasArrived t) same (
            finished now t q e
              (sym (finish_fields now q).0 ∙ ap (λ (x : Peer). x.buffer) same ∙ whole)
              (omega (arith, h.left, ap counted none_left))))
    state q p' h run k left whole (inr more_left) =
        inr (omega (arith, k.waits, finish_waits now q (omega (arith, h.left))))
