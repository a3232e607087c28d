-- ===== src/Clipboard/Events.antt =====
-- The handlers of fragments on several threads.
use libre_connect.Base.{
  ℕ, ◌+◌, ◌^◌, ◌≤◌, ◌<◌, ◌≡◌, refl, ap, ◌∙◌, Bool, true, false, ◌||◌, List, [], ◌∷◌, length, Option,
  some, arith, le→ltb, All, Bool-cases, get_elem?, inl, inr,
}
use libre_connect.Wire.Buffer.{write_at, length-write_at}
use libre_connect.Wire.Text.{Text}
use libre_connect.Clipboard.{
  Peer, Event, counts, copies, run_events, and_then, copied, counted, count_fragment, copy_fragment,
}
use libre_connect.Clipboard.Positions.{IsPiece, Agrees, is_within, write_at-Agrees, write_at-other}
use libre_connect.Clipboard.Fragments.{IsFragment, covers}

-- What a run of handlers leaves.
pub record HasRun (t : Text) (es : List Event) (p p' : Peer) : Type 0 where
  pub size : length p'.buffer ≡ length t
  pub left : p'.left_fragments + counted es ≡ p.left_fragments
  pub waits : p'.waiting ≡ p.waiting
  -- every byte that was copied is right, and every one that was right still is
  pub agrees :
      (i : ℕ)
      → ((covers i (copied es) ≡ true → Agrees t p'.buffer i)
          × (Agrees t p.buffer i → Agrees t p'.buffer i))
  -- and every other byte is as it was
  pub others : (i : ℕ) → covers i (copied es) ≡ false → get_elem? p'.buffer i ≡ get_elem? p.buffer i

copy_fragment_lem :
    (t : Text) (offset : ℕ) (fragment : Text) (p : Peer)
    → length p.buffer ≡ length t
    → IsPiece t offset fragment
    → copy_fragment offset fragment p
      ≡ some (record p { buffer = write_at p.buffer offset fragment })
unfolding copy_fragment
copy_fragment_lem t offset fragment p l f =
    rw (le→ltb (length p.buffer) (offset + length fragment) (omega (arith, f.inside))) refl

or_left_false : (a b : Bool) → a ≡ false → (a || b) ≡ true → b ≡ true
or_left_false true b h k = cc
or_left_false false b h k = k

or_false_left : (a b : Bool) → (a || b) ≡ false → a ≡ false
or_false_left true b h = h
or_false_left false b h = refl

or_false_right : (a b : Bool) → (a || b) ≡ false → b ≡ false
or_false_right true b h = cc
or_false_right false b h = h

-- Whatever the order in which pieces of the text are counted and copied, no copy goes over the end of
-- the buffer.
pub run_events-HasRun :
    (t : Text) (es : List Event) (p : Peer)
    → length p.buffer ≡ length t
    → All (IsFragment t) (copied es)
    → counted es ≤ p.left_fragments
    → p.left_fragments < 2 ^ 64
    → (p' : Peer) × (run_events es p ≡ some p') × HasRun t es p p'
unfolding count_fragment
run_events-HasRun t [] p l f c b = (
  p,
  refl,
  record {
    size = l;
    left = omega arith;
    waits = refl;
    agrees = λ i. (λ h. cc, λ a. a);
    others = λ i h. refl;
  },
)
run_events-HasRun t (counts ∷ es) p l f c b =
    let (p', e, r) = run_events-HasRun t es (count_fragment p) l f (omega arith) (omega arith) in
    (
      p',
      e,
      record {
        size = r.size;
        left = omega (arith, r.left, c, b);
        waits = r.waits;
        agrees = r.agrees;
        others = r.others;
      },
    )
run_events-HasRun t (copies offset fragment ∷ es) p l f c b =
    let q : Peer = record p { buffer = write_at p.buffer offset fragment } in
    let fits : offset + length fragment ≤ length p.buffer = omega (arith, f.0.inside, l) in
    let (p', e, r) =
      run_events-HasRun t es q (length-write_at p.buffer offset fragment fits ∙ l) f.1 c b in
    (
      p',
      ap (λ (o : Option Peer). and_then o (run_events es))
            (copy_fragment_lem t offset fragment p l f.0)
          ∙ e,
      record {
        size = r.size;
        left = r.left;
        waits = r.waits;
        agrees = λ i.
            let (here, kept) = write_at-Agrees t p.buffer offset fragment f.0 l i in
            (
              λ h. elim (Bool-cases (is_within i offset fragment)) [
                | inl w ↦ (r.agrees i).1 (here w)
                | inr n ↦ (r.agrees i).0 (or_left_false _ _ n h)
              ],
              λ a. (r.agrees i).1 (kept a),
            );
        others = λ i h.
            r.others i (or_false_right _ _ h)
            ∙ write_at-other p.buffer offset fragment i fits (or_false_left _ _ h);
      },
    )
