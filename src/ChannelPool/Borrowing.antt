-- ===== src/ChannelPool/Borrowing.antt =====
-- A borrower that runs alone gets a channel if one is free.
use libre_connect.Base.{
  ℕ, zero, suc, ◌+◌, ◌≤◌, ◌<◌, ◌≡◌, refl, ap, ◌∙◌, true, false, List, [], ◌∷◌, length, lt→ltb, some,
  arith, ◌⊎◌, inl, inr, Bool-cases, Option-cases, subst,
}
use libre_connect.Transfer.Channel.{ConnectionState, is_connected}
use libre_connect.ChannelPool.{
  Pool, get_elem?, contains, Task, round, scan, reserve, recheck, borrowed, borrow, examine,
  is_free, is_reserved, get, try_reserve, reserved_or_next,
}

-- That many steps of one borrower, in which nothing else happens.
abbrev pub alone : ConnectionState → ℕ → Task × Pool → Task × Pool
alone primary zero x = x
alone primary (suc n) x = alone primary n (borrow primary x.0 x.1)

-- An index that the `for` of a borrower takes.
pub record IsAvailable (p : Pool) (i channel : ℕ) : Type 0 where
  pub there : get_elem? p.channels i ≡ some channel
  pub unreserved : contains p.reserved i ≡ false
  pub free : is_free (p.status channel) ≡ true

abbrev pub with_reserved : ℕ → Pool → Pool
with_reserved i p = record p { reserved = i ∷ p.reserved }

alone_borrowed :
    (primary : ConnectionState) (n i c : ℕ) (p : Pool)
    → alone primary n (borrowed i c, p) ≡ (borrowed i c, p)
unfolding borrow
alone_borrowed primary zero i c p = refl
alone_borrowed primary (suc n) i c p = alone_borrowed primary n i c p

scan_taken :
    (primary : ConnectionState) (i n c : ℕ) (p : Pool)
    → i < n
    → IsAvailable p i c
    → borrow primary (scan i n) p ≡ (reserve i n c, p)
unfolding borrow examine is_reserved get
scan_taken primary i n c p l a = rw (lt→ltb i n l) (rw a.unreserved (rw a.there (rw a.free refl)))

reserve_taken :
    (primary : ConnectionState) (i n c : ℕ) (p : Pool)
    → IsAvailable p i c
    → borrow primary (reserve i n c) p ≡ (recheck i n c, with_reserved i p)
unfolding borrow try_reserve reserved_or_next
reserve_taken primary i n c p a = rw a.unreserved refl

recheck_taken :
    (primary : ConnectionState) (i n c : ℕ) (p : Pool)
    → is_free (p.status c) ≡ true
    → borrow primary (recheck i n c) p ≡ (borrowed i c, p)
unfolding borrow
recheck_taken primary i n c p f = rw f refl

-- At an index the `for` goes on to the next one, or the index is available.
scan_cases :
    (primary : ConnectionState) (i n : ℕ) (p : Pool)
    → i < n
    → (borrow primary (scan i n) p ≡ (scan (i + 1) n, p)) ⊎ ((c : ℕ) × IsAvailable p i c)
unfolding borrow examine is_reserved get
scan_cases primary i n p l = elim (Bool-cases (contains p.reserved i)) [
  | inl taken ↦ inl (rw (lt→ltb i n l) (rw taken refl))
  | inr open_ ↦ elim (Option-cases (get_elem? p.channels i)) [
    | inl missing ↦ inl (rw (lt→ltb i n l) (rw open_ (rw missing refl)))
    | inr (c, there) ↦ elim (Bool-cases (is_free (p.status c))) [
      | inl free ↦ inr (c, record { there = there; unreserved = open_; free = free })
      | inr used ↦ inl (rw (lt→ltb i n l) (rw open_ (rw there (rw used refl))))
    ]
  ]
]

abbrev Gets : ConnectionState → ℕ → Task → Pool → ℕ → Type 0
Gets primary fuel t p last =
    (i c : ℕ) × (alone primary fuel (t, p) ≡ (borrowed i c, with_reserved i p))
    × IsAvailable p i c
    × (i ≤ last)

available-Gets :
    (primary : ConnectionState) (fuel n i c : ℕ) (p : Pool)
    → 3 ≤ fuel
    → i < n
    → IsAvailable p i c
    → alone primary fuel (scan i n, p) ≡ (borrowed i c, with_reserved i p)
available-Gets primary (suc (suc (suc fuel))) n i c p f l a =
    ap (λ x. alone primary (suc (suc fuel)) x) (scan_taken primary i n c p l a)
    ∙ ap (λ x. alone primary (suc fuel) x) (reserve_taken primary i n c p a)
    ∙ ap (λ x. alone primary fuel x) (recheck_taken primary i n c (with_reserved i p) a.free)
    ∙ alone_borrowed primary fuel i c (with_reserved i p)
available-Gets primary (suc (suc zero)) n i c p f l a = absurd (omega arith)
available-Gets primary (suc zero) n i c p f l a = absurd (omega arith)
available-Gets primary zero n i c p f l a = absurd (omega arith)

scan-Gets :
    (primary : ConnectionState) (d k fuel n i c : ℕ) (p : Pool)
    → k + d ≡ i
    → d + 3 ≤ fuel
    → i < n
    → IsAvailable p i c
    → Gets primary fuel (scan k n) p i
scan-Gets primary zero k fuel n i c p e f l a =
    let here : IsAvailable p k c = subst (λ j. IsAvailable p j c) (omega (arith, e)) a in
    (k, c, available-Gets primary fuel n k c p f (omega arith) here, here, omega arith)
scan-Gets primary (suc d) k zero n i c p e f l a = absurd (omega arith)
scan-Gets primary (suc d) k (suc fuel) n i c p e f l a =
    elim (scan_cases primary k n p (omega arith)) [
      | inl next ↦
          let (j, c', run, ready, le) =
            scan-Gets primary d (k + 1) fuel n i c p (omega arith) (omega arith) l a in
          (j, c', ap (λ x. alone primary fuel x) next ∙ run, ready, le)
      | inr (c', ready) ↦ (
        k,
        c',
        available-Gets primary (suc fuel) n k c' p (omega arith) (omega arith) ready,
        ready,
        omega arith,
      )
    ]

get_elem?-lt : (xs : List ℕ) (i c : ℕ) → get_elem? xs i ≡ some c → i < length xs
get_elem?-lt [] i c h = cc
get_elem?-lt (x ∷ xs) zero c h = omega arith
get_elem?-lt (x ∷ xs) (suc i) c h = omega (arith, get_elem?-lt xs i c h)

begin_round :
    (primary : ConnectionState) (p : Pool)
    → is_connected primary ≡ true
    → is_connected p.connection_state ≡ true
    → borrow primary round p ≡ (scan 0 (length p.channels), p)
unfolding borrow
begin_round primary p h k = rw h (rw k refl)

-- While the primary connection and the pool are connected, a borrower that runs alone gets a channel
-- if one is free: within four steps more than the index of a free one, whichever that is, it has
-- returned with a channel that is connected, unused and was not reserved, at that index or a lower
-- one, and has reserved this index and nothing else.
pub borrow_alone :
    (primary : ConnectionState) (p : Pool) (i channel : ℕ)
    → is_connected primary ≡ true
    → is_connected p.connection_state ≡ true
    → IsAvailable p i channel
    → (j got : ℕ) × (alone primary (i + 4) (round, p) ≡ (borrowed j got, with_reserved j p))
      × IsAvailable p j got
      × (j ≤ i)
borrow_alone primary p i c h k a =
    let n : ℕ = length p.channels in
    let (j, got, run, ready, le) =
      scan-Gets primary i 0 (i + 3) n i c p (omega arith) (omega arith)
        (get_elem?-lt p.channels i c a.there) a in
    let four : i + 4 ≡ suc (i + 3) = omega arith in
    (
      j,
      got,
      rw four (ap (λ x. alone primary (i + 3) x) (begin_round primary p h k) ∙ run),
      ready,
      le,
    )
