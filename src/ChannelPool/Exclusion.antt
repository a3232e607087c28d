-- ===== src/ChannelPool/Exclusion.antt =====
-- Between two resets a channel has one borrower at most, whatever the borrowers and the channels do.
use libre_connect.Base.{
  ℕ, zero, suc, ◌+◌, ◌-◌, ◌≤◌, ◌≡◌, refl, ap, subst, ◌∙◌, Bool, true, false, not, ◌||◌, ◌&&◌, List,
  [], ◌∷◌, ◌++◌, ltb, ◌==◌, if◌then◌else◌, Option, none, some, arith, All, All-append, All-split,
  All-insert, inl, inr, Bool-cases, le_or_lt, ◌<◌,
}
use libre_connect.Transfer.Channel.{ConnectionState, is_connected}
use libre_connect.ChannelPool.{
  Status, Pool, get_elem?, contains, erase, count_from, reset, try_reserve, release, Task, round,
  scan, reserve, recheck, borrowed, thrown, borrow, examine, reserved_or_next, is_free, is_reserved,
  get,
}

-- The pool and the coroutines that are inside of `BorrowTransferChannel` or hold what it returned.
pub record System : Type 0 where
  pub pool : Pool
  pub tasks : List Task

pub data Step (s : System) : System → Type 0 where
  step_call : Step s (record s { tasks = s.tasks ++ (round ∷ []) })
  step_borrow :
      (primary : ConnectionState) (before behind : List Task) (t : Task)
      → s.tasks ≡ before ++ (t ∷ behind)
      → Step s (record {
        pool = (borrow primary t s.pool).1;
        tasks = before ++ ((borrow primary t s.pool).0 ∷ behind);
      })
  -- The guard of a borrower is destroyed.
  step_give_back :
      (i channel : ℕ) (before behind : List Task)
      → s.tasks ≡ before ++ (borrowed i channel ∷ behind)
      → Step s (record { pool = release i s.pool; tasks = before ++ behind })
  -- The channels, and what connects them.
  step_channels :
      (status : ℕ → Status) (state : ConnectionState) (waiting : Bool)
      → Step s (record s {
        pool = record s.pool {
          status = status;
          connection_state = state;
          waiting_for_connections = waiting;
        };
      })

pub data Steps (s : System) : System → Type 0 where
  stay : Steps s s
  go : {s' s'' : System} → Steps s s' → Step s' s'' → Steps s s''

-- The guards of an index that a task has.
abbrev held_by : ℕ → Task → ℕ
held_by i (recheck j count channel) = if j == i then 1 else 0
held_by i (borrowed j channel) = if j == i then 1 else 0
held_by i _ = 0

abbrev held : ℕ → List Task → ℕ
held i [] = 0
held i (t ∷ ts) = held_by i t + held i ts

-- The borrowers that have returned with a channel.
abbrev pub uses : ℕ → Task → ℕ
uses c (borrowed i channel) = if channel == c then 1 else 0
uses c _ = 0

abbrev pub users : ℕ → List Task → ℕ
users c [] = 0
users c (t ∷ ts) = uses c t + users c ts

abbrev marked : List ℕ → ℕ → ℕ
marked reserved i = if contains reserved i then 1 else 0

abbrev Fits : List ℕ → Task → Type 0
Fits channels (reserve i count channel) = get_elem? channels i ≡ some channel
Fits channels (recheck i count channel) = get_elem? channels i ≡ some channel
Fits channels (borrowed i channel) = get_elem? channels i ≡ some channel
Fits channels _ = Unit {0}

record IsExclusive (s : System) : Type 0 where
  once : (i : ℕ) → held i s.tasks ≡ marked s.pool.reserved i
  fits : All (Fits s.pool.channels) s.tasks

held-append : (i : ℕ) (xs ys : List Task) → held i (xs ++ ys) ≡ held i xs + held i ys
held-append i [] ys = omega arith
held-append i (x ∷ xs) ys = omega (arith, held-append i xs ys)

contains-erase : (xs : List ℕ) (i j : ℕ) → contains (erase xs i) j ≡ (contains xs j && not (i == j))
contains-erase [] i j = refl
contains-erase (x ∷ xs) i j = ground (arith, contains-erase xs i j)

examine-held : (i j n : ℕ) (o : Option ℕ) (p : Pool) → held_by i (examine j n o p) ≡ 0
unfolding examine
examine-held i j n none p = refl
examine-held i j n (some c) p = ground arith

-- A step of a borrower changes its guards as it changes the reserved indices.
borrow-held :
    (primary : ConnectionState) (t : Task) (p : Pool) (i : ℕ)
    → held_by i t ≤ marked p.reserved i
    → held_by i (borrow primary t p).0 + marked p.reserved i
      ≡ held_by i t + marked (borrow primary t p).1.reserved i
unfolding borrow try_reserve reserved_or_next release
borrow-held primary round p i h = ground arith
borrow-held primary (scan j n) p i h = ground (arith, examine-held i j n (get j p) p)
borrow-held primary (reserve j n c) p i h = ground arith
borrow-held primary (recheck j n c) p i h = ground (arith, contains-erase p.reserved j i)
borrow-held primary (borrowed j c) p i h = refl
borrow-held primary thrown p i h = refl

examine-Fits :
    (j n : ℕ) (o : Option ℕ) (p : Pool)
    → get_elem? p.channels j ≡ o
    → Fits p.channels (examine j n o p)
unfolding examine
examine-Fits j n none p h = tt
examine-Fits j n (some c) p h = elim (Bool-cases (is_free (p.status c))) [
  | inl free ↦ rw free h
  | inr used ↦ rw used tt
]

Fits-if :
    (b : Bool) (cs : List ℕ) (t u : Task × Pool)
    → Fits cs t.0
    → Fits cs u.0
    → Fits cs (if b then t else u).0
Fits-if true cs t u h k = h
Fits-if false cs t u h k = k

borrow-Fits :
    (primary : ConnectionState) (t : Task) (p : Pool)
    → Fits p.channels t
    → Fits p.channels (borrow primary t p).0
unfolding borrow try_reserve reserved_or_next release get
borrow-Fits primary round p h =
    Fits-if (not (is_connected primary) || not (is_connected p.connection_state)) _ _ _ tt tt
borrow-Fits primary (scan j n) p h =
    Fits-if (not (ltb j n)) _ _ _ tt
      (Fits-if (is_reserved j p) _ _ _ tt (examine-Fits j n (get_elem? p.channels j) p refl))
borrow-Fits primary (reserve j n c) p h = elim (Bool-cases (contains p.reserved j)) [
  | inl taken ↦ rw taken tt
  | inr free ↦ rw free h
]
borrow-Fits primary (recheck j n c) p h = Fits-if (is_free (p.status c)) _ _ _ h tt
borrow-Fits primary (borrowed j c) p h = h
borrow-Fits primary thrown p h = tt

borrow-channels :
    (primary : ConnectionState) (t : Task) (p : Pool) → (borrow primary t p).1.channels ≡ p.channels
unfolding borrow try_reserve reserved_or_next release
borrow-channels primary round p = ground arith
borrow-channels primary (scan j n) p = ground arith
borrow-channels primary (reserve j n c) p = ground arith
borrow-channels primary (recheck j n c) p = ground arith
borrow-channels primary (borrowed j c) p = refl
borrow-channels primary thrown p = refl

release-channels : (i : ℕ) (p : Pool) → (release i p).channels ≡ p.channels
unfolding release
release-channels i p = refl

give_back_once :
    (i j c : ℕ) (p : Pool) {n : ℕ}
    → n + held_by i (borrowed j c) ≡ marked p.reserved i
    → n ≡ marked (release j p).reserved i
unfolding release
give_back_once i j c p h = ground (arith, contains-erase p.reserved j i)

marked-le : (xs : List ℕ) (i : ℕ) {n : ℕ} → n ≤ marked xs i → n ≤ 1
marked-le xs i h = ground arith

Step-IsExclusive : (s s' : System) → Step s s' → IsExclusive s → IsExclusive s'
Step-IsExclusive s s' step_call x = record {
  once = λ i. omega (arith, held-append i s.tasks (round ∷ []), x.once i);
  fits = All-append (Fits s.pool.channels) s.tasks (round ∷ []) x.fits (tt, tt);
}
Step-IsExclusive s s' (step_borrow primary before behind t e) x =
    let (mine, others) =
      All-split (Fits s.pool.channels) before t behind
        (subst (All (Fits s.pool.channels)) e x.fits) in
    record {
      once = λ i.
          let old = held-append i before (t ∷ behind) in
          let new = held-append i before ((borrow primary t s.pool).0 ∷ behind) in
          let all = ap (held i) e in
          let step = borrow-held primary t s.pool i (omega (arith, old, all, x.once i)) in
          omega (arith, old, new, all, x.once i, step);
      fits = rw (borrow-channels primary t s.pool) (
          All-insert (Fits s.pool.channels) before (borrow primary t s.pool).0 behind
            (borrow-Fits primary t s.pool mine) others);
    }
Step-IsExclusive s s' (step_give_back j c before behind e) x =
    let (mine, others) =
      All-split (Fits s.pool.channels) before (borrowed j c) behind
        (subst (All (Fits s.pool.channels)) e x.fits) in
    record {
      once = λ i. give_back_once i j c s.pool (
          omega (
            arith,
            held-append i before behind,
            held-append i before (borrowed j c ∷ behind),
            ap (held i) e,
            x.once i,
          ));
      fits = rw (release-channels j s.pool) others;
    }
Step-IsExclusive s s' (step_channels status state waiting) x = record {
  once = x.once;
  fits = x.fits;
}

Steps-IsExclusive : (s s' : System) → Steps s s' → IsExclusive s → IsExclusive s'
Steps-IsExclusive s s' stay x = x
Steps-IsExclusive s s'' (go {s'} r st) x = Step-IsExclusive s' s'' st (Steps-IsExclusive s s' r x)

count_from_lem : (m n i c : ℕ) → get_elem? (count_from m n) i ≡ some c → c ≡ m + i
count_from_lem m zero i c h = cc
count_from_lem m (suc n) zero c h = ground arith
count_from_lem m (suc n) (suc i) c h = omega (arith, count_from_lem (m + 1) n i c h)

-- The users of a channel of which the index is known hold its index.
users-le :
    (m n i c : ℕ) (ts : List Task)
    → c ≡ m + i
    → All (Fits (count_from m n)) ts
    → users c ts ≤ held i ts
users-le m n i c [] e h = omega arith
users-le m n i c (borrowed j d ∷ ts) e h =
    ground (arith, count_from_lem m n j d h.0, users-le m n i c ts e h.1)
users-le m n i c (t ∷ ts) e h = omega (arith, users-le m n i c ts e h.1)

users_below : (m n c : ℕ) (ts : List Task) → c < m → All (Fits (count_from m n)) ts → users c ts ≡ 0
users_below m n c [] l h = refl
users_below m n c (borrowed j d ∷ ts) l h =
    ground (arith, count_from_lem m n j d h.0, users_below m n c ts l h.1)
users_below m n c (t ∷ ts) l h = omega (arith, users_below m n c ts l h.1)

channels_stay : (s s' : System) → Steps s s' → s'.pool.channels ≡ s.pool.channels
channels_stay s s' stay = refl
channels_stay s s'' (go {s'} r step_call) = channels_stay s s' r
channels_stay s s'' (go {s'} r (step_borrow primary before behind t e)) =
    borrow-channels primary t s'.pool ∙ channels_stay s s' r
channels_stay s s'' (go {s'} r (step_give_back j c before behind e)) =
    release-channels j s'.pool ∙ channels_stay s s' r
channels_stay s s'' (go {s'} r (step_channels status state waiting)) = channels_stay s s' r

-- From a reset with no borrower from before it and up to the next one: after any calls of
-- `BorrowTransferChannel`, steps of these in any order, releases of their guards and changes of the
-- channels, a channel has been handed to one borrower at most of those that have not given it back.
pub Steps-exclusive :
    (p : Pool) (s : System) (c : ℕ)
    → Steps (record { pool = reset p; tasks = [] }) s
    → users c s.tasks ≤ 1
unfolding reset
Steps-exclusive p s c r =
    let s₀ : System = record { pool = reset p; tasks = [] } in
    let x = Steps-IsExclusive s₀ s r (record { once = λ i. refl; fits = tt }) in
    let fits : All (Fits (count_from p.made p.count)) s.tasks =
      subst (λ cs. All (Fits cs) s.tasks) (channels_stay s₀ s r) x.fits in
    elim (le_or_lt p.made c) [
      | inl above ↦ marked-le s.pool.reserved (c - p.made) (
          omega (
            arith,
            users-le p.made p.count (c - p.made) c s.tasks (omega arith) fits,
            x.once (c - p.made),
          ))
      | inr below ↦ omega (arith, users_below p.made p.count c s.tasks below fits)
    ]
