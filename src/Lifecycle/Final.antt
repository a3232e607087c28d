-- ===== src/Lifecycle/Final.antt =====
-- What is left running when a module is shut down does not bring it back.
use libre_connect.Base.{
  ℕ, ◌+◌, ◌^◌, ◌<◌, ◌≡◌, refl, ap, Bool, true, false, not, ◌||◌, ◌&&◌, List, [], ◌∷◌, ◌++◌, ◌==◌,
  if◌then◌else◌, arith, All, All-append, All-split, subst, ne→==,
}
use libre_connect.Lifecycle.{
  ModuleState, uninitialized, disabling, Module, Task, Hook, in_initialize, start_enable,
  enable_initialized, in_enable, start_disable, in_disable, start_shutdown, in_shutdown_disable,
  in_shutdown, is_uninitialized, is_enabling, is_enabled, is_disabling, shutdown, resume,
  enable_completed, disable_awaitable, disable_completed, shutdown_awaitable, spawn, call_hook,
  process_error, Steps, set_module_state, internal_error, next_generation, new_module, on_disable,
  on_shutdown,
}
use libre_connect.Lifecycle.Drain.{Resumes, rest, more}
use libre_connect.Lifecycle.Known.{
  count, IsKnown, Known, next_generation_lem, steps-IsKnown, new-IsKnown,
}

-- A task that does nothing to the state of a module that is shut down in that generation.
abbrev pub quiet : ℕ → Task → Bool
quiet generation (in_initialize g) = not (generation == g)
quiet generation start_enable = false
quiet generation enable_initialized = false
quiet generation _ = true

-- A request to enable that has not come to `OnEnable` yet.
abbrev pub will_enable : Task → Bool
will_enable start_enable = true
will_enable enable_initialized = true
will_enable _ = false

abbrev AllQuiet : ℕ → List Task → Type 0
AllQuiet generation = All (λ t. quiet generation t ≡ true)

record IsShutDown (m : Module) : Type 0 where
  off : m.state ≡ uninitialized
  silent : m.callbacks ≡ false
  quieted : AllQuiet m.lifecycle_generation m.tasks

if-IsShutDown :
    (g : Bool) (x y : Module) → g ≡ false → IsShutDown y → IsShutDown (if g then x else y)
if-IsShutDown true x y h k = cc
if-IsShutDown false x y h k = k

either-IsShutDown :
    (g : Bool) (x y : Module) → IsShutDown x → IsShutDown y → IsShutDown (if g then x else y)
either-IsShutDown true x y h k = h
either-IsShutDown false x y h k = k

spawn-IsShutDown :
    (h : Hook) (t : Task) (m : Module)
    → quiet m.lifecycle_generation t ≡ true
    → IsShutDown m
    → IsShutDown (spawn t (call_hook h m))
spawn-IsShutDown h t m q s = record {
  off = s.off;
  silent = s.silent;
  quieted =
      All-append (λ t. quiet m.lifecycle_generation t ≡ true) m.tasks (t ∷ []) s.quieted (q, tt);
}

error-IsShutDown : (m : Module) → IsShutDown m → IsShutDown (process_error internal_error m)
error-IsShutDown m s = record { off = s.off; silent = s.silent; quieted = s.quieted }

not-true : (b : Bool) → not b ≡ true → b ≡ false
not-true true h = cc
not-true false h = refl

resume-IsShutDown :
    (t : Task) (returned : Bool) (m : Module)
    → quiet m.lifecycle_generation t ≡ true
    → IsShutDown m
    → IsShutDown (resume t returned m)
unfolding resume enable_completed disable_awaitable disable_completed shutdown_awaitable
resume-IsShutDown (in_initialize generation) false m q s = s
resume-IsShutDown (in_initialize generation) true m q s =
    if-IsShutDown (m.lifecycle_generation == generation) _ m (not-true _ q) s
resume-IsShutDown start_enable returned m q s = cc
resume-IsShutDown enable_initialized returned m q s = cc
resume-IsShutDown in_enable true m q s =
    if-IsShutDown (is_enabling m.state) _ m (ap is_enabling s.off) s
resume-IsShutDown in_enable false m q s =
    error-IsShutDown _ (if-IsShutDown (is_enabling m.state) _ m (ap is_enabling s.off) s)
resume-IsShutDown start_disable returned m q s =
    either_guard (not (is_enabled m.state) && not (is_enabling m.state))
      (ap (λ (k : ModuleState). not (is_enabled k) && not (is_enabling k)) s.off)
  where
    either_guard :
        (g : Bool)
        → g ≡ true
        → IsShutDown (
            if g then m else spawn in_disable (call_hook on_disable (set_module_state disabling m)))
    either_guard true h = s
    either_guard false h = cc
resume-IsShutDown in_disable true m q s =
    if-IsShutDown (is_disabling m.state) _ m (ap is_disabling s.off) s
resume-IsShutDown in_disable false m q s =
    error-IsShutDown _ (if-IsShutDown (is_disabling m.state) _ m (ap is_disabling s.off) s)
resume-IsShutDown (start_shutdown k generation) returned m q s =
    either-IsShutDown (is_enabled k || is_enabling k) _ _
      (spawn-IsShutDown on_disable (in_shutdown_disable generation) m refl s)
      (spawn-IsShutDown on_shutdown (in_shutdown generation) m refl s)
resume-IsShutDown (in_shutdown_disable generation) returned m q s =
    spawn-IsShutDown on_shutdown (in_shutdown generation) m refl s
resume-IsShutDown (in_shutdown generation) returned m q s = s

Resumes-IsShutDown : (m m' : Module) (n : ℕ) → Resumes m n m' → IsShutDown m → IsShutDown m'
Resumes-IsShutDown m _ _ rest s = s
Resumes-IsShutDown m _ _ (more {n} {m'} r before behind t returned e) s =
    let s' = Resumes-IsShutDown m m' n r s in
    let (q, qs) =
      All-split (λ t. quiet m'.lifecycle_generation t ≡ true) before t behind
        (subst (AllQuiet m'.lifecycle_generation) e s'.quieted) in
    resume-IsShutDown t returned (record m' { tasks = before ++ behind }) q
      (record { off = s'.off; silent = s'.silent; quieted = qs })

Known-quiet : (a b : ℕ) (t : Task) → a < b → Known a t → will_enable t ≡ false → quiet b t ≡ true
Known-quiet a b (in_initialize g) h k w = ap not (ne→== b g (omega arith))
Known-quiet a b start_enable h k w = cc
Known-quiet a b enable_initialized h k w = cc
Known-quiet a b in_enable h k w = refl
Known-quiet a b start_disable h k w = refl
Known-quiet a b in_disable h k w = refl
Known-quiet a b (start_shutdown s g) h k w = refl
Known-quiet a b (in_shutdown_disable g) h k w = refl
Known-quiet a b (in_shutdown g) h k w = refl

All-Known-quiet :
    (a b : ℕ) (ts : List Task)
    → a < b
    → All (Known a) ts
    → All (λ t. will_enable t ≡ false) ts
    → AllQuiet b ts
All-Known-quiet a b [] h k w = tt
All-Known-quiet a b (t ∷ ts) h k w = (Known-quiet a b t h k.0 w.0, All-Known-quiet a b ts h k.1 w.1)

shutdown-IsShutDown :
    (m : Module) (n : ℕ)
    → IsKnown m n
    → n + 1 < 2 ^ 64
    → is_uninitialized m.state ≡ false
    → All (λ t. will_enable t ≡ false) m.tasks
    → IsShutDown (shutdown m)
unfolding shutdown
shutdown-IsShutDown m n k h u w = if-IsShutDown (is_uninitialized m.state) m _ u (record {
  off = refl;
  silent = refl;
  quieted =
      All-append (λ t. quiet (next_generation m) t ≡ true) m.tasks
        (start_shutdown m.state (next_generation m) ∷ [])
        (All-Known-quiet m.lifecycle_generation (next_generation m) m.tasks
          (omega (arith, next_generation_lem m n k h)) k.all_known w)
        (refl, tt);
})

-- In every history of fewer than 2^64 - 1 steps, where a test of the state and the store behind it are
-- one step: when a module that is initialized is shut down while no request to enable it is queued, then
-- when no further call is made, however its remaining tasks go on, and whether their hooks
-- return or throw, it stays uninitialized and without response callbacks. The completions of an older
-- `Initialize`, `Enable` or `Disable` do not bring it back.
pub shutdown-final :
    (m m' : Module) (s : Steps new_module m) (n : ℕ)
    → count s + 1 < 2 ^ 64
    → is_uninitialized m.state ≡ false
    → All (λ t. will_enable t ≡ false) m.tasks
    → Resumes (shutdown m) n m'
    → (m'.state ≡ uninitialized) × (m'.callbacks ≡ false)
shutdown-final m m' s n h u w r =
    let d = Resumes-IsShutDown (shutdown m) m' n r (
      shutdown-IsShutDown m (count s) (steps-IsKnown new_module m s (omega arith) new-IsKnown) h u
        w) in
    (d.off, d.silent)
