-- ===== src/Lifecycle/Known.antt =====
-- The generations that tasks carry: what every history of a module keeps.
use libre_connect.Base.{
  ℕ, suc, ◌+◌, ◌^◌, ◌≤◌, ◌<◌, ◌≡◌, refl, sym, Bool, true, false, not, ◌||◌, ◌&&◌, List, [], ◌∷◌,
  ◌++◌, ◌==◌, if◌then◌else◌, arith, All, All-append, All-split, subst,
}
use libre_connect.Lifecycle.{
  enabled, disabled, Module, Task, in_initialize, start_enable, enable_initialized, in_enable,
  start_disable, in_disable, start_shutdown, in_shutdown_disable, in_shutdown, is_uninitialized,
  is_enabling, is_enabled, is_disabling, is_disabled, initialize, enable, disable, shutdown, resume,
  enable_awaitable, enable_completed, disable_awaitable, disable_completed, shutdown_awaitable,
  Step, spawn, step_initialize, step_enable, step_disable, step_shutdown, step_resume, Steps, stay,
  go, set_module_state, next_generation, new_module,
}

-- The generations that calls of `Initialize` wait with are not newer than the module's.
abbrev pub Known : ℕ → Task → Type 0
Known generation (in_initialize g) = g ≤ generation
Known generation _ = Unit

Known-later : (a b : ℕ) (t : Task) → a ≤ b → Known a t → Known b t
Known-later a b (in_initialize g) h k = omega arith
Known-later a b start_enable h k = tt
Known-later a b enable_initialized h k = tt
Known-later a b in_enable h k = tt
Known-later a b start_disable h k = tt
Known-later a b in_disable h k = tt
Known-later a b (start_shutdown s g) h k = tt
Known-later a b (in_shutdown_disable g) h k = tt
Known-later a b (in_shutdown g) h k = tt

All-Known_later : (a b : ℕ) (ts : List Task) → a ≤ b → All (Known a) ts → All (Known b) ts
All-Known_later a b [] h k = tt
All-Known_later a b (t ∷ ts) h k = (Known-later a b t h k.0, All-Known_later a b ts h k.1)

-- The steps of a run.
abbrev pub count : {m m' : Module} → Steps m m' → ℕ
count stay = 0
count (go s _) = suc (count s)

pub record IsKnown (m : Module) (n : ℕ) : Type 0 where
  pub few : m.lifecycle_generation ≤ n
  pub all_known : All (Known m.lifecycle_generation) m.tasks

either-IsKnown :
    (g : Bool) (x y : Module) (n : ℕ) → IsKnown x n → IsKnown y n → IsKnown (if g then x else y) n
either-IsKnown true x y n h k = h
either-IsKnown false x y n h k = k

spawn-IsKnown :
    (t : Task) (m : Module) (n : ℕ)
    → Known m.lifecycle_generation t
    → IsKnown m n
    → IsKnown (spawn t m) n
spawn-IsKnown t m n h k = record {
  few = k.few;
  all_known = All-append (Known m.lifecycle_generation) m.tasks (t ∷ []) k.all_known (h, tt);
}

-- Only the tasks and the generation matter.
same-IsKnown :
    (m m' : Module) (n : ℕ)
    → m.lifecycle_generation ≡ m'.lifecycle_generation
    → m.tasks ≡ m'.tasks
    → IsKnown m n
    → IsKnown m' n
same-IsKnown m m' n g e k = record {
  few = omega (arith, k.few);
  all_known =
      subst (All (Known m'.lifecycle_generation)) e
        (subst (λ (i : ℕ). All (Known i) m.tasks) g k.all_known);
}

resume-IsKnown :
    (t : Task) (returned : Bool) (m : Module) (n : ℕ)
    → IsKnown m n
    → IsKnown (resume t returned m) n
unfolding resume enable_awaitable enable_completed disable_awaitable disable_completed
    shutdown_awaitable
resume-IsKnown (in_initialize generation) false m n k = k
resume-IsKnown (in_initialize generation) true m n k =
    either-IsKnown (m.lifecycle_generation == generation) _ m n
      (same-IsKnown m (set_module_state disabled m) n refl refl k) k
resume-IsKnown start_enable returned m n k =
    either-IsKnown (is_uninitialized m.state) _ _ n
      (spawn-IsKnown enable_initialized _ n tt (same-IsKnown m _ n refl refl k))
      (either-IsKnown (is_disabled m.state) _ m n
        (spawn-IsKnown in_enable _ n tt (same-IsKnown m _ n refl refl k)) k)
resume-IsKnown enable_initialized false m n k = k
resume-IsKnown enable_initialized true m n k =
    spawn-IsKnown in_enable _ n tt (same-IsKnown m _ n refl refl k)
resume-IsKnown in_enable true m n k =
    either-IsKnown (is_enabling m.state) _ m n
      (same-IsKnown m (set_module_state enabled m) n refl refl k) k
resume-IsKnown in_enable false m n k =
    same-IsKnown (if is_enabling m.state then set_module_state disabled m else m) _ n refl refl (
      either-IsKnown (is_enabling m.state) _ m n
        (same-IsKnown m (set_module_state disabled m) n refl refl k) k)
resume-IsKnown start_disable returned m n k =
    either-IsKnown (not (is_enabled m.state) && not (is_enabling m.state)) m _ n k
      (spawn-IsKnown in_disable _ n tt (same-IsKnown m _ n refl refl k))
resume-IsKnown in_disable true m n k =
    either-IsKnown (is_disabling m.state) _ m n
      (same-IsKnown m (set_module_state disabled m) n refl refl k) k
resume-IsKnown in_disable false m n k =
    same-IsKnown (if is_disabling m.state then set_module_state disabled m else m) _ n refl refl (
      either-IsKnown (is_disabling m.state) _ m n
        (same-IsKnown m (set_module_state disabled m) n refl refl k) k)
resume-IsKnown (start_shutdown s generation) returned m n k =
    either-IsKnown (is_enabled s || is_enabling s) _ _ n
      (spawn-IsKnown (in_shutdown_disable generation) _ n tt (same-IsKnown m _ n refl refl k))
      (spawn-IsKnown (in_shutdown generation) _ n tt (same-IsKnown m _ n refl refl k))
resume-IsKnown (in_shutdown_disable generation) returned m n k =
    spawn-IsKnown (in_shutdown generation) _ n tt (same-IsKnown m _ n refl refl k)
resume-IsKnown (in_shutdown generation) returned m n k = k

pub next_generation_lem :
    (m : Module) (n : ℕ)
    → IsKnown m n
    → n + 1 < 2 ^ 64
    → next_generation m ≡ m.lifecycle_generation + 1
next_generation_lem m n k h = omega (arith, k.few)

IsKnown-suc : (m : Module) (n : ℕ) → IsKnown m n → IsKnown m (suc n)
IsKnown-suc m n k = record { few = omega (arith, k.few); all_known = k.all_known }

renewed-IsKnown :
    (m m' : Module) (n : ℕ)
    → IsKnown m n
    → n + 1 < 2 ^ 64
    → m'.lifecycle_generation ≡ next_generation m
    → m'.tasks ≡ m.tasks
    → IsKnown m' (suc n)
renewed-IsKnown m m' n k h g e = record {
  few = omega (arith, g, k.few);
  all_known = subst (All (Known m'.lifecycle_generation)) (sym e) (
      All-Known_later m.lifecycle_generation m'.lifecycle_generation m.tasks
        (omega (arith, g, k.few)) k.all_known);
}

Step-IsKnown :
    (m m' : Module) (n : ℕ) → Step m m' → n + 1 < 2 ^ 64 → IsKnown m n → IsKnown m' (suc n)
unfolding initialize enable disable shutdown
Step-IsKnown m _ n step_initialize h k =
    either-IsKnown (not (is_uninitialized m.state)) m _ (suc n) (IsKnown-suc m n k) (
      spawn-IsKnown (in_initialize (next_generation m)) _ (suc n) (omega arith)
        (renewed-IsKnown m _ n k h refl refl))
Step-IsKnown m _ n step_enable h k = spawn-IsKnown start_enable m (suc n) tt (IsKnown-suc m n k)
Step-IsKnown m _ n step_disable h k = spawn-IsKnown start_disable m (suc n) tt (IsKnown-suc m n k)
Step-IsKnown m _ n step_shutdown h k =
    either-IsKnown (is_uninitialized m.state) m _ (suc n) (IsKnown-suc m n k) (
      spawn-IsKnown (start_shutdown m.state (next_generation m)) _ (suc n) tt
        (renewed-IsKnown m _ n k h refl refl))
Step-IsKnown m _ n (step_resume before behind t returned e) h k =
    let (_, qs) =
      All-split (Known m.lifecycle_generation) before t behind
        (subst (All (Known m.lifecycle_generation)) e k.all_known) in
    resume-IsKnown t returned (record m { tasks = before ++ behind }) (suc n)
      (record { few = omega (arith, k.few); all_known = qs })

pub steps-IsKnown :
    (m m' : Module) (s : Steps m m') → count s < 2 ^ 64 → IsKnown m 0 → IsKnown m' (count s)
steps-IsKnown m _ stay h k = k
steps-IsKnown m _ (go {m'} {m''} s t) h k =
    Step-IsKnown m' m'' (count s) t (omega arith) (steps-IsKnown m m' s (omega arith) k)

pub new-IsKnown : IsKnown new_module 0
new-IsKnown = record { few = omega arith; all_known = tt }
