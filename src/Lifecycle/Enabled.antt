-- ===== src/Lifecycle/Enabled.antt =====
-- How a module comes to be enabled.
use libre_connect.Base.{
  ℕ, ◌≡◌, refl, sym, ap, ◌∙◌, Bool, true, false, not, ◌||◌, ◌&&◌, List, ◌∷◌, ◌++◌, ◌==◌,
  if◌then◌else◌, ◌⊎◌, inl, inr,
}
use libre_connect.Lifecycle.{
  ModuleState, uninitialized, initializing, enabling, enabled, disabling, disabled, Module, Task,
  in_initialize, start_enable, enable_initialized, in_enable, start_disable, in_disable,
  start_shutdown, in_shutdown_disable, in_shutdown, is_uninitialized, is_enabling, is_enabled,
  is_disabling, is_disabled, initialize, enable, disable, shutdown, resume, enable_awaitable,
  enable_completed, disable_awaitable, disable_completed, shutdown_awaitable, Step, step_initialize,
  step_enable, step_disable, step_shutdown, step_resume,
}

pub if-state :
    (g : Bool) (x y : Module) → (if g then x else y).state ≡ (if g then x.state else y.state)
if-state true x y = refl
if-state false x y = refl

-- What each function makes of the state, as a function of the state alone.
abbrev after_initialize : ModuleState → ModuleState
after_initialize s = if not (is_uninitialized s) then s else initializing

abbrev after_shutdown : ModuleState → ModuleState
after_shutdown s = if is_uninitialized s then s else uninitialized

abbrev after_enable : ModuleState → ModuleState
after_enable s = if is_uninitialized s then initializing else if is_disabled s then enabling else s

abbrev after_disable : ModuleState → ModuleState
after_disable s = if not (is_enabled s) && not (is_enabling s) then s else disabling

abbrev after_disabled : ModuleState → ModuleState
after_disabled s = if is_disabling s then disabled else s

abbrev after_failure : ModuleState → ModuleState
after_failure s = if is_enabling s then disabled else s

abbrev Keeps : (ModuleState → ModuleState) → Type 0
Keeps f = (s : ModuleState) → f s ≡ enabled → s ≡ enabled

Keeps-initialize : Keeps after_initialize
Keeps-initialize uninitialized h = cc
Keeps-initialize initializing h = h
Keeps-initialize enabling h = h
Keeps-initialize enabled h = h
Keeps-initialize disabling h = h
Keeps-initialize disabled h = h

Keeps-shutdown : Keeps after_shutdown
Keeps-shutdown uninitialized h = h
Keeps-shutdown initializing h = cc
Keeps-shutdown enabling h = cc
Keeps-shutdown enabled h = refl
Keeps-shutdown disabling h = cc
Keeps-shutdown disabled h = cc

Keeps-enable : Keeps after_enable
Keeps-enable uninitialized h = cc
Keeps-enable initializing h = h
Keeps-enable enabling h = h
Keeps-enable enabled h = h
Keeps-enable disabling h = h
Keeps-enable disabled h = cc

Keeps-disable : Keeps after_disable
Keeps-disable uninitialized h = h
Keeps-disable initializing h = h
Keeps-disable enabling h = cc
Keeps-disable enabled h = refl
Keeps-disable disabling h = h
Keeps-disable disabled h = h

Keeps-disabled : Keeps after_disabled
Keeps-disabled uninitialized h = h
Keeps-disabled initializing h = h
Keeps-disabled enabling h = h
Keeps-disabled enabled h = h
Keeps-disabled disabling h = cc
Keeps-disabled disabled h = h

Keeps-failure : Keeps after_failure
Keeps-failure uninitialized h = h
Keeps-failure initializing h = h
Keeps-failure enabling h = cc
Keeps-failure enabled h = h
Keeps-failure disabling h = h
Keeps-failure disabled h = h

completion :
    (s : ModuleState)
    → (if is_enabling s then enabled else s) ≡ enabled
    → (s ≡ enabled) ⊎ (s ≡ enabling)
completion uninitialized h = inl h
completion initializing h = inl h
completion enabling h = inr refl
completion enabled h = inl h
completion disabling h = inl h
completion disabled h = inl h

-- The one way in: the task that waits for `OnEnable` goes on because the hook has returned.
pub record Entered (m m' : Module) : Type 0 where
  pub was_enabling : m.state ≡ enabling
  pub before : List Task
  pub behind : List Task
  pub waiting : m.tasks ≡ before ++ (in_enable ∷ behind)
  pub result : m' ≡ enable_completed true (record m { tasks = before ++ behind })

module _ (m : Module) where
  initialize-enabled : (initialize m).state ≡ enabled → m.state ≡ enabled
  unfolding initialize
  initialize-enabled h =
      Keeps-initialize m.state (sym (if-state (not (is_uninitialized m.state)) _ _) ∙ h)

  shutdown-enabled : (shutdown m).state ≡ enabled → m.state ≡ enabled
  unfolding shutdown
  shutdown-enabled h = Keeps-shutdown m.state (sym (if-state (is_uninitialized m.state) _ _) ∙ h)

  enable_awaitable-enabled : (enable_awaitable m).state ≡ enabled → m.state ≡ enabled
  unfolding enable_awaitable
  enable_awaitable-enabled h = Keeps-enable m.state (
      ap (λ (s : ModuleState). if is_uninitialized m.state then initializing else s)
        (sym (if-state (is_disabled m.state) _ _))
      ∙ sym (if-state (is_uninitialized m.state) _ _)
      ∙ h)

  disable_awaitable-enabled : (disable_awaitable m).state ≡ enabled → m.state ≡ enabled
  unfolding disable_awaitable
  disable_awaitable-enabled h =
      Keeps-disable m.state
        (sym (if-state (not (is_enabled m.state) && not (is_enabling m.state)) _ _) ∙ h)

  disable_completed-enabled :
      (returned : Bool) → (disable_completed returned m).state ≡ enabled → m.state ≡ enabled
  unfolding disable_completed
  disable_completed-enabled true h =
      Keeps-disabled m.state (sym (if-state (is_disabling m.state) _ _) ∙ h)
  disable_completed-enabled false h =
      Keeps-disabled m.state (sym (if-state (is_disabling m.state) _ _) ∙ h)

  enable_failed-enabled : (enable_completed false m).state ≡ enabled → m.state ≡ enabled
  unfolding enable_completed
  enable_failed-enabled h = Keeps-failure m.state (sym (if-state (is_enabling m.state) _ _) ∙ h)

  shutdown_awaitable-state :
      (s : ModuleState) (generation : ℕ) → (shutdown_awaitable s generation m).state ≡ m.state
  unfolding shutdown_awaitable
  shutdown_awaitable-state s generation =
      if-state (is_enabled s || is_enabling s) _ _ ∙ same (is_enabled s || is_enabling s)
    where
      same : (g : Bool) → (if g then m.state else m.state) ≡ m.state
      same true = refl
      same false = refl

  initialized-state :
      (generation : ℕ)
      → (resume (in_initialize generation) true m).state ≡ enabled
      → m.state ≡ enabled
  unfolding resume
  initialized-state generation h =
      same (m.lifecycle_generation == generation)
        (sym (if-state (m.lifecycle_generation == generation) _ _) ∙ h)
    where
      same : (g : Bool) → (if g then disabled else m.state) ≡ enabled → m.state ≡ enabled
      same true k = cc
      same false k = k

  enable_completed-state :
      (enable_completed true m).state ≡ enabled
      → (if is_enabling m.state then enabled else m.state) ≡ enabled
  unfolding enable_completed
  enable_completed-state h = sym (if-state (is_enabling m.state) _ _) ∙ h

resume-enabled :
    (m : Module) (before behind : List Task) (t : Task) (returned : Bool)
    → m.tasks ≡ before ++ (t ∷ behind)
    → (resume t returned (record m { tasks = before ++ behind })).state ≡ enabled
    → (m.state ≡ enabled) ⊎ Entered m (resume t returned (record m { tasks = before ++ behind }))
unfolding resume
resume-enabled m before behind (in_initialize generation) false e h = inl h
resume-enabled m before behind (in_initialize generation) true e h =
    inl (initialized-state (record m { tasks = before ++ behind }) generation h)
resume-enabled m before behind start_enable returned e h =
    inl (enable_awaitable-enabled (record m { tasks = before ++ behind }) h)
resume-enabled m before behind enable_initialized false e h = inl h
resume-enabled m before behind enable_initialized true e h = cc
resume-enabled m before behind in_enable true e h =
    elim (completion m.state (enable_completed-state (record m { tasks = before ++ behind }) h)) [
      | inl k ↦ inl k
      | inr k ↦ inr (record {
        was_enabling = k;
        before = before;
        behind = behind;
        waiting = e;
        result = refl;
      })
    ]
resume-enabled m before behind in_enable false e h =
    inl (enable_failed-enabled (record m { tasks = before ++ behind }) h)
resume-enabled m before behind start_disable returned e h =
    inl (disable_awaitable-enabled (record m { tasks = before ++ behind }) h)
resume-enabled m before behind in_disable returned e h =
    inl (disable_completed-enabled (record m { tasks = before ++ behind }) returned h)
resume-enabled m before behind (start_shutdown s generation) returned e h =
    inl (sym (shutdown_awaitable-state (record m { tasks = before ++ behind }) s generation) ∙ h)
resume-enabled m before behind (in_shutdown_disable generation) returned e h = inl h
resume-enabled m before behind (in_shutdown generation) returned e h = inl h

-- Whatever happens to a module, it becomes enabled in one way only: it was enabling, and the coroutine
-- that waited for `OnEnable` goes on because the hook has returned.
pub Step-enabled :
    (m m' : Module) → Step m m' → m'.state ≡ enabled → (m.state ≡ enabled) ⊎ Entered m m'
unfolding enable disable
Step-enabled m _ step_initialize h = inl (initialize-enabled m h)
Step-enabled m _ step_enable h = inl h
Step-enabled m _ step_disable h = inl h
Step-enabled m _ step_shutdown h = inl (shutdown-enabled m h)
Step-enabled m _ (step_resume before behind t returned e) h =
    resume-enabled m before behind t returned e h
