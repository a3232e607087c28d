-- ===== src/Lifecycle/Drain.antt =====
-- Runs in which only the tasks of a module go on.
use libre_connect.Base.{ℕ, suc, ◌≡◌, Bool, List, ◌∷◌, ◌++◌}
use libre_connect.Lifecycle.{Module, Task, resume}

-- With the number of its steps.
pub data Resumes (m : Module) : ℕ → Module → Type 0 where
  rest : Resumes m 0 m
  more :
      {n : ℕ} {m' : Module}
      → Resumes m n m'
      → (before behind : List Task) (t : Task) (returned : Bool) → m'.tasks ≡ before ++ (t ∷ behind)
      → Resumes m (suc n) (resume t returned (record m' { tasks = before ++ behind }))
