-- ===== src/Execution/Logic.antt =====
-- Reasoning about the tasks of Execution.Site: what holds after a task, by how it ends.
use peer_deploy.Prelude.{String, Option, none, some}
use peer_deploy.Prelude.Outcome.{Result, ok, err}
use peer_deploy.Execution.Site.{Site, Task, continue}

-- `I` holds of the state after an early error, `Q` of the result and the state otherwise; nothing is
-- said of a panic.
abbrev pub After :
    {A : Type 0} → (Site → Type 0) → (A → Site → Type 0) → Option (Result A String × Site) → Type 0
After I Q none = Unit
After I Q (some (ok a, s)) = Q a s
After I Q (some (err e, s)) = I s

module _ {A B : Type 0} (I : Site → Type 0) (Q : A → Site → Type 0) (R : B → Site → Type 0) where
  -- The rule of a sequence.
  pub After-continue :
      (r : Option (Result A String × Site)) (f : A → Task B)
      → After I Q r
      → ((a : A) (s : Site) → Q a s → After I R (f a s))
      → After I R (continue r f)
  After-continue none f h k = tt
  After-continue (some (ok a, s)) f h k = k a s h
  After-continue (some (err e, s)) f h k = h

module _ {A : Type 0} (I : Site → Type 0) (Q R : A → Site → Type 0) where
  pub After-weaken :
      (r : Option (Result A String × Site))
      → ((a : A) (s : Site) → Q a s → R a s)
      → After I Q r
      → After I R r
  After-weaken none k h = tt
  After-weaken (some (ok a, s)) k h = k a s h
  After-weaken (some (err e, s)) k h = h
