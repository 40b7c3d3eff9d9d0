-- ===== src/Pipeline/Refactor/Keeps.antt =====
-- Predicates on the state of a thread that a step keeps, whether it returns or raises.
use refactor_tradeoffs.Base.{FilePath, Result, ok, raised, Exec, continue, ◌>>=◌}
use refactor_tradeoffs.Pipeline.State.{State, read_text}

abbrev pub Keeps {ℓ} :
    {World : Type 0} {A : Type ℓ} → (State World → Type 0) → Exec (State World) A → Type 0
Keeps {World} P m = (s : State World) → P s → P (m s).1

module _ {ℓ κ} {World : Type 0} {A : Type ℓ} {B : Type κ} (P : State World → Type 0) where
  Keeps-continue :
      (r : Result A) (t : State World) (f : A → Exec (State World) B)
      → P t
      → ((a : A) → Keeps P (f a))
      → P (continue r f t).1
  Keeps-continue (ok a) t f h k = k a t h
  Keeps-continue (raised e) t f h k = h

  pub Keeps-bind :
      (m : Exec (State World) A) (f : A → Exec (State World) B)
      → Keeps P m
      → ((a : A) → Keeps P (f a))
      → Keeps P (m >>= f)
  Keeps-bind m f h k s e = Keeps-continue (m s).0 (m s).1 f (h s e) k

pub read_text-Keeps :
    {World : Type 0} (P : State World → Type 0) (path : FilePath) → Keeps P (read_text path)
unfolding read_text
read_text-Keeps P path s e = e
