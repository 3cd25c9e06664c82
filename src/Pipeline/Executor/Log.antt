-- ===== src/Pipeline/Executor/Log.antt =====
-- Properties of all the requests of a run, along its parts.
use rs2_runtime.Common.{◌≡◌, refl, List, All, All-append}
use rs2_runtime.Error.{Result, ok, err}
use rs2_runtime.Pipeline.Executor.Base.{Sent, Ended, fails, panics, gives, Exec, lift, chain, ◌>>=◌}

module _ {M A B : Type 0} (P : Sent M → Type 0) where
  pub All-chain :
      (log : List (Sent M)) (out : Ended A) (next : A → Exec M B)
      → All P log
      → ((a : A) → out ≡ gives a → All P ((next a).0))
      → All P ((chain log out next).0)
  All-chain log (fails e) next h k = h
  All-chain log panics next h k = h
  All-chain log (gives a) next h k = All-append P log ((next a).0) h (k a refl)

  pub All-bind :
      (m : Exec M A) (next : A → Exec M B)
      → All P m.0
      → ((a : A) → m.1 ≡ gives a → All P ((next a).0))
      → All P ((m >>= next).0)
  All-bind (log, out) next h k = All-chain log out next h k

  -- What follows a result that makes no request.
  pub All-lift :
      (r : Result A) (next : A → Exec M B)
      → ((a : A) → r ≡ ok a → All P ((next a).0))
      → All P ((lift r >>= next).0)
  All-lift (err e) next k = tt
  All-lift (ok a) next k = k a refl
