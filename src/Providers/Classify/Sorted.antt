-- ===== src/Providers/Classify/Sorted.antt =====
-- What the classification of an error answers, and for which reason.
use tell_me_go.Base.{ℕ, Option, none, some}
use tell_me_go.Errors.{Sentinel, Error}
use tell_me_go.Providers.Classify.{Failure, Matchers}
use tell_me_go.Providers.Classify.Reasons.{StatusSays, IsSorted}

-- What one classifier answers; where it does not, its source is silent.
data IsSortedIfAny (m : Matchers) (f : Failure) (Silent : Type 0) : Option Error → Type 0 where
  unanswered : Silent → IsSortedIfAny m f Silent none
  answered : (e : Error) → IsSorted m f e → IsSortedIfAny m f Silent (some e)

data SaysIfAny (n : ℕ) : Option Sentinel → Type 0 where
  says_nothing : ((s : Sentinel) → ¬ (StatusSays n s)) → SaysIfAny n none
  says : {s : Sentinel} → StatusSays n s → SaysIfAny n (some s)
