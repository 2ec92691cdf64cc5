-- ===== src/Posix.antt =====
-- The answers of system calls, as src/core/profile_locator.cpp and src/core/profile_repository.cpp
-- treat them: a call is interrupted some number of times before it answers.
use remmina_krunner.Base.{ℕ}

-- The values of `errno` that the code tells apart; EINTR is `interrupted` below.
pub data ErrorNumber : Type 0 where
  enoent enotdir eloop enametoolong eacces eperm : ErrorNumber
  another_error : ℕ → ErrorNumber

pub data Answer (A : Type 0) : Type 0 where
  answered : A → Answer A
  failed_with : ErrorNumber → Answer A
  interrupted : Answer A → Answer A

-- A call that has been repeated while it was interrupted.
pub data Outcome (A : Type 0) : Type 0 where
  succeeded : A → Outcome A
  failed : ErrorNumber → Outcome A

-- `do { … } while (result < 0 && errno == EINTR)`
unfoldable pub retry : {A : Type 0} → Answer A → Outcome A
retry (answered a) = succeeded a
retry (failed_with error) = failed error
retry (interrupted answer) = retry answer
