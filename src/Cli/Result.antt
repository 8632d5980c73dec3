-- ===== src/Cli/Result.antt =====
-- The results of apps/scheduler's command-line tools: a value, or the message of the error thrown.
use dca_protocol.Base.{Bool, String, if◌then◌else◌}

pub data Result (A : Type 0) : Type 0 where
  value : A → Result A
  fails : String → Result A

infixl 5 ◌>>=◌ ◌>>◌
unfoldable pub ◌>>=◌ : {A B : Type 0} → Result A → (A → Result B) → Result B
value a >>= f = f a
fails e >>= f = fails e

abbrev pub ◌>>◌ : {A B : Type 0} → Result A → Result B → Result B
m >> k = m >>= λ _. k

-- `if (!test) throw new Error(message)`
unfoldable pub require : Bool → String → Result (Unit {0})
require test message = if test then value tt else fails message
