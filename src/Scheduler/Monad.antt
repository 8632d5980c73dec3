-- ===== src/Scheduler/Monad.antt =====
-- A method of the class: it may throw, and it changes the fields and the world. What was written
-- before a throw stays written.
use dca_protocol.Base.{Bool, ◌∷◌, Option, none, some, String, if◌then◌else◌}
use dca_protocol.Scheduler.Types.{State, Failure, Level}
use dca_protocol.Scheduler.Rpc.{Outcome, ok, raised, Reply}

abbrev pub Method : Type 0 → Type 0 → Type 0
Method W A = State → W → Outcome A × State × W

module _ {W : Type 0} where
  unfoldable pub pure : {A : Type 0} → A → Method W A
  pure a s w = (ok a, s, w)

  unfoldable pub throw : {A : Type 0} → Failure → Method W A
  throw e s w = (raised e, s, w)

  -- What follows a statement runs only if the statement did not throw.
  unfoldable pub continue : {A B : Type 0} → (A → Method W B) → Outcome A → Method W B
  continue f (ok a) s w = f a s w
  continue f (raised e) s w = (raised e, s, w)

  infixl 5 ◌>>=◌ ◌>>◌
  unfoldable pub ◌>>=◌ : {A B : Type 0} → Method W A → (A → Method W B) → Method W B
  unfolding continue
  ◌>>=◌ m f s w = let (r, s', w') = m s w in continue f r s' w'

  abbrev pub ◌>>◌ : {A B : Type 0} → Method W A → Method W B → Method W B
  m >> k = m >>= λ _. k

  -- `await` of a call of the outside.
  unfoldable pub await : {A : Type 0} → Reply W A → Method W A
  await call s w = let (r, w') = call w in (r, s, w')

  -- `.catch(() => d)`
  unfoldable pub await_or : {A : Type 0} → A → Reply W A → Method W A
  await_or d call s w = let (r, w') = call w in (elim r [ ok a ↦ ok a | raised _ ↦ ok d ], s, w')

  -- `try { … } catch (e) { … }`
  unfoldable pub recover : {A : Type 0} → (Failure → Method W A) → Outcome A → Method W A
  recover handler (ok a) s w = (ok a, s, w)
  recover handler (raised e) s w = handler e s w

  unfoldable pub try_catch : {A : Type 0} → Method W A → (Failure → Method W A) → Method W A
  unfolding recover
  try_catch m handler s w = let (r, s', w') = m s w in recover handler r s' w'

  unfoldable pub gets : {A : Type 0} → (State → A) → Method W A
  gets f s w = (ok (f s), s, w)

  unfoldable pub modify : (State → State) → Method W (Unit {0})
  modify f s w = (ok tt, f s, w)

  -- `log.info(message)` and its like
  unfoldable pub write_log : Level → String → Method W (Unit {0})
  write_log l m s w = (ok tt, record s { log = record { level = l; message = m } ∷ s.log }, w)

  -- A statement that runs only under a test.
  unfoldable pub when : Bool → Method W (Unit {0}) → Method W (Unit {0})
  when b m s w = if b then m s w else (ok tt, s, w)

  -- A test of `undefined`.
  unfoldable pub match_option :
      {A B : Type 0} → Option A → Method W B → (A → Method W B) → Method W B
  match_option none absent present = absent
  match_option (some a) absent present = present a
