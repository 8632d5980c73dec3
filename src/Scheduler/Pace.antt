-- ===== src/Scheduler/Pace.antt =====
-- How the main loop goes on: what a round may return, and when the loop ends.
use dca_protocol.Base.{
  ℕ, String, suc, ◌≤◌, min, Bool, true, false, List, Option, none, some, ◌≡◌, refl, subst, ◌∙◌, ap,
  Bool-cases, arith, if◌then◌else◌, ◌||◌, inl, inr,
}
use dca_protocol.Scheduler.Types.{Config, State, Failure, Job, Level}
use dca_protocol.Scheduler.Rpc.{Outcome, ok, raised, Rpc, Viem}
use dca_protocol.Scheduler.Monad.{Method, ◌>>=◌, pure, continue, recover, try_catch, write_log}
use dca_protocol.Scheduler.Caches.{is_stopping}
use dca_protocol.Scheduler.Delay.{Soonest, delay_of}
use dca_protocol.Scheduler.Loop.{next_delay, tick, run_round, after_round, run}

-- Every delay lies between a second and the poll interval, if that is no shorter than a second.
abbrev pub InPace : Config → ℕ → Type 0
InPace cfg d = (min 1000 cfg.poll_interval_ms ≤ d) × (d ≤ cfg.poll_interval_ms)

pub delay_of-InPace : (cfg : Config) (now : ℕ) (best : Soonest) → InPace cfg (delay_of cfg now best)
unfolding delay_of
delay_of-InPace cfg now none = omega arith
delay_of-InPace cfg now (some (b, kind)) = omega arith

module _ {W : Type 0} where
  -- Every result that the method returns, when it does not throw, has the property.
  pub record Yields {A : Type 0} (P : A → Type 0) (m : Method W A) : Type 0 where
    pub holds : (s : State) (w : W) (a : A) → (m s w).0 ≡ ok a → P a

  continue-Yields :
      {A B : Type 0} (Q : A → Type 0) (P : B → Type 0) (f : A → Method W B)
      → ((x : A) → Q x → Yields P (f x))
      → (r : Outcome A) → ((x : A) → r ≡ ok x → Q x)
      → (s : State) (w : W) (b : B) → (continue f r s w).0 ≡ ok b
      → P b
  unfolding continue
  continue-Yields Q P f q (ok x) h s w b e = (q x (h x refl)).holds s w b e
  continue-Yields Q P f q (raised x) h s w b e = cc

  Yields-bind :
      {A B : Type 0} (Q : A → Type 0) (P : B → Type 0) (m : Method W A) (f : A → Method W B)
      → Yields Q m
      → ((x : A) → Q x → Yields P (f x))
      → Yields P (m >>= f)
  unfolding ◌>>=◌
  Yields-bind Q P m f p q = record {
    holds = λ s w b e.
        continue-Yields Q P f q (m s w).0 (λ x eq. p.holds s w x eq) (m s w).1 (m s w).2 b e;
  }

  Yields-any : {A : Type 0} (m : Method W A) → Yields (λ x. Unit {0}) m
  Yields-any m = record { holds = λ s w b e. tt }

  -- Only the last statement of a block decides what it returns.
  Yields-last :
      {A B : Type 0} (P : B → Type 0) (m : Method W A) (f : A → Method W B)
      → ((x : A) → Yields P (f x))
      → Yields P (m >>= f)
  Yields-last P m f q = Yields-bind (λ x. Unit {0}) P m f (Yields-any m) (λ x _. q x)

  Yields-pure : {A : Type 0} (P : A → Type 0) (a : A) → P a → Yields P (pure {W = W} a)
  unfolding pure
  Yields-pure {A} P a h = record { holds = λ s w b e. subst P (ok_inj a b e) h }
    where
      ok_inj : (x y : A) → ◌≡◌ {A = Outcome A} (ok x) (ok y) → x ≡ y
      ok_inj x y e = cc

  -- The method does not throw, and its result has the property.
  pub record Returns {A : Type 0} (P : A → Type 0) (m : Method W A) : Type 0 where
    pub result : (s : State) (w : W) → (a : A) × ((m s w).0 ≡ ok a) × P a

  Returns-pure : {A : Type 0} (P : A → Type 0) (a : A) → P a → Returns P (pure {W = W} a)
  unfolding pure
  Returns-pure P a h = record { result = λ s w. (a, refl, h) }

  Returns-write_log : (l : Level) (t : String) → Returns (λ _. Unit {0}) (write_log {W = W} l t)
  unfolding write_log
  Returns-write_log l t = record { result = λ s w. (tt, refl, tt) }

  Returns-if :
      {A : Type 0} (P : A → Type 0) (b : Bool) (m k : Method W A)
      → Returns P m
      → Returns P k
      → Returns P (if b then m else k)
  Returns-if P true m k p q = p
  Returns-if P false m k p q = q

  continue-Returns :
      {A B : Type 0} (Q : A → Type 0) (P : B → Type 0) (f : A → Method W B)
      → ((x : A) → Q x → Returns P (f x))
      → (r : Outcome A) (a : A) → r ≡ ok a
      → Q a
      → (s : State) (w : W) → (b : B) × ((continue f r s w).0 ≡ ok b) × P b
  unfolding continue
  continue-Returns Q P f q r a e h s w = rw e ((q a h).result s w)

  Returns-bind :
      {A B : Type 0} (Q : A → Type 0) (P : B → Type 0) (m : Method W A) (f : A → Method W B)
      → Returns Q m
      → ((x : A) → Q x → Returns P (f x))
      → Returns P (m >>= f)
  unfolding ◌>>=◌
  Returns-bind Q P m f p q = record {
    result = λ s w.
        let (a, e, h) = p.result s w in
        continue-Returns Q P f q (m s w).0 a e h (m s w).1 (m s w).2;
  }

  recover-Returns :
      {A : Type 0} (P : A → Type 0) (h : Failure → Method W A)
      → ((e : Failure) → Returns P (h e))
      → (r : Outcome A) → ((x : A) → r ≡ ok x → P x)
      → (s : State) (w : W) → (b : A) × ((recover h r s w).0 ≡ ok b) × P b
  unfolding recover
  recover-Returns P h q (ok x) p s w = (x, refl, p x refl)
  recover-Returns P h q (raised x) p s w = (q x).result s w

  -- A handler that does not throw stops what its block throws.
  Returns-try_catch :
      {A : Type 0} (P : A → Type 0) (m : Method W A) (h : Failure → Method W A)
      → Yields P m
      → ((e : Failure) → Returns P (h e))
      → Returns P (try_catch m h)
  unfolding try_catch
  Returns-try_catch P m h p q = record {
    result = λ s w. recover-Returns P h q (m s w).0 (λ x eq. p.holds s w x eq) (m s w).1 (m s w).2;
  }

module _ {W : Type 0} (rpc : Rpc W) (viem : Viem) (cfg : Config) where
  Yields-next_delay : (jobs : List Job) → Yields (InPace cfg) (next_delay rpc cfg jobs)
  unfolding next_delay
  Yields-next_delay jobs = Yields-last _ _ _ λ now.
      Yields-last _ _ _
        λ vaults. Yields-last _ _ _ λ _. Yields-pure (InPace cfg) _ (delay_of-InPace cfg now _)

  Yields-tick : Yields (InPace cfg) (tick rpc viem cfg)
  unfolding tick
  Yields-tick = search (Yields-last, Yields-next_delay) depth 14

  -- What a round returns: the end of the loop, or a delay in the pace. With `--once` it is the end.
  abbrev pub Paced : Option ℕ → Type 0
  Paced none = Unit {0}
  Paced (some d) = InPace cfg d × (cfg.once ≡ false)

  Paced-if :
      (stop : Bool) (d : ℕ) → InPace cfg d → Paced (if cfg.once || stop then none else some d)
  Paced-if stop d h = elim (Bool-cases cfg.once) [
    | inl once ↦ rw once tt
    | inr more ↦ Paced-stop stop d h more
  ]
    where
      Paced-stop :
          (b : Bool) (e : ℕ)
          → InPace cfg e
          → cfg.once ≡ false
          → Paced (if cfg.once || b then none else some e)
      Paced-stop true e h more = rw more tt
      Paced-stop false e h more = rw more (h, refl)

  Returns-is_stopping : Returns (λ _. Unit {0}) (is_stopping rpc)
  unfolding is_stopping
  Returns-is_stopping = record { result = λ s w. (rpc.stopping w, refl, tt) }

  pub Returns-run_round : Returns Paced (run_round rpc viem cfg)
  unfolding run_round
  Returns-run_round = Returns-bind _ _ _ _ Returns-is_stopping λ stop _.
      Returns-if Paced stop _ _ (Returns-pure Paced none tt) (
        Returns-bind (InPace cfg) _ _ _
          (Returns-try_catch _ _ _ Yields-tick (λ e.
            Returns-bind _ _ _ _ (Returns-write_log _ _)
              (λ _ _. Returns-pure (InPace cfg) _ (omega arith))))
          (λ d h.
            Returns-bind _ _ _ _ Returns-is_stopping
              (λ stop' _. Returns-pure Paced _ (Paced-if _ d h))))

  -- A round of the main loop never throws, even if its pass throws: it ends the loop, or asks for a
  -- sleep of a second at least (a poll interval, if that is shorter) and a poll interval at most,
  -- and asks for a sleep only without `--once`.
  pub run_round-Paced :
      (s : State) (w : W) → (o : Option ℕ) × ((run_round rpc viem cfg s w).0 ≡ ok o) × Paced o
  run_round-Paced s w = Returns-run_round.result s w

  after_round-ended :
      (again : State → W → Bool × State × W) (r : Outcome (Option ℕ)) (s : State) (w : W)
      → r ≡ ok none
      → (after_round rpc viem cfg again r s w).0 ≡ true
  unfolding after_round
  after_round-ended again r s w e = rw e refl

  -- With `--once` the process ends after a single round, whatever that round met.
  pub run_once-ends :
      (rounds : ℕ) (s : State) (w : W)
      → cfg.once ≡ true
      → (run rpc viem cfg (suc rounds) s w).0 ≡ true
  unfolding run
  run_once-ends rounds s w once =
      let (o, e, p) = run_round-Paced s w in
      after_round-ended (run rpc viem cfg rounds) (run_round rpc viem cfg s w).0
        (run_round rpc viem cfg s w).1 (run_round rpc viem cfg s w).2 (e ∙ ap ok (ends o p))
    where
      ends : (o : Option ℕ) → Paced o → o ≡ none
      ends none p = refl
      ends (some d) p = cc
