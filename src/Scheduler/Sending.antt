-- ===== src/Scheduler/Sending.antt =====
-- How many transactions a method may send. `sent` counts them in the world; only the two sending
-- calls may raise it, by one each.
pub mod Reads
pub mod Senders
use dca_protocol.Base.{
  ℕ, zero, suc, ◌+◌, ◌≤◌, Bool, true, false, Option, none, some, String, ◌≡◌, arith, if◌then◌else◌,
  List,
}
use dca_protocol.Scheduler.Types.{State, Failure, Level}
use dca_protocol.Scheduler.Rpc.{Outcome, ok, raised, Rpc, Reply}
use dca_protocol.Scheduler.Monad.{
  Method, ◌>>=◌, ◌>>◌, await, await_or, pure, throw, gets, modify, write_log, when, try_catch,
  match_option, continue, recover,
}

module _ {W : Type 0} (sent : W → ℕ) where
  -- A call of the outside that sends at most `n` transactions.
  pub record Calls {A : Type 0} (n : ℕ) (call : Reply W A) : Type 0 where
    pub grows : (w : W) → sent w ≤ sent (call w).1
    pub bound : (w : W) → sent (call w).1 ≤ sent w + n

  -- A method that sends at most `n` transactions.
  pub record Sends {A : Type 0} (n : ℕ) (m : Method W A) : Type 0 where
    pub grows : (s : State) (w : W) → sent w ≤ sent (m s w).2
    pub bound : (s : State) (w : W) → sent (m s w).2 ≤ sent w + n

  -- What each call of the outside sends.
  pub record Counts (rpc : Rpc W) : Type 0 where
    pub date_now : (w : W) → sent (rpc.date_now w).1 ≡ sent w
    pub sleep : (d : ℕ) (w : W) → sent (rpc.sleep d w) ≡ sent w
    pub jobs : Calls 0 rpc.jobs
    pub due_jobs : Calls 0 rpc.due_jobs
    pub block_timestamp : Calls 0 rpc.block_timestamp
    pub origin : (v : String) → Calls 0 (rpc.origin v)
    pub epoch_length : (v : String) → Calls 0 (rpc.epoch_length v)
    pub vault_kind : (v : String) → Calls 0 (rpc.vault_kind v)
    pub registry : (v : String) → Calls 0 (rpc.registry v)
    pub stock_symbol : (r t : String) → Calls 0 (rpc.stock_symbol r t)
    pub token_decimals : (t : String) → Calls 0 (rpc.token_decimals t)
    pub token_symbol : (t : String) → Calls 0 (rpc.token_symbol t)
    pub approved_stocks : (r : String) → Calls 0 (rpc.approved_stocks r)
    pub stock_plan_count : (v t : String) → Calls 0 (rpc.stock_plan_count v t)
    pub simulate_run : (i n : ℕ) → Calls 0 (rpc.simulate_run i n)
    pub write_run : (i n : ℕ) → Calls 1 (rpc.write_run i n)
    pub send_to_self : Calls 1 rpc.send_to_self
    pub wait_receipt : (h : String) → Calls 0 (rpc.wait_receipt h)

module _ {W : Type 0} {sent : W → ℕ} where
  pub Sends-pure : {A : Type 0} (a : A) → Sends sent 0 (pure a)
  unfolding pure
  Sends-pure a = record { grows = λ s w. omega arith; bound = λ s w. omega arith }

  pub Sends-gets : {A : Type 0} (f : State → A) → Sends sent 0 (gets f)
  unfolding gets
  Sends-gets f = record { grows = λ s w. omega arith; bound = λ s w. omega arith }

  pub Sends-modify : (f : State → State) → Sends sent 0 (modify f)
  unfolding modify
  Sends-modify f = record { grows = λ s w. omega arith; bound = λ s w. omega arith }

  pub Sends-write_log : (l : Level) (m : String) → Sends sent 0 (write_log l m)
  unfolding write_log
  Sends-write_log l m = record { grows = λ s w. omega arith; bound = λ s w. omega arith }

  pub Sends-await :
      {A : Type 0} (n : ℕ) (call : Reply W A) → Calls sent n call → Sends sent n (await call)
  unfolding await
  Sends-await n call c = record { grows = λ s w. c.grows w; bound = λ s w. c.bound w }

  pub Sends-await_or :
      {A : Type 0} (d : A) (n : ℕ) (call : Reply W A)
      → Calls sent n call
      → Sends sent n (await_or d call)
  unfolding await_or
  Sends-await_or d n call c = record { grows = λ s w. c.grows w; bound = λ s w. c.bound w }

  continue-grows :
      {A B : Type 0} (b : ℕ) (f : A → Method W B)
      → ((x : A) → Sends sent b (f x))
      → (r : Outcome A) (s : State) (w : W)
      → (sent w ≤ sent (continue f r s w).2) × (sent (continue f r s w).2 ≤ sent w + b)
  unfolding continue
  continue-grows b f q (ok x) s w = ((q x).grows s w, (q x).bound s w)
  continue-grows b f q (raised e) s w = omega arith

  -- The part up to a bind sends `a` at most, and what follows `b` at most.
  pub Sends-bind :
      {A B : Type 0} (a b : ℕ) (m : Method W A) (f : A → Method W B)
      → Sends sent a m
      → ((x : A) → Sends sent b (f x))
      → Sends sent (a + b) (m >>= f)
  unfolding ◌>>=◌
  Sends-bind a b m f p q = record {
    grows = λ s w. omega (arith, p.grows s w, continue-grows b f q (m s w).0 (m s w).1 (m s w).2);
    bound = λ s w. omega (arith, p.bound s w, continue-grows b f q (m s w).0 (m s w).1 (m s w).2);
  }

  recover-grows :
      {A : Type 0} (b : ℕ) (h : Failure → Method W A)
      → ((e : Failure) → Sends sent b (h e))
      → (r : Outcome A) (s : State) (w : W)
      → (sent w ≤ sent (recover h r s w).2) × (sent (recover h r s w).2 ≤ sent w + b)
  unfolding recover
  recover-grows b h q (ok x) s w = omega arith
  recover-grows b h q (raised e) s w = ((q e).grows s w, (q e).bound s w)

  pub Sends-try_catch :
      {A : Type 0} (a b : ℕ) (m : Method W A) (h : Failure → Method W A)
      → Sends sent a m
      → ((e : Failure) → Sends sent b (h e))
      → Sends sent (a + b) (try_catch m h)
  unfolding try_catch
  Sends-try_catch a b m h p q = record {
    grows = λ s w. omega (arith, p.grows s w, recover-grows b h q (m s w).0 (m s w).1 (m s w).2);
    bound = λ s w. omega (arith, p.bound s w, recover-grows b h q (m s w).0 (m s w).1 (m s w).2);
  }

  pub Sends-le : {A : Type 0} (a b : ℕ) (m : Method W A) → a ≤ b → Sends sent a m → Sends sent b m
  Sends-le a b m le p = record { grows = p.grows; bound = λ s w. omega (arith, p.bound s w) }

  pub Sends-if :
      {A : Type 0} (n : ℕ) (b : Bool) (m k : Method W A)
      → Sends sent n m
      → Sends sent n k
      → Sends sent n (if b then m else k)
  Sends-if n true m k p q = p
  Sends-if n false m k p q = q

  pub Sends-when :
      (n : ℕ) (b : Bool) (m : Method W (Unit {0})) → Sends sent n m → Sends sent n (when b m)
  unfolding when
  Sends-when n true m p = record { grows = p.grows; bound = p.bound }
  Sends-when n false m p = record { grows = λ s w. omega arith; bound = λ s w. omega arith }

  pub Sends-match_option :
      {A B : Type 0} (n : ℕ) (o : Option A) (m : Method W B) (f : A → Method W B)
      → Sends sent n m
      → ((a : A) → Sends sent n (f a))
      → Sends sent n (match_option o m f)
  unfolding match_option
  Sends-match_option n none m f p q = p
  Sends-match_option n (some a) m f p q = q a

  -- The rules at a bound that does not change: either part may do the sending.
  pub Sends-quiet-bind :
      {A B : Type 0} (n : ℕ) (m : Method W A) (f : A → Method W B)
      → Sends sent 0 m
      → ((x : A) → Sends sent n (f x))
      → Sends sent n (m >>= f)
  Sends-quiet-bind n m f p q = Sends-le (0 + n) n _ (omega arith) (Sends-bind 0 n m f p q)

  pub Sends-bind-quiet :
      {A B : Type 0} (n : ℕ) (m : Method W A) (f : A → Method W B)
      → Sends sent n m
      → ((x : A) → Sends sent 0 (f x))
      → Sends sent n (m >>= f)
  Sends-bind-quiet n m f p q = Sends-le (n + 0) n _ (omega arith) (Sends-bind n 0 m f p q)

  pub Sends-catch-quiet :
      {A : Type 0} (n : ℕ) (m : Method W A) (h : Failure → Method W A)
      → Sends sent n m
      → ((e : Failure) → Sends sent 0 (h e))
      → Sends sent n (try_catch m h)
  Sends-catch-quiet n m h p q = Sends-le (n + 0) n _ (omega arith) (Sends-try_catch n 0 m h p q)

pub ruleset quiet_rules = (
  Sends-pure, Sends-gets, Sends-modify, Sends-write_log, Sends-await, Sends-await_or, Sends-if,
  Sends-when, Sends-match_option, Sends-quiet-bind, Sends-catch-quiet,
)
