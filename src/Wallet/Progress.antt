-- ===== src/Wallet/Progress.antt =====
-- A sequence of apps/web/src/hooks/useTx.ts that reports its end has every one of its steps mined.
use dca_protocol.Base.{
  ◌==◌, ◌||◌, ℕ, zero, suc, ◌+◌, ◌<◌, Bool, true, false, List, [], ◌∷◌, Option, none, some, String,
  ◌≡◌, refl, sym, ap, ◌∙◌, subst, length, take, All, arith, if◌then◌else◌, is_some,
}
use dca_protocol.Plan.Steps.{TxStep}
use dca_protocol.Wallet.Sync.{MinedTx}
use dca_protocol.Wallet.Chain.{
  Tried, ok, threw, ReplaceReason, repriced, cancelled, replaced, Mined, Chain, done, signing,
  TxStepState, SeqState, Tab,
}
use dca_protocol.Wallet.Sequence.{change_at, patch, set_syncing, kept_states, start_state}
use dca_protocol.Wallet.Ends.{
  Signed, Confirmed, unanswered, without_effect, mined_as, cut_off, refused, sent_as, StepEnd,
  step_mined, run_ends,
}
use dca_protocol.Wallet.Signing.{previous, told, prompt, estimated, prepare, sign}
use dca_protocol.Wallet.Confirming.{
  note, own_receipt, own_receipt_as, judge, answered, confirm, after_confirm, after_sign,
}
use dca_protocol.Wallet.Run.{run_step, run_steps, begun, run_loop, run_from, run, finish_all}

-- The step was mined as its own: a wait for a receipt answered with one of success, of a transaction that was not
-- replaced but by a repriced copy, and the step shows its hash.
pub record Receipted {W : Type 0} (chain : Chain W) (x : TxStepState) : Type 0 where
  pub sent_hash : String
  pub world : W
  pub receipt : Mined
  pub answer : (chain.wait_for_receipt sent_hash world).0 ≡ ok receipt
  pub success : receipt.success ≡ true
  pub its_own :
      (reason : ReplaceReason) (nonce : ℕ)
      → receipt.replacement ≡ some (reason, nonce)
      → reason ≡ repriced
  pub shown : x.hash ≡ some receipt.transaction_hash

abbrev pub IsDone : {W : Type 0} → Chain W → TxStepState → Type 0
IsDone chain x = (x.phase ≡ done) × Receipted chain x

change-length :
    (i : ℕ) (f : TxStepState → TxStepState) (xs : List TxStepState)
    → length (change_at i f xs) ≡ length xs
unfolding change_at
change-length i f [] = refl
change-length zero f (x ∷ xs) = refl
change-length (suc i) f (x ∷ xs) = ap suc (change-length i f xs)

change-take :
    (i : ℕ) (f : TxStepState → TxStepState) (xs : List TxStepState)
    → take i (change_at i f xs) ≡ take i xs
unfolding change_at
change-take zero f xs = refl
change-take (suc i) f [] = refl
change-take (suc i) f (x ∷ xs) = ap (◌∷◌ x) (change-take i f xs)

change-next :
    (P : TxStepState → Type 0) (i : ℕ) (f : TxStepState → TxStepState) (xs : List TxStepState)
    → i < length xs
    → ((x : TxStepState) → P (f x))
    → All P (take i xs)
    → All P (take (suc i) (change_at i f xs))
unfolding change_at
change-next P i f [] h made all = absurd (omega (arith, h))
change-next P zero f (x ∷ xs) h made all = (made x, tt)
change-next P (suc i) f (x ∷ xs) h made all =
    (all.0, change-next P i f xs (omega (arith, h)) made all.1)

-- A predicate holds of the first `i` of `n` steps.
abbrev UptoBy : (TxStepState → Type 0) → ℕ → ℕ → Tab → Type 0
UptoBy P i n t = (length t.state.steps ≡ n) × All P (take i t.state.steps)

patch-Upto :
    (P : TxStepState → Type 0) (steps : List TxStep) (i n : ℕ) (f : TxStepState → TxStepState)
    (t : Tab)
    → UptoBy P i n t
    → UptoBy P i n (patch steps i f t)
unfolding patch
patch-Upto P steps i n f t (len, all) =
    (change-length i f t.state.steps ∙ len, subst (All P) (sym (change-take i f t.state.steps)) all)

syncing-Upto :
    (P : TxStepState → Type 0) (i n : ℕ) (on : Bool) (t : Tab)
    → UptoBy P i n t
    → UptoBy P i n (set_syncing i on t)
unfolding set_syncing
syncing-Upto P i n on t (len, all) =
    (change-length i _ t.state.steps ∙ len, subst (All P) (sym (change-take i _ t.state.steps)) all)

done-Upto :
    (P : TxStepState → Type 0) (steps : List TxStep) (i n : ℕ) (f : TxStepState → TxStepState)
    (t : Tab)
    → i < n
    → ((x : TxStepState) → P (f x))
    → UptoBy P i n t
    → UptoBy P (suc i) n (patch steps i f t)
unfolding patch
done-Upto P steps i n f t h made (len, all) = (
  change-length i f t.state.steps ∙ len,
  change-next P i f t.state.steps (omega (arith, len, h)) made all,
)

-- The first `i` of `n` steps are mined, before a chain.
abbrev Upto : {W : Type 0} → Chain W → ℕ → ℕ → Tab → Type 0
Upto chain i n t = UptoBy (IsDone chain) i n t

-- What is known when a step was sent, and when it was mined.
IfSent : Signed → Type 0 → Type 0
IfSent cut_off P = Unit
IfSent (refused e before) P = Unit
IfSent (sent_as h) P = P

IfMined : Confirmed → Type 0 → Type 0
IfMined unanswered P = Unit
IfMined (without_effect e) P = Unit
IfMined (mined_as h) P = P

IfOn : StepEnd → Type 0 → Type 0
IfOn run_ends P = Unit
IfOn (step_mined h) P = P

previous-state :
    {W : Type 0} (chain : Chain W) (chain_id : ℕ) (address : Option String) (t : Tab) (w : W)
    → (previous chain chain_id address t w).1.state ≡ t.state
unfolding previous
previous-state chain chain_id none t w = refl
previous-state chain chain_id (some a) t w = refl

kept-length :
    (from : ℕ) (resumed : Bool) (old : List TxStepState) (i : ℕ) (sts : List TxStep)
    → length (kept_states from resumed old i sts) ≡ length sts
unfolding kept_states
kept-length from resumed old i [] = refl
kept-length from resumed old i (st ∷ sts) = ap suc (kept-length from resumed old (suc i) sts)

All-take_whole :
    (P : TxStepState → Type 0) (xs : List TxStepState) → All P (take (length xs) xs) → All P xs
All-take_whole P [] all = tt
All-take_whole P (x ∷ xs) all = (all.0, All-take_whole P xs all.1)

module _ {W : Type 0} (chain : Chain W) (chain_id : ℕ) (address : Option String)
    (steps : List TxStep) (i n : ℕ) where
  told-Upto :
      (before : Option ℕ) (t : Tab) (w : W) (a : Tried String)
      → Upto chain i n t
      → (let r = told chain chain_id address steps i before t w a in
          IfSent r.0 (Upto chain i n r.1))
  unfolding told IfSent
  told-Upto before t w (ok h) good = patch-Upto (IsDone chain) steps i n _ t good
  told-Upto before t w (threw e) good = tt

  paused-Upto :
      (b : Bool) (t : Tab)
      → Upto chain i n t
      → Upto chain i n (if b then set_syncing i false t else t)
  paused-Upto true t good = syncing-Upto (IsDone chain) i n false t good
  paused-Upto false t good = good

  slowed-Upto :
      (b : Bool) (t : Tab)
      → Upto chain i n t
      → Upto chain i n (if b then set_syncing i true t else t)
  slowed-Upto true t good = syncing-Upto (IsDone chain) i n true t good
  slowed-Upto false t good = good

  estimated-Upto :
      (st : TxStep) (prev : Option MinedTx) (t : Tab) (w : W) (gas : Tried (Option ℕ))
      → Upto chain i n t
      → (let r = estimated chain chain_id address steps i st prev t w gas in
          IfSent r.0 (Upto chain i n r.1))
  unfolding estimated prompt IfSent
  estimated-Upto st prev t w (threw e) good = tt
  estimated-Upto st prev t w (ok gas) good = told-Upto _ _ _ _ (paused-Upto (is_some prev) t good)

  prepare-Upto :
      (st : TxStep) (prev : Option MinedTx) (stop : Bool) (t : Tab) (w : W)
      → Upto chain i n t
      → (let r = prepare chain chain_id address steps i st prev stop t w in
          IfSent r.0 (Upto chain i n r.1))
  unfolding prepare IfSent
  prepare-Upto st prev true t w good = tt
  prepare-Upto st prev false t w good = estimated-Upto st prev t _ _ good

  -- A receipt that was waited for, of the step's own transaction or a repriced copy.
  record Own (m : Mined) : Type 0 where
    sent_hash : String
    world : W
    answer : (chain.wait_for_receipt sent_hash world).0 ≡ ok m
    its_own :
        (reason : ReplaceReason) (nonce : ℕ)
        → m.replacement ≡ some (reason, nonce)
        → reason ≡ repriced

  receipted :
      {m : Mined}
      → Own m
      → m.success ≡ true
      → (x : TxStepState) → x.hash ≡ some m.transaction_hash
      → Receipted chain x
  receipted {m} own well x shows = record {
    sent_hash = own.sent_hash;
    world = own.world;
    receipt = m;
    answer = own.answer;
    success = well;
    its_own = own.its_own;
    shown = shows;
  }

  Own-Upto :
      (b : Bool) (st : TxStep) (m : Mined) (t : Tab) (w : W)
      → m.success ≡ b
      → Own m
      → i < n
      → Upto chain i n t
      → (let r = own_receipt_as chain chain_id address b steps i st m t w in
          IfMined r.0 (Upto chain (suc i) n r.1))
  unfolding own_receipt_as IfMined
  Own-Upto true st m t w well own h good =
      done-Upto (IsDone chain) steps i n _ t h (λ x. (refl, receipted own well _ refl)) good
  Own-Upto false st m t w well own h good = tt

  judge-Upto :
      (r : Option (ReplaceReason × ℕ)) (st : TxStep) (m : Mined) (t : Tab) (w : W) (h : String)
      (w0 : W)
      → (chain.wait_for_receipt h w0).0 ≡ ok m
      → m.replacement ≡ r
      → i < n
      → Upto chain i n t
      → (let e = judge chain chain_id address r steps i st m t w in
          IfMined e.0 (Upto chain (suc i) n e.1))
  unfolding judge own_receipt IfMined
  judge-Upto none st m t w h w0 told_so is lt good =
      Own-Upto m.success st m t w refl
        (record {
          sent_hash = h;
          world = w0;
          answer = told_so;
          its_own = λ reason nonce e. absurd (cc (e, is));
        })
        lt good
  judge-Upto (some (repriced, k)) st m t w h w0 told_so is lt good =
      Own-Upto m.success st m t w refl
        (record {
          sent_hash = h;
          world = w0;
          answer = told_so;
          its_own = λ reason nonce e. cc (e, is);
        })
        lt good
  judge-Upto (some (cancelled, k)) st m t w h w0 told_so is lt good = tt
  judge-Upto (some (replaced, k)) st m t w h w0 told_so is lt good = tt

  note-Upto :
      (now : ℕ) (m : Mined) (k : Option ℕ) (t : Tab)
      → Upto chain i n t
      → Upto chain i n (note chain chain_id address now m k t)
  unfolding note
  note-Upto now m none t good = good
  note-Upto now m (some k) t good = good

  answered-Upto :
      (st : TxStep) (h : String) (t : Tab) (w : W) (a : Tried Mined) (w0 : W)
      → (chain.wait_for_receipt h w0).0 ≡ a
      → i < n
      → Upto chain i n t
      → (let r = answered chain chain_id address steps i st h t w a in
          IfMined r.0 (Upto chain (suc i) n r.1))
  unfolding answered IfMined
  answered-Upto st h t w (threw e) w0 told_so lt good = tt
  answered-Upto st h t w (ok m) w0 told_so lt good =
      judge-Upto m.replacement st m _ _ h w0 told_so refl lt (note-Upto _ m _ t good)

  after_confirm-Upto :
      (st : TxStep) (h : String) (c : Confirmed) (t : Tab) (w : W)
      → IfMined c (Upto chain (suc i) n t)
      → (let r = after_confirm chain chain_id address steps i st h (c, t, w) in
          IfOn r.0 (Upto chain (suc i) n r.1))
  unfolding after_confirm IfOn IfMined
  after_confirm-Upto st h unanswered t w good = tt
  after_confirm-Upto st h (without_effect e) t w good = tt
  after_confirm-Upto st h (mined_as own) t w good = good

  after_sign-Upto :
      (st : TxStep) (s : Signed) (t : Tab) (w : W)
      → i < n
      → IfSent s (Upto chain i n t)
      → (let r = after_sign chain chain_id address steps i st (s, t, w) in
          IfOn r.0 (Upto chain (suc i) n r.1))
  unfolding after_sign confirm IfOn IfSent
  after_sign-Upto st cut_off t w lt good = tt
  after_sign-Upto st (refused e before) t w lt good = tt
  after_sign-Upto st (sent_as h) t w lt good =
      after_confirm-Upto st h _ _ _ (answered-Upto st h t _ _ w refl lt good)

  sign-Upto :
      (st : TxStep) (t : Tab) (w : W)
      → Upto chain i n t
      → (let r = sign chain chain_id address steps i st t w in IfSent r.0 (Upto chain i n r.1))
  unfolding sign
  sign-Upto st t w good =
      let t0 = patch steps i (λ (x : TxStepState). record x { phase = signing }) t in
      prepare-Upto st _ _ _ _ (
        slowed-Upto _ _ (
          subst (λ (s : SeqState). (length s.steps ≡ n) × All (IsDone chain) (take i s.steps))
            (sym (previous-state chain chain_id address t0 w))
            (patch-Upto (IsDone chain) steps i n _ t good)))

  step-Upto :
      (st : TxStep) (resume : Option String) (t : Tab) (w : W)
      → i < n
      → Upto chain i n t
      → (let r = run_step chain chain_id address steps i st resume t w in
          IfOn r.0 (Upto chain (suc i) n r.1))
  unfolding run_step confirm
  step-Upto st none t w lt good =
      let s = sign chain chain_id address steps i st t w in
      after_sign-Upto st s.0 s.1 s.2 lt (sign-Upto st t w good)
  step-Upto st (some h) t w lt good =
      after_confirm-Upto st h _ _ _ (answered-Upto st h t _ _ w refl lt good)

-- Every step is mined, and the sequence says so.
abbrev pub AllMined : {W : Type 0} → Chain W → ℕ → Tab → Type 0
AllMined chain n t =
    (length t.state.steps ≡ n)
    × All (IsDone chain) t.state.steps
    × (t.state.done ≡ true)
    × (t.state.running ≡ false)

finish-AllMined :
    {W : Type 0} (chain : Chain W) (steps : List TxStep) (n : ℕ) (t : Tab)
    → Upto chain n n t
    → AllMined chain n (finish_all steps t)
unfolding finish_all
finish-AllMined chain steps n t (len, all) = (
  len,
  All-take_whole (IsDone chain) t.state.steps
      (subst (λ (k : ℕ). All (IsDone chain) (take k t.state.steps)) (sym len) all),
  refl,
  refl,
)

module _ {W : Type 0} (chain : Chain W) (chain_id : ℕ) (address : Option String)
    (steps : List TxStep) (n : ℕ) where
  run_steps-AllMined :
      (sts : List TxStep) (i : ℕ) (resume last result : Option String) (t : Tab) (w : W)
      → i + length sts ≡ n
      → Upto chain i n t
      → (run_steps chain chain_id address steps i sts resume last t w).0 ≡ some result
      → AllMined chain n ((run_steps chain chain_id address steps i sts resume last t w).1)
  unfolding run_steps IfOn
  run_steps-AllMined [] i resume last result t w len good ended =
      finish-AllMined chain steps n t
        (subst (λ (k : ℕ). Upto chain k n t) (omega (arith, len)) good)
  run_steps-AllMined (st ∷ sts) i resume last result t w len good ended =
      go
        (λ own t1 w1.
          run_steps-AllMined sts (suc i) none (some own) result t1 w1 (omega (arith, len)))
        r.0 r.1 r.2
        (step-Upto chain chain_id address steps i n st resume t w (omega (arith, len)) good) ended
    where
      r : StepEnd × Tab × W
      r = run_step chain chain_id address steps i st resume t w

      on : StepEnd → Tab → W → Option (Option String) × Tab × W
      on e t1 w1 = elim e [
        | step_mined own ↦ run_steps chain chain_id address steps (suc i) sts none (some own) t1 w1
        | run_ends ↦ (none, t1, w1)
      ]

      go :
          ((own : String) (t1 : Tab) (w1 : W)
            → Upto chain (suc i) n t1
            → (on (step_mined own) t1 w1).0 ≡ some result
            → AllMined chain n ((on (step_mined own) t1 w1).1))
          → (e : StepEnd) (t1 : Tab) (w1 : W) → IfOn e (Upto chain (suc i) n t1)
          → (on e t1 w1).0 ≡ some result
          → AllMined chain n ((on e t1 w1).1)
      go later run_ends t1 w1 known end = absurd (ground arith)
      go later (step_mined own) t1 w1 known end = later own t1 w1 known end

branch-AllMined :
    {W : Type 0} (chain : Chain W) (b : Bool) (t : Tab) (w : W)
    (x : Option (Option String) × Tab × W) (result : Option String) (n : ℕ)
    → (x.0 ≡ some result → AllMined chain n x.1)
    → (if b then (none, t, w) else x).0 ≡ some result
    → AllMined chain n ((if b then (none, t, w) else x).1)
branch-AllMined chain true t w x result n later ended = absurd (ground arith)
branch-AllMined chain false t w x result n later ended = later ended

module _ {W : Type 0} (chain : Chain W) (chain_id : ℕ) (address : Option String) where
  -- A run whose end is reported has every one of its steps mined, in the state that it leaves: for each a wait for a
  -- receipt answered with one of success, of a transaction that was not replaced but by a repriced copy, whose hash the
  -- step shows. That state is done and no longer running.
  pub run-AllMined :
      (steps : List TxStep) (result : Option String) (t : Tab) (w : W)
      → (run chain chain_id address steps t w).0 ≡ some result
      → AllMined chain (length steps) ((run chain chain_id address steps t w).1)
  unfolding run run_from run_loop begun start_state
  run-AllMined steps result t w ended =
      branch-AllMined chain (length steps == 0 || t.active) t w
        (run_loop chain chain_id address steps 0 none t w) result (length steps)
        (λ (e : (run_loop chain chain_id address steps 0 none t w).0 ≡ some result).
          run_steps-AllMined chain chain_id address steps (length steps) steps 0 none none result
            (begun chain chain_id address steps 0 false t) w (omega arith)
            (kept-length 0 false t.state.steps 0 steps, tt) e)
        ended
