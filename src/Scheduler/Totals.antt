-- ===== src/Scheduler/Totals.antt =====
-- That the summary of a receipt adds up what the job's own vault emitted.
use dca_protocol.Base.{
  ℕ, ◌+◌, ◌≤◌, Bool, true, false, ◌||◌, List, [], ◌∷◌, Option, none, some, ◌≡◌, refl, arith, any,
  All, ◌∙◌, ap, subst, String, ◌&&◌, if◌then◌else◌, Bool-cases, inl, inr,
}
use dca_protocol.Base.Text.{to_lower, str_eq, eq_iff}
use dca_protocol.Scheduler.Types.{
  EventLog, Job, VaultEvent, epoch_page_executed, epoch_executed, plan_too_large,
  boost_withdraw_failed, other_vault_event, KeeperEvent, job_run, tips_forwarded, Receipt,
}
use dca_protocol.Scheduler.Rpc.{Viem}
use dca_protocol.Scheduler.Receipts.{
  prepend, Summary, no_events, lower_of, upper_of, add_vault_event, add_vault_events,
  add_keeper_events, vault_events, keeper_events, summarize,
}

-- What one event contributes.
abbrev pub net_of : VaultEvent → ℕ
net_of (epoch_page_executed net stock plans epoch from to) = net
net_of _ = 0

abbrev pub stock_of : VaultEvent → ℕ
stock_of (epoch_page_executed net stock plans epoch from to) = stock
stock_of _ = 0

abbrev pub plans_of : VaultEvent → ℕ
plans_of (epoch_page_executed net stock plans epoch from to) = plans
plans_of _ = 0

abbrev pub is_executed : VaultEvent → Bool
is_executed epoch_executed = true
is_executed _ = false

abbrev pub tips_of : KeeperEvent → ℕ
tips_of (tips_forwarded amount) = amount
tips_of (job_run completed) = 0

abbrev pub is_completed : KeeperEvent → Bool
is_completed (job_run completed) = completed
is_completed (tips_forwarded amount) = false

abbrev pub sum_by : {A : Type 0} → (A → ℕ) → List A → ℕ
sum_by f [] = 0
sum_by f (x ∷ xs) = f x + sum_by f xs

-- What a log adds to a sum: only an event that was emitted at the vault's address counts.
abbrev part_of : {A : Type 0} → (A → ℕ) → Option A → ℕ
part_of f none = 0
part_of f (some e) = f e

abbrev emitted_by : String → EventLog → Bool
emitted_by vault l = str_eq (to_lower l.address) (to_lower vault)

abbrev pub vault_sum : (VaultEvent → ℕ) → String → List EventLog → ℕ
vault_sum f vault [] = 0
vault_sum f vault (l ∷ ls) =
    (if emitted_by vault l then part_of f l.vault_event else 0) + vault_sum f vault ls

abbrev pub keeper_sum : (KeeperEvent → ℕ) → List EventLog → ℕ
keeper_sum f [] = 0
keeper_sum f (l ∷ ls) = part_of f l.keeper_event + keeper_sum f ls

abbrev says : {A : Type 0} → (A → Bool) → Option A → Bool
says test none = false
says test (some e) = test e

-- Whether the vault, or the keeper, says that the epoch is complete.
abbrev pub says_complete : String → List EventLog → Bool
says_complete vault [] = false
says_complete vault (l ∷ ls) =
    ((emitted_by vault l && says is_executed l.vault_event) || says is_completed l.keeper_event)
    || says_complete vault ls

sum_by-vault_events :
    (f : VaultEvent → ℕ) (vault : String) (ls : List EventLog)
    → sum_by f (vault_events vault ls) ≡ vault_sum f vault ls
unfolding vault_events
sum_by-vault_events f vault [] = refl
sum_by-vault_events f vault (l ∷ ls) =
    one l.vault_event (emitted_by vault l) _ _ (sum_by-vault_events f vault ls)
  where
    one :
        (o : Option VaultEvent) (b : Bool) (rest : List VaultEvent) (n : ℕ)
        → sum_by f rest ≡ n
        → sum_by f (if b then prepend o rest else rest) ≡ (if b then part_of f o else 0) + n
    one none true rest n h = omega (arith, h)
    one (some e) true rest n h = ap (λ (k : ℕ). f e + k) h
    one o false rest n h = omega (arith, h)

sum_by-keeper_events :
    (f : KeeperEvent → ℕ) (ls : List EventLog) → sum_by f (keeper_events ls) ≡ keeper_sum f ls
unfolding keeper_events
sum_by-keeper_events f [] = refl
sum_by-keeper_events f (l ∷ ls) = one l.keeper_event _ _ (sum_by-keeper_events f ls)
  where
    one :
        (o : Option KeeperEvent) (rest : List KeeperEvent) (n : ℕ)
        → sum_by f rest ≡ n
        → sum_by f (prepend o rest) ≡ part_of f o + n
    one none rest n h = omega (arith, h)
    one (some e) rest n h = ap (λ (k : ℕ). f e + k) h

any-says_complete :
    (vault : String) (ls : List EventLog)
    → (any is_executed (vault_events vault ls) || any is_completed (keeper_events ls))
      ≡ says_complete vault ls
unfolding vault_events keeper_events
any-says_complete vault [] = refl
any-says_complete vault (l ∷ ls) =
    one l.vault_event l.keeper_event (emitted_by vault l) _ _ _ (any-says_complete vault ls)
  where
    one :
        (o : Option VaultEvent) (k : Option KeeperEvent) (b : Bool) (es : List VaultEvent)
        (ks : List KeeperEvent) (r : Bool)
        → (any is_executed es || any is_completed ks) ≡ r
        → (any is_executed (if b then prepend o es else es) || any is_completed (prepend k ks))
          ≡ (((b && says is_executed o) || says is_completed k) || r)
    one none none true es ks r h = ground arith
    one none none false es ks r h = ground arith
    one none (some k) true es ks r h = ground arith
    one none (some k) false es ks r h = ground arith
    one (some e) none true es ks r h = ground arith
    one (some e) none false es ks r h = ground arith
    one (some e) (some k) true es ks r h = ground arith
    one (some e) (some k) false es ks r h = ground arith

-- The range includes the event's page.
abbrev pub Within : Summary → VaultEvent → Type 0
Within s (epoch_page_executed net stock plans epoch from to) =
    (l : ℕ) × (h : ℕ) × (s.from ≡ some l) × (s.to ≡ some h) × (l ≤ from) × (to ≤ h)
Within s _ = Unit {0}

-- The summary `r` is the summary `s` with the events `es` of the vault added up.
pub record Adds (s r : Summary) (es : List VaultEvent) : Type 0 where
  pub net : r.net_usdg ≡ s.net_usdg + sum_by net_of es
  pub stock : r.stock_out ≡ s.stock_out + sum_by stock_of es
  pub plans : r.plans_filled ≡ s.plans_filled + sum_by plans_of es
  pub completed : r.completed ≡ (s.completed || any is_executed es)
  pub tips : r.tips ≡ s.tips

same_range :
    (s r : Summary) (e : VaultEvent) → r.from ≡ s.from → r.to ≡ s.to → Within s e → Within r e
same_range s r (epoch_page_executed net stock plans epoch from to) ef et (l, h, el, eh, p, q) =
    (l, h, ef ∙ el, et ∙ eh, p, q)
same_range s r epoch_executed ef et w = tt
same_range s r (plan_too_large plan spend cap) ef et w = tt
same_range s r (boost_withdraw_failed requested reason) ef et w = tt
same_range s r other_vault_event ef et w = tt

module _ (viem : Viem) (decimals : ℕ) where
  add_vault_event-Adds :
      (s : Summary) (e : VaultEvent) → Adds s (add_vault_event viem decimals s e) (e ∷ [])
  unfolding add_vault_event
  add_vault_event-Adds s (epoch_page_executed net stock plans epoch from to) = ground arith
  add_vault_event-Adds s epoch_executed = ground arith
  add_vault_event-Adds s (plan_too_large plan spend cap) = ground arith
  add_vault_event-Adds s (boost_withdraw_failed requested reason) = ground arith
  add_vault_event-Adds s other_vault_event = ground arith

  Adds-cons :
      (s t r : Summary) (e : VaultEvent) (es : List VaultEvent)
      → Adds s t (e ∷ [])
      → Adds t r es
      → Adds s r (e ∷ es)
  Adds-cons s t r e es p q = ground arith

  pub add_vault_events-Adds :
      (s : Summary) (es : List VaultEvent) → Adds s (add_vault_events viem decimals s es) es
  unfolding add_vault_events
  add_vault_events-Adds s [] = ground arith
  add_vault_events-Adds s (e ∷ es) =
      Adds-cons s (add_vault_event viem decimals s e) _ e es (add_vault_event-Adds s e)
        (add_vault_events-Adds (add_vault_event viem decimals s e) es)

  Within-self : (s : Summary) (e : VaultEvent) → Within (add_vault_event viem decimals s e) e
  unfolding add_vault_event
  Within-self s (epoch_page_executed net stock plans epoch from to) =
      (lower_of s.from from, upper_of s.to to, refl, refl, lower s.from, upper s.to)
    where
      lower : (o : Option ℕ) → lower_of o from ≤ from
      lower none = omega arith
      lower (some l) = ground arith

      upper : (o : Option ℕ) → to ≤ upper_of o to
      upper none = omega arith
      upper (some h) = ground arith
  Within-self s epoch_executed = tt
  Within-self s (plan_too_large plan spend cap) = tt
  Within-self s (boost_withdraw_failed requested reason) = tt
  Within-self s other_vault_event = tt

  -- A page added to the range leaves what was in it there.
  widen :
      (l h from to from' to' : ℕ)
      → l ≤ from
      → to ≤ h
      → (lower_of (some l) from' ≤ from) × (to ≤ upper_of (some h) to')
  widen l h from to from' to' p q = ground arith

  Within-page :
      (s : Summary) (net stock plans epoch from' to' : ℕ) (e : VaultEvent)
      → Within s e
      → Within
          (add_vault_event viem decimals s (epoch_page_executed net stock plans epoch from' to'))
          e
  unfolding add_vault_event
  Within-page s n k p i from' to' (epoch_page_executed net stock plans epoch from to)
        (l, h, el, eh, p1, p2) =
      let (q1, q2) = widen l h from to from' to' p1 p2 in
      (lower_of s.from from', upper_of s.to to', refl, refl, rw el q1, rw eh q2)
  Within-page s n k p i from' to' epoch_executed w = tt
  Within-page s n k p i from' to' (plan_too_large plan spend cap) w = tt
  Within-page s n k p i from' to' (boost_withdraw_failed requested reason) w = tt
  Within-page s n k p i from' to' other_vault_event w = tt

  Within-step :
      (s : Summary) (e x : VaultEvent) → Within s x → Within (add_vault_event viem decimals s e) x
  unfolding add_vault_event
  Within-step s (epoch_page_executed net stock plans epoch from to) x w =
      Within-page s net stock plans epoch from to x w
  Within-step s epoch_executed x w =
      same_range s (add_vault_event viem decimals s epoch_executed) x refl refl w
  Within-step s (plan_too_large plan spend cap) x w =
      same_range s (add_vault_event viem decimals s (plan_too_large plan spend cap)) x refl refl w
  Within-step s (boost_withdraw_failed requested reason) x w =
      same_range s (add_vault_event viem decimals s (boost_withdraw_failed requested reason)) x refl
        refl w
  Within-step s other_vault_event x w = w

  Within-steps :
      (s : Summary) (es : List VaultEvent) (x : VaultEvent)
      → Within s x
      → Within (add_vault_events viem decimals s es) x
  unfolding add_vault_events
  Within-steps s [] x w = w
  Within-steps s (e ∷ es) x w =
      Within-steps (add_vault_event viem decimals s e) es x (Within-step s e x w)

  pub add_vault_events-Within :
      (s : Summary) (es : List VaultEvent) → All (Within (add_vault_events viem decimals s es)) es
  unfolding add_vault_events
  add_vault_events-Within s [] = tt
  add_vault_events-Within s (e ∷ es) = (
    Within-steps (add_vault_event viem decimals s e) es e (Within-self s e),
    add_vault_events-Within (add_vault_event viem decimals s e) es,
  )

-- The keeper's events change two fields only.
pub record KeeperAdds (s r : Summary) (es : List KeeperEvent) : Type 0 where
  pub net : r.net_usdg ≡ s.net_usdg
  pub stock : r.stock_out ≡ s.stock_out
  pub plans : r.plans_filled ≡ s.plans_filled
  pub from : r.from ≡ s.from
  pub to : r.to ≡ s.to
  pub completed : r.completed ≡ (s.completed || any is_completed es)
  pub tips : r.tips ≡ s.tips + sum_by tips_of es

add_keeper_events-KeeperAdds :
    (s : Summary) (es : List KeeperEvent) → KeeperAdds s (add_keeper_events s es) es
unfolding add_keeper_events
add_keeper_events-KeeperAdds s [] = ground arith
add_keeper_events-KeeperAdds s (job_run done ∷ es) =
    ground (arith, add_keeper_events-KeeperAdds (record s { completed = s.completed || done }) es)
add_keeper_events-KeeperAdds s (tips_forwarded amount ∷ es) =
    ground (arith, add_keeper_events-KeeperAdds (record s { tips = s.tips + amount }) es)

All-range :
    (s r : Summary) (es : List VaultEvent)
    → r.from ≡ s.from
    → r.to ≡ s.to
    → All (Within s) es
    → All (Within r) es
All-range s r [] ef et a = tt
All-range s r (e ∷ es) ef et a = (same_range s r e ef et a.0, All-range s r es ef et a.1)

-- The range takes in every page that a log at the vault's address reports.
abbrev pub InRange : Summary → String → EventLog → Type 0
InRange r vault l =
    to_lower l.address ≡ to_lower vault → (e : VaultEvent) → l.vault_event ≡ some e → Within r e

All-InRange :
    (r : Summary) (vault : String) (ls : List EventLog)
    → All (Within r) (vault_events vault ls)
    → All (InRange r vault) ls
unfolding vault_events
All-InRange r vault [] all = tt
All-InRange r vault (l ∷ ls) all = elim (Bool-cases (emitted_by vault l)) [
  | inl own ↦
      let kept = split l.vault_event (vault_events vault ls) (rw own at all) in
      (λ same e is. kept.0 e is, All-InRange r vault ls kept.1)
  | inr other ↦ (
    λ same e is. absurd (cc ((eq_iff (to_lower l.address) (to_lower vault)).1 same, other)),
    All-InRange r vault ls (rw other at all),
  )
]
  where
    split :
        (o : Option VaultEvent) (rest : List VaultEvent)
        → All (Within r) (prepend o rest)
        → ((e : VaultEvent) → o ≡ some e → Within r e) × All (Within r) rest
    split none rest all = (λ e is. absurd (cc is), all)
    split (some x) rest (now, later) =
        (λ e is. let same : x ≡ e = cc is in subst (Within r) same now, later)

module _ (viem : Viem) (decimals : ℕ) (receipt : Receipt) (job : Job) where
  -- What the summary says of the receipt's events.
  pub record Totals (r : Summary) : Type 0 where
    pub net : r.net_usdg ≡ vault_sum net_of job.vault receipt.logs
    pub stock : r.stock_out ≡ vault_sum stock_of job.vault receipt.logs
    pub plans : r.plans_filled ≡ vault_sum plans_of job.vault receipt.logs
    pub completed : r.completed ≡ says_complete job.vault receipt.logs
    pub tips : r.tips ≡ keeper_sum tips_of receipt.logs
    pub range : All (InRange r job.vault) receipt.logs

  -- The summary of a receipt: the USDG spent, the stock bought and the plans filled are the sums over the pages of the
  -- logs at the address of the job's own vault, in any case of the letters, the tips the sum over the keeper's events,
  -- the epoch is complete exactly when a log of the vault or of the keeper says so, and the range takes in every page
  -- of the vault's logs.
  pub summarize-Totals : Totals (summarize viem decimals receipt job)
  unfolding summarize
  summarize-Totals =
      let es = vault_events job.vault receipt.logs in
      let s = add_vault_events viem decimals no_events es in
      let p = add_vault_events-Adds viem decimals no_events es in
      let q = add_keeper_events-KeeperAdds s (keeper_events receipt.logs) in
      record {
        net = omega (arith, q.net, p.net, sum_by-vault_events net_of job.vault receipt.logs);
        stock =
            omega (arith, q.stock, p.stock, sum_by-vault_events stock_of job.vault receipt.logs);
        plans =
            omega (arith, q.plans, p.plans, sum_by-vault_events plans_of job.vault receipt.logs);
        completed = ground (arith, any-says_complete job.vault receipt.logs);
        tips = ground (arith, sum_by-keeper_events tips_of receipt.logs);
        range =
            All-InRange (add_keeper_events s (keeper_events receipt.logs)) job.vault receipt.logs (
              All-range s (add_keeper_events s (keeper_events receipt.logs)) es q.from q.to
                (add_vault_events-Within viem decimals no_events es));
      }
