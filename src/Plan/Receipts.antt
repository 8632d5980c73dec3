-- ===== src/Plan/Receipts.antt =====
-- What an order is said to have done, from its receipt (apps/web/src/lib/planSteps.ts).
use dca_protocol.Base.{
  ℕ, Bool, true, false, List, All, ==_iff, Bool-cases, inl, inr, [], ◌∷◌, Option, none, some,
  String, map, filter_by, ◌≡◌, refl, ap, arith, any, ◌∙◌,
}
use dca_protocol.Base.Int.{ℤ, sub_ℕ}
use dca_protocol.Base.Text.{to_lower, eq_iff}
use dca_protocol.Plan.Steps.{FlowStep, PlanRef}
use dca_protocol.Plan.Orders.Kinds.{
  PlanOrder, deposit, withdraw, claim, boost, unboost, pause, base_of, WithdrawOrder, Pay,
}
use dca_protocol.Plan.Orders.Outcome.{
  Entry, is_mine, same_plan, last_of_kind, pick_withdrawn, settled_row, settled_boost, settle,
  settled_withdraw, mine_of, outcome_of, plan_outcome_line, claim_outcome, withdraw_outcome,
  deposit_line, deposit_outcome, boost_outcome, unboost_outcome, pause_outcome,
}

settled_row-again : (r : ℤ) (f : FlowStep) → settled_row r (settled_row r f) ≡ settled_row r f
unfolding settled_row
settled_row-again r f = ground arith

settled_rows-again :
    (r : ℤ) (fs : List FlowStep)
    → map (settled_row r) (map (settled_row r) fs) ≡ map (settled_row r) fs
settled_rows-again r [] = refl
settled_rows-again r (f ∷ fs) = cc (settled_row-again r f, settled_rows-again r fs)

settled_boost-again :
    (from_boost paid asked : ℕ)
    → settled_boost (settled_boost from_boost paid asked) paid paid
      ≡ settled_boost from_boost paid asked
unfolding settled_boost
settled_boost-again from_boost paid asked = ground arith

settle-again : (o : WithdrawOrder) (e : Option (ℕ × ℕ)) → settle (settle o e) e ≡ settle o e
unfolding settle
settle-again o none = refl
settle-again o (some (paid, fee)) = cc (
  settled_rows-again (sub_ℕ paid fee) o.base.flow,
  settled_boost-again o.from_boost paid o.amount,
)

settle_ref : (o : WithdrawOrder) (e : Option (ℕ × ℕ)) → (settle o e).base.ref ≡ o.base.ref
unfolding settle
settle_ref o none = refl
settle_ref o (some (paid, fee)) = refl

deposit_line-none : (p : Pay) (boosted : Bool) → deposit_line p boosted none none ≡ none
unfolding deposit_line
deposit_line-none Pay.usdg boosted = refl
deposit_line-none Pay.eth boosted = refl

outcome_of-none : (units : ℤ → ℕ → String) (o : PlanOrder) → outcome_of units o [] ≡ none
unfolding outcome_of last_of_kind claim_outcome withdraw_outcome deposit_outcome boost_outcome
    unboost_outcome pause_outcome
outcome_of-none units (deposit o) = deposit_line-none o.pay o.boosted
outcome_of-none units (withdraw o) = refl
outcome_of-none units (claim o) = refl
outcome_of-none units (boost o) = refl
outcome_of-none units (unboost o) = refl
outcome_of-none units (pause o) = refl

filter_by-none :
    {A : Type 0} (keep : A → Bool) (xs : List A) → any keep xs ≡ false → filter_by keep xs ≡ []
filter_by-none keep [] h = refl
filter_by-none keep (x ∷ xs) h = ground (arith, filter_by-none keep xs)

-- An event of another vault, or of another plan than the one referred to.
abbrev pub IsForeign : PlanRef → Entry → Type 0
IsForeign ref e = to_lower e.address ≡ to_lower ref.vault → ¬ (e.plan_id ≡ some ref.plan_id)

foreign-is_mine : (ref : PlanRef) (e : Entry) → IsForeign ref e → is_mine ref e ≡ false
unfolding is_mine
foreign-is_mine ref e foreign = elim (Bool-cases (is_mine ref e)) [
  | inl own ↦ absurd (foreign ((eq_iff _ _).0 (ground arith)) (own_plan e.plan_id (ground arith)))
  | inr other ↦ other
]
  where
    own_plan : (o : Option ℕ) → same_plan o ref.plan_id ≡ true → o ≡ some ref.plan_id
    own_plan none h = absurd (cc h)
    own_plan (some p) h = ap some ((==_iff p ref.plan_id).0 h)

foreign-any :
    (ref : PlanRef) (es : List Entry) → All (IsForeign ref) es → any (is_mine ref) es ≡ false
foreign-any ref [] all = refl
foreign-any ref (e ∷ es) (foreign, all) =
    rw (foreign-is_mine ref e foreign) (foreign-any ref es all)

module _ {Log : Type 0} (parse_event_logs : List Log → List Entry) where
  -- Stating a withdrawal with its receipt a second time changes nothing more.
  pub settled_withdraw-again :
      (o : WithdrawOrder) (logs : List Log)
      → settled_withdraw parse_event_logs (settled_withdraw parse_event_logs o logs) logs
        ≡ settled_withdraw parse_event_logs o logs
  unfolding settled_withdraw mine_of
  settled_withdraw-again o logs =
      ap
        (λ (r : PlanRef).
          settle (settle o own)
            (last_of_kind pick_withdrawn (filter_by (is_mine r) (parse_event_logs logs))))
        (settle_ref o own)
      ∙ settle-again o own
    where
      own : Option (ℕ × ℕ)
      own = last_of_kind pick_withdrawn (mine_of parse_event_logs o.base.ref logs)

  -- Nothing is said of a receipt each event of which has another address than the order's vault, in any case of the
  -- letters, or another plan.
  pub plan_outcome_line-foreign :
      (units : ℤ → ℕ → String) (o : PlanOrder) (logs : List Log)
      → All (IsForeign (base_of o).ref) (parse_event_logs logs)
      → plan_outcome_line parse_event_logs units o logs ≡ none
  unfolding plan_outcome_line mine_of
  plan_outcome_line-foreign units o logs foreign =
      ap (outcome_of units o) (
        filter_by-none (is_mine (base_of o).ref) (parse_event_logs logs)
          (foreign-any (base_of o).ref (parse_event_logs logs) foreign))
      ∙ outcome_of-none units o
