-- ===== src/Buy/Floor.antt =====
-- The floor of a buy of apps/web/src/components/app/create/BuyDcaCard.tsx, from the press of Buy through every "Try again".
use dca_protocol.Base.{
  ℕ, ◌<◌, true, List, [], ◌∷◌, ◌++◌, append_assoc, Option, none, some, String, ltb, length,
  if◌then◌else◌, ◌≡◌, refl, subst, Bool-cases, inl, inr,
}
use dca_protocol.Plan.Steps.{TxStep}
use dca_protocol.Routes.Path.{BestRoute}
use dca_protocol.Create.Form.{Viem}
use dca_protocol.Buy.Card.{BuyView, needs_approval}
use dca_protocol.Buy.Order.{
  BuyOrder, buy_steps, approve_buy, wrap_steps, order_for, submit_with, submit_buy,
}
use dca_protocol.Buy.Retry.{asks, click_retry, after_read}
use dca_protocol.Buy.Built.{BuysAt, WellBuilt, Kept, buy_step-BuysAt, after_read-Kept}

module _ (viem : Viem) (v : BuyView) where
  order_for-WellBuilt :
      (next_id : ℕ) (recipient : String) (n : ℕ) (b : BestRoute) (min : ℕ)
      → v.address ≡ some recipient
      → WellBuilt viem v (order_for viem v next_id recipient n b min)
  unfolding order_for buy_steps
  order_for-WellBuilt next_id recipient n b min own =
      subst (BuysAt viem v (order_for viem v next_id recipient n b min) min)
        (append_assoc approvals (wrap_steps viem v v.pay n) _)
        (buy_step-BuysAt viem v (order_for viem v next_id recipient n b min) min
          (approvals ++ wrap_steps viem v v.pay n) b.path recipient own)
    where
      approvals : List TxStep
      approvals = if needs_approval viem v then approve_buy viem v v.pay n ∷ [] else []

  -- An order that can be open: one that was pressed, asked about again, or answered.
  pub data Open : BuyOrder → Type 0 where
    pressed : {o : BuyOrder} (next_id : ℕ) → submit_buy viem v next_id ≡ some o → Open o
    asked_again :
        {cur o : BuyOrder} (recipient : Option String) (failed_at : Option ℕ) (n : ℕ) (to : String)
        → Open cur
        → click_retry (some cur) recipient failed_at ≡ asks o n to
        → Open o
    answered :
        {cur next : BuyOrder} (asked : BuyOrder) (failed_at : ℕ) (recipient : String)
        (fresh : Option BestRoute)
        → v.address ≡ some recipient
        → Open cur
        → failed_at < length cur.steps
        → (after_read viem v (some cur) asked failed_at recipient fresh).order ≡ some next
        → Open next

  submit_with-WellBuilt :
      (next_id : ℕ) (a : Option String) (n : Option ℕ) (b : Option BestRoute) (m : Option ℕ)
      (o : BuyOrder)
      → v.address ≡ a
      → submit_with viem v next_id a n b m ≡ some o
      → WellBuilt viem v o
  unfolding submit_with
  submit_with-WellBuilt next_id none n b m o own h = absurd (cc h)
  submit_with-WellBuilt next_id (some a) none b m o own h = absurd (cc h)
  submit_with-WellBuilt next_id (some a) (some n) none m o own h = absurd (cc h)
  submit_with-WellBuilt next_id (some a) (some n) (some b) none o own h = absurd (cc h)
  submit_with-WellBuilt next_id (some a) (some n) (some b) (some m) o own h =
      elim (Bool-cases (ltb 0 n)) [
        | inl above ↦
            let same : order_for viem v next_id a n b m ≡ o = cc (rw above at h) in
            subst (WellBuilt viem v) same (order_for-WellBuilt next_id a n b m own)
        | inr nothing ↦ absurd (cc (rw nothing at h))
      ]

  asks-order :
      (cur o : BuyOrder) (recipient : Option String) (failed_at : Option ℕ) (n : ℕ) (to : String)
      → click_retry (some cur) recipient failed_at ≡ asks o n to
      → WellBuilt viem v cur
      → WellBuilt viem v o
  unfolding click_retry BuysAt
  asks-order cur o none failed_at n to h built = absurd (cc h)
  asks-order cur o (some r) none n to h built = absurd (cc h)
  asks-order cur o (some r) (some k) n to h built = elim (Bool-cases cur.requoting) [
    | inl out ↦ absurd (cc (rw out at h))
    | inr free ↦
        let same : record cur { requoting = true } ≡ o = cc (rw free at h) in
        subst (WellBuilt viem v) same built
  ]

  Open-WellBuilt : {o : BuyOrder} → Open o → WellBuilt viem v o
  unfolding submit_buy
  Open-WellBuilt (pressed next_id h) = submit_with-WellBuilt next_id v.address _ _ _ _ refl h
  Open-WellBuilt (asked_again recipient failed_at n to open_now h) =
      asks-order _ _ recipient failed_at n to h (Open-WellBuilt open_now)
  Open-WellBuilt (answered asked failed_at recipient fresh own open_now inside h) =
      (after_read-Kept viem v _ asked failed_at recipient fresh own (Open-WellBuilt open_now)
          inside).shows
        _ h

  -- From the press of Buy on and through every "Try again" of one wallet, whatever the fresh route is: what is sent ends
  -- with the router's call that swaps the amount of the order, in the token it is paid in, for $DCA to that wallet, at a
  -- least amount no lower than the floor shown; the order that is shown next ends with such a call at the floor it shows;
  -- and if that floor is lower, nothing is sent, and the floor that was shown is kept for the note.
  pub after_read-KeepsFloor :
      (cur asked : BuyOrder) (failed_at : ℕ) (recipient : String) (fresh : Option BestRoute)
      → v.address ≡ some recipient
      → Open cur
      → failed_at < length cur.steps
      → Kept viem v cur (after_read viem v (some cur) asked failed_at recipient fresh)
  after_read-KeepsFloor cur asked failed_at recipient fresh own open_now inside =
      after_read-Kept viem v cur asked failed_at recipient fresh own (Open-WellBuilt open_now)
        inside
