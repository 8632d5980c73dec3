-- ===== src/Buy/Built.antt =====
-- Orders of apps/web/src/components/app/create/BuyDcaCard.tsx whose calls buy at the floor that they show, and what an
-- answer keeps of them.
use dca_protocol.Base.{
  ℕ, zero, suc, ◌≤◌, ◌<◌, Bool, true, false, List, [], ◌∷◌, ◌++◌, Option, none, some, String, leb,
  ◌==◌, length, drop, last_of, if◌then◌else◌, ◌≡◌, refl, sym, ap, subst, ◌∙◌, arith, Bool-cases,
  inl, inr,
}
use dca_protocol.Plan.Steps.{step, number, account, hops, aggregator_router_abi, TxParams, TxStep}
use dca_protocol.Plan.Orders.Kinds.{Pay}
use dca_protocol.Create.Types.{Directory}
use dca_protocol.Routes.Path.{RouteHop, BestRoute}
use dca_protocol.Create.Form.{Viem}
use dca_protocol.Buy.Card.{BuyView, with_slippage, pay_token}
use dca_protocol.Buy.Order.{BuyOrder, but_last, buy_step}
use dca_protocol.Buy.Retry.{Answer, next_floor, repriced_order, answer_for, after_read}

module _ {ℓ} {A : Type ℓ} where
  pub last_of-append : (xs : List A) (x : A) → last_of (xs ++ (x ∷ [])) ≡ some x
  last_of-append [] x = refl
  last_of-append (y ∷ []) x = refl
  last_of-append (y ∷ z ∷ xs) x = last_of-append (z ∷ xs) x

  last_of-drop : (n : ℕ) (xs : List A) → n < length xs → last_of (drop n xs) ≡ last_of xs
  last_of-drop zero xs h = refl
  last_of-drop (suc n) [] h = absurd (omega (arith, h))
  last_of-drop (suc n) (x ∷ []) h = absurd (omega (arith, h))
  last_of-drop (suc n) (x ∷ y ∷ xs) h = last_of-drop n (y ∷ xs) (omega (arith, h))

  length-put_last :
      (n : ℕ) (xs : List A) (x : A) → n < length xs → n < length (but_last xs ++ (x ∷ []))
  length-put_last n [] x h = absurd (omega (arith, h))
  length-put_last n (y ∷ []) x h = h
  length-put_last zero (y ∷ z ∷ xs) x h = omega arith
  length-put_last (suc n) (y ∷ z ∷ xs) x h =
      let more = length-put_last n (z ∷ xs) x (omega (arith, h)) in omega (arith, more)

next_floor-kept : (out shown : ℕ) → shown ≤ out → shown ≤ next_floor out shown
unfolding next_floor
next_floor-kept out shown le = ground arith

next_floor-below : (out shown : ℕ) → out < shown → next_floor out shown < shown
unfolding next_floor with_slippage
next_floor-below out shown le = ground arith

-- The token that a currency is paid in at the router: ETH has been wrapped.
abbrev pub token_paid : Directory → Pay → String
token_paid d Pay.usdg = d.usdg
token_paid d Pay.eth = d.weth

pay_token-token_paid : (d : Directory) (pay : Pay) → pay_token d pay ≡ token_paid d pay
unfolding pay_token
pay_token-token_paid d Pay.usdg = refl
pay_token-token_paid d Pay.eth = refl

module _ (viem : Viem) (v : BuyView) where
  -- The call of the router that buys $DCA, in the order of the contract's arguments: token in, token out, amount in,
  -- least amount out, recipient, path.
  abbrev pub swap_call : Pay → ℕ → ℕ → String → List RouteHop → TxParams
  swap_call pay amount_in floor recipient path = record {
    address = v.dir.router;
    abi = aggregator_router_abi;
    function_name = "swapWithRoute";
    args =
        account (token_paid v.dir pay)
        ∷ account v.dir.dca
        ∷ number amount_in
        ∷ number floor
        ∷ account recipient
        ∷ hops path
        ∷ [];
    value = none;
  }

  -- A list of steps that ends with the buy of an order, down to some floor, for the wallet.
  unfoldable pub BuysAt : BuyOrder → ℕ → List TxStep → Type 0
  BuysAt o floor steps =
      (label : String) × (path : List RouteHop) × (recipient : String) × (v.address
        ≡ some recipient)
      × (last_of steps ≡ some (step label (swap_call o.pay o.amount_in floor recipient path)))

  pub buy_step-BuysAt :
      (o : BuyOrder) (floor : ℕ) (xs : List TxStep) (path : List RouteHop) (recipient : String)
      → v.address ≡ some recipient
      → BuysAt o floor (xs ++ (buy_step viem v o.pay o.amount_in floor path recipient ∷ []))
  unfolding BuysAt buy_step
  buy_step-BuysAt o floor xs path recipient own = (
    (buy_step viem v o.pay o.amount_in floor path recipient).label,
    path,
    recipient,
    own,
    last_of-append xs _ ∙ rw (pay_token-token_paid v.dir o.pay) refl,
  )

  -- The steps of an order buy at the floor that it shows.
  abbrev pub WellBuilt : BuyOrder → Type 0
  WellBuilt o = BuysAt o o.min_out o.steps

  -- What an answer keeps of the order that was shown.
  pub record Kept (cur : BuyOrder) (a : Answer) : Type 0 where
    pub sends :
        (steps : List TxStep)
        → a.sent ≡ some steps
        → (floor : ℕ) × BuysAt cur floor steps × (cur.min_out ≤ floor)
    pub shows : (next : BuyOrder) → a.order ≡ some next → WellBuilt next
    pub holds_back :
        (next : BuyOrder)
        → a.order ≡ some next
        → next.min_out < cur.min_out
        → (a.sent ≡ none) × (next.repriced ≡ some cur.min_out)

  repriced-WellBuilt :
      (cur : BuyOrder) (fresh : BestRoute) (recipient : String)
      → v.address ≡ some recipient
      → WellBuilt (repriced_order viem v cur fresh recipient)
  unfolding repriced_order
  repriced-WellBuilt cur fresh recipient own =
      buy_step-BuysAt (repriced_order viem v cur fresh recipient) _ (but_last cur.steps) fresh.path
        recipient own

  drop-BuysAt :
      (o : BuyOrder) (floor n : ℕ) (steps : List TxStep)
      → n < length steps
      → BuysAt o floor steps
      → BuysAt o floor (drop n steps)
  unfolding BuysAt
  drop-BuysAt o floor n steps h (label, path, recipient, own, last) =
      (label, path, recipient, own, last_of-drop n steps h ∙ last)

  unchanged-Kept :
      (cur : BuyOrder) (failed_at : ℕ)
      → WellBuilt cur
      → failed_at < length cur.steps
      → Kept cur (record {
        order = some (record cur { requoting = false; repriced = none });
        sent = some (drop failed_at cur.steps);
      })
  unfolding BuysAt
  unchanged-Kept cur failed_at built inside = record {
    sends = λ steps e.
        let same : drop failed_at cur.steps ≡ steps = cc e in
        (
          cur.min_out,
          subst (BuysAt cur cur.min_out) same
              (drop-BuysAt cur cur.min_out failed_at cur.steps inside built),
          omega arith,
        );
    shows = λ next e.
        let same : record cur { requoting = false; repriced = none } ≡ next = cc e in
        subst WellBuilt same built;
    holds_back = λ next e low.
        let same : record cur { requoting = false; repriced = none } ≡ next = cc e in
        absurd (omega (arith, low, ap (λ (o : BuyOrder). o.min_out) same));
  }

  repriced-sends :
      (cur : BuyOrder) (failed_at : ℕ) (recipient : String) (fresh : BestRoute)
      → v.address ≡ some recipient
      → failed_at < length cur.steps
      → cur.min_out ≤ fresh.amount_out
      → (floor : ℕ) × BuysAt cur floor
          (drop failed_at (repriced_order viem v cur fresh recipient).steps)
        × (cur.min_out ≤ floor)
  unfolding repriced_order
  repriced-sends cur failed_at recipient fresh own inside reached = (
    next_floor fresh.amount_out cur.min_out,
    drop-BuysAt cur _ failed_at _ (length-put_last failed_at cur.steps _ inside)
        (buy_step-BuysAt cur _ (but_last cur.steps) fresh.path recipient own),
    next_floor-kept fresh.amount_out cur.min_out reached,
  )

  repriced-Kept :
      (cur : BuyOrder) (failed_at : ℕ) (recipient : String) (fresh : BestRoute) (reached : Bool)
      → v.address ≡ some recipient
      → leb cur.min_out fresh.amount_out ≡ reached
      → failed_at < length cur.steps
      → Kept cur (record {
        order = some (repriced_order viem v cur fresh recipient);
        sent =
            if reached
            then some (drop failed_at (repriced_order viem v cur fresh recipient).steps)
            else none;
      })
  repriced-Kept cur failed_at recipient fresh true own reached inside = record {
    sends = λ steps e.
        subst (λ (l : List TxStep). (floor : ℕ) × BuysAt cur floor l × (cur.min_out ≤ floor)) (cc e)
          (repriced-sends cur failed_at recipient fresh own inside (ground arith));
    shows = λ next e. subst WellBuilt (cc e) (repriced-WellBuilt cur fresh recipient own);
    holds_back = λ next e low.
        let same : repriced_order viem v cur fresh recipient ≡ next = cc e in
        let kept : cur.min_out ≤ next_floor fresh.amount_out cur.min_out =
          next_floor-kept fresh.amount_out cur.min_out (ground arith) in
        let floor : next_floor fresh.amount_out cur.min_out ≡ next.min_out =
          unfold repriced_order in ap (λ (o : BuyOrder). o.min_out) same in
        absurd (omega (arith, low, kept, floor));
  }
  repriced-Kept cur failed_at recipient fresh false own missed inside = record {
    sends = λ steps e. absurd (cc e);
    shows = λ next e. subst WellBuilt (cc e) (repriced-WellBuilt cur fresh recipient own);
    holds_back = λ next e low.
        let same : repriced_order viem v cur fresh recipient ≡ next = cc e in
        (
          refl,
          sym (ap (λ (o : BuyOrder). o.repriced) same) ∙ unfold repriced_order in rw missed refl,
        );
  }

  answer_for-Kept :
      (cur : BuyOrder) (failed_at : ℕ) (recipient : String) (fresh : Option BestRoute)
      → v.address ≡ some recipient
      → WellBuilt cur
      → failed_at < length cur.steps
      → Kept cur (answer_for viem v cur failed_at recipient fresh)
  unfolding answer_for
  answer_for-Kept cur failed_at recipient none own built inside =
      unchanged-Kept cur failed_at built inside
  answer_for-Kept cur failed_at recipient (some fresh) own built inside =
      repriced-Kept cur failed_at recipient fresh _ own refl inside

  dropped-Kept :
      (cur : BuyOrder) → WellBuilt cur → Kept cur (record { order = some cur; sent = none })
  dropped-Kept cur built = record {
    sends = λ steps e. absurd (cc e);
    shows = λ next e. subst WellBuilt (cc e) built;
    holds_back = λ next e low.
        let same : cur ≡ next = cc e in
        absurd (omega (arith, low, ap (λ (o : BuyOrder). o.min_out) same));
  }

  pub after_read-Kept :
      (cur asked : BuyOrder) (failed_at : ℕ) (recipient : String) (fresh : Option BestRoute)
      → v.address ≡ some recipient
      → WellBuilt cur
      → failed_at < length cur.steps
      → Kept cur (after_read viem v (some cur) asked failed_at recipient fresh)
  unfolding after_read
  after_read-Kept cur asked failed_at recipient fresh own built inside =
      elim (Bool-cases (cur.id == asked.id)) [
        | inl same ↦ rw same (answer_for-Kept cur failed_at recipient fresh own built inside)
        | inr other ↦ rw other (dropped-Kept cur built)
      ]
