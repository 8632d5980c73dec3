-- ===== src/Logs/Hidden.antt =====
-- `visiblePositions` of apps/web/src/lib/visiblePositions.ts over the index of `planLiveness`: what a plan that is left
-- out of the list is.
use dca_protocol.Base.{
  Bool, true, false, List, [], ◌∷◌, any, filter_by, some, String, In, here, there, ◌≡◌, arith,
  Bool-cases, ◌⊎◌, inl, inr,
}
use dca_protocol.Base.Dict.{lookup}
use dca_protocol.Base.Names.{any-In}
use dca_protocol.Base.Text.{str_eq}
use dca_protocol.Logs.Liveness.{IndexLog, plan_liveness}
use dca_protocol.Logs.Visible.{BalanceLike, looks_empty, is_hidden_plan, visible_positions}
use dca_protocol.Logs.Latest.{latest, state_of, plan_liveness-eq-latest}

filtered_out {ℓ} :
    {A : Type ℓ} (keep : A → Bool) (a : A) (xs : List A)
    → In a xs
    → ¬ In a (filter_by keep xs)
    → keep a ≡ false
filtered_out keep a [] m gone = elim m [ ]
filtered_out keep a (x ∷ xs) (here e) gone = elim (Bool-cases (keep x)) [
  | inl kept ↦ absurd (gone (rw kept (here e)))
  | inr dropped ↦ rw e dropped
]
filtered_out keep a (x ∷ xs) (there m) gone = elim (Bool-cases (keep x)) [
  | inl kept ↦ filtered_out keep a xs m (λ more. gone (rw kept (there more)))
  | inr dropped ↦ filtered_out keep a xs m (λ more. gone (rw dropped more))
]

module _ {P : Type 0} (balances : P → BalanceLike) (key_of : P → String) where
  -- Why a plan may be left out: it holds nothing, and it was removed in this session or dropped from the vault's
  -- list by the latest log that says something of it.
  pub record IsGone (logs : List IndexLog) (hidden : List String) (p : P) : Type 0 where
    pub no_usdg : (balances p).usdg_idle ≡ 0
    pub no_boost : (balances p).boost_value ≡ 0
    pub no_stock : (balances p).stock_accrued ≡ 0
    pub removed : In (key_of p) hidden ⊎ (state_of (latest (key_of p) logs) ≡ some false)

  hidden-IsGone :
      (logs : List IndexLog) (hidden : List String) (p : P)
      → is_hidden_plan
          (balances p)
          (lookup (key_of p) (plan_liveness logs))
          (any (str_eq (key_of p)) hidden)
        ≡ true
      → IsGone logs hidden p
  unfolding is_hidden_plan looks_empty
  hidden-IsGone logs hidden p h = record {
    no_usdg = ground arith;
    no_boost = ground arith;
    no_stock = ground arith;
    removed = why;
  }
    where
      why : In (key_of p) hidden ⊎ (state_of (latest (key_of p) logs) ≡ some false)
      why = elim (Bool-cases (any (str_eq (key_of p)) hidden)) [
        | inl there_now ↦ inl (any-In _ _ there_now)
        | inr not_removed ↦ inr (ground (arith, plan_liveness-eq-latest (key_of p) logs))
      ]

  -- A plan that is not listed holds nothing, and was removed in this session or dropped from the vault's list by
  -- the latest of the index logs that says something of it.
  pub visible_positions-IsGone :
      (all : List P) (logs : List IndexLog) (hidden : List String) (p : P)
      → In p all
      → ¬ In p (visible_positions balances key_of all (some (plan_liveness logs)) hidden)
      → IsGone logs hidden p
  unfolding visible_positions
  visible_positions-IsGone all logs hidden p m gone =
      hidden-IsGone logs hidden p (ground (arith, filtered_out _ p all m gone))
