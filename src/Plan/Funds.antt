-- ===== src/Plan/Funds.antt =====
-- apps/web/src/lib/planFunds.ts: how a plan's balance compares with its purchase amount, and the copy.
use dca_protocol.Base.{
  ℕ, ◌+◌, ◌-◌, ◌*◌, ◌/◌, Bool, true, false, [], ◌∷◌, Option, none, some, String, ltb, leb, ◌==◌,
  if◌then◌else◌,
}
use dca_protocol.Base.Text.{template, grouped}
use dca_protocol.Plan.Format.{usd}

abbrev pub usdg_dust : ℕ
usdg_dust = 10000

pub data FundsLevel : Type 0 where
  empty : FundsLevel
  dust : FundsLevel
  short_of_buy : FundsLevel
  ok : FundsLevel

unfoldable pub funds_level : ℕ → ℕ → FundsLevel
funds_level balance per_buy =
    if balance == 0
    then empty
    else if ltb balance usdg_dust
    then dust
    else if ltb balance per_buy
    then short_of_buy
    else ok

-- What a balance pays for: the purchases in full, and what is left.
unfoldable pub full_buys : ℕ → ℕ → ℕ
full_buys balance per_buy = balance / per_buy

unfoldable pub rest_of : ℕ → ℕ → ℕ
rest_of balance per_buy = balance - full_buys balance per_buy * per_buy

unfoldable pub coverage_copy : ℕ → ℕ → String
coverage_copy balance per_buy =
    if per_buy == 0
    then "—"
    else if full_buys balance per_buy == 0
    then "less than one buy"
    else template (
        grouped (full_buys balance per_buy)
        ∷ " "
        ∷ (if full_buys balance per_buy == 1 then "buy" else "buys")
        ∷ (if leb usdg_dust (rest_of balance per_buy)
            then template (" + a " ∷ usd (rest_of balance per_buy) ∷ " final buy" ∷ [])
            else "")
        ∷ [])

-- The deposit before it is rounded up to the cent; a fee of all or more leaves nothing to divide by.
unfoldable pub gross_for : ℕ → ℕ → ℕ
gross_for net fee_bps =
    let keep = 10000 - fee_bps in if ltb 0 keep then (net * 10000 + keep - 1) / keep else net

unfoldable pub deposit_for : ℕ → ℕ → ℕ
deposit_for net fee_bps = (gross_for net fee_bps + usdg_dust - 1) / usdg_dust * usdg_dust

unfoldable pub next_buy : Bool → String
next_buy paused = if paused then "Once you resume the plan, its next buy" else "The next buy"

unfoldable pub deposit_short_copy : ℕ → ℕ → Bool → Bool → Option String → String
deposit_short_copy after_deposit per_buy paused approx top_up =
    let left = template ((if approx then "≈ " else "") ∷ usd after_deposit ∷ []) in
    template (
      "After this deposit the plan holds "
      ∷ left
      ∷ " — less than one "
      ∷ usd per_buy
      ∷ " buy. "
      ∷ next_buy paused
      ∷ " spends all "
      ∷ left
      ∷ ", then the plan stops until you top it up."
      ∷ elim top_up [ none ↦ "" | some t ↦ template (" " ∷ t ∷ []) ]
      ∷ [])

pub data Tone : Type 0 where
  warn : Tone
  info : Tone

pub record Notice : Type 0 where
  tone : Tone
  text : String

-- `bought === false`, of a flag that may be missing.
abbrev never_bought : Option Bool → Bool
never_bought (some false) = true
never_bought (some true) = false
never_bought none = false

unfoldable pub withdraw_left_copy : ℕ → ℕ → Bool → Option Bool → Option Notice
withdraw_left_copy remaining per_buy paused bought =
    if remaining == 0
    then some (record {
      tone = info;
      text = template (
          "This empties the plan."
          ∷ (if never_bought bought
              then ""
              else if paused
              then " It stays paused and buys nothing until you deposit and resume it."
              else " It stops buying until you deposit again.")
          ∷ " Stock already bought stays claimable."
          ∷ []);
    })
    else if never_bought bought
    then none
    else if leb per_buy remaining
    then none
    else some (record {
      tone = warn;
      text = template (
          "This leaves "
          ∷ usd remaining
          ∷ " — less than one "
          ∷ usd per_buy
          ∷ " buy. "
          ∷ next_buy paused
          ∷ " spends all of it, then the plan stops buying."
          ∷ []);
    })

unfoldable pub level_copy : FundsLevel → ℕ → ℕ → Bool → Option Notice
level_copy ok balance per_buy paused = none
level_copy empty balance per_buy paused = some (
    if paused
    then record {
      tone = info;
      text =
          "Paused and out of funds. Deposit and resume it to buy again, or remove it from the plan's menu.";
    }
    else record {
      tone = warn;
      text = "Out of funds — this plan has stopped buying. Deposit to keep it going.";
    })
level_copy dust balance per_buy paused = some (
    if paused
    then record {
      tone = info;
      text =
          "Paused with less than $0.01 left. Deposit and resume it to buy again, or remove it from the plan's menu.";
    }
    else record {
      tone = warn;
      text =
          "Less than $0.01 is left: the next buy spends it, then the plan stops. Deposit to keep it going.";
    })
level_copy short_of_buy balance per_buy paused = some (
    if paused
    then record {
      tone = info;
      text = template (
          "Paused with "
          ∷ usd balance
          ∷ " — less than one "
          ∷ usd per_buy
          ∷ " buy. Once you resume it, its next buy spends all of it, then the plan stops."
          ∷ []);
    }
    else record {
      tone = info;
      text = template (
          "Last buy: the next buy spends the remaining "
          ∷ usd balance
          ∷ ", then the plan stops. Deposit to keep it going."
          ∷ []);
    })

unfoldable pub row_funds_copy : ℕ → ℕ → Bool → Option Notice
unfolding level_copy
row_funds_copy balance per_buy paused =
    level_copy (funds_level balance per_buy) balance per_buy paused
