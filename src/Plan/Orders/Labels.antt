-- ===== src/Plan/Orders/Labels.antt =====
-- The step labels and shared texts of apps/web/src/lib/planSteps.ts and apps/web/src/lib/removeSteps.ts.
use dca_protocol.Base.{
  ℕ, Bool, false, ◌&&◌, not, [], ◌∷◌, Option, none, some, String, if◌then◌else◌,
}
use dca_protocol.Base.Text.{template, to_lower, str_eq}
use dca_protocol.Plan.Format.{short}

abbrev pub step_approve : String
step_approve = "Approve USDG"

abbrev pub step_deposit : String
step_deposit = "Deposit"

abbrev pub step_withdraw_part : String
step_withdraw_part = "Withdraw"

abbrev pub step_boost : String
step_boost = "Boost"

abbrev pub step_unboost : String
step_unboost = "Unboost"

-- `claimLabel` and `recipientCopy` of apps/web/src/lib/removeSteps.ts.
unfoldable pub claim_label : String → String
claim_label symbol = template ("Claim " ∷ symbol ∷ [])

-- `!!signer && recipient.toLowerCase() === signer.toLowerCase()`
unfoldable pub is_signer : String → Option String → Bool
is_signer recipient none = false
is_signer recipient (some signer) =
    not (str_eq signer "") && str_eq (to_lower recipient) (to_lower signer)

unfoldable pub recipient_copy : String → Option String → String
recipient_copy recipient signer =
    if is_signer recipient signer
    then "your wallet"
    else template ("the plan's recipient " ∷ short (some recipient) ∷ [])

-- `opt === undefined ? "" : text(opt)`
abbrev pub optional_text : Option ℕ → (ℕ → String) → String
optional_text none text = ""
optional_text (some n) text = text n
