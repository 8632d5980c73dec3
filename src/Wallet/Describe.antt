-- ===== src/Wallet/Describe.antt =====
-- `describeTxError` of apps/web/src/lib/txErrors.ts.
-- A thrown value is the chain of its causes, the outermost first; `BaseError.walk` of viem looks along it.
use dca_protocol.Base.{
  Bool, true, false, ◌||◌, List, [], ◌∷◌, Option, none, some, String, if◌then◌else◌,
}
use dca_protocol.Base.Text.{template, str_eq}
use dca_protocol.Wallet.Errors.{
  Revert, Link, Thrown, base_error, js_error, thrown_object, thrown_text, thrown_other,
  SendConflict, TxErrorDescription, Mood, warn, error, rejected_copy, still_pending_copy,
  reverted_copy, friendly, revert_of, is_user_rejection, is_receipt_timeout, send_conflict_of,
  unresolved_copy,
}

abbrev described : Mood → String → Option String → TxErrorDescription
described m t name = record {
  kind = m;
  title = t;
  error_name = name;
  rejected = false;
  timed_out = false;
  conflict = none;
}

-- `a || b`, of texts of which the first may be missing or "".
abbrev non_empty : Option String → String → String
non_empty none other = other
non_empty (some t) other = if str_eq t "" then other else t

-- The name of a custom error: Error(string) and Panic are not custom.
custom_name : Option String → Option String
custom_name none = none
custom_name (some name) =
    if str_eq name "" || str_eq name "Error" || str_eq name "Panic" then none else some name

worded_reason : Option String → Option String
worded_reason none = none
worded_reason (some r) = if str_eq r "" || str_eq r "execution reverted" then none else some r

revert_title : Option String → Option String → String
revert_title (some reason) name = reason
revert_title none (some name) = template ("Reverted with " ∷ name ∷ [])
revert_title none none = reverted_copy

unfoldable pub describe_revert : Revert → TxErrorDescription
unfolding custom_name worded_reason revert_title
describe_revert r =
    described error (revert_title (worded_reason r.reason) (custom_name r.error_name))
      (custom_name r.error_name)

unfoldable pub first_revert : List Link → Option Revert
first_revert [] = none
first_revert (l ∷ ls) = elim (revert_of l.class) [ some r ↦ some r | none ↦ first_revert ls ]

unfoldable pub describe_base : Link → Option Revert → TxErrorDescription
describe_base l (some r) = describe_revert r
describe_base l none =
    described error
      (friendly (some (non_empty l.short_message (non_empty l.message reverted_copy)))) none

-- What is left when the error is neither a rejection, a timeout nor a nonce conflict.
unfoldable pub describe_failure : Thrown → TxErrorDescription
unfolding first_revert describe_base
describe_failure (base_error l ls end) = describe_base l (first_revert (l ∷ ls))
describe_failure (js_error l ls end) =
    described error (friendly (some (non_empty l.message reverted_copy))) none
describe_failure (thrown_text t) =
    described error (if str_eq t "" then reverted_copy else friendly (some t)) none
describe_failure (thrown_object l ls end) = described error reverted_copy none
describe_failure thrown_other = described error reverted_copy none

unfoldable pub describe_conflict : Option SendConflict → Thrown → TxErrorDescription
describe_conflict none err = describe_failure err
describe_conflict (some c) err = record {
  kind = warn;
  title = unresolved_copy c;
  error_name = none;
  rejected = false;
  timed_out = false;
  conflict = some c;
}

-- By the three tests, in their order.
unfoldable pub describe_as : Bool → Bool → Option SendConflict → Thrown → TxErrorDescription
describe_as true timeout c err = record {
  kind = warn;
  title = rejected_copy;
  error_name = none;
  rejected = true;
  timed_out = false;
  conflict = none;
}
describe_as false true c err = record {
  kind = warn;
  title = still_pending_copy;
  error_name = none;
  rejected = false;
  timed_out = true;
  conflict = none;
}
describe_as false false c err = describe_conflict c err

unfoldable pub describe_tx_error : Thrown → TxErrorDescription
describe_tx_error err =
    describe_as (is_user_rejection err) (is_receipt_timeout err) (send_conflict_of err) err
