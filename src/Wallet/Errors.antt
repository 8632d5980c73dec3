-- ===== src/Wallet/Errors.antt =====
-- apps/web/src/lib/txErrors.ts: what a failed or slow transaction is called.
-- A thrown value is the chain of its causes, the outermost first; `BaseError.walk` of viem looks along it.
use Prim.Native.Char.{Char, code}
use dca_protocol.Base.{
  ℕ, zero, suc, Bool, true, false, not, ◌&&◌, ◌||◌, List, [], ◌∷◌, ◌++◌, Option, none, some, String,
  leb, ◌==◌, if◌then◌else◌, or_else,
}
use dca_protocol.Base.Text.{join, to_lower, str_eq, starts_with, drop_text}

-- The decoded custom error of a revert, and the text of its reason.
pub record Revert : Type 0 where
  pub error_name : Option String
  pub reason : Option String

-- The classes of viem's errors that the module asks for.
pub data Class : Type 0 where
  user_rejected : Class
  receipt_timeout : Class
  contract_reverted : Revert → Class
  other_class : Class

-- An object of the chain with the four messages it may carry.
pub record Link : Type 0 where
  pub class : Class
  pub details : Option String
  pub short_message : Option String
  pub message : Option String
  pub data_message : Option String

-- What was thrown: a viem error, another Error, another object, a text, or anything else. A chain may end in a text.
pub data Thrown : Type 0 where
  base_error : Link → List Link → Option String → Thrown
  js_error : Link → List Link → Option String → Thrown
  thrown_object : Link → List Link → Option String → Thrown
  thrown_text : String → Thrown
  thrown_other : Thrown

pub data SendConflict : Type 0 where
  stale_nonce : SendConflict
  nonce_in_use : SendConflict
  already_sent : SendConflict

pub data Mood : Type 0 where
  warn : Mood
  error : Mood

pub record TxErrorDescription : Type 0 where
  pub kind : Mood
  pub title : String
  pub error_name : Option String
  pub rejected : Bool
  pub timed_out : Bool
  pub conflict : Option SendConflict

abbrev pub rejected_copy : String
rejected_copy = "You rejected this in your wallet."

abbrev pub still_pending_copy : String
still_pending_copy = "Still pending — check your wallet or the explorer."

abbrev pub reverted_copy : String
reverted_copy = "Transaction reverted"

-- A regular expression that is a literal text, tested anywhere in a text.
unfoldable pub contains : String → String → Bool
contains sub String.[] = str_eq sub ""
contains sub (String.◌∷◌ c s) = starts_with (String.◌∷◌ c s) sub || contains sub s

-- Letters, digits and the underscore, which `\b` lies between and the rest.
is_word : Char → Bool
is_word c =
    (leb 97 (code c) && leb (code c) 122)
    || (leb 65 (code c) && leb (code c) 90)
    || (leb 48 (code c) && leb (code c) 57)
    || code c == 95

ends_word : String → Bool
unfolding is_word
ends_word String.[] = true
ends_word (String.◌∷◌ c s) = not (is_word c)

-- `\bwords\b`, of words of a known length, after a character that is a word's or not.
word_from : ℕ → String → Bool → String → Bool
unfolding is_word ends_word
word_from n words inside String.[] = false
word_from n words inside (String.◌∷◌ c s) =
    (not inside && starts_with (String.◌∷◌ c s) words && ends_word (drop_text n (String.◌∷◌ c s)))
    || word_from n words (is_word c) s

unfoldable pub contains_words : ℕ → String → String → Bool
unfolding word_from
contains_words n words s = word_from n words false s

-- `REJECTED_RE.test(msg)`
unfoldable pub reads_rejected : String → Bool
reads_rejected msg =
    contains "user rejected" (to_lower msg)
    || contains "user denied" (to_lower msg)
    || contains "rejected the request" (to_lower msg)

unfoldable pub friendly : Option String → String
friendly none = "Failed"
friendly (some msg) =
    if str_eq msg "" then "Failed" else if reads_rejected msg then rejected_copy else msg

is_rejection : Class → Bool
is_rejection user_rejected = true
is_rejection receipt_timeout = false
is_rejection (contract_reverted r) = false
is_rejection other_class = false

is_timeout : Class → Bool
is_timeout user_rejected = false
is_timeout receipt_timeout = true
is_timeout (contract_reverted r) = false
is_timeout other_class = false

abbrev pub revert_of : Class → Option Revert
revert_of user_rejected = none
revert_of receipt_timeout = none
revert_of (contract_reverted r) = some r
revert_of other_class = none

-- `err.walk(test)`, as a question.
walk : (Class → Bool) → List Link → Bool
walk test [] = false
walk test (l ∷ ls) = test l.class || walk test ls

unfoldable pub is_user_rejection : Thrown → Bool
unfolding is_rejection walk
is_user_rejection (base_error l ls end) =
    walk is_rejection (l ∷ ls)
    || reads_rejected (or_else l.short_message "")
    || reads_rejected (or_else l.message "")
is_user_rejection (js_error l ls end) = reads_rejected (or_else l.message "")
is_user_rejection (thrown_text t) = reads_rejected t
is_user_rejection (thrown_object l ls end) = false
is_user_rejection thrown_other = false

unfoldable pub is_receipt_timeout : Thrown → Bool
unfolding is_timeout walk
is_receipt_timeout (base_error l ls end) = walk is_timeout (l ∷ ls)
is_receipt_timeout (js_error l ls end) = false
is_receipt_timeout (thrown_text t) = false
is_receipt_timeout (thrown_object l ls end) = false
is_receipt_timeout thrown_other = false

optional : Option String → List String
optional none = []
optional (some t) = t ∷ []

-- At most `n` objects of the chain; the text at its end is read if the walk comes that far.
chain_texts : ℕ → List Link → Option String → List String
unfolding optional
chain_texts zero ls end = []
chain_texts (suc n) [] end = optional end
chain_texts (suc n) (l ∷ ls) end =
    optional l.details
    ++ optional l.short_message
    ++ optional l.message
    ++ optional l.data_message
    ++ chain_texts n ls end

unfoldable pub cause_text : Thrown → String
unfolding chain_texts
cause_text (base_error l ls end) = to_lower (join "\n" (chain_texts 12 (l ∷ ls) end))
cause_text (js_error l ls end) = to_lower (join "\n" (chain_texts 12 (l ∷ ls) end))
cause_text (thrown_text t) = to_lower t
cause_text (thrown_object l ls end) = to_lower (join "\n" (chain_texts 12 (l ∷ ls) end))
cause_text thrown_other = ""

unfoldable pub conflict_in : String → Option SendConflict
conflict_in text =
    if contains_words 13 "already known" text
      || contains "already imported" text
      || contains_words 17 "known transaction" text
    then some already_sent
    else if contains "replacement transaction underpriced" text
        || contains "replacement fee too low" text
    then some nonce_in_use
    else if contains "nonce too low" text || contains "nonce has already been used" text
    then some stale_nonce
    else none

unfoldable pub send_conflict_of : Thrown → Option SendConflict
send_conflict_of err = conflict_in (cause_text err)

unfoldable pub unresolved_copy : SendConflict → String
unresolved_copy stale_nonce =
    "Your wallet was a step behind the network. Check its activity before trying again."
unresolved_copy nonce_in_use =
    "Another transaction from your wallet is still pending. Check its activity before trying again."
unresolved_copy already_sent =
    "Your wallet says this was already sent. Check its activity before trying again."

unfoldable pub conflict_copy : SendConflict → Bool → String
conflict_copy already_sent nothing_sent =
    "Your wallet may already have sent this. Check its activity before trying again."
conflict_copy stale_nonce nothing_sent =
    if nothing_sent
    then "Your wallet was a step behind, so nothing was sent."
    else "Your wallet may already have sent this. Check its activity before trying again."
conflict_copy nonce_in_use nothing_sent =
    if nothing_sent
    then "Another transaction from your wallet is still pending, so nothing was sent. Try again once it confirms."
    else "Your wallet may already have sent this. Check its activity before trying again."
