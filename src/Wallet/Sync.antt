-- ===== src/Wallet/Sync.antt =====
-- apps/web/src/lib/walletSync.ts: the last mined transaction of an account, and the wait for a wallet's count.
use dca_protocol.Base.{
  ℕ, ◌+◌, ◌-◌, Bool, true, false, ◌||◌, List, [], ◌∷◌, Option, none, some, String, ltb, leb,
  if◌then◌else◌,
}
use dca_protocol.Base.Dict.{Dict, lookup, insert, erase}
use dca_protocol.Base.Text.{template, decimal, to_lower}

abbrev pub ttl_ms : ℕ
ttl_ms = 120000

pub record MinedTx : Type 0 where
  pub nonce : ℕ
  pub hash : String
  pub at : ℕ

unfoldable pub key_of : ℕ → String → String
key_of chain_id address = template (decimal chain_id ∷ ":" ∷ to_lower address ∷ [])

-- The entry, if it is recent enough; one that is not is deleted.
unfoldable pub fresh_entry :
    ℕ → String → Option MinedTx → Dict MinedTx → Option MinedTx × Dict MinedTx
fresh_entry now key none mined = (none, mined)
fresh_entry now key (some m) mined =
    if ltb ttl_ms (now - m.at) then (none, erase key mined) else (some m, mined)

unfoldable pub last_mined_of : ℕ → ℕ → String → Dict MinedTx → Option MinedTx × Dict MinedTx
unfolding fresh_entry
last_mined_of now chain_id address mined =
    fresh_entry now (key_of chain_id address) (lookup (key_of chain_id address) mined) mined

-- Keeps an entry of a higher nonce.
abbrev pub record_unless : Option MinedTx → String → MinedTx → Dict MinedTx → Dict MinedTx
record_unless none key tx mined = insert key tx mined
record_unless (some cur) key tx mined =
    if ltb tx.nonce cur.nonce then mined else insert key tx mined

unfoldable pub note_mined : ℕ → ℕ → String → ℕ → String → Dict MinedTx → Dict MinedTx
note_mined now chain_id address nonce' hash' mined =
    let (cur, left) = last_mined_of now chain_id address mined in
    record_unless cur (key_of chain_id address) (record { nonce = nonce'; hash = hash'; at = now })
      left

-- What one check of the wallet met: the wait was over, the count could not be read, or a count.
pub data Answer : Type 0 where
  stopped : Answer
  unreadable : Answer
  counted : ℕ → Answer

-- The ticks of the loop after the first check; the wait is over when they end.
unfoldable pub later_checks : ℕ → List Answer → Bool
later_checks target [] = false
later_checks target (stopped ∷ answers) = false
later_checks target (unreadable ∷ answers) = later_checks target answers
later_checks target (counted n ∷ answers) = leb target n || later_checks target answers

-- Whether the wallet is known to be past the nonce, and whether the wait was found to be slow.
unfoldable pub wait_for_wallet_nonce : ℕ → List Answer → Bool × Bool
unfolding later_checks
wait_for_wallet_nonce nonce [] = (false, false)
wait_for_wallet_nonce nonce (stopped ∷ answers) = (false, false)
wait_for_wallet_nonce nonce (unreadable ∷ answers) = (false, false)
wait_for_wallet_nonce nonce (counted n ∷ answers) =
    if leb (nonce + 1) n then (true, false) else (later_checks (nonce + 1) answers, true)
