-- ===== src/Wallet/Memory.antt =====
-- What apps/web/src/lib/walletSync.ts remembers of mined transactions, and waits for.
use dca_protocol.Base.{
  ℕ, ◌+◌, max, Bool, true, false, List, [], ◌∷◌, Option, none, some, String, ◌≡◌, refl, ltb, arith,
  any,
}
use dca_protocol.Base.Dict.{Dict, lookup, insert, erase, lookup-insert_self}
use dca_protocol.Wallet.Sync.{
  MinedTx, key_of, fresh_entry, last_mined_of, record_unless, note_mined, Answer, stopped,
  unreadable, counted, later_checks, wait_for_wallet_nonce,
}

-- A nonce, or 0 when there is none.
abbrev pub nonce_of : Option MinedTx → ℕ
nonce_of none = 0
nonce_of (some m) = m.nonce

-- A check that shows the wallet past the nonce.
unfoldable pub shows_past : ℕ → Answer → Bool
shows_past nonce stopped = false
shows_past nonce unreadable = false
shows_past nonce (counted n) = ltb nonce n

later-any :
    (nonce : ℕ) (answers : List Answer)
    → later_checks (nonce + 1) answers ≡ true
    → any (shows_past nonce) answers ≡ true
unfolding later_checks shows_past
later-any nonce [] h = h
later-any nonce (stopped ∷ answers) h = absurd (ground arith)
later-any nonce (unreadable ∷ answers) h = later-any nonce answers h
later-any nonce (counted n ∷ answers) h = ground (arith, later-any nonce answers)

-- The wait for a wallet ends with a yes only if one of its checks showed the wallet's count past the nonce.
pub wait_for_wallet_nonce-past :
    (nonce : ℕ) (answers : List Answer)
    → (wait_for_wallet_nonce nonce answers).0 ≡ true
    → any (shows_past nonce) answers ≡ true
unfolding wait_for_wallet_nonce shows_past
wait_for_wallet_nonce-past nonce [] h = h
wait_for_wallet_nonce-past nonce (stopped ∷ answers) h = absurd (ground arith)
wait_for_wallet_nonce-past nonce (unreadable ∷ answers) h = absurd (ground arith)
wait_for_wallet_nonce-past nonce (counted n ∷ answers) h = ground (arith, later-any nonce answers)

abbrev tx_at : ℕ → ℕ → String → MinedTx
tx_at now nonce' hash' = record { nonce = nonce'; hash = hash'; at = now }

fresh_now :
    (now : ℕ) (key : String) (nonce : ℕ) (hash : String) (m : Dict MinedTx)
    → nonce_of (
        (fresh_entry now key
          (lookup key (insert key (tx_at now nonce hash) m))
          (insert key (tx_at now nonce hash) m)).0)
      ≡ nonce
unfolding fresh_entry
fresh_now now key nonce hash m = rw (lookup-insert_self key (tx_at now nonce hash) m) (ground arith)

highest_of :
    (now : ℕ) (key : String) (nonce : ℕ) (hash : String) (mined : Dict MinedTx)
    (cur : Option MinedTx)
    → lookup key mined ≡ cur
    → (let (c, left) = fresh_entry now key cur mined in
        let after : Dict MinedTx = record_unless c key (tx_at now nonce hash) left in
        nonce_of ((fresh_entry now key (lookup key after) after).0) ≡ max nonce (nonce_of c))
unfolding fresh_entry
highest_of now key nonce hash mined none at = omega (arith, fresh_now now key nonce hash mined)
highest_of now key nonce hash mined (some m) at =
    grind (
      arith,
      at,
      fresh_now now key nonce hash mined,
      fresh_now now key nonce hash (erase key mined),
    )

-- Noting a mined transaction leaves the account with the higher of the two nonces: the one noted, and the
-- one remembered, if that is recent.
pub note_mined-highest :
    (now chain_id : ℕ) (address : String) (nonce : ℕ) (hash : String) (mined : Dict MinedTx)
    → nonce_of
        ((last_mined_of now chain_id address (note_mined now chain_id address nonce hash mined)).0)
      ≡ max nonce (nonce_of ((last_mined_of now chain_id address mined).0))
unfolding note_mined last_mined_of fresh_entry
note_mined-highest now chain_id address nonce hash mined =
    highest_of now (key_of chain_id address) nonce hash mined
      (lookup (key_of chain_id address) mined) refl
