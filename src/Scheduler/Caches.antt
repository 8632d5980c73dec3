-- ===== src/Scheduler/Caches.antt =====
-- The cached reads of apps/scheduler/src/scheduler.ts: `vaultMeta`, `stockMeta`, `label`, and the
-- methods that read the clock.
use dca_protocol.Base.{ℕ, Bool, String, if◌then◌else◌, List, [], ◌∷◌}
use dca_protocol.Base.Text.{template, to_lower, str_eq}
use dca_protocol.Base.Dict.{lookup, insert}
use dca_protocol.Scheduler.Epoch.{VaultMeta}
use dca_protocol.Scheduler.Types.{Job, StockMeta}
use dca_protocol.Scheduler.Rpc.{Rpc, ok}
use dca_protocol.Scheduler.Monad.{
  Method, ◌>>=◌, ◌>>◌, await, await_or, pure, gets, modify, match_option,
}
use dca_protocol.Scheduler.Texts.{short}
use dca_protocol.Scheduler.Time.{observe_block, chain_now, boundary_passed}

module _ {W : Type 0} (rpc : Rpc W) where
  -- `Date.now()`
  unfoldable pub date_now : Method W ℕ
  date_now s w = let (t, w') = rpc.date_now w in (ok t, s, w')

  -- `this.stopping`
  unfoldable pub is_stopping : Method W Bool
  is_stopping s w = (ok (rpc.stopping w), s, w)

  unfoldable pub observe : ℕ → Method W (Unit {0})
  observe ts = do now ← date_now; modify (λ s. record s { seen = observe_block ts now s.seen })

  unfoldable pub read_clock : Method W ℕ
  read_clock = do
    wall_ms ← date_now
    now_ms ← date_now
    seen ← gets (λ s. s.seen)
    pure (chain_now seen wall_ms now_ms)

  unfoldable pub boundary_passed_since_block : List Job → ℕ → Method W Bool
  unfolding read_clock
  boundary_passed_since_block jobs block_ts = do
    now ← read_clock
    vaults ← gets (λ s. s.vaults)
    pure (boundary_passed vaults now block_ts jobs)

  unfoldable pub fetch_vault : String → Method W VaultMeta
  fetch_vault vault = do
    origin ← await (rpc.origin vault)
    length ← await (rpc.epoch_length vault)
    kind ← await_or (short vault) (rpc.vault_kind vault)
    let m : VaultMeta = record {
      address = vault;
      kind = kind;
      origin = origin;
      epoch_length = length;
    }
    modify (λ s. record s { vaults = insert (to_lower vault) m s.vaults })
    pure m

  unfoldable pub vault_meta : String → Method W VaultMeta
  unfolding fetch_vault
  vault_meta vault = do
    known ← gets (λ s. lookup (to_lower vault) s.vaults)
    match_option known (fetch_vault vault) pure

  -- The registry's symbol if the read succeeds and it is not empty, else the token's own.
  unfoldable pub symbol_of : String → String → Method W String
  symbol_of listed stock =
      if str_eq listed "" then await_or (short stock) (rpc.token_symbol stock) else pure listed

  unfoldable pub fetch_stock : String → String → Method W StockMeta
  unfolding symbol_of
  fetch_stock vault stock = do
    registry ← await (rpc.registry vault)
    listed ← await_or "" (rpc.stock_symbol registry stock)
    decimals ← await_or 18 (rpc.token_decimals stock)
    symbol ← symbol_of listed stock
    let m : StockMeta = record { symbol = symbol; decimals = decimals }
    modify (λ s. record s { stocks = insert (to_lower stock) m s.stocks })
    pure m

  unfoldable pub stock_meta : String → String → Method W StockMeta
  unfolding fetch_stock
  stock_meta vault stock = do
    known ← gets (λ s. lookup (to_lower stock) s.stocks)
    match_option known (fetch_stock vault stock) pure

  -- `label` of a vault and a stock; the two reads are started together and neither waits for the other.
  unfoldable pub label : String → String → Method W String
  unfolding vault_meta stock_meta
  label vault stock = do
    v ← vault_meta vault
    m ← stock_meta vault stock
    pure (template (v.kind ∷ "/" ∷ m.symbol ∷ []))
