-- ===== src/Lib.antt =====
-- A model of the parts of the dollar-cost-averaging protocol that run outside the chain: the keeper's
-- scheduler (apps/scheduler) and the logic of the web app (apps/web) that decides what a plan's owner
-- signs, and a proof of what they promise.
--
-- How the parts interact. The scheduler polls the contracts through JSON-RPC, finds the jobs that are due
-- and sends EpochKeeper transactions. The web app reads a plan, builds an order (the calls to sign and
-- the rows to draw) and hands its calls to a transaction sequence, which sends them through the user's
-- wallet one after another; the receipts come back to the order for the line that says what happened.
--
-- Which file models which part:
--   Base        shared names, tests, lists, dictionaries, integers and texts.
--   Scheduler   apps/scheduler/src/scheduler.ts, log.ts and the record of config.ts. Scheduler.Types has the
--               class's fields as a record; a method of the class is a function of the fields and of the
--               world (Scheduler.Monad); the RPC client and viem are parameters (Scheduler.Rpc).
--               Loop is run, tick and their parts; Jobs is runJob, Uncovered checkUncovered, Receipts
--               summarize, Delay nextDelay and nudge, Time chainNow and the block clock, Caches vaultMeta
--               and stockMeta, Texts and Epoch the pure helpers. The other modules are proofs.
--   Plan        apps/web/src/lib: format.ts (Format), planFunds.ts (Funds), planEstimate.ts (Estimate),
--               planSteps.ts (Orders) and removeSteps.ts (Remove). Steps has TxParams, TxStep and FlowStep of
--               hooks/useTx.ts and components/app/TxFlowDialog.tsx. Credit, Cover, Rows and Receipts are
--               proofs. Remove.Vault is an abstract vault with one plan, at its address, by the rules of
--               PlanExitLib.sol and BoostLib.sol of contracts/src/libraries; the strategy is a parameter, and Remove.Runs and
--               Remove.Again show what the orders do to it.
--   Wallet      apps/web/src/hooks/useTx.ts (Chain, Sequence, Ends, Signing, Confirming, Run), lib/txErrors.ts
--               (Errors, Describe) and lib/walletSync.ts (Sync). The wallet and the node are a parameter
--               (Chain); the hook's state and refs are the record Tab. Sends and Memory are proofs.
--   Cli         apps/scheduler/src/transfer.ts, balance.ts and token-resolver.ts, the command-line tools: the
--               arguments, the assets, and a transfer. Guards is proofs.
--   Routes      readBestRoute of apps/web/src/hooks/useProtocol.ts: the paths (Path), and the rounds of reads of the
--               router (Read). The router is a parameter. Best and Highest are proofs, over the other modules.
--   Logs        apps/web/src/hooks/useLogs.ts (Liveness, Epochs, Series, Reasons) and lib/visiblePositions.ts (Visible).
--               A sort of the source is a stable insertion sort (Base.Sort). Latest and Hidden are proofs.
--   Create      the create-plan form, components/app/create/useCreatePlan.ts and the parsers of fields.tsx beside it:
--               what was read and what follows from it (Form, Estimates) and what is sent (Submit). Kinds has the
--               frequencies of lib/config.ts, Links lib/createLinks.ts, StockLink the form's stock link, and Types the
--               chain's facts of hooks/useProtocol.ts. Decided is proofs of the stock link. Vault is an abstract
--               vault that follows createPlan of contracts/src/vault/PlanVault.sol. Ready, Legs, Accepted and Runs
--               are proofs.
--   Market      apps/web/src/hooks/useProtocol.ts: the stocks that a vault buys (Buyable), their order (Ranking), and
--               what the vaults hold and what it is worth (Worth). Pinned, Caps, Places, Offers, Reading and Bought are
--               proofs.
--   Buy         the card that buys $DCA, components/app/create/BuyDcaCard.tsx: its checks (Card), the order (Order) and
--               "Try again" (Retry). Built and Floor are proofs.
--   Store       apps/web/src/lib/persistedQuery.ts (Entries) and the events of a browser (Visits). Latest is proofs.
--
-- What stands for the source's constructs. A bigint that cannot be negative is a ℕ, one that can a ℤ. A
-- JavaScript number that is not whole is an exact fraction, and whole numbers are read below 2 ^ 53. A
-- value that may be undefined is an Option. A throw is a result, and what was written before it stays
-- written. Addresses and hashes are texts, and case changes are those of ASCII. Concurrent reads are made
-- in their order in the source. An abort of a step's preparation is asked for before the preparation.
--
-- Bounds and fuel. The main loop of the scheduler has no end of its own, so a run takes the number of its
-- rounds; every statement about it holds for any number. The pages of a job are bounded by the
-- configuration, and a number is printed by recursion on itself plus one. Everything else is recursion on
-- lists.
--
-- Not modelled: the contracts (Solidity) beyond the two abstract vaults, the React components and hooks
-- that only draw or read, the rates of boosted plans and the buy route of $DCA in useProtocol.ts, the key=value
-- fields of log lines, dates in words, the set-up of the RPC client, and third-party code, whose calls are
-- parameters. Concurrent fetches of a persisted query are one after another.
pub mod Base
pub mod Scheduler
pub mod Plan
pub mod Wallet
pub mod Cli
pub mod Routes
pub mod Logs
pub mod Create
pub mod Store
pub mod Market
pub mod Buy
