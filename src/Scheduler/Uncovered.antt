-- ===== src/Scheduler/Uncovered.antt =====
-- `checkUncovered` of apps/scheduler/src/scheduler.ts: plans that no active job will ever buy for.
use dca_protocol.Base.{
  ℕ, zero, suc, Bool, false, List, [], ◌∷◌, ◌++◌, Option, none, some, String, ◌==◌, if◌then◌else◌,
  not, any, filter_by, map, take, drop, length,
}
use dca_protocol.Base.Text.{template, decimal, str_eq}
use dca_protocol.Base.Dict.{Dict, lookup, insert, has}
use dca_protocol.Scheduler.Types.{Job, Uncovered, info, warn}
use dca_protocol.Scheduler.Rpc.{Rpc}
use dca_protocol.Scheduler.Monad.{
  Method, ◌>>=◌, ◌>>◌, await, pure, gets, modify, write_log, when, match_option,
}
use dca_protocol.Scheduler.Texts.{pair_key}
use dca_protocol.Scheduler.Caches.{label}

pub record Pair : Type 0 where
  pub vault : String
  pub stock : String

abbrev pub read_batch : ℕ
read_batch = 100

-- `new Set(keys).has(key)`
abbrev pub contains : String → List String → Bool
contains k = any (str_eq k)

-- The keys of the pairs that an active job covers.
unfoldable pub covered_keys : List Job → List String
covered_keys jobs = map (λ j. pair_key j.vault j.stock) (filter_by (λ j. j.active) jobs)

-- `new Set(names)`, in insertion order, behind what is already in `seen`.
unfoldable pub distinct : List String → List String → List String
distinct seen [] = []
distinct seen (x ∷ xs) =
    let fresh = x ∷ distinct (x ∷ seen) xs in
    let rest = distinct seen xs in if contains x seen then rest else fresh

-- The approved stocks of a vault that no active job covers.
unfoldable pub pairs_of : List String → String → List String → List Pair
pairs_of covered vault approved =
    map (λ stock. record { vault = vault; stock = stock })
      (filter_by (λ stock. not (contains (pair_key vault stock) covered)) approved)

-- The reported label of a pair, if it was reported before.
abbrev pub known_label : Dict Uncovered → String → Option String
known_label m key = elim (lookup key m) [ none ↦ none | some u ↦ some u.label ]

-- Whether the last pass reported the pair with this very number of plans.
abbrev pub reported : Dict Uncovered → String → ℕ → Bool
reported m key plans = elim (lookup key m) [ none ↦ false | some u ↦ u.plans == plans ]

module _ {W : Type 0} where
  unfoldable pub report_gone : Dict Uncovered → Dict Uncovered → Method W (Unit {0})
  report_gone found [] = pure tt
  report_gone found ((key, u) ∷ before) = do
    when (not (has key found))
        (write_log info (template (u.label ∷ ": no longer has plans without a keeper job" ∷ [])))
    report_gone found before

module _ {W : Type 0} (rpc : Rpc W) where
  -- The stocks of a registry, read once per pass.
  unfoldable pub approved_of : String → Dict (List String) → Method W (List String)
  approved_of registry cache =
      match_option (lookup registry cache) (await (rpc.approved_stocks registry)) pure

  unfoldable pub collect_pairs :
      List String → List String → Dict (List String) → Method W (List Pair)
  unfolding approved_of
  collect_pairs covered [] cache = pure []
  collect_pairs covered (vault ∷ vaults) cache = do
    registry ← await (rpc.registry vault)
    approved ← approved_of registry cache
    rest ← collect_pairs covered vaults (insert registry approved cache)
    pure (pairs_of covered vault approved ++ rest)

  -- The reads of one round.
  unfoldable pub count_all : List Pair → Method W (List ℕ)
  count_all [] = pure []
  count_all (p ∷ ps) = do
    n ← await (rpc.stock_plan_count p.vault p.stock)
    rest ← count_all ps
    pure (n ∷ rest)

  -- Rounds of `read_batch` reads. There are no more rounds than pairs.
  unfoldable pub count_batches : ℕ → List Pair → Method W (List ℕ)
  count_batches zero pairs = pure []
  count_batches (suc rounds) [] = pure []
  count_batches (suc rounds) (p ∷ ps) = do
    counts ← count_all (take read_batch (p ∷ ps))
    rest ← count_batches rounds (drop read_batch (p ∷ ps))
    pure (counts ++ rest)

  unfoldable pub label_of : Dict Uncovered → Pair → Method W String
  label_of before p =
      match_option (known_label before (pair_key p.vault p.stock)) (label rpc p.vault p.stock) pure

  -- Reports the pairs with plans, and collects them.
  unfoldable pub report_pairs : List Pair → List ℕ → Dict Uncovered → Method W (Dict Uncovered)
  unfolding label_of
  report_pairs [] counts found = pure found
  report_pairs (p ∷ ps) [] found = pure found
  report_pairs (p ∷ ps) (plans ∷ counts) found =
      if plans == 0 then report_pairs ps counts found else do
        before ← gets (λ s. s.uncovered)
        name ← label_of before p
        when (not (reported before (pair_key p.vault p.stock) plans)) (
            write_log warn (
              template (
                name
                ∷ ": "
                ∷ decimal plans
                ∷ " plan(s), but the keeper has no active job for this stock — they are never bought"
                ∷ [])))
        report_pairs ps counts
            (insert (pair_key p.vault p.stock) (record { plans = plans; label = name }) found)

  unfoldable pub check_uncovered : List Job → Method W (Unit {0})
  unfolding collect_pairs count_batches report_pairs report_gone
  check_uncovered jobs = do
    pairs ← collect_pairs (covered_keys jobs) (distinct [] (map (λ j. j.vault) jobs)) []
    counts ← count_batches (length pairs) pairs
    found ← report_pairs pairs counts []
    before ← gets (λ s. s.uncovered)
    report_gone found before
    modify (λ s. record s { uncovered = found })
