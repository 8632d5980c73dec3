-- ===== src/Market/Bought.antt =====
-- The pairs that `readBuyable` of apps/web/src/hooks/useProtocol.ts answers, against the jobs and the feeds.
use dca_protocol.Base.{
  Bool, true, false, ◌||◌, not, List, [], map, Option, some, String, filter_by, In, In-map, map-In,
  ◌≡◌, ◌↔◌, ◌⊎◌, refl, sym, ap, ◌∙◌, arith, Option-cases, inl, inr,
}
use dca_protocol.Base.Dict.{Dict, lookup}
use dca_protocol.Create.Types.{is_zero}
use dca_protocol.Market.Buyable.{
  Reads, Job, all_read, pair_up, pair_key, unique_texts, feed_needed, bought_pairs, pairs_read,
  buyable_of, read_buyable,
}
use dca_protocol.Market.Pinned.{filter_by-In, In-filter_by}
use dca_protocol.Market.Reading.{pair_up-In, In-pair_up, lookup-pair_up, unique_texts-In}

module _ (node : Reads) where
  abbrev feed_of : Job → Option String
  feed_of j = node.price_feed j.vault j.stock

  -- A job's vault wants no feed, or has one for its stock.
  pub FeedOk : Job → Type 0
  FeedOk j =
      (node.require_feed j.vault ≡ some false)
      ⊎ ((feed : String) × (node.price_feed j.vault j.stock ≡ some feed)
          × (is_zero (some feed) ≡ false))

  abbrev keeps : Dict Bool → Job × String → Bool
  keeps needs p = not (feed_needed needs p.0.vault) || not (is_zero (some p.1))

  keeps-FeedOk :
      (needs : Dict Bool) (j : Job) (feed : String) (b : Bool)
      → lookup j.vault needs ≡ some b
      → node.require_feed j.vault ≡ some b
      → node.price_feed j.vault j.stock ≡ some feed
      → keeps needs (j, feed) ≡ true ↔ FeedOk j
  unfolding FeedOk
  keeps-FeedOk needs j feed false at told fed = (λ h. inl told, λ ok. rw at refl)
  keeps-FeedOk needs j feed true at told fed = (
    λ h. inr (feed, fed, ground arith),
    λ ok. elim ok [
      | inl none_wanted ↦ absurd (cc (told, none_wanted))
      | inr (feed', fed', there_is) ↦ rw (at, ap is_zero (sym fed ∙ fed') ∙ there_is) refl
    ],
  )

  active_jobs : List Job → List Job
  active_jobs all = filter_by (λ (j : Job). j.active) all

  job_vaults : List Job → List String
  job_vaults jobs = unique_texts [] (map (λ (j : Job). j.vault) jobs)

  buyable-reads :
      (all : List Job) (keys : List String)
      → node.jobs ≡ some all
      → read_buyable node ≡ some keys
      → (guards : List Bool) × (feeds : List String) × (all_read node.require_feed
            (job_vaults (active_jobs all))
          ≡ some guards)
        × (all_read feed_of (active_jobs all) ≡ some feeds)
        × (keys
            ≡ bought_pairs
                (pair_up (active_jobs all) feeds)
                (pair_up (job_vaults (active_jobs all)) guards))
  unfolding read_buyable buyable_of pairs_read active_jobs job_vaults
  buyable-reads all keys known read =
      elim (Option-cases (all_read node.require_feed (job_vaults (active_jobs all)))) [
        | inl failed ↦ absurd (cc (rw (known, failed) at read))
        | inr (guards, gs) ↦ elim (Option-cases (all_read feed_of (active_jobs all))) [
          | inl failed ↦ absurd (cc (rw (known, gs, failed) at read))
          | inr (feeds, fs) ↦ (guards, feeds, gs, fs, cc (rw (known, gs, fs) at read))
        ]
      ]

  job-facts :
      (jobs : List Job) (guards : List Bool) (j : Job)
      → all_read node.require_feed (job_vaults jobs) ≡ some guards
      → In j jobs
      → (b : Bool) × (node.require_feed j.vault ≡ some b)
        × (lookup j.vault (pair_up (job_vaults jobs) guards) ≡ some b)
  unfolding job_vaults
  job-facts jobs guards j gs m =
      elim (unique_texts-In [] _ j.vault (map-In (λ (i : Job). i.vault) m)) [
        | inl none_seen ↦ elim none_seen [ ]
        | inr at ↦
            let (b, told, pair) = In-pair_up node.require_feed _ guards gs j.vault at in
            (b, told, lookup-pair_up node.require_feed _ guards gs j.vault at ∙ told)
      ]

  -- If every read answers, the pairs are those of the active jobs whose vault wants no feed, or has one for the stock.
  pub read_buyable-FeedOk :
      (all : List Job) (keys : List String)
      → node.jobs ≡ some all
      → read_buyable node ≡ some keys
      → (key : String)
      → In key keys
        ↔ ((j : Job) × In j all × (j.active ≡ true) × FeedOk j × (pair_key j.vault j.stock ≡ key))
  unfolding bought_pairs active_jobs
  read_buyable-FeedOk all keys known read key =
      let (guards, feeds, gs, fs, e) = buyable-reads all keys known read in
      let needs = pair_up (job_vaults (active_jobs all)) guards in
      (
        λ m.
            let (p, at, same) =
              In-map (λ (p : Job × String). pair_key p.0.vault p.0.stock) _ (rw e at m) in
            let (kept, paired) = filter_by-In (keeps needs) (pair_up (active_jobs all) feeds) at in
            let (job_at, fed) = pair_up-In feed_of (active_jobs all) feeds fs p.0 p.1 paired in
            let (active, listed) = filter_by-In (λ (j : Job). j.active) all job_at in
            let (b, told, looked) = job-facts (active_jobs all) guards p.0 gs job_at in
            (p.0, listed, active, (keeps-FeedOk needs p.0 p.1 b looked told fed).0 kept, same),
        λ (j, listed, active, ok, same).
            let job_at = In-filter_by (λ (j : Job). j.active) all active listed in
            let (feed, fed, paired) = In-pair_up feed_of (active_jobs all) feeds fs j job_at in
            let (b, told, looked) = job-facts (active_jobs all) guards j gs job_at in
            let kept = (keeps-FeedOk needs j feed b looked told fed).1 ok in
            rw e (
              rw (sym same) (
                map-In (λ (p : Job × String). pair_key p.0.vault p.0.stock)
                  (In-filter_by (keeps needs) (pair_up (active_jobs all) feeds) kept paired))),
      )
