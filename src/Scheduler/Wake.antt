-- ===== src/Scheduler/Wake.antt =====
-- That `soonest_boundary` finds the next boundary of all vaults with active jobs, and that the clock
-- and the idle-chain test are right.
use dca_protocol.Base.{
  ℕ, true, false, List, [], ◌∷◌, Option, none, some, String, ◌≡◌, refl, ◌⊎◌, inl, inr, arith,
  Bool-cases, Option-cases, All, sym, ◌∙◌,
}
use dca_protocol.Base.Int.{ℤ, ◌≤ℤ◌}
use dca_protocol.Base.Text.{to_lower, eq_iff}
use dca_protocol.Base.Dict.{Dict, lookup, insert, has, lookup-insert}
use dca_protocol.Scheduler.Epoch.{VaultMeta, next_boundary}
use dca_protocol.Scheduler.Types.{Job}
use dca_protocol.Scheduler.Delay.{Soonest, sooner, soonest_boundary}

module _ (vaults : Dict VaultMeta) (now : ℕ) where
  -- The soonest boundary is no later than the vault's next one.
  abbrev pub NoLater : Soonest → VaultMeta → Type 0
  NoLater none m = ⊥
  NoLater (some (b, kind)) m = b ≤ℤ next_boundary m now

  -- ... for the vault of a key, if its data is known.
  abbrev pub Covers : Soonest → Option VaultMeta → Type 0
  Covers best none = Unit {0}
  Covers best (some m) = NoLater best m

  sooner-new : (m : VaultMeta) (best : Soonest) → NoLater (sooner m now best) m
  sooner-new m none = omega arith
  sooner-new m (some (b, k)) = ground arith

  sooner-old : (m n : VaultMeta) (best : Soonest) → NoLater best n → NoLater (sooner m now best) n
  sooner-old m n none h = absurd h
  sooner-old m n (some (b, k)) h = ground arith

  sooner-Covers :
      (m : VaultMeta) (best : Soonest) (o : Option VaultMeta)
      → Covers best o
      → Covers (sooner m now best) o
  sooner-Covers m best none h = tt
  sooner-Covers m best (some n) h = sooner-old m n best h

  -- Each vault in the set was taken into account.
  abbrev SeenCovered : Dict (Unit {0}) → Soonest → Type 0
  SeenCovered seen best = (k : String) → has k seen ≡ true → Covers best (lookup k vaults)

  insert-seen :
      (k j : String) (seen : Dict (Unit {0}))
      → has j (insert k tt seen) ≡ true
      → (k ≡ j) ⊎ (has j seen ≡ true)
  insert-seen k j seen h = ground (arith, lookup-insert k j tt seen, eq_iff k j)

  -- The three ways through the loop's body.
  soonest_cases :
      (P : Soonest → Type 0) (j : Job) (js : List Job) (seen : Dict (Unit {0})) (best : Soonest)
      → ((j.active ≡ false) ⊎ (has (to_lower j.vault) seen ≡ true)
          → P (soonest_boundary vaults now js seen best))
      → (j.active ≡ true
          → lookup (to_lower j.vault) vaults ≡ none
          → P (soonest_boundary vaults now js (insert (to_lower j.vault) tt seen) best))
      → ((m : VaultMeta)
          → j.active ≡ true
          → lookup (to_lower j.vault) vaults ≡ some m
          → P (
              soonest_boundary vaults now js
                (insert (to_lower j.vault) tt seen)
                (sooner m now best)))
      → P (soonest_boundary vaults now (j ∷ js) seen best)
  unfolding soonest_boundary
  soonest_cases P j js seen best skip miss find = elim (Bool-cases j.active) [
    | inr off ↦ rw off (skip (inl off))
    | inl on ↦ elim (Bool-cases (has (to_lower j.vault) seen)) [
      | inl met ↦ rw (on, met) (skip (inr met))
      | inr new ↦ elim (Option-cases (lookup (to_lower j.vault) vaults)) [
        | inl e ↦ rw (on, new, e) (miss on e)
        | inr (m, e) ↦ rw (on, new, e) (find m on e)
      ]
    ]
  ]

  soonest-Covers :
      (o : Option VaultMeta) (js : List Job) (seen : Dict (Unit {0})) (best : Soonest)
      → Covers best o
      → Covers (soonest_boundary vaults now js seen best) o
  unfolding soonest_boundary
  soonest-Covers o [] seen best h = h
  soonest-Covers o (j ∷ js) seen best h =
      soonest_cases (λ r. Covers r o) j js seen best (λ _. soonest-Covers o js seen best h)
        (λ _ _. soonest-Covers o js _ best h)
        (λ m _ _. soonest-Covers o js _ (sooner m now best) (sooner-Covers m best o h))

  seen-step :
      (k : String) (seen : Dict (Unit {0})) (best best' : Soonest)
      → Covers best' (lookup k vaults)
      → ((o : Option VaultMeta) → Covers best o → Covers best' o)
      → SeenCovered seen best
      → SeenCovered (insert k tt seen) best'
  seen-step k seen best best' here keep h j met = elim (insert-seen k j seen met) [
    | inl same ↦ rw (← same) here
    | inr old ↦ keep (lookup j vaults) (h j old)
  ]

  -- Every active job's vault is covered by the result.
  abbrev pub Covered : Soonest → Job → Type 0
  Covered best j = j.active ≡ true → Covers best (lookup (to_lower j.vault) vaults)

  soonest-Covered :
      (js : List Job) (seen : Dict (Unit {0})) (best : Soonest)
      → SeenCovered seen best
      → All (Covered (soonest_boundary vaults now js seen best)) js
  soonest-Covered [] seen best h = tt
  soonest-Covered (j ∷ js) seen best h =
      let key = to_lower j.vault in
      soonest_cases (λ r. All (Covered r) (j ∷ js)) j js seen best
        (λ why.
          ((λ on. soonest-Covers _ js seen best (met why on)), soonest-Covered js seen best h))
        (λ on e. (
          (λ _. rw e tt),
          soonest-Covered js (insert key tt seen) best
              (seen-step key seen best best (rw e tt) (λ o c. c) h),
        ))
        (λ m on e. (
          (λ _.
              soonest-Covers _ js (insert key tt seen) (sooner m now best)
                (rw e (sooner-new m best))),
          soonest-Covered js (insert key tt seen) (sooner m now best) (
              seen-step key seen best (sooner m now best) (rw e (sooner-new m best))
                (sooner-Covers m best) h),
        ))
    where
      met :
          (j.active ≡ false) ⊎ (has (to_lower j.vault) seen ≡ true)
          → j.active ≡ true
          → Covers best (lookup (to_lower j.vault) vaults)
      met (inl off) on = cc
      met (inr old) on = h (to_lower j.vault) old

  -- The boundary is the next one of some active job's vault, and the kind is that vault's.
  abbrev pub Attained : List Job → ℤ → String → Type 0
  Attained [] b kind = ⊥
  Attained (j ∷ js) b kind =
      ((j.active ≡ true)
        × (m : VaultMeta) × (lookup (to_lower j.vault) vaults ≡ some m)
        × (next_boundary m now ≡ b)
        × (m.kind ≡ kind))
      ⊎ Attained js b kind

  abbrev Origin : List Job → Soonest → Soonest → Type 0
  Origin js best none = Unit {0}
  Origin js best (some (b, kind)) = (best ≡ some (b, kind)) ⊎ Attained js b kind

  Origin-cons :
      (j : Job) (js : List Job) (best r : Soonest) → Origin js best r → Origin (j ∷ js) best r
  Origin-cons j js best none h = tt
  Origin-cons j js best (some (b, k)) (inl e) = inl e
  Origin-cons j js best (some (b, k)) (inr a) = inr (inr a)

  sooner_cases :
      (m : VaultMeta) (best : Soonest)
      → (sooner m now best ≡ best) ⊎ (sooner m now best ≡ some (next_boundary m now, m.kind))
  sooner_cases m none = inr refl
  sooner_cases m (some (b, k)) = ground arith

  Origin-found :
      (j : Job) (js : List Job) (m : VaultMeta) (best r : Soonest)
      → j.active ≡ true
      → lookup (to_lower j.vault) vaults ≡ some m
      → Origin js (sooner m now best) r
      → Origin (j ∷ js) best r
  Origin-found j js m best none on e h = tt
  Origin-found j js m best (some (b, k)) on e (inr a) = inr (inr a)
  Origin-found j js m best (some (b, k)) on e (inl s) = elim (sooner_cases m best) [
    | inl same ↦ inl (sym same ∙ s)
    | inr new ↦ inr (inl (on, m, e, cc, cc))
  ]

  soonest-Origin :
      (js : List Job) (seen : Dict (Unit {0})) (best : Soonest)
      → Origin js best (soonest_boundary vaults now js seen best)
  unfolding soonest_boundary
  soonest-Origin [] seen none = tt
  soonest-Origin [] seen (some (b, k)) = inl refl
  soonest-Origin (j ∷ js) seen best =
      soonest_cases (Origin (j ∷ js) best) j js seen best
        (λ _. Origin-cons j js best _ (soonest-Origin js seen best))
        (λ _ _. Origin-cons j js best _ (soonest-Origin js _ best))
        (λ m on e. Origin-found j js m best _ on e (soonest-Origin js _ (sooner m now best)))

  -- What the search has to find.
  abbrev pub IsSoonest : List Job → Soonest → Type 0
  IsSoonest jobs none = All (Covered none) jobs
  IsSoonest jobs (some (b, kind)) = All (Covered (some (b, kind))) jobs × Attained jobs b kind

  IsSoonest-of :
      (jobs : List Job) (r : Soonest) → All (Covered r) jobs → Origin jobs none r → IsSoonest jobs r
  IsSoonest-of jobs none a o = a
  IsSoonest-of jobs (some (b, k)) a (inl e) = cc
  IsSoonest-of jobs (some (b, k)) a (inr t) = (a, t)

  -- The search over the jobs finds the earliest next boundary of the vaults with an active job and
  -- known data: none of them has an earlier one, and one of them has it, under the kind returned.
  -- It finds nothing only if no active job's vault is known.
  pub soonest_boundary-IsSoonest :
      (jobs : List Job) → IsSoonest jobs (soonest_boundary vaults now jobs [] none)
  unfolding lookup
  soonest_boundary-IsSoonest jobs =
      IsSoonest-of jobs _ (soonest-Covered jobs [] none (λ k met. cc)) (soonest-Origin jobs [] none)
