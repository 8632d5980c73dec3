-- ===== src/Market/Pinned.antt =====
-- Lists that are filtered, and of which one entry is put first, as apps/web/src/hooks/useProtocol.ts does with $DCA.
use dca_protocol.Base.{
  sym, ap, ◌∙◌, Bool, true, List, [], ◌∷◌, Option, none, some, filter_by, In, here, there, In-cons,
  ◌≡◌, Bool-cases, inl, inr,
}
use dca_protocol.Create.Types.{find_by}
use dca_protocol.Market.Ranking.{without_first, pinned}

module _ {ℓ} {A : Type ℓ} (keep : A → Bool) where
  pub In-filter_by : {a : A} (xs : List A) → keep a ≡ true → In a xs → In a (filter_by keep xs)
  In-filter_by [] k m = m
  In-filter_by (x ∷ xs) k m = elim (In-cons m) [
    | inl e ↦ rw (sym (ap keep e) ∙ k) (here e)
    | inr later ↦ elim (Bool-cases (keep x)) [
      | inl kept ↦ rw kept (there (In-filter_by xs k later))
      | inr dropped ↦ rw dropped (In-filter_by xs k later)
    ]
  ]

  pub filter_by-In : {a : A} (xs : List A) → In a (filter_by keep xs) → (keep a ≡ true) × In a xs
  filter_by-In [] m = elim m [ ]
  filter_by-In (x ∷ xs) m = elim (Bool-cases (keep x)) [
    | inl kept ↦ elim (In-cons (rw kept at m)) [
      | inl e ↦ (rw e kept, here e)
      | inr later ↦ let (k, at) = filter_by-In xs later in (k, there at)
    ]
    | inr dropped ↦ let (k, at) = filter_by-In xs (rw dropped at m) in (k, there at)
  ]

  pub pinned_mono :
      {a : A} (o : Option A) (xs ys : List A)
      → ((b : A) → In b xs → In b ys)
      → In a (pinned o xs)
      → In a (pinned o ys)
  pinned_mono none xs ys f m = f _ m
  pinned_mono (some d) xs ys f (here e) = here e
  pinned_mono (some d) xs ys f (there m) = there (f _ m)

  pinned-rest : {a : A} (o : Option A) (xs : List A) → In a xs → In a (pinned o xs)
  pinned-rest none xs m = m
  pinned-rest (some d) xs m = there m

  pinned-cons :
      {a x : A} (o : Option A) (xs : List A) → In a (pinned o (x ∷ xs)) → In a (x ∷ pinned o xs)
  pinned-cons none xs m = m
  pinned-cons (some d) xs (here e) = there (here e)
  pinned-cons (some d) xs (there m) = elim (In-cons m) [
    | inl e ↦ here e
    | inr later ↦ there (there later)
  ]

  -- Pulling the one that is found to the front keeps the entries.
  pub pinned-In :
      {a : A} (xs : List A) → In a xs → In a (pinned (find_by keep xs) (without_first keep xs))
  pinned-In [] m = m
  pinned-In (x ∷ xs) m = elim (Bool-cases (keep x)) [
    | inl found ↦ rw found m
    | inr other ↦ rw other (elim (In-cons m) [
      | inl e ↦ pinned-rest (find_by keep xs) (x ∷ without_first keep xs) (here e)
      | inr later ↦
          pinned_mono (find_by keep xs) (without_first keep xs) (x ∷ without_first keep xs)
            (λ b. there) (pinned-In xs later)
    ])
  ]

  pub In-pinned :
      {a : A} (xs : List A) → In a (pinned (find_by keep xs) (without_first keep xs)) → In a xs
  In-pinned [] m = m
  In-pinned (x ∷ xs) m = elim (Bool-cases (keep x)) [
    | inl found ↦ rw found at m
    | inr other ↦
        elim (In-cons (pinned-cons (find_by keep xs) (without_first keep xs) (rw other at m))) [
          | inl e ↦ here e
          | inr later ↦ there (In-pinned xs later)
        ]
  ]
