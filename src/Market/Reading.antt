-- ===== src/Market/Reading.antt =====
-- Lists that are read whole, and their pairs, as in `readBuyable` of apps/web/src/hooks/useProtocol.ts.
use dca_protocol.Base.{
  List, [], ◌∷◌, Option, some, String, any, In, here, there, In-cons, ◌≡◌, ◌⊎◌, sym, ap, ◌∙◌,
  Bool-cases, Option-cases, inl, inr,
}
use dca_protocol.Base.Dict.{lookup}
use dca_protocol.Base.Names.{any-In}
use dca_protocol.Base.Text.{str_eq, eq_iff, eq_refl}
use dca_protocol.Market.Buyable.{all_read, pair_up, unique_texts}

module _ {ℓ κ} {A : Type ℓ} {B : Type κ} (f : A → Option B) where
  -- A list that is read whole has an answer for each entry.
  all_read-cons :
      (x : A) (xs : List A) (ys : List B)
      → all_read f (x ∷ xs) ≡ some ys
      → (y : B) × (rest : List B) × (f x ≡ some y) × (all_read f xs ≡ some rest) × (ys ≡ y ∷ rest)
  all_read-cons x xs ys h = elim (Option-cases (f x)) [
    | inl failed ↦ absurd (cc (rw failed at h))
    | inr (y, answered) ↦ elim (Option-cases (all_read f xs)) [
      | inl failed ↦ absurd (cc (rw (answered, failed) at h))
      | inr (rest, more) ↦ (y, rest, answered, more, cc (rw (answered, more) at h))
    ]
  ]

  pub pair_up-In :
      (xs : List A) (ys : List B)
      → all_read f xs ≡ some ys
      → (x : A) (y : B) → In (x, y) (pair_up xs ys)
      → In x xs × (f x ≡ some y)
  pair_up-In [] ys h x y m = elim m [ ]
  pair_up-In (x' ∷ xs) ys h x y m =
      let (y', rest, answered, more, e) = all_read-cons x' xs ys h in
      elim (In-cons (rw e at m)) [
        | inl same ↦ (
          here (ap (λ (p : A × B). p.0) same),
          ap (λ (p : A × B). f p.0) same ∙ answered ∙ ap (λ (p : A × B). some p.1) (sym same),
        )
        | inr later ↦ let (at, told) = pair_up-In xs rest more x y later in (there at, told)
      ]

  pub In-pair_up :
      (xs : List A) (ys : List B)
      → all_read f xs ≡ some ys
      → (x : A) → In x xs
      → (y : B) × (f x ≡ some y) × In (x, y) (pair_up xs ys)
  In-pair_up [] ys h x m = elim m [ ]
  In-pair_up (x' ∷ xs) ys h x m =
      let (y', rest, answered, more, e) = all_read-cons x' xs ys h in
      elim (In-cons m) [
        | inl same ↦ (y', ap f same ∙ answered, rw e (here (ap (λ (a : A). (a, y')) same)))
        | inr later ↦
            let (y, told, at) = In-pair_up xs rest more x later in (y, told, rw e (there at))
      ]

pub lookup-pair_up :
    {V : Type 0} (f : String → Option V) (ks : List String) (vs : List V)
    → all_read f ks ≡ some vs
    → (k : String) → In k ks
    → lookup k (pair_up ks vs) ≡ f k
unfolding lookup
lookup-pair_up f [] vs h k m = elim m [ ]
lookup-pair_up f (k' ∷ ks) vs h k m =
    let (v, rest, answered, more, e) = all_read-cons f k' ks vs h in
    elim (Bool-cases (str_eq k' k)) [
      | inl same ↦ rw e (rw same (sym answered ∙ ap f ((eq_iff k' k).0 same)))
      | inr other ↦ elim (In-cons m) [
        | inl now ↦ absurd (cc (other, now, eq_refl k))
        | inr later ↦ rw e (rw other (lookup-pair_up f ks rest more k later))
      ]
    ]

pub unique_texts-In :
    (seen ss : List String) (s : String) → In s ss → In s seen ⊎ In s (unique_texts seen ss)
unfolding unique_texts
unique_texts-In seen [] s m = elim m [ ]
unique_texts-In seen (t ∷ ss) s m = elim (Bool-cases (any (str_eq t) seen)) [
  | inl known ↦ elim (In-cons m) [
    | inl e ↦ inl (rw e (any-In t seen known))
    | inr later ↦ rw known (unique_texts-In seen ss s later)
  ]
  | inr new ↦ elim (In-cons m) [
    | inl e ↦ inr (rw new (here e))
    | inr later ↦ elim (unique_texts-In (t ∷ seen) ss s later) [
      | inl before ↦ elim (In-cons before) [ inl e ↦ inr (rw new (here e)) | inr old ↦ inl old ]
      | inr more ↦ inr (rw new (there more))
    ]
  ]
]
