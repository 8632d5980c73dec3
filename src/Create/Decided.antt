-- ===== src/Create/Decided.antt =====
-- What the create form shows of a stock link (`useStockParam` of apps/web/src/components/app/create/useCreatePlan.ts)
-- once it has been decided on.
use dca_protocol.Base.{
  true, false, List, [], ◌∷◌, Option, none, some, String, ◌≡◌, refl, sym, subst, arith, Bool-cases,
  inl, inr,
}
use dca_protocol.Create.Kinds.{VaultKind, kind_text}
use dca_protocol.Base.Text.{eq_refl}
use dca_protocol.Create.Types.{Stock}
use dca_protocol.Create.StockLink.{
  LinkState, LinkView, buys, kinds_in, next_kind, is_none_or_empty, hit, kinds, settle, unavailable,
  off_kind, name_of_missing, off_kind_of, link_name,
}

-- The three ends of a link: no frequency buys the stock, this one does, or only others do.
pub data Ends (kind : VaultKind) (w : String)
    : Option Stock → Option (List VaultKind) → Option String → Option Stock → Type 0 where
  nobody :
      {o : Option Stock} {ks : Option (List VaultKind)}
      → is_none_or_empty ks ≡ true
      → Ends kind w o ks (some (link_name o w)) none
  here :
      {s : Stock} {ks : List VaultKind}
      → buys kind ks ≡ true
      → Ends kind w (some s) (some ks) none none
  elsewhere :
      {s : Stock} {k : VaultKind} {ks : List VaultKind}
      → buys kind (k ∷ ks) ≡ false
      → Ends kind w (some s) (some (k ∷ ks)) none (some s)

ends_lem :
    (kind : VaultKind) (w : String) (o : Option Stock) (ks : Option (List VaultKind))
    → (o ≡ none → ks ≡ none)
    → Ends kind w o ks (name_of_missing true (some w) o ks) (off_kind_of true kind o ks)
ends_lem kind w none none h = nobody refl
ends_lem kind w none (some ks) h = absurd (cc (h refl))
ends_lem kind w (some s) none h = nobody refl
ends_lem kind w (some s) (some []) h = nobody refl
ends_lem kind w (some s) (some (k ∷ ks)) h = elim (Bool-cases (buys kind (k ∷ ks))) [
  | inl bought ↦ rw bought (here bought)
  | inr off ↦ rw off (elsewhere off)
]

buys_self : (k : VaultKind) (ks : List VaultKind) → buys k (k ∷ ks) ≡ true
buys_self k ks = rw (eq_refl (kind_text k)) refl

-- A frequency that may be changed is one that buys the stock, if any does.
buys-next_kind :
    (kind k : VaultKind) (ks : List VaultKind)
    → buys (next_kind false kind (some (k ∷ ks))) (k ∷ ks) ≡ true
buys-next_kind kind k ks = elim (Bool-cases (buys kind (k ∷ ks))) [
  | inl bought ↦ subst (λ x. buys x (k ∷ ks) ≡ true) (sym (kept bought)) bought
  | inr off ↦ subst (λ x. buys x (k ∷ ks) ≡ true) (sym (changed off)) (buys_self k ks)
]
  where
    kept : buys kind (k ∷ ks) ≡ true → next_kind false kind (some (k ∷ ks)) ≡ kind
    kept bought = rw bought refl

    changed : buys kind (k ∷ ks) ≡ false → next_kind false kind (some (k ∷ ks)) ≡ k
    changed off = rw off refl

off_kind_of-next_kind :
    (kind : VaultKind) (o : Option Stock) (ks : Option (List VaultKind))
    → off_kind_of true (next_kind false kind ks) o ks ≡ none
off_kind_of-next_kind kind none ks = refl
off_kind_of-next_kind kind (some s) none = refl
off_kind_of-next_kind kind (some s) (some []) = refl
off_kind_of-next_kind kind (some s) (some (k ∷ ks)) =
    let bought = buys-next_kind kind k ks in ground (arith, bought)

next_kind-keeps : (kind : VaultKind) (ks : Option (List VaultKind)) → next_kind true kind ks ≡ kind
next_kind-keeps kind none = refl
next_kind-keeps kind (some []) = refl
next_kind-keeps kind (some (k ∷ ks)) = refl

module _ (v : LinkView) (st : LinkState) where
  settle_lem :
      (w : String)
      → st.wanted ≡ some w
      → st.settled ≡ false
      → v.list_fresh ≡ true
      → v.pairs_fresh ≡ true
      → settle v st
        ≡ record st { settled = true; kind = next_kind v.keep_kind st.kind (kinds v st) }
  unfolding settle
  settle_lem w h undecided fresh pairs = rw (h, undecided, fresh, pairs) refl

  no_kinds : (o : Option Stock) → o ≡ none → kinds_in v o ≡ none
  no_kinds none e = refl
  no_kinds (some s) e = absurd (cc e)

  ends :
      (w : String)
      → st.wanted ≡ some w
      → Ends
          (next_kind v.keep_kind st.kind (kinds v st))
          w
          (hit v st)
          (kinds v st)
          (name_of_missing true st.wanted (hit v st) (kinds v st))
          (off_kind_of true (next_kind v.keep_kind st.kind (kinds v st)) (hit v st) (kinds v st))
  unfolding kinds
  ends w h =
      subst
        (λ o.
          Ends (next_kind v.keep_kind st.kind (kinds v st)) w (hit v st) (kinds v st)
            (name_of_missing true o (hit v st) (kinds v st))
            (off_kind_of true (next_kind v.keep_kind st.kind (kinds v st)) (hit v st) (kinds v st)))
        (sym h) (ends_lem _ w (hit v st) (kinds v st) (no_kinds (hit v st)))

  -- Once the lists are in, a link is decided on: the form names a stock that no frequency buys as unavailable, and one
  -- that only other frequencies buy as such; the frequency of a link stays, and where there is none the form goes to
  -- one that buys the stock, so that the second notice does not come up.
  pub settle-Ends :
      (w : String)
      → st.wanted ≡ some w
      → st.settled ≡ false
      → v.list_fresh ≡ true
      → v.pairs_fresh ≡ true
      → Ends
          (settle v st).kind
          w
          (hit v st)
          (kinds v st)
          (unavailable v (settle v st))
          (off_kind v (settle v st))
        × (v.keep_kind ≡ true → (settle v st).kind ≡ st.kind)
        × (v.keep_kind ≡ false → off_kind v (settle v st) ≡ none)
  unfolding unavailable off_kind hit kinds
  settle-Ends w h undecided fresh pairs = rw (settle_lem w h undecided fresh pairs) (
    ends w h,
    λ keep. rw keep (next_kind-keeps st.kind (kinds v st)),
    λ free. rw free (off_kind_of-next_kind st.kind (hit v st) (kinds v st)),
  )
