-- ===== src/Routes/Candidates.antt =====
-- The candidates of `readBestRoute` of apps/web/src/hooks/useProtocol.ts, and the best of them.
use dca_protocol.Base.{
  ℕ, ◌≤◌, ◌<◌, List, [], ◌∷◌, ◌++◌, Option, none, some, ltb, if◌then◌else◌, In, here, there,
  In-append, In-append_left, In-append_right, ◌≡◌, refl, sym, ap, ◌∙◌, arith, Bool-cases, ltb_iff,
  In-if, ◌⊎◌, inl, inr, subst,
}
use dca_protocol.Routes.Path.{RouteHop, BestRoute}
use dca_protocol.Routes.Read.{
  Read, answered, threw, ◌>>=◌, read_or_no, read_all, route, confirmed_candidate,
  confirmed_candidates, beats, best_of,
}

-- The parts of a sequence of reads that was answered.
pub bind-answered {ℓ κ} :
    {A : Type ℓ} {B : Type κ} (m : Read A) (f : A → Read B) {b : B}
    → (m >>= f) ≡ answered b
    → (a : A) × (m ≡ answered a) × (f a ≡ answered b)
bind-answered (answered a) f h = (a, refl, h)
bind-answered (threw e) f h = cc

pub read_or_no-answered {ℓ} :
    {A : Type ℓ} (r : Read A) (a : A) → read_or_no r ≡ answered (some a) → r ≡ answered a
unfolding read_or_no
read_or_no-answered (answered b) a h = cc
read_or_no-answered (threw e) a h = absurd (ground arith)

pub answered_inj {ℓ} : {A : Type ℓ} {a b : A} → answered a ≡ answered b → a ≡ b
answered_inj h = cc

-- What was answered is not lost.
pub read_or_no-some {ℓ} :
    {A : Type ℓ} (r : Read A) (a : A) (found : Option A)
    → r ≡ answered a
    → read_or_no r ≡ answered found
    → found ≡ some a
unfolding read_or_no
read_or_no-some r a found told read = answered_inj (sym read ∙ ap read_or_no told)

-- The best so far is one of the candidates.
pub best_of-In :
    (b : BestRoute) (best : Option BestRoute) (cs : List BestRoute)
    → best_of best cs ≡ some b
    → (best ≡ some b) ⊎ In b cs
unfolding best_of
best_of-In b best [] h = inl h
best_of-In b none (c ∷ cs) h = elim (best_of-In b (some c) cs h) [
  | inl e ↦ inr (here (cc))
  | inr m ↦ inr (there m)
]
best_of-In b (some a) (c ∷ cs) h = elim (best_of-In b _ cs h) [
  | inl e ↦ elim (Bool-cases (beats c a)) [
    | inl wins ↦ inr (here (ground arith))
    | inr stays ↦ inl (ground arith)
  ]
  | inr m ↦ inr (there m)
]

-- A best route that delivers an amount or more.
abbrev pub Reaches : Option BestRoute → ℕ → Type 0
Reaches best n = (b : BestRoute) × (best ≡ some b) × (n ≤ b.amount_out)

pub Reaches-mono : {best : Option BestRoute} {n m : ℕ} → n ≤ m → Reaches best m → Reaches best n
Reaches-mono le (b, at, reached) = (b, at, omega arith)

-- Neither the candidate nor the best so far delivers more than what stays.
beats_bounds :
    (c b : BestRoute)
    → (c.amount_out ≤ (if beats c b then c else b).amount_out)
      × (b.amount_out ≤ (if beats c b then c else b).amount_out)
unfolding beats
beats_bounds c b = ground arith

best_of-keeps : (b : BestRoute) (cs : List BestRoute) → Reaches (best_of (some b) cs) b.amount_out
unfolding best_of
best_of-keeps b [] = (b, refl, omega arith)
best_of-keeps b (c ∷ cs) =
    Reaches-mono (beats_bounds c b).1 (best_of-keeps (if beats c b then c else b) cs)

pub best_of-Reaches :
    (c : BestRoute) (best : Option BestRoute) (cs : List BestRoute)
    → In c cs
    → Reaches (best_of best cs) c.amount_out
unfolding best_of
best_of-Reaches c none [] m = elim m [ ]
best_of-Reaches c (some b) [] m = elim m [ ]
best_of-Reaches c none (x ∷ xs) (here e) = rw e (best_of-keeps x xs)
best_of-Reaches c (some b) (x ∷ xs) (here e) =
    rw e (Reaches-mono (beats_bounds x b).0 (best_of-keeps (if beats x b then x else b) xs))
best_of-Reaches c none (x ∷ xs) (there m) = best_of-Reaches c (some x) xs m
best_of-Reaches c (some b) (x ∷ xs) (there m) =
    best_of-Reaches c (some (if beats x b then x else b)) xs m

-- What was asked, and the answers.
pub data Answers {ℓ κ} {A : Type ℓ} {B : Type κ} (f : A → Read B)
    : List A → List B → Type (ℓ ⊔ κ) where
  done : Answers f [] []
  asked :
      {a : A} {b : B} {as' : List A} {bs : List B}
      → f a ≡ answered b
      → Answers f as' bs
      → Answers f (a ∷ as') (b ∷ bs)

pub read_all-Answers {ℓ κ} :
    {A : Type ℓ} {B : Type κ} (f : A → Read B) (xs : List A) (ys : List B)
    → read_all f xs ≡ answered ys
    → Answers f xs ys
unfolding read_all
read_all-Answers f [] ys h = subst (Answers f []) (answered_inj h) done
read_all-Answers f (x ∷ xs) ys h =
    let (y, told, rest) = bind-answered (f x) _ h in
    let (zs, told_all, e) = bind-answered (read_all f xs) _ rest in
    subst (Answers f (x ∷ xs)) (answered_inj e) (asked told (read_all-Answers f xs zs told_all))

pub one_answer {ℓ κ} :
    {A : Type ℓ} {B : Type κ} (f : A → Read B) {x : A} {ys : List B}
    → Answers f (x ∷ []) ys
    → (y : B) × (f x ≡ answered y) × (ys ≡ y ∷ [])
one_answer f (asked {b = y} told done) = (y, told, refl)

confirmed_one-In :
    (p : List RouteHop) (out : Option ℕ) (b : BestRoute)
    → In b (confirmed_candidate p out)
    → (n : ℕ) × (out ≡ some n) × (0 < n) × (b ≡ route n p)
unfolding confirmed_candidate
confirmed_one-In p none b m = elim m [ ]
confirmed_one-In p (some n) b m =
    let (some_out, is) = In-if (ltb 0 n) m in (n, refl, (ltb_iff 0 n).0 some_out, is)

In-confirmed_one :
    (p : List RouteHop) (n : ℕ) → 0 < n → In (route n p) (confirmed_candidate p (some n))
unfolding confirmed_candidate
In-confirmed_one p n some_out = rw ((ltb_iff 0 n).1 some_out) (here refl)

pub confirmed-In :
    (f : List RouteHop → Read (Option ℕ)) {paths : List (List RouteHop)} {outs : List (Option ℕ)}
    (b : BestRoute)
    → Answers f paths outs
    → In b (confirmed_candidates paths outs)
    → (p : List RouteHop) × In p paths
      × (n : ℕ) × (f p ≡ answered (some n))
      × (0 < n)
      × (b ≡ route n p)
unfolding confirmed_candidates
confirmed-In f b done m = elim m [ ]
confirmed-In f b (asked {a = p} {b = out} told rest) m =
    elim (In-append (confirmed_candidate p out) _ m) [
      | inl now ↦
          let (n, e, some_out, is) = confirmed_one-In p out b now in
          (p, here refl, n, told ∙ ap answered e, some_out, is)
      | inr later ↦
          let (q, at, n, said, some_out, is) = confirmed-In f b rest later in
          (q, there at, n, said, some_out, is)
    ]

pub In-confirmed :
    (f : List RouteHop → Read (Option ℕ)) {paths : List (List RouteHop)} {outs : List (Option ℕ)}
    (p : List RouteHop) (n : ℕ)
    → Answers f paths outs
    → In p paths
    → f p ≡ answered (some n)
    → 0 < n
    → In (route n p) (confirmed_candidates paths outs)
unfolding confirmed_candidates
In-confirmed f p n done m told some_out = elim m [ ]
In-confirmed f p n (asked {a = x} {b = out} said rest) (there m) told some_out =
    In-append_right (confirmed_candidate x out) (In-confirmed f p n rest m told some_out)
In-confirmed f p n (asked {a = x} {b = out} {as' = ps} {bs = os} said rest) (here e) told some_out =
    let same : out ≡ some n = answered_inj (sym said ∙ ap f (sym e) ∙ told) in
    subst (λ (o : Option ℕ). In (route n p) (confirmed_candidate x o ++ confirmed_candidates ps os))
      (sym same)
      (In-append_left {xs = confirmed_candidate x (some n)} _
        (rw (← e) (In-confirmed_one p n some_out)))
