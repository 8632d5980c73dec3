-- ===== src/Scheduler/Batches.antt =====
-- The pass over the uncovered pairs: its rounds of reads, its pairs and its caches.
use dca_protocol.Base.{
  ℕ, zero, suc, ◌≤◌, List, [], ◌∷◌, ◌++◌, ◌≡◌, refl, sym, ap, ◌∙◌, arith, length, take, drop,
  take-append-drop, length-drop,
}
use mathlib.Core.Path.{fun_ext}
use dca_protocol.Scheduler.Types.{State}
use dca_protocol.Scheduler.Rpc.{Outcome, ok, raised, Rpc}
use dca_protocol.Scheduler.Monad.{Method, ◌>>=◌, pure, continue}
use dca_protocol.Scheduler.Uncovered.{Pair, read_batch, count_all, count_batches}

module _ {W : Type 0} where
  continue-bind :
      {A B C : Type 0} (f : A → Method W B) (g : B → Method W C)
      → (r : Outcome A) (s : State) (w : W)
      → continue g (continue f r s w).0 (continue f r s w).1 (continue f r s w).2
        ≡ continue (λ a. f a >>= g) r s w
  unfolding continue ◌>>=◌
  continue-bind f g (ok a) s w = refl
  continue-bind f g (raised e) s w = refl

  -- The laws of the sequencing, as equations between methods.
  bind_assoc :
      {A B C : Type 0} (m : Method W A) (f : A → Method W B) (g : B → Method W C)
      → ((m >>= f) >>= g) ≡ (m >>= λ a. f a >>= g)
  unfolding ◌>>=◌
  bind_assoc m f g = fun_ext λ s. fun_ext λ w. continue-bind f g (m s w).0 (m s w).1 (m s w).2

  pure_bind : {A B : Type 0} (a : A) (f : A → Method W B) → (pure a >>= f) ≡ f a
  unfolding ◌>>=◌ pure continue
  pure_bind a f = refl

  continue-pure : {A : Type 0} (r : Outcome A) (s : State) (w : W) → continue pure r s w ≡ (r, s, w)
  unfolding continue pure
  continue-pure (ok a) s w = refl
  continue-pure (raised e) s w = refl

  bind_pure : {A : Type 0} (m : Method W A) → (m >>= pure) ≡ m
  unfolding ◌>>=◌
  bind_pure m = fun_ext λ s. fun_ext λ w. continue-pure (m s w).0 (m s w).1 (m s w).2

module _ {W : Type 0} (rpc : Rpc W) where
  -- Reading two lists one after the other is reading them as one.
  count_all-append :
      (ps qs : List Pair)
      → count_all rpc (ps ++ qs)
        ≡ (count_all rpc ps >>= λ ns. count_all rpc qs >>= λ ms. pure (ns ++ ms))
  unfolding count_all
  count_all-append [] qs = rw pure_bind (sym (bind_pure (count_all rpc qs)))
  count_all-append (p ∷ ps) qs = simp (count_all-append ps qs, bind_assoc, pure_bind)

  no_pairs : pure [] ≡ count_all rpc []
  unfolding count_all
  no_pairs = refl

  -- Reading the counts in rounds of `read_batch` is reading them all in order, with the same
  -- result, failure, fields and world: as many rounds as pairs are enough.
  pub count_batches-eq-count_all :
      (rounds : ℕ) (pairs : List Pair)
      → length pairs ≤ rounds
      → count_batches rpc rounds pairs ≡ count_all rpc pairs
  unfolding count_batches
  count_batches-eq-count_all zero [] h = no_pairs
  count_batches-eq-count_all zero (p ∷ ps) h = absurd (omega arith)
  count_batches-eq-count_all (suc rounds) [] h = no_pairs
  count_batches-eq-count_all (suc rounds) (p ∷ ps) h =
      let rest =
        count_batches-eq-count_all rounds (drop read_batch (p ∷ ps))
          (omega (arith, length-drop 99 ps)) in
      rw rest (
        sym (count_all-append (take read_batch (p ∷ ps)) (drop read_batch (p ∷ ps)))
        ∙ ap (count_all rpc) (take-append-drop read_batch (p ∷ ps)))
