-- ===== src/Prelude/Runs.antt =====
-- Steps that may fail, one after the other.
use booking.Prelude.{◌≡◌, ap, List, [], ◌∷◌, ◌++◌, Option, none, some, some-injective, ◌>>=◌}

module _ {ℓ κ} {C : Type ℓ} {S : Type κ} (step : C → S → Option S) where
  unfoldable pub run_all : S → List C → Option S
  run_all s [] = some s
  run_all s (c ∷ cs) = step c s >>= λ s'. run_all s' cs

  pub run_all-append :
      (cs : List C) (s s' : S) (ds : List C)
      → run_all s cs ≡ some s'
      → run_all s (cs ++ ds) ≡ run_all s' ds
  unfolding run_all
  run_all-append [] s s' ds h = ap (λ t. run_all t ds) (some-injective s s' h)
  run_all-append (c ∷ cs) s s' ds h = go (step c s) (λ t e. run_all-append cs t s' ds e) h
    where
      go :
          (o : Option S)
          → ((t : S) → run_all t cs ≡ some s' → run_all t (cs ++ ds) ≡ run_all s' ds)
          → (o >>= λ t. run_all t cs) ≡ some s'
          → (o >>= λ t. run_all t (cs ++ ds)) ≡ run_all s' ds
      go none ih h = cc h
      go (some t) ih h = ih t h
