-- ===== src/Balance/Backends/Laws.antt =====
-- What a refresh of umay/src/balance/mod.rs leaves in the balancer.
use umay.Base.{◌≡◌, refl, List, Outcome, ok, err, panic}
use umay.Balance.Backend.{Backend}
use umay.Balance.Backends.{Backends, stored}

-- What holds of the set in use and of each set that is found holds of the set that is stored.
pub stored-set {κ} :
    {D : Type 0} (S : List Backend → Type κ) (b : Backends D) (r : Outcome (List Backend))
    → S b.backends
    → ((bs : List Backend) → r ≡ ok bs → S bs)
    → S (stored b r).0.backends × ((stored b r).0.discovery ≡ b.discovery)
stored-set S b (ok bs) h k = (k bs refl, refl)
stored-set S b (err e) h k = (h, refl)
stored-set S b panic h k = (h, refl)
