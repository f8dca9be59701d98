-- ===== src/Error/Chain/Tests.antt =====
-- The chain of src/error.rs at concrete errors.
use propmonitor.Base.{codes, true, [], ◌∷◌, all, ◌≡◌, refl}
use propmonitor.Error.Chain.{chain, chain_from, contains, starts_with, chain-contains}

request_failed :
    (contains
        (chain (codes "request failed") (codes "tls" ∷ codes "tls" ∷ []))
        (codes "request failed")
      ≡ true)
    × (all
          (contains (chain (codes "request failed") (codes "tls" ∷ codes "tls" ∷ [])))
          (codes "tls" ∷ codes "tls" ∷ [])
        ≡ true)
request_failed = chain-contains (codes "request failed") (codes "tls" ∷ codes "tls" ∷ [])

no_echo :
    chain (codes "request failed") (codes "tls" ∷ codes "tls" ∷ []) ≡ codes "request failed: tls"
unfolding chain chain_from contains starts_with
no_echo = refl
