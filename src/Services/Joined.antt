-- ===== src/Services/Joined.antt =====
-- errors.Join over the errors of a loop.
use cluster_api_provider_clo.Base.{◌≡◌, refl, List, [], ◌∷◌}
use cluster_api_provider_clo.Errors.{Error, join_errors}
use cluster_api_provider_clo.Scope.{ok, unit_of}

pub unit_of-join_errors :
    (errs : List Error) (a : Unit {0}) → unit_of (join_errors errs) ≡ ok a → errs ≡ []
unfolding join_errors
unit_of-join_errors [] a h = refl
unit_of-join_errors (e ∷ errs) a h = cc
