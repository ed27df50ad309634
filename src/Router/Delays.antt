-- ===== src/Router/Delays.antt =====
-- The delay that reconcileRouters asks for.
use cluster_api_provider_clo.Base.{
  ◌≤◌, ◌≡◌, sym, subst, ◌∙◌, ◌⊎◌, inl, inr, false, not, ◌&&◌, ◌||◌, arith, ltb, Bool-cases, List,
  [], ◌∷◌, All, IsIn,
}
use cluster_api_provider_clo.Api.Cluster.{RouterSpec}
use cluster_api_provider_clo.Scope.{
  Scope, Env, ok, CtrlResult, no_requeue, is_zero, ◌>>=◌, annotate,
}
use cluster_api_provider_clo.Go.Post.{ok-injective, bind-ok, wrap_outcome-ok}
use cluster_api_provider_clo.Router.Provision.{
  lower_result, reconcile_router, reconcile_router_list, reconcile_routers,
}

-- The result asks for a requeue no later than the other does, if that asks for one.
abbrev pub NoLater : CtrlResult → CtrlResult → Type 0
NoLater r other =
    is_zero other ≡ false → (is_zero r ≡ false) × (r.requeue_after ≤ other.requeue_after)

NoLater-refl : (r : CtrlResult) → NoLater r r
NoLater-refl r h = (h, omega arith)

NoLater-trans : (a b c : CtrlResult) → NoLater a b → NoLater b c → NoLater a c
NoLater-trans a b c h k z =
    let later = k z in let sooner = h later.0 in (sooner.0, at_most sooner.1 later.1)
  where
    at_most :
        a.requeue_after ≤ b.requeue_after
        → b.requeue_after ≤ c.requeue_after
        → a.requeue_after ≤ c.requeue_after
    at_most p q = omega arith

NoLater-first : (a b : CtrlResult) → NoLater (lower_result a b) a
unfolding lower_result
NoLater-first a b h = ground arith

NoLater-second : (a b : CtrlResult) → NoLater (lower_result a b) b
unfolding lower_result
NoLater-second a b h = ground arith

lower-one : (a b : CtrlResult) → (lower_result a b ≡ a) ⊎ (lower_result a b ≡ b)
unfolding lower_result
lower-one a b =
    elim (Bool-cases (not (is_zero b) && (is_zero a || ltb b.requeue_after a.requeue_after))) [
      | inl e ↦ inr (ground arith)
      | inr e ↦ inl (ground arith)
    ]

module _ {W : Type 0} (env : Env W) where
  -- reconcileRouter runs for each router of the list, one after the other, each time without an error
  -- and with the result at the router's place.
  pub data Turns : List RouterSpec → List CtrlResult → Scope W → Type 0 where
    done : (s : Scope W) → Turns [] [] s
    turn :
        (spec : RouterSpec) (rest : List RouterSpec) (res : CtrlResult) (results : List CtrlResult)
        (s : Scope W)
        → (reconcile_router env spec s).0 ≡ ok res
        → Turns rest results (reconcile_router env spec s).1
        → Turns (spec ∷ rest) (res ∷ results) s

  -- The run of the loop from a result on, which ends with `r`.
  record Looped (acc : CtrlResult) (specs : List RouterSpec) (s : Scope W) (r : CtrlResult)
      : Type 0 where
    results : List CtrlResult
    turns : Turns specs results s
    no_later : NoLater r acc
    each : All (NoLater r) results
    one : (r ≡ acc) ⊎ IsIn r results

  next-Looped :
      (acc res : CtrlResult) (spec : RouterSpec) (rest : List RouterSpec) (s : Scope W)
      (r : CtrlResult)
      → (reconcile_router env spec s).0 ≡ ok res
      → Looped (lower_result acc res) rest (reconcile_router env spec s).1 r
      → Looped acc (spec ∷ rest) s r
  next-Looped acc res spec rest s r e k = record {
    results = res ∷ k.results;
    turns = turn spec rest res k.results s e k.turns;
    no_later = NoLater-trans r (lower_result acc res) acc k.no_later (NoLater-first acc res);
    each = (NoLater-trans r (lower_result acc res) res k.no_later (NoLater-second acc res), k.each);
    one = elim k.one [
      | inl same ↦ elim (lower-one acc res) [
        | inl first ↦ inl (same ∙ first)
        | inr second ↦ inr (inl (same ∙ second))
      ]
      | inr later ↦ inr (inr later)
    ];
  }

  list-Looped :
      (specs : List RouterSpec) (acc : CtrlResult) (s : Scope W) (r : CtrlResult)
      → (reconcile_router_list env acc specs s).0 ≡ ok r
      → Looped acc specs s r
  unfolding reconcile_router_list annotate ◌>>=◌
  list-Looped [] acc s r h = record {
    results = [];
    turns = done s;
    no_later = subst (λ q. NoLater q acc) (ok-injective acc r h) (NoLater-refl acc);
    each = tt;
    one = inl (sym (ok-injective acc r h));
  }
  list-Looped (spec ∷ rest) acc s r h =
      let run = reconcile_router env spec s in
      let next = bind-ok (annotate _ (reconcile_router env spec)) _ s r h in
      next-Looped acc next.0 spec rest s r (wrap_outcome-ok _ run.0 next.0 next.1)
        (list-Looped rest (lower_result acc next.0) run.1 r next.2)

  -- The result that reconcileRouters asks for: it is no later than that of any router, and it is one of
  -- theirs, or no requeue.
  pub record Earliest (routers : List RouterSpec) (s : Scope W) (r : CtrlResult) : Type 0 where
    pub results : List CtrlResult
    pub turns : Turns routers results s
    pub each : All (NoLater r) results
    pub one : (r ≡ no_requeue) ⊎ IsIn r results

  -- Where reconcileRouters returns no error, reconcileRouter ran for each router of the spec without
  -- an error, and the result is the earliest requeue that one of these runs asked for, or none where
  -- none of them asked for one.
  pub reconcile_routers-Earliest :
      (s : Scope W) (r : CtrlResult)
      → (reconcile_routers env s).0 ≡ ok r
      → Earliest s.cluster.spec.routers s r
  unfolding reconcile_routers ◌>>=◌
  reconcile_routers-Earliest s r h =
      let k = list-Looped s.cluster.spec.routers no_requeue s r h in
      record { results = k.results; turns = k.turns; each = k.each; one = k.one }
