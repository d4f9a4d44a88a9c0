-- ===== src/Cluster/Strategies/Errors.antt =====
-- The strategies failfast and failsafe: how often they call, and what becomes of an error.
use incubator_dubbo_go.Prelude.{
  ◌+◌, ◌≡◌, ◌≤◌, refl, sym, subst, ◌∙◌, length, length-append, List, [], ◌∷◌, Option, none, some,
  Option-cases, ◌⊎◌, inl, inr, arith,
}
use incubator_dubbo_go.Protocol.{Invoker, Invocation, RpcResult, Error, error_result}
use incubator_dubbo_go.Cluster.{Env}
use incubator_dubbo_go.Cluster.Select.Member.{Selects}
use incubator_dubbo_go.Cluster.Select.Available.{AllAvailable, IsSome, do_select-IsSome}
use incubator_dubbo_go.Cluster.Failover.Bounds.{
  Registered, head_same, Ensures-get_load_balance, Ensures-check_whether_destroyed,
}
use incubator_dubbo_go.Cluster.Ensures.{
  Ensures, Called, Ensures-pure, Ensures-option, Ensures-list, Ensures-given, Ensures-bind,
  Ensures-weaken, Ensures-listed, Ensures-not_nil, Ensures-invoke,
}
use incubator_dubbo_go.Cluster.Strategies.{
  call_selected, ignore_error, failsafe_invoke, failfast_invoke,
}

module _ {W : Type 0} (env : Env W) (inv : Invocation) where
  ignore_error-none : (r : RpcResult) → (ignore_error env inv r).err ≡ none
  unfolding ignore_error
  ignore_error-none r = elim (Option-cases r.err) [
    | inl e ↦ rw (e, ignore_error) e
    | inr (x, e) ↦ rw (e, ignore_error) refl
  ]

  Ensures-call_selected :
      (cs : List Invoker) (v : Option Invoker)
      → IsSome v
      → Ensures (Called cs) (call_selected env inv v) (λ r s. length s.calls ≡ length cs + 1)
  unfolding call_selected
  Ensures-call_selected cs v (u, e) =
      Ensures-bind (λ j s. Called cs s × (j ≡ u)) (Ensures-not_nil v u e)
        (λ j. Ensures-given (λ _.
          Ensures-weaken (λ s p. p) (λ r s p. rw p (omega (arith, length-append cs (j ∷ []))))
            (Ensures-invoke env cs j inv)))

  module _ (up : AllAvailable env) where
    -- Where the directory lists an invoker first whose load balance is registered and chooses from
    -- what it is given, and every invoker is available, failsafe returns: it
    -- calls one invoker, and whatever that one answers, the result has no error.
    pub failsafe_invoke-none :
        (i : Invoker) (is : List Invoker)
        → Registered env inv i
        → Ensures
            (λ s. Called [] s × ((env.list inv s.world).0 ≡ i ∷ is))
            (failsafe_invoke env inv)
            (λ r s. (r.err ≡ none) × (length s.calls ≡ 1))
    unfolding failsafe_invoke
    failsafe_invoke-none i is reg =
        Ensures-bind (λ l s. Called [] s × (l ≡ i ∷ is)) (Ensures-listed env [] (i ∷ is) inv)
          (λ l. Ensures-given (λ e.
            Ensures-list l (λ e'. absurd (cc (e', e)))
              (λ j js e'.
                Ensures-bind (λ lb s. Called [] s × Selects lb)
                  (Ensures-get_load_balance env inv [] j
                    (subst (Registered env inv) (head_same i j is js (sym e ∙ e')) reg))
                  (λ lb. Ensures-given (λ law.
                    Ensures-bind (λ v s. Called [] s × IsSome v)
                      (do_select-IsSome env up lb law inv [] j js)
                      (λ v. Ensures-given (λ chosen.
                        Ensures-bind (λ r s. length s.calls ≡ 1) (Ensures-call_selected [] v chosen)
                          (λ r.
                            Ensures-pure (ignore_error env inv r)
                              (λ s p. (ignore_error-none r, p))))))))))

    -- Where the directory lists an invoker first whose load balance is registered and chooses from
    -- what it is given, and every invoker is available, failfast returns: it calls at most one
    -- invoker, and it returns an error unless it has called one.
    pub failfast_invoke-once :
        (i : Invoker) (is : List Invoker)
        → Registered env inv i
        → Ensures
            (λ s. Called [] s × ((env.list inv s.world).0 ≡ i ∷ is))
            (failfast_invoke env inv)
            (λ r s.
              (length s.calls ≤ 1) × (((e : Error) × (r.err ≡ some e)) ⊎ (length s.calls ≡ 1)))
    unfolding failfast_invoke
    failfast_invoke-once i is reg =
        Ensures-bind (λ l s. Called [] s × (l ≡ i ∷ is)) (Ensures-listed env [] (i ∷ is) inv)
          (λ l. Ensures-given (λ e.
            Ensures-list l (λ e'. absurd (cc (e', e)))
              (λ j js e'.
                Ensures-bind (λ lb s. Called [] s × Selects lb)
                  (Ensures-get_load_balance env inv [] j
                    (subst (Registered env inv) (head_same i j is js (sym e ∙ e')) reg))
                  (λ lb. Ensures-given (λ law.
                    Ensures-bind (λ _. Called []) (Ensures-check_whether_destroyed env inv [])
                      (λ d.
                        Ensures-option d
                          (λ _.
                            Ensures-bind (λ v s. Called [] s × IsSome v)
                              (do_select-IsSome env up lb law inv [] j js)
                              (λ v. Ensures-given (λ chosen.
                                Ensures-weaken (λ s p. p) (λ r s p. (omega (arith, p), inr p))
                                  (Ensures-call_selected [] v chosen))))
                          (λ x _.
                            Ensures-pure (error_result x)
                              (λ s p. (rw p (omega arith), inl (x, refl))))))))))
