-- ===== src/Cluster/Failover/Bounds.antt =====
-- The failover strategy: how often it calls, whom, and with what result.
use incubator_dubbo_go.Prelude.{
  ℕ, zero, suc, ◌+◌, ◌≡◌, ◌≤◌, length, length-append, ◌⊎◌, inl, inr, refl, sym, subst, ◌∙◌, Bool,
  true, false, List, [], ◌∷◌, ◌++◌, Option, none, some, if◌then◌else◌, arith, Text,
}
use incubator_dubbo_go.Protocol.{
  Invoker, Invocation, RpcResult, Error, done, destroyed, error_result, no_provider_available,
  retries_failed, no_provider,
}
use incubator_dubbo_go.Url.{Url, sub_url}
use incubator_dubbo_go.LoadBalance.{LoadBalance}
use incubator_dubbo_go.Cluster.{Env, State, got_load_balance}
use incubator_dubbo_go.Cluster.Select.{
  load_balance_name, none_listed, check_invokers, check_whether_destroyed, get_load_balance,
}
use incubator_dubbo_go.Cluster.Select.Member.{Selects, IsChosen, do_select-IsChosen}
use incubator_dubbo_go.Cluster.Failover.{
  get_retries, Left, returned, ran_out, refresh, attempts, conclude, wrap_error, failover,
}
use incubator_dubbo_go.Cluster.Ensures.{
  Ensures, Called, Ensures-pure, Ensures-given, Ensures-bind, Ensures-weaken, Ensures-option,
  Ensures-list, Ensures-list_invokers, Ensures-listed, Ensures-is_destroyed, Ensures-invoke,
}

-- The number of retries is at most the number of invokers.
pub get_retries-le :
    (i : Invoker) (is : List Invoker) (method : Text)
    → get_retries (i ∷ is) method ≤ length (i ∷ is)
unfolding get_retries
get_retries-le i is method = ground arith

-- The load balance that GetLoadBalance looks up for an invoker is registered, and chooses from the
-- invokers that it is given.
abbrev pub Registered : {W : Type 0} → Env W → Invocation → Invoker → Type 0
Registered {W} env inv i =
    (lb : LoadBalance W) × (env.load_balance (load_balance_name i inv) ≡ some lb) × Selects lb

-- The directory's URL has a SubURL, as those of consumers have.
abbrev pub HasSubUrl : {W : Type 0} → Env W → Type 0
HasSubUrl env = (u : Url) × (sub_url env.directory_url ≡ some u)

pub head_same : (i j : Invoker) (is js : List Invoker) → i ∷ is ≡ j ∷ js → i ≡ j
head_same i j is js e = cc e

module _ {W : Type 0} (env : Env W) (inv : Invocation) where
  pub Ensures-check_whether_destroyed :
      (cs : List Invoker) → Ensures (Called cs) (check_whether_destroyed env) (λ _. Called cs)
  unfolding check_whether_destroyed
  Ensures-check_whether_destroyed cs =
      Ensures-bind (λ _. Called cs) (Ensures-is_destroyed env cs)
        (λ d. Ensures-pure (if d then some destroyed else none) (λ s p. p))

  pub Ensures-get_load_balance :
      (cs : List Invoker) (i : Invoker)
      → Registered env inv i
      → Ensures (Called cs) (get_load_balance env i inv) (λ lb s. Called cs s × Selects lb)
  unfolding get_load_balance got_load_balance
  Ensures-get_load_balance cs i (lb, e, law) = record {
    run = λ s p. (lb, s, rw (e, got_load_balance), (p, law));
  }

  pub Ensures-none_listed :
      HasSubUrl env
      → (cs : List Invoker) → Ensures (Called cs) (none_listed env inv) (λ _. Called cs)
  unfolding none_listed
  Ensures-none_listed (u, e) cs = record {
    run = λ s p. (no_provider inv.method_name, s, rw (e, none_listed) refl, p);
  }

  pub Ensures-check_invokers :
      HasSubUrl env
      → (cs is : List Invoker) → Ensures (Called cs) (check_invokers env is inv) (λ _. Called cs)
  unfolding check_invokers
  Ensures-check_invokers sub cs [] =
      Ensures-bind (λ _. Called cs) (Ensures-none_listed sub cs)
        (λ e. Ensures-pure (some e) (λ s p. p))
  Ensures-check_invokers sub cs (i ∷ is) = Ensures-pure none (λ s p. p)

  refresh-Called :
      HasSubUrl env
      → (cs : List Invoker) (first : Bool) (is : List Invoker)
      → Ensures (Called cs) (refresh env inv first is) (λ _. Called cs)
  unfolding refresh
  refresh-Called sub cs true is = Ensures-pure (none, is) (λ s p. p)
  refresh-Called sub cs false is =
      Ensures-bind (λ _. Called cs) (Ensures-check_whether_destroyed cs)
        (λ d.
          Ensures-option d
            (λ _.
              Ensures-bind (λ _. Called cs) (Ensures-list_invokers env cs inv)
                (λ fresh.
                  Ensures-bind (λ _. Called cs) (Ensures-check_invokers sub cs fresh)
                    (λ c. Ensures-pure (c, fresh) (λ s p. p))))
            (λ e _. Ensures-pure (some e, is) (λ s p. p)))

  -- The variables `ivk` and `result` of the loop: behind a call that failed, its error is there.
  abbrev pub Failing : Option Invoker → Option RpcResult → Type 0
  Failing none r = Unit
  Failing (some v) none = ⊥
  Failing (some v) (some r) = (e : Error) × (r.err ≡ some e)

  abbrev pub IsFailure : RpcResult → Type 0
  IsFailure r = (e : Error) × (r.err ≡ some e)

  -- At most `n` calls, and a success only from one of them.
  abbrev Bounded : ℕ → Left → State W → Type 0
  Bounded n (returned r) s = (length s.calls ≤ n) × (IsFailure r ⊎ (1 ≤ length s.calls))
  Bounded n (ran_out v r) s = (length s.calls ≤ n) × Failing v r

  Bounded-mono : (m n : ℕ) → m ≤ n → (a : Left) (s : State W) → Bounded m a s → Bounded n a s
  Bounded-mono m n h (returned r) s b = (omega arith, b.1)
  Bounded-mono m n h (ran_out v r) s b = (omega arith, b.1)

  module _ (sub : HasSubUrl env) (lb : LoadBalance W) (law : Selects lb) where
    attempts-Bounded :
        (cs : List Invoker) (n : ℕ) (first : Bool) (is invoked : List Invoker) (v : Option Invoker)
        (r : Option RpcResult)
        → Failing v r
        → Ensures (Called cs) (attempts env inv lb n first is invoked v r) (Bounded (length cs + n))
    unfolding attempts
    attempts-Bounded cs zero first is invoked v r f =
        Ensures-pure (ran_out v r) (λ s p. (rw p (omega arith), f))
    attempts-Bounded cs (suc n) first is invoked v r f =
        Ensures-bind (λ _. Called cs) (refresh-Called sub cs first is)
          (λ p.
            Ensures-option p.0
              (λ _.
                Ensures-bind (λ w s. Called cs s × IsChosen p.1 invoked w)
                  (do_select-IsChosen env lb law inv invoked cs p.1)
                  (λ w. Ensures-given (λ _.
                    Ensures-option w
                      (λ _.
                        Ensures-weaken (λ s q. q)
                          (Bounded-mono (length cs + n) (length cs + suc n) (omega arith))
                          (attempts-Bounded cs n false p.1 invoked none r tt))
                      (λ u _.
                        Ensures-bind (λ _. Called (cs ++ u ∷ [])) (Ensures-invoke env cs u inv)
                          (λ res.
                            Ensures-option res.err
                              (λ _. Ensures-pure (returned res) (λ s q. (
                                rw q (omega (arith, length-append cs (u ∷ []))),
                                inr (rw q (omega (arith, length-append cs (u ∷ [])))),
                              )))
                              (λ e eq.
                                Ensures-weaken (λ s q. q)
                                  (Bounded-mono (length (cs ++ u ∷ []) + n) (length cs + suc n)
                                    (omega (arith, length-append cs (u ∷ []))))
                                  (attempts-Bounded (cs ++ u ∷ []) n false p.1 (invoked ++ u ∷ [])
                                    (some u) (some res) (e, eq))))))))
              (λ e _.
                Ensures-pure (returned (error_result e))
                  (λ s q. (rw q (omega arith), inl (e, refl)))))

  abbrev pub LeftFailing : Left → Type 0
  LeftFailing (returned r) = Unit
  LeftFailing (ran_out v r) = Failing v r

  -- Behind the loop nothing panics and nothing is called.
  pub conclude-Failing :
      (left : Left) (s : State W)
      → LeftFailing left
      → (r : RpcResult) × (conclude env inv left s ≡ done (r, s))
        × ((left ≡ returned r) ⊎ ((e : Error) × (r.err ≡ some e)))
  unfolding conclude
  conclude-Failing (returned r) s f = (r, refl, inl refl)
  conclude-Failing (ran_out none r) s f =
      (error_result no_provider_available, refl, inr (no_provider_available, refl))
  conclude-Failing (ran_out (some v) none) s f = absurd f
  conclude-Failing (ran_out (some v) (some r)) s f = (
    error_result (retries_failed inv.method_name f.0),
    rw (f.1, wrap_error),
    inr (retries_failed inv.method_name f.0, refl),
  )

  returned_inj : (r r' : RpcResult) → returned r ≡ returned r' → r ≡ r'
  returned_inj r r' h = cc

  conclude-Bounded :
      (n : ℕ) (left : Left)
      → Ensures
          (Bounded n left)
          (conclude env inv left)
          (λ r s. (length s.calls ≤ n) × (IsFailure r ⊎ (1 ≤ length s.calls)))
  conclude-Bounded n (returned r) = record {
    run = λ s p.
        let (r', e, o) = conclude-Failing (returned r) s tt in
        (r', s, e, (p.0, elim o [ inl q ↦ rw (returned_inj r r' q) at p.1 | inr x ↦ inl x ]));
  }
  conclude-Bounded n (ran_out v r) = record {
    run = λ s p.
        let (r', e, o) = conclude-Failing (ran_out v r) s p.1 in
        (r', s, e, (p.0, elim o [ inl q ↦ absurd cc | inr x ↦ inl x ]));
  }

  -- Where the directory lists an invoker first whose load balance is registered and chooses from
  -- what it is given, and the directory's URL has a SubURL, Invoke of failover returns, whatever the
  -- invokers answer. It calls at most one invoker more than the configured retries, which are at most
  -- as many as there are invokers, and it returns an error unless it has called one.
  pub failover-Bounded :
      HasSubUrl env
      → (i : Invoker) (is : List Invoker) → Registered env inv i
      → Ensures
          (λ s. (s.calls ≡ []) × ((env.list inv s.world).0 ≡ i ∷ is))
          (failover env inv)
          (λ r s.
            (length s.calls ≤ get_retries (i ∷ is) inv.method_name + 1)
            × (IsFailure r ⊎ (1 ≤ length s.calls)))
  unfolding failover
  failover-Bounded sub i is reg =
      Ensures-bind (λ l s. Called [] s × (l ≡ i ∷ is)) (Ensures-listed env [] (i ∷ is) inv)
        (λ l. Ensures-given (λ e.
          Ensures-list l (λ e'. absurd (cc (e', e)))
            (λ j js e'.
              Ensures-bind (λ lb s. Called [] s × Selects lb)
                (Ensures-get_load_balance [] j
                  (subst (Registered env inv) (head_same i j is js (sym e ∙ e')) reg))
                (λ lb. Ensures-given (λ law.
                  Ensures-bind (Bounded (get_retries (j ∷ js) inv.method_name + 1))
                    (Ensures-weaken (λ s p. p) (Bounded-mono _ _ (omega arith))
                      (attempts-Bounded sub lb law [] (get_retries (j ∷ js) inv.method_name + 1)
                        true (j ∷ js) [] none none tt))
                    (λ left.
                      Ensures-weaken (λ s p. p) (λ r s p. rw (sym e ∙ e') p)
                        (conclude-Bounded (get_retries (j ∷ js) inv.method_name + 1) left)))))))
