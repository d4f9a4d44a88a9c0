-- ===== src/Cluster/Failover/Distinct.antt =====
-- A retry of failover goes to another invoker.
use incubator_dubbo_go.Prelude.{
  ℕ, zero, suc, ◌+◌, ◌≡◌, ◌≤◌, length, refl, ◌∙◌, Bool, true, false, List, [], ◌∷◌, ◌++◌, Option,
  none, some, arith, ltb, ◌&&◌,
}
use incubator_dubbo_go.Protocol.{Invoker, Invocation, RpcResult, same_invoker, error_result}
use incubator_dubbo_go.LoadBalance.{LoadBalance}
use incubator_dubbo_go.Cluster.{Env, M, list_invokers}
use incubator_dubbo_go.Cluster.Select.{is_invoked}
use incubator_dubbo_go.Cluster.Select.Member.{Selects, IsChosen, do_select-IsChosen}
use incubator_dubbo_go.Cluster.Failover.{
  get_retries, Left, returned, ran_out, refresh, attempts, conclude, failover,
}
use incubator_dubbo_go.Cluster.Failover.Bounds.{
  HasSubUrl, Registered, Ensures-none_listed, Ensures-check_invokers, Failing,
  Ensures-get_load_balance, Ensures-check_whether_destroyed, LeftFailing, conclude-Failing,
}
use incubator_dubbo_go.Cluster.Ensures.{
  Pred, Ensures, Called, Ensures-pure, Ensures-given, Ensures-bind, Ensures-option, Ensures-list,
  Ensures-invoke,
}

-- No invoker stands in the list twice.
abbrev pub Distinct : List Invoker → Type 0
Distinct [] = Unit
Distinct (i ∷ is) = (is_invoked i is ≡ false) × Distinct is

is_invoked-append :
    (i v : Invoker) (is : List Invoker)
    → is_invoked i is ≡ false
    → same_invoker v i ≡ false
    → is_invoked i (is ++ v ∷ []) ≡ false
unfolding is_invoked
is_invoked-append i v [] h e = ground arith
is_invoked-append i v (j ∷ is) h e = ground (arith, is_invoked-append i v is)

Distinct-append :
    (cs : List Invoker) (v : Invoker)
    → Distinct cs
    → is_invoked v cs ≡ false
    → Distinct (cs ++ v ∷ [])
unfolding is_invoked
Distinct-append [] v d h = (refl, tt)
Distinct-append (c ∷ cs) v d h =
    (is_invoked-append c v cs d.0 (ground arith), Distinct-append cs v d.1 (ground arith))

Ensures-two :
    {W A F G : Type 0} {P : Pred W} {m : M W A} {Q : A → Pred W}
    → (F → G → Ensures P m Q)
    → Ensures (λ s. P s × F × G) m Q
Ensures-two h = record { run = λ s p. (h p.1 p.2).run s p.0 }

fresh_choice :
    (is : List Invoker) (b : Bool) → 2 ≤ length is → (ltb 1 (length is) && b) ≡ false → b ≡ false
fresh_choice is b h e = ground arith

module _ {W : Type 0} (env : Env W) (inv : Invocation) (sub : HasSubUrl env)
    (many : (w : W) → 2 ≤ length (env.list inv w).0) where
  list_many :
      (cs : List Invoker)
      → Ensures (Called cs) (list_invokers env inv) (λ l s. Called cs s × (2 ≤ length l))
  unfolding list_invokers
  list_many cs = record { run = λ s p. (_, _, refl, (p, many s.world)) }

  Listed : List Invoker → Type 0
  Listed l = (w : W) × ((env.list inv w).0 ≡ l)

  list_some :
      Ensures (Called []) (list_invokers env inv) (λ l s. Called [] s × (2 ≤ length l) × Listed l)
  unfolding list_invokers Listed
  list_some = record { run = λ s p. (_, _, refl, (p, many s.world, (s.world, refl))) }

  refresh_many :
      (cs : List Invoker) (first : Bool) (is : List Invoker)
      → 2 ≤ length is
      → Ensures (Called cs) (refresh env inv first is) (λ p s. Called cs s × (2 ≤ length p.1))
  unfolding refresh list_invokers
  refresh_many cs true is h = Ensures-pure (none, is) (λ s p. (p, h))
  refresh_many cs false is h =
      Ensures-bind (λ _. Called cs) (Ensures-check_whether_destroyed env inv cs)
        (λ d.
          Ensures-option d
            (λ _.
              Ensures-bind (λ l s. Called cs s × (2 ≤ length l)) (list_many cs)
                (λ fresh. Ensures-given (λ h'.
                  Ensures-bind (λ _. Called cs) (Ensures-check_invokers env inv sub cs fresh)
                    (λ c. Ensures-pure (c, fresh) (λ s p. (p, h'))))))
            (λ e _. Ensures-pure (some e, is) (λ s p. (p, h))))

  conclude-Distinct :
      (left : Left)
      → Ensures
          (λ s. Distinct s.calls × LeftFailing env inv left)
          (conclude env inv left)
          (λ r s. Distinct s.calls)
  conclude-Distinct left = record {
    run = λ s p. let (r, e, o) = conclude-Failing env inv left s p.1 in (r, s, e, p.0);
  }

  module _ (lb : LoadBalance W) (law : Selects lb) where
    attempts-Distinct :
        (cs : List Invoker) (n : ℕ) (first : Bool) (is : List Invoker) (v : Option Invoker)
        (r : Option RpcResult)
        → 2 ≤ length is
        → Distinct cs
        → Failing env inv v r
        → Ensures
            (Called cs)
            (attempts env inv lb n first is cs v r)
            (λ left s. Distinct s.calls × LeftFailing env inv left)
    unfolding attempts
    attempts-Distinct cs zero first is v r h d f = Ensures-pure (ran_out v r) (λ s p. (rw p d, f))
    attempts-Distinct cs (suc n) first is v r h d f =
        Ensures-bind (λ p s. Called cs s × (2 ≤ length p.1)) (refresh_many cs first is h)
          (λ p. Ensures-given (λ h'.
            Ensures-option p.0
              (λ _.
                Ensures-bind (λ w s. Called cs s × IsChosen p.1 cs w)
                  (do_select-IsChosen env lb law inv cs cs p.1)
                  (λ w. Ensures-given (λ chosen.
                    Ensures-option w (λ _. attempts-Distinct cs n false p.1 none r h' d tt)
                      (λ u eu.
                        Ensures-bind (λ _. Called (cs ++ u ∷ [])) (Ensures-invoke env cs u inv)
                          (λ res.
                            let d' =
                              Distinct-append cs u d
                                (fresh_choice p.1 (is_invoked u cs) h' (rw eu at chosen).1) in
                            Ensures-option res.err
                              (λ _. Ensures-pure (returned res) (λ s q. (rw q d', tt)))
                              (λ e eq.
                                attempts-Distinct (cs ++ u ∷ []) n false p.1 (some u) (some res) h'
                                  d' (e, eq)))))))
              (λ e _. Ensures-pure (returned (error_result e)) (λ s q. (rw q d, tt)))))

  -- Where the directory lists two invokers or more each time, the load balance of the one that it
  -- lists first is registered and chooses from what it is given, and the directory's URL has a
  -- SubURL, Invoke of failover returns and calls no invoker twice, whatever the invokers answer.
  pub failover-Distinct :
      ((w : W) (i : Invoker) (is : List Invoker)
        → (env.list inv w).0 ≡ i ∷ is
        → Registered env inv i)
      → Ensures (Called []) (failover env inv) (λ r s. Distinct s.calls)
  unfolding failover list_invokers Listed
  failover-Distinct reg = Ensures-bind _ list_some (λ l. Ensures-two (λ h from.
      Ensures-list l
        (λ _.
          Ensures-bind (λ _. Called []) (Ensures-none_listed env inv sub [])
            (λ x. Ensures-pure (error_result x) (λ s p. rw p tt)))
        (λ i is e.
          Ensures-bind (λ lb s. Called [] s × Selects lb)
            (Ensures-get_load_balance env inv [] i (reg from.0 i is (from.1 ∙ e)))
            (λ lb. Ensures-given (λ law.
              Ensures-bind (λ left s. Distinct s.calls × LeftFailing env inv left)
                (attempts-Distinct lb law [] (get_retries (i ∷ is) inv.method_name + 1) true
                  (i ∷ is) none none (rw e at h) tt tt)
                conclude-Distinct)))))
