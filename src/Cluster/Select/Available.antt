-- ===== src/Cluster/Select/Available.antt =====
-- DoSelect where every invoker is available: it chooses one.
use incubator_dubbo_go.Prelude.{
  ◌≡◌, refl, arith, Bool, true, false, not, ◌&&◌, ◌||◌, List, [], ◌∷◌, Option, none, some,
}
use incubator_dubbo_go.Protocol.{Invoker, Invocation}
use incubator_dubbo_go.LoadBalance.{LoadBalance}
use incubator_dubbo_go.Cluster.{Env, available, set_sticky}
use incubator_dubbo_go.Cluster.Select.{
  is_invoked, get_other_invokers, do_select_invoker, or_select, do_select, is_sticky,
}
use incubator_dubbo_go.Cluster.Select.Member.{
  Selects, IsFresh, IsMember, Ensures-selected, reselect-IsFresh, drop_sticky-IsMember,
  usable_sticky-IsFresh,
}
use incubator_dubbo_go.Cluster.Ensures.{
  Ensures, Called, Ensures-pure, Ensures-if, Ensures-gets, Ensures-given, Ensures-then,
  Ensures-weaken, Ensures-mark_unhealthy, Ensures-bind,
}

abbrev pub IsSome : Option Invoker → Type 0
IsSome v = (u : Invoker) × (v ≡ some u)

-- Every invoker answers, at any time, that it is available.
abbrev pub AllAvailable : {W : Type 0} → Env W → Type 0
AllAvailable {W} env = (i : Invoker) (w : W) → (env.is_available i w).0 ≡ true

module _ {W : Type 0} (env : Env W) (up : AllAvailable env) (lb : LoadBalance W) (law : Selects lb)
    (inv : Invocation) where
  Ensures-available-true :
      (cs : List Invoker) (i : Invoker)
      → Ensures (Called cs) (available env i) (λ a s. Called cs s × (a ≡ true))
  unfolding available
  Ensures-available-true cs i = record { run = λ s p. (_, _, refl, (p, up i s.world)) }

  impossible : (a check : Bool) → a ≡ true → ((not a && check) || false) ≡ true → ⊥
  impossible a check e e' = ground arith

  do_select_invoker-IsSome :
      (cs : List Invoker) (i : Invoker) (is : List Invoker)
      → Ensures
          (Called cs)
          (do_select_invoker env lb inv [] (i ∷ is))
          (λ v s. Called cs s × IsSome v)
  unfolding do_select_invoker is_invoked
  do_select_invoker-IsSome cs i [] =
      Ensures-bind (λ a s. Called cs s × (a ≡ true)) (Ensures-available-true cs i)
        (λ a. Ensures-given (λ e.
          Ensures-if a (λ _. Ensures-pure (some i) (λ s p. (p, (i, refl))))
            (λ e'.
              Ensures-then (Called cs) (Ensures-mark_unhealthy W cs i)
                (Ensures-pure none (λ s p. absurd (cc (e, e')))))))
  do_select_invoker-IsSome cs i (j ∷ is) = Ensures-selected env lb law inv cs i (j ∷ is) (λ v m.
      Ensures-bind (λ a s. Called cs s × (a ≡ true)) (Ensures-available-true cs v)
        (λ a. Ensures-given (λ e.
          Ensures-bind (λ _. Called cs) (Ensures-gets (λ t. t.available_check))
            (λ check.
              Ensures-if ((not a && check) || false)
                (λ e'. Ensures-then (Called cs) (Ensures-mark_unhealthy W cs v) (
                  Ensures-weaken (λ s p. p) (λ w s q. absurd (impossible a check e e'))
                    (reselect-IsFresh env lb law inv [] cs 3 (get_other_invokers (i ∷ j ∷ is) v))))
                (λ _. Ensures-pure (some v) (λ s p. (p, (v, refl))))))))

  or_select-IsSome :
      (cs : List Invoker) (i : Invoker) (is : List Invoker) (sticky : Bool) (v : Option Invoker)
      → Ensures
          (Called cs)
          (or_select env lb inv [] (i ∷ is) sticky v)
          (λ w s. Called cs s × IsSome w)
  unfolding or_select
  or_select-IsSome cs i is sticky (some v) = Ensures-pure (some v) (λ s p. (p, (v, refl)))
  or_select-IsSome cs i is sticky none =
      Ensures-bind (λ w s. Called cs s × IsSome w) (do_select_invoker-IsSome cs i is)
        (λ w.
          Ensures-if sticky
            (λ _. record {
              run = λ s p. (w, record s { sticky_invoker = w }, unfold set_sticky in refl, p);
            })
            (λ _. Ensures-pure w (λ s p. p)))

  -- Where every invoker is available, DoSelect chooses one from each list that is not empty.
  pub do_select-IsSome :
      (cs : List Invoker) (i : Invoker) (is : List Invoker)
      → Ensures (Called cs) (do_select env lb inv [] (i ∷ is)) (λ v s. Called cs s × IsSome v)
  unfolding do_select
  do_select-IsSome cs i is =
      Ensures-bind (λ _. Called cs) (Ensures-gets (λ t. t.sticky_invoker))
        (λ old.
          Ensures-bind (λ w s. Called cs s × IsMember env lb law inv [] (i ∷ is) w)
            (drop_sticky-IsMember env lb law inv [] cs (i ∷ is) old)
            (λ kept. Ensures-given (λ m.
              Ensures-bind (λ w s. Called cs s × IsFresh (i ∷ is) [] w)
                (usable_sticky-IsFresh env lb law inv [] cs (i ∷ is) (is_sticky i inv) kept m)
                (λ usable.
                  Ensures-given (λ _. or_select-IsSome cs i is (is_sticky i inv) usable)))))
