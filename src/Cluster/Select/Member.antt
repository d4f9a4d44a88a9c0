-- ===== src/Cluster/Select/Member.antt =====
-- What DoSelect chooses: an invoker of the list, and on a retry another than those before.
use incubator_dubbo_go.Prelude.{
  ℕ, zero, suc, ◌≡◌, length, refl, Bool, true, false, not, ◌&&◌, ◌||◌, List, [], ◌∷◌, Option, none,
  some, if◌then◌else◌, arith, ltb,
}
use incubator_dubbo_go.Protocol.{Invoker, Invocation, done}
use incubator_dubbo_go.LoadBalance.{LoadBalance}
use incubator_dubbo_go.Cluster.{Env, M, ◌>>=◌, not_nil, set_sticky, select_with}
use incubator_dubbo_go.Cluster.Select.{
  is_invoked, get_other_invokers, reselect, do_select_invoker, drop_sticky, usable_sticky,
  or_select, do_select, is_sticky,
}
use incubator_dubbo_go.Cluster.Ensures.{
  Pred, Ensures, Called, Ensures-pure, Ensures-if, Ensures-gets, Ensures-given, Ensures-bind,
  Ensures-then, Ensures-weaken, Ensures-set_sticky, Ensures-mark_unhealthy, Ensures-available,
}

-- What a cluster invoker relies on in a load balance: from a list that is not empty it chooses an
-- invoker of that list.
pub record Selects {W : Type 0} (lb : LoadBalance W) : Type 0 where
  pub chooses :
      (i : Invoker) (is : List Invoker) (inv : Invocation) (w : W)
      → (v : Invoker) × (w' : W) × (lb.select (i ∷ is) inv w ≡ done (some v, w'))
        × (is_invoked v (i ∷ is) ≡ true)

-- A choice is one of the invokers, and none of those that were invoked.
abbrev pub IsFresh : List Invoker → List Invoker → Option Invoker → Type 0
IsFresh invokers invoked none = Unit
IsFresh invokers invoked (some v) = (is_invoked v invokers ≡ true) × (is_invoked v invoked ≡ false)

-- The same, but that a single invoker may be chosen again.
abbrev pub IsChosen : List Invoker → List Invoker → Option Invoker → Type 0
IsChosen invokers invoked none = Unit
IsChosen invokers invoked (some v) =
    (is_invoked v invokers ≡ true) × ((ltb 1 (length invokers) && is_invoked v invoked) ≡ false)

and_false : (b : Bool) → (b && false) ≡ false
and_false b = ground arith

IsChosen-IsFresh :
    (is invoked : List Invoker) (v : Option Invoker) → IsFresh is invoked v → IsChosen is invoked v
IsChosen-IsFresh is invoked none h = tt
IsChosen-IsFresh is invoked (some v) h = (h.0, rw h.1 (and_false (ltb 1 (length is))))

is_invoked-get_other_invokers :
    (v r : Invoker) (is : List Invoker)
    → is_invoked v (get_other_invokers is r) ≡ true
    → is_invoked v is ≡ true
unfolding is_invoked get_other_invokers
is_invoked-get_other_invokers v r [] h = h
is_invoked-get_other_invokers v r (i ∷ is) h = ground (arith, is_invoked-get_other_invokers v r is)

IsFresh-get_other_invokers :
    (r : Invoker) (is invoked : List Invoker) (v : Option Invoker)
    → IsFresh (get_other_invokers is r) invoked v
    → IsFresh is invoked v
IsFresh-get_other_invokers r is invoked none h = h
IsFresh-get_other_invokers r is invoked (some v) h = (is_invoked-get_other_invokers v r is h.0, h.1)

module _ {W : Type 0} (env : Env W) (lb : LoadBalance W) (law : Selects lb) (inv : Invocation) where
  -- The selection and the nil test behind it.
  pub Ensures-selected :
      {B : Type 0} {Q : B → Pred W} {f : Invoker → M W B} (cs : List Invoker) (i : Invoker)
      (is : List Invoker)
      → ((v : Invoker) → is_invoked v (i ∷ is) ≡ true → Ensures (Called cs) (f v) Q)
      → Ensures (Called cs) (do v ← select_with lb (i ∷ is) inv; r ← not_nil v; f r) Q
  unfolding select_with not_nil
  Ensures-selected cs i is h = record {
    run = λ s p.
        let (v, w, e, m) = law.chooses i is inv s.world in
        let (b, s', e', q) = (h v m).run (record s { world = w }) p in
        (b, s', rw (e, select_with, ◌>>=◌) e', q);
  }

  module _ (invoked : List Invoker) where
    pub reselect-IsFresh :
        (cs : List Invoker) (n : ℕ) (others : List Invoker)
        → Ensures
            (Called cs)
            (reselect env lb inv invoked n others)
            (λ v s. Called cs s × IsFresh others invoked v)
    unfolding reselect
    reselect-IsFresh cs zero others = Ensures-pure none (λ s p. (p, tt))
    reselect-IsFresh cs (suc n) [] = Ensures-pure none (λ s p. (p, tt))
    reselect-IsFresh cs (suc n) (o ∷ os) = Ensures-selected cs o os (λ r m.
        let later =
          Ensures-weaken (λ s p. p)
            (λ v s q. (q.0, IsFresh-get_other_invokers r (o ∷ os) invoked v q.1))
            (reselect-IsFresh cs n (get_other_invokers (o ∷ os) r)) in
        Ensures-if (is_invoked r invoked) (λ e. later)
          (λ fresh.
            Ensures-bind (λ _. Called cs) (Ensures-available env cs r)
              (λ a.
                Ensures-if a (λ _. Ensures-pure (some r) (λ s p. (p, (m, fresh))))
                  (λ _. Ensures-then (Called cs) (Ensures-mark_unhealthy W cs r) later))))

    do_select_invoker-IsChosen :
        (cs : List Invoker) (is : List Invoker)
        → Ensures
            (Called cs)
            (do_select_invoker env lb inv invoked is)
            (λ v s. Called cs s × IsChosen is invoked v)
    unfolding do_select_invoker is_invoked
    do_select_invoker-IsChosen cs [] = Ensures-pure none (λ s p. (p, tt))
    do_select_invoker-IsChosen cs (i ∷ []) =
        Ensures-bind (λ _. Called cs) (Ensures-available env cs i)
          (λ a.
            Ensures-if a (λ _. Ensures-pure (some i) (λ s p. (p, (ground arith, refl))))
              (λ _.
                Ensures-then (Called cs) (Ensures-mark_unhealthy W cs i)
                  (Ensures-pure none (λ s p. (p, tt)))))
    do_select_invoker-IsChosen cs (i ∷ j ∷ is) = Ensures-selected cs i (j ∷ is) (λ v m.
        Ensures-bind (λ _. Called cs) (Ensures-available env cs v)
          (λ a.
            Ensures-bind (λ _. Called cs) (Ensures-gets (λ t. t.available_check))
              (λ check.
                Ensures-if ((not a && check) || is_invoked v invoked)
                  (λ _. Ensures-then (Called cs) (Ensures-mark_unhealthy W cs v) (
                    Ensures-weaken (λ s p. p)
                      (λ w s q. (
                        q.0,
                        IsChosen-IsFresh (i ∷ j ∷ is) invoked w
                            (IsFresh-get_other_invokers v (i ∷ j ∷ is) invoked w q.1),
                      ))
                      (reselect-IsFresh cs 3 (get_other_invokers (i ∷ j ∷ is) v))))
                  (λ e. Ensures-pure (some v) (λ s p. (p, (m, ground arith)))))))

    -- A sticky invoker that is kept is one of the invokers.
    abbrev pub IsMember : List Invoker → Option Invoker → Type 0
    IsMember is none = Unit
    IsMember is (some v) = is_invoked v is ≡ true

    pub drop_sticky-IsMember :
        (cs is : List Invoker) (v : Option Invoker)
        → Ensures
            (Called cs)
            (drop_sticky env lb inv invoked is v)
            (λ w s. Called cs s × IsMember is w)
    unfolding drop_sticky
    drop_sticky-IsMember cs is none = Ensures-pure none (λ s p. (p, tt))
    drop_sticky-IsMember cs is (some v) =
        Ensures-if (is_invoked v is) (λ m. Ensures-pure (some v) (λ s p. (p, m)))
          (λ _.
            Ensures-then (Called cs) (Ensures-set_sticky W cs none)
              (Ensures-pure none (λ s p. (p, tt))))

    pub usable_sticky-IsFresh :
        (cs is : List Invoker) (sticky : Bool) (v : Option Invoker)
        → IsMember is v
        → Ensures
            (Called cs)
            (usable_sticky env lb inv invoked sticky v)
            (λ w s. Called cs s × IsFresh is invoked w)
    unfolding usable_sticky
    usable_sticky-IsFresh cs is sticky none m = Ensures-pure none (λ s p. (p, tt))
    usable_sticky-IsFresh cs is sticky (some v) m =
        Ensures-bind (λ _. Called cs) (Ensures-gets (λ t. t.available_check))
          (λ check.
            Ensures-if (sticky && check)
              (λ _.
                Ensures-bind (λ _. Called cs) (Ensures-available env cs v)
                  (λ a. Ensures-pure _ (λ s p. (p, kept a))))
              (λ _. Ensures-pure none (λ s p. (p, tt))))
      where
        kept :
            (a : Bool)
            → IsFresh is invoked (if a && not (is_invoked v invoked) then some v else none)
        kept a = ground arith

    or_select-IsChosen :
        (cs is : List Invoker) (sticky : Bool) (v : Option Invoker)
        → IsChosen is invoked v
        → Ensures
            (Called cs)
            (or_select env lb inv invoked is sticky v)
            (λ w s. Called cs s × IsChosen is invoked w)
    unfolding or_select
    or_select-IsChosen cs is sticky (some v) h = Ensures-pure (some v) (λ s p. (p, h))
    or_select-IsChosen cs is sticky none h =
        Ensures-bind (λ w s. Called cs s × IsChosen is invoked w) (do_select_invoker-IsChosen cs is)
          (λ w.
            Ensures-if sticky
              (λ _. record {
                run = λ s p. (w, record s { sticky_invoker = w }, unfold set_sticky in refl, p);
              })
              (λ _. Ensures-pure w (λ s p. p)))

    -- With a load balance that returns an invoker of each list that is not empty, DoSelect returns,
    -- calls no invoker, and chooses nil or an invoker of the list; if the list has
    -- two or more, the choice is none of those that have been invoked.
    pub do_select-IsChosen :
        (cs is : List Invoker)
        → Ensures
            (Called cs)
            (do_select env lb inv invoked is)
            (λ v s. Called cs s × IsChosen is invoked v)
    unfolding do_select
    do_select-IsChosen cs [] = Ensures-pure none (λ s p. (p, tt))
    do_select-IsChosen cs (i ∷ is) =
        Ensures-bind (λ _. Called cs) (Ensures-gets (λ t. t.sticky_invoker))
          (λ old.
            Ensures-bind (λ w s. Called cs s × IsMember (i ∷ is) w)
              (drop_sticky-IsMember cs (i ∷ is) old)
              (λ kept. Ensures-given (λ m.
                Ensures-bind (λ w s. Called cs s × IsFresh (i ∷ is) invoked w)
                  (usable_sticky-IsFresh cs (i ∷ is) (is_sticky i inv) kept m)
                  (λ usable. Ensures-given (λ fresh.
                    or_select-IsChosen cs (i ∷ is) (is_sticky i inv) usable
                      (IsChosen-IsFresh (i ∷ is) invoked usable fresh))))))
