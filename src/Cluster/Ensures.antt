-- ===== src/Cluster/Ensures.antt =====
-- Total correctness of the calls of a cluster invoker: from a state in `P` the call returns, and
-- leaves its value and state in `Q`. One rule for each way to build a call.
use incubator_dubbo_go.Prelude.{
  ◌≡◌, refl, ap, ◌∙◌, Bool, true, false, List, [], ◌∷◌, ◌++◌, Option, none, some, if◌then◌else◌,
}
use incubator_dubbo_go.Protocol.{Invoker, Invocation, done}
use incubator_dubbo_go.Cluster.{
  Env, State, M, ◌>>=◌, ◌>>◌, pure, gets, not_nil, set_sticky, mark_unhealthy, list_invokers,
  available, is_destroyed, invoke,
}

abbrev pub Pred : Type 0 → Type 1
Pred W = State W → Type 0

pub record Ensures {W A : Type 0} (P : Pred W) (m : M W A) (Q : A → Pred W) : Type 0 where
  pub run : (s : State W) → P s → (b : A) × (s' : State W) × (m s ≡ done (b, s')) × Q b s'

-- What a call leaves alone: the calls so far.
abbrev pub Called : {W : Type 0} → List Invoker → Pred W
Called cs s = s.calls ≡ cs

module _ {W A : Type 0} where
  pub Ensures-pure :
      {P : Pred W} {Q : A → Pred W} (a : A) → ((s : State W) → P s → Q a s) → Ensures P (pure a) Q
  Ensures-pure a h = record { run = λ s p. (a, s, refl, h s p) }

  pub Ensures-if :
      {P : Pred W} {Q : A → Pred W} {x y : M W A} (b : Bool)
      → (b ≡ true → Ensures P x Q)
      → (b ≡ false → Ensures P y Q)
      → Ensures P (if b then x else y) Q
  Ensures-if true hx hy = hx refl
  Ensures-if false hx hy = hy refl

  -- A fact in the precondition is a hypothesis.
  pub Ensures-given :
      {P : Pred W} {F : Type 0} {m : M W A} {Q : A → Pred W}
      → (F → Ensures P m Q)
      → Ensures (λ s. P s × F) m Q
  Ensures-given h = record { run = λ s p. (h p.1).run s p.0 }

  pub Ensures-given' :
      {P : Pred W} {F : Type 0} {m : M W A} {Q : A → Pred W}
      → (F → Ensures P m Q)
      → Ensures (λ s. F × P s) m Q
  Ensures-given' h = record { run = λ s p. (h p.0).run s p.1 }

  -- A run that is known.
  pub Ensures-exactly :
      (m : M W A) (s : State W) {t : State W} {a : A}
      → m s ≡ done (a, t)
      → Ensures (λ x. x ≡ s) m (λ b x. (b ≡ a) × (x ≡ t))
  Ensures-exactly m s {t} {a} h = record { run = λ x p. (a, t, ap m p ∙ h, (refl, refl)) }

  pub Ensures-weaken :
      {P P' : Pred W} {Q Q' : A → Pred W} {m : M W A}
      → ((s : State W) → P' s → P s)
      → ((a : A) (s : State W) → Q a s → Q' a s)
      → Ensures P m Q
      → Ensures P' m Q'
  Ensures-weaken hp hq h = record {
    run = λ s p. let (a, s1, e, q) = h.run s (hp s p) in (a, s1, e, hq a s1 q);
  }

module _ {W A : Type 0} where
  pub Ensures-gets : {P : Pred W} (f : State W → A) → Ensures P (gets f) (λ a s. P s)
  Ensures-gets f = record { run = λ s p. (f s, s, refl, p) }

module _ {W A B : Type 0} where
  pub Ensures-bind :
      {P : Pred W} (R : A → Pred W) {Q : B → Pred W} {m : M W A} {f : A → M W B}
      → Ensures P m R
      → ((a : A) → Ensures (R a) (f a) Q)
      → Ensures P (m >>= f) Q
  Ensures-bind R hm hf = record {
    run = λ s p.
        let (a, s1, e, r) = hm.run s p in
        let (b, s2, e', q) = (hf a).run s1 r in (b, s2, rw (e, ◌>>=◌) e', q);
  }

  pub Ensures-then :
      {P : Pred W} (R : Pred W) {Q : B → Pred W} {m : M W A} {k : M W B}
      → Ensures P m (λ _. R)
      → Ensures R k Q
      → Ensures P (m >> k) Q
  Ensures-then R hm hk = record {
    run = λ s p.
        let (a, s1, e, r) = hm.run s p in
        let (b, s2, e', q) = hk.run s1 r in (b, s2, rw (e, ◌>>◌) e', q);
  }

module _ {W A E : Type 0} where
  pub Ensures-option :
      {P : Pred W} {Q : A → Pred W} {x : M W A} {f : E → M W A} (o : Option E)
      → (o ≡ none → Ensures P x Q)
      → ((e : E) → o ≡ some e → Ensures P (f e) Q)
      → Ensures P (elim o [ none ↦ x | some e ↦ f e ]) Q
  Ensures-option none hx hf = hx refl
  Ensures-option (some e) hx hf = hf e refl

  pub Ensures-list :
      {P : Pred W} {Q : A → Pred W} {x : M W A} {f : E → List E → M W A} (l : List E)
      → (l ≡ [] → Ensures P x Q)
      → ((e : E) (es : List E) → l ≡ e ∷ es → Ensures P (f e es) Q)
      → Ensures P (elim l [ [] ↦ x | e ∷ es ↦ f e es ]) Q
  Ensures-list [] hx hf = hx refl
  Ensures-list (e ∷ es) hx hf = hf e es refl

module _ {W : Type 0} where
  pub Ensures-not_nil :
      {P : Pred W} (v : Option Invoker) (i : Invoker)
      → v ≡ some i
      → Ensures P (not_nil v) (λ j s. P s × (j ≡ i))
  unfolding not_nil
  Ensures-not_nil v i e = record { run = λ s p. (i, s, rw (e, not_nil), (p, refl)) }

module _ (W : Type 0) where
  pub Ensures-set_sticky :
      (cs : List Invoker) (v : Option Invoker)
      → Ensures {W = W} (Called cs) (set_sticky v) (λ _. Called cs)
  unfolding set_sticky
  Ensures-set_sticky cs v = record { run = λ s p. (tt, record s { sticky_invoker = v }, refl, p) }

  pub Ensures-mark_unhealthy :
      (cs : List Invoker) (i : Invoker)
      → Ensures {W = W} (Called cs) (mark_unhealthy i) (λ _. Called cs)
  unfolding mark_unhealthy
  Ensures-mark_unhealthy cs i = record { run = λ s p. (tt, _, refl, p) }

module _ {W : Type 0} (env : Env W) where
  pub Ensures-available :
      (cs : List Invoker) (i : Invoker) → Ensures (Called cs) (available env i) (λ _. Called cs)
  unfolding available
  Ensures-available cs i = record { run = λ s p. (_, _, refl, p) }

  pub Ensures-list_invokers :
      (cs : List Invoker) (inv : Invocation)
      → Ensures (Called cs) (list_invokers env inv) (λ _. Called cs)
  unfolding list_invokers
  Ensures-list_invokers cs inv = record { run = λ s p. (_, _, refl, p) }

  -- The list, where it is known beforehand.
  pub Ensures-listed :
      (cs is : List Invoker) (inv : Invocation)
      → Ensures
          (λ s. Called cs s × ((env.list inv s.world).0 ≡ is))
          (list_invokers env inv)
          (λ l s. Called cs s × (l ≡ is))
  unfolding list_invokers
  Ensures-listed cs is inv = record { run = λ s p. (_, _, refl, p) }

  pub Ensures-is_destroyed :
      (cs : List Invoker) → Ensures (Called cs) (is_destroyed env) (λ _. Called cs)
  unfolding is_destroyed
  Ensures-is_destroyed cs = record { run = λ s p. (_, _, refl, p) }

  pub Ensures-invoke :
      (cs : List Invoker) (i : Invoker) (inv : Invocation)
      → Ensures (Called cs) (invoke env i inv) (λ _. Called (cs ++ i ∷ []))
  unfolding invoke
  Ensures-invoke cs i inv = record { run = λ s p. (_, _, refl, rw p refl) }
