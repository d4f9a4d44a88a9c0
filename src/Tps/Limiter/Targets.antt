-- ===== src/Tps/Limiter/Targets.antt =====
-- filter/tps/limiter/method_service.go: the limits of different services and methods.
use incubator_dubbo_go.Prelude.{
  ℕ, ◌<◌, ◌≡◌, refl, sym, ap, ◌∙◌, List, arith, Bool, true, false, Option, none, some, Option-cases,
  Bool-cases, ◌⊎◌, inl, inr, if◌then◌else◌, ◌==◌, Text, codes, text_eq, text_eq_iff, ==_iff, lookup,
  insert, lookup-insert, nat_key,
}
use incubator_dubbo_go.Prelude.Int.{ℤ, pos, ltb_ℤ, leb_ℤ}
use incubator_dubbo_go.Url.{Url}
use incubator_dubbo_go.Protocol.{Invocation, Outcome, done, panic}
use incubator_dubbo_go.Tps.Limiter.{
  Strategy, strategy_allowable, create_strategy, get_limit_config, method_config, limit_target,
  strategy_name, ConcurrentMap, IsMap, Limiter, ask, add_strategy, first_request, is_allowable,
}

module _ {S : Type 0} (m : ConcurrentMap S) where
  abbrev at_reference : Option ℕ → List (ℕ × Strategy) → Option Strategy
  at_reference none h = none
  at_reference (some r) h = lookup r h

  -- The strategy of a target.
  abbrev pub strategy_of : Text → Limiter S → Option Strategy
  strategy_of k l = at_reference (m.load k l.tps_state) l.heap

  -- No reference of the map is one to be given out, and no two targets share one.
  pub record IsLimiter (l : Limiter S) : Type 0 where
    pub used : (k : Text) (r : ℕ) → m.load k l.tps_state ≡ some r → r < l.next
    pub apart :
        (j k : Text) (r : ℕ) → m.load j l.tps_state ≡ some r → m.load k l.tps_state ≡ some r → j ≡ k

  -- What a request for a target leaves of the other targets.
  abbrev Spares : Text → Limiter S → Limiter S → Type 0
  Spares k l l' =
      IsLimiter l' × ((j : Text) → text_eq k j ≡ false → strategy_of j l' ≡ strategy_of j l)

  -- The same, with the target itself.
  abbrev pub Keeps : Text → Limiter S → Limiter S → Type 0
  Keeps k l l' =
      IsLimiter l'
      × ((j : Text)
          → strategy_of j l' ≡ (if text_eq k j then strategy_of k l' else strategy_of j l))

  Keeps-Spares : (k : Text) (l l' : Limiter S) → Spares k l l' → Keeps k l l'
  Keeps-Spares k l l' (i, f) = (
    i,
    λ j. elim (Bool-cases (text_eq k j)) [
      | inl e ↦ rw e (ap (λ t. strategy_of t l') (sym ((text_eq_iff k j).0 e)))
      | inr e ↦ rw e (f j e)
    ],
  )

  abbrev pub Left : Outcome (Bool × Limiter S) → (Limiter S → Type 0) → Type 0
  Left panic Q = Unit
  Left (done (b, l)) Q = Q l

  -- The limiter is in `Q` if the request returns.
  pub record OnReturn (o : Outcome (Bool × Limiter S)) (Q : Limiter S → Type 0) : Type 0 where
    pub left : Left o Q

  OnReturn-weaken :
      {P Q : Limiter S → Type 0} (o : Outcome (Bool × Limiter S))
      → ((l : Limiter S) → P l → Q l)
      → OnReturn o P
      → OnReturn o Q
  OnReturn-weaken panic f p = record { left = tt }
  OnReturn-weaken (done (b, l)) f p = record { left = f l p.left }

  on_config :
      {A : Type 0} {Q : Limiter S → Type 0} {f : A → Outcome (Bool × Limiter S)} (o : Outcome A)
      → ((a : A) → OnReturn (f a) Q)
      → OnReturn (elim o [ panic ↦ panic | done a ↦ f a ]) Q
  on_config panic h = record { left = tt }
  on_config (done a) h = h a

  on_create :
      {A : Type 0} {Q : Limiter S → Type 0} {f : A → Outcome (Bool × Limiter S)} (o : Option A)
      → ((a : A) → OnReturn (f a) Q)
      → OnReturn (elim o [ none ↦ panic | some a ↦ f a ]) Q
  on_create none h = record { left = tt }
  on_create (some a) h = h a

  on_panic : {Q : Limiter S → Type 0} → OnReturn panic Q
  on_panic = record { left = tt }

  on_done : {Q : Limiter S → Type 0} (b : Bool) (l : Limiter S) → Q l → OnReturn (done (b, l)) Q
  on_done b l q = record { left = q }

  on_guard :
      {Q : Limiter S → Type 0} {x y : Outcome (Bool × Limiter S)} (b : Bool)
      → OnReturn x Q
      → OnReturn y Q
      → OnReturn (if b then x else y) Q
  on_guard true hx hy = hx
  on_guard false hx hy = hy

  lookup_other :
      (r : ℕ) (w : Strategy) (heap : List (ℕ × Strategy)) (o : Option ℕ)
      → ((q : ℕ) → o ≡ some q → (r == q) ≡ false)
      → at_reference o (insert r w heap) ≡ at_reference o heap
  lookup_other r w heap none h = refl
  lookup_other r w heap (some q) h = rw (lookup-insert r q w heap, h q refl) refl

  apart_references :
      (k j : Text) (r q : ℕ) (l : Limiter S)
      → IsLimiter l
      → m.load k l.tps_state ≡ some r
      → text_eq k j ≡ false
      → m.load j l.tps_state ≡ some q
      → (r == q) ≡ false
  apart_references k j r q l i hk ne hj = elim (Bool-cases (r == q)) [
    | inl e ↦
        let same : r ≡ q = (==_iff r q).0 e in
        let both : k ≡ j = i.apart k j q (cc (hk, same)) hj in
        absurd (cc ((text_eq_iff k j).1 both, ne))
    | inr e ↦ e
  ]

  ask-Spares :
      (now : ℤ) (k : Text) (r : ℕ) (l : Limiter S)
      → IsLimiter l
      → m.load k l.tps_state ≡ some r
      → OnReturn (ask m now r l) (Spares k l)
  unfolding ask
  ask-Spares now k r l i hk = elim (Option-cases (lookup r l.heap)) [
    | inl e ↦ rw (e, ask) (record { left = tt })
    | inr (w, e) ↦
        rw (e, ask)
          (record {
            left = (
              record { used = i.used; apart = i.apart },
              λ j ne.
                  lookup_other r (strategy_allowable now w).1 l.heap (m.load j l.tps_state)
                    (λ q hj. apart_references k j r q l i hk ne hj),
            );
          })
  ]

  module _ (law : IsMap m) (k : Text) (l : Limiter S) (new : m.load k l.tps_state ≡ none) where
    -- What is in the map behind an addition.
    added :
        (w : Strategy) (j : Text) (q : ℕ)
        → m.load j (add_strategy m k w l).1.tps_state ≡ some q
        → ((k ≡ j) × (l.next ≡ q)) ⊎ (m.load j l.tps_state ≡ some q)
    unfolding add_strategy
    added w j q h = elim (Bool-cases (text_eq k j)) [
      | inl e ↦
          let h' = sym (law.load-stored k j l.next l.tps_state new) ∙ h in
          inl ((text_eq_iff k j).0 e, cc (rw e at h'))
      | inr e ↦ let h' = sym (law.load-stored k j l.next l.tps_state new) ∙ h in inr (rw e at h')
    ]

    add_strategy-IsLimiter : (w : Strategy) → IsLimiter l → IsLimiter (add_strategy m k w l).1
    unfolding add_strategy
    add_strategy-IsLimiter w i = record {
      used = λ j q h. elim (added w j q h) [
        | inl (_, e) ↦ omega (arith, e)
        | inr e ↦ omega (arith, i.used j q e)
      ];
      apart = λ a b q ha hb. elim (added w a q ha) [
        | inl (ea, na) ↦ elim (added w b q hb) [
          | inl (eb, nb) ↦ sym ea ∙ eb
          | inr e ↦ absurd (omega (arith, na, i.used b q e))
        ]
        | inr e ↦ elim (added w b q hb) [
          | inl (eb, nb) ↦ absurd (omega (arith, nb, i.used a q e))
          | inr e' ↦ i.apart a b q e e'
        ]
      ];
    }

    add_strategy_others :
        (w : Strategy)
        → IsLimiter l
        → (j : Text) → text_eq k j ≡ false
        → strategy_of j (add_strategy m k w l).1 ≡ strategy_of j l
    unfolding add_strategy
    add_strategy_others w i j ne =
        ap (λ o. at_reference o (insert l.next w l.heap))
          (law.load-stored k j l.next l.tps_state new ∙ (rw ne refl))
        ∙ lookup_other l.next w l.heap (m.load j l.tps_state)
            (λ q hj. ground (arith, i.used j q hj))

    add_strategy_reference :
        (w : Strategy) → m.load k (add_strategy m k w l).1.tps_state ≡ some (add_strategy m k w l).0
    unfolding add_strategy
    add_strategy_reference w =
        law.load-stored k k l.next l.tps_state new
        ∙ (rw ((text_eq_iff k k).1 refl) (ap some (sym (law.stored k l.next l.tps_state new))))

    add_strategy-ask-Spares :
        (now : ℤ) (w : Strategy)
        → IsLimiter l
        → OnReturn (ask m now (add_strategy m k w l).0 (add_strategy m k w l).1) (Spares k l)
    add_strategy-ask-Spares now w i =
        OnReturn-weaken (ask m now (add_strategy m k w l).0 (add_strategy m k w l).1)
          (λ l' p. (p.0, λ j ne. p.1 j ne ∙ add_strategy_others w i j ne))
          (ask-Spares now k (add_strategy m k w l).0 (add_strategy m k w l).1
            (add_strategy-IsLimiter w i) (add_strategy_reference w))

  -- A request for a target that has a strategy returns what the strategy says, whatever the
  -- configuration has become; the target then has the strategy's next state, and all other
  -- targets have the strategies that they had.
  pub is_allowable_known :
      (created now : ℤ) (u : Url) (inv : Invocation) (l : Limiter S) (w : Strategy)
      → IsLimiter l
      → strategy_of (limit_target u inv.method_name) l ≡ some w
      → (l' : Limiter S) × (is_allowable m created now u inv l
          ≡ done ((strategy_allowable now w).0, l'))
        × IsLimiter l'
        × ((j : Text)
            → strategy_of j l' ≡ (
                if text_eq (limit_target u inv.method_name) j
                then some (strategy_allowable now w).1
                else strategy_of j l))
  unfolding is_allowable ask
  is_allowable_known created now u inv l w i h =
      let k = limit_target u inv.method_name in
      elim (Option-cases (m.load k l.tps_state)) [
        | inl e ↦ absurd (cc (rw e at h))
        | inr (r, e) ↦
            let l' = record l { heap = insert r (strategy_allowable now w).1 l.heap } in
            let hr : lookup r l.heap ≡ some w = rw e at h in
            let next : strategy_of k l' ≡ some (strategy_allowable now w).1 =
              rw (e, lookup-insert r r (strategy_allowable now w).1 l.heap, (==_iff r r).1 refl)
                refl in
            let spares : Spares k l l' = (
              record { used = i.used; apart = i.apart },
              λ j ne.
                  lookup_other r (strategy_allowable now w).1 l.heap (m.load j l.tps_state)
                    (λ q hj. apart_references k j r q l i e ne hj),
            ) in
            let (i', f) = Keeps-Spares k l l' spares in
            (
              l',
              rw (e, is_allowable, hr, ask) refl,
              i',
              λ j.
                  f j
                  ∙ ap (λ (o : Option Strategy). if text_eq k j then o else strategy_of j l) next,
            )
      ]

  module _ (law : IsMap m) where
    first_request-Spares :
        (created now : ℤ) (u : Url) (method : Text) (l : Limiter S)
        → IsLimiter l
        → m.load (limit_target u method) l.tps_state ≡ none
        → OnReturn (first_request m created now u method l) (Spares (limit_target u method) l)
    unfolding first_request
    first_request-Spares created now u method l i new =
        on_config
          (get_limit_config (method_config u method (codes "tps.limit.rate")) u
            (codes "tps.limit.rate") (codes "-1"))
          (λ rate. on_guard (ltb_ℤ rate (pos 0)) (on_done true l (i, λ j ne. refl)) (
            on_config
              (get_limit_config (method_config u method (codes "tps.limit.interval")) u
                (codes "tps.limit.interval") (codes "60000"))
              (λ interval. on_guard (leb_ℤ interval (pos 0)) on_panic (
                on_create (create_strategy (strategy_name u method)) (λ create.
                  add_strategy-ask-Spares law (limit_target u method) l new now
                    (create created rate interval) i)))))

    -- Whatever a request does that returns, the strategies of all targets but its own are as they
    -- were, and no two targets share one.
    pub is_allowable-Keeps :
        (created now : ℤ) (u : Url) (inv : Invocation) (l : Limiter S)
        → IsLimiter l
        → OnReturn (is_allowable m created now u inv l) (Keeps (limit_target u inv.method_name) l)
    unfolding is_allowable
    is_allowable-Keeps created now u inv l i =
        OnReturn-weaken (is_allowable m created now u inv l)
          (λ l' p. Keeps-Spares (limit_target u inv.method_name) l l' p)
          (elim (Option-cases (m.load (limit_target u inv.method_name) l.tps_state)) [
            | inl e ↦
                rw (e, is_allowable) (first_request-Spares created now u inv.method_name l i e)
            | inr (r, e) ↦
                rw (e, is_allowable) (ask-Spares now (limit_target u inv.method_name) r l i e)
          ])
