-- ===== src/Cluster/LoadBalances.antt =====
-- The strategies random and roundrobin behind the interface that the cluster invokers use.
pub mod Least
use incubator_dubbo_go.Prelude.{
  ℕ, zero, suc, ◌%◌, ◌<◌, ◌≡◌, refl, ap, Bool, true, false, List, [], ◌∷◌, Option, none, some,
  Option-cases, Bool-cases, inl, inr, if◌then◌else◌, length, get_elem?, get_elem?_within, All,
  arith, ==_iff, Text, text_key, lookup, insert,
}
use incubator_dubbo_go.Prelude.Int.{ℤ, pos, ltb_ℤ, ◌-ℤ◌, wrap64}
use incubator_dubbo_go.Url.{key}
use incubator_dubbo_go.Protocol.{Invoker, Invocation, Outcome, done, panic, same_invoker}
use incubator_dubbo_go.LoadBalance.{LoadBalance, get_weight, at_least_zero}
use incubator_dubbo_go.LoadBalance.Random.{pick_by_offset, evenly, index_of, or_evenly}
use incubator_dubbo_go.LoadBalance.Random as Random
use incubator_dubbo_go.LoadBalance.RoundRobin as RoundRobin
use incubator_dubbo_go.LoadBalance.RoundRobin.{
  or_empty, weight_key, increase_current, robin_for, CachedInvokers, Round, visit, visit_all,
  finish, round_start,
}
use incubator_dubbo_go.Cluster.Select.{is_invoked}
use incubator_dubbo_go.Cluster.Select.Member.{Selects}

-- What the random strategy reads of the world: the time, the draws of its two calls of the
-- generator, and the world behind them.
pub record Draws (W : Type 0) : Type 0 where
  pub now : ℤ
  pub offset : ℕ
  pub index : ℕ
  pub after : W

abbrev pub and_world : {W : Type 0} → W → Outcome Invoker → Outcome (Option Invoker × W)
and_world w panic = panic
and_world w (done v) = done (some v, w)

unfoldable pub random : {W : Type 0} → (W → Draws W) → LoadBalance W
random draw = record {
  select = λ invokers inv w.
      let d = draw w in and_world d.after (Random.select d.now d.offset d.index invokers inv);
}

-- The round robin strategy on its cache; the time is given in nanoseconds and in seconds.
unfoldable pub round_robin : ℤ → ℤ → LoadBalance (List (Text × CachedInvokers))
round_robin now unix = record {
  select = λ invokers inv g. done (RoundRobin.select now unix false invokers inv g);
}

same_refl_invoker : (i : Invoker) → same_invoker i i ≡ true
same_refl_invoker i = (==_iff i.ref i.ref).1 refl

pub member_head : (i v : Invoker) (is : List Invoker) → i ≡ v → is_invoked v (i ∷ is) ≡ true
unfolding is_invoked
member_head i v is h = rw h (ground arith)

pub member_tail :
    (i v : Invoker) (is : List Invoker) → is_invoked v is ≡ true → is_invoked v (i ∷ is) ≡ true
unfolding is_invoked
member_tail i v is h = ground arith

pub index_of-some :
    (is : List Invoker) (n : ℕ) (v : Invoker) → get_elem? is n ≡ some v → index_of is n ≡ done v
unfolding index_of
index_of-some is n v h = rw (h, index_of) refl

pub get_elem?-is_invoked :
    (is : List Invoker) (n : ℕ) (v : Invoker) → get_elem? is n ≡ some v → is_invoked v is ≡ true
unfolding is_invoked
get_elem?-is_invoked [] n v h = cc
get_elem?-is_invoked (i ∷ is) zero v h = member_head i v is cc
get_elem?-is_invoked (i ∷ is) (suc n) v h = ground (arith, get_elem?-is_invoked is n v h)

pick_by_offset-is_invoked :
    (weigh : Invoker → ℤ) (o : ℤ) (is : List Invoker) (v : Invoker)
    → pick_by_offset weigh o is ≡ some v
    → is_invoked v is ≡ true
unfolding pick_by_offset is_invoked
pick_by_offset-is_invoked weigh o [] v h = cc
pick_by_offset-is_invoked weigh o (i ∷ is) v h =
    elim (Bool-cases (ltb_ℤ (wrap64 (o -ℤ weigh i)) (pos 0))) [
      | inl e ↦ member_head i v is (cc (rw (e, pick_by_offset) at h))
      | inr e ↦ member_tail i v is (
          pick_by_offset-is_invoked weigh (wrap64 (o -ℤ weigh i)) is v
            (rw (e, pick_by_offset) at h))
    ]

-- A choice among the invokers.
abbrev pub Chosen : List Invoker → Outcome Invoker → Type 0
Chosen is o = (v : Invoker) × (o ≡ done v) × (is_invoked v is ≡ true)

evenly-Chosen :
    (draw : ℕ) (i : Invoker) (is : List Invoker) → Chosen (i ∷ is) (evenly draw (i ∷ is))
unfolding evenly
evenly-Chosen draw i is =
    let (v, e) = get_elem?_within (i ∷ is) (draw % length (i ∷ is)) (omega arith) in
    (
      v,
      index_of-some (i ∷ is) (draw % length (i ∷ is)) v e,
      get_elem?-is_invoked (i ∷ is) (draw % length (i ∷ is)) v e,
    )

or_evenly-Chosen :
    (o : Option Invoker) (draw : ℕ) (i : Invoker) (is : List Invoker)
    → ((v : Invoker) → o ≡ some v → is_invoked v (i ∷ is) ≡ true)
    → Chosen (i ∷ is) (or_evenly o draw (i ∷ is))
unfolding or_evenly
or_evenly-Chosen none draw i is h = evenly-Chosen draw i is
or_evenly-Chosen (some v) draw i is h = (v, refl, h v refl)

pub either_Chosen :
    (b : Bool) (is : List Invoker) (x y : Outcome Invoker)
    → Chosen is x
    → Chosen is y
    → Chosen is (if b then x else y)
either_Chosen true is x y h h' = h
either_Chosen false is x y h h' = h'

select_by-Chosen :
    (weigh : Invoker → ℤ) (draw draw' : ℕ) (i : Invoker) (is : List Invoker)
    → Chosen (i ∷ is) (Random.select_by weigh draw draw' (i ∷ is))
unfolding Random.select_by
select_by-Chosen weigh draw draw' i [] = (i, refl, member_head i i [] refl)
select_by-Chosen weigh draw draw' i (j ∷ is) =
    either_Chosen _ (i ∷ j ∷ is) _ _
      (or_evenly-Chosen _ draw' i (j ∷ is)
        (λ v h. pick_by_offset-is_invoked weigh _ (i ∷ j ∷ is) v h))
      (evenly-Chosen draw' i (j ∷ is))

-- The random strategy is a load balance that the cluster invokers may rely on: from a list that is
-- not empty it chooses an invoker of the list, at every draw and for all weights.
pub random-Selects : {W : Type 0} (draw : W → Draws W) → Selects (random draw)
unfolding random Random.select
random-Selects draw = record {
  chooses = λ i is inv w.
      let d = draw w in
      let (v, e, m) = select_by-Chosen (λ j. get_weight d.now j inv) d.offset d.index i is in
      (v, d.after, ap (and_world d.after) e, m);
}

-- The invoker that a round has selected so far.
abbrev SelectedIn : List Invoker → Round → Type 0
SelectedIn is s = (v : Invoker) (k : Text) → s.selected ≡ some (v, k) → is_invoked v is ≡ true

same_member :
    (i v : Invoker) (k k' : Text) (is : List Invoker)
    → is_invoked i is ≡ true
    → ◌≡◌ {A = Option (Invoker × Text)} (some (i, k)) (some (v, k'))
    → is_invoked v is ≡ true
same_member i v k k' is m e = let q : i ≡ v = cc in rw q at m

visit-SelectedIn :
    (now w : ℤ) (i : Invoker) (is : List Invoker) (s : Round)
    → is_invoked i is ≡ true
    → SelectedIn is s
    → SelectedIn is (visit now w i s)
unfolding visit
visit-SelectedIn now w i is s m h =
    elim (Bool-cases (
      ltb_ℤ s.max_current_weight
        (increase_current (robin_for w (lookup (key i.url) s.cached))).current)) [
          | inl e ↦ rw (e, visit) (λ v k q. same_member i v (key i.url) k is m q)
          | inr e ↦ rw (e, visit) h
        ]

-- Every invoker of the first list is in the second.
abbrev Within : List Invoker → List Invoker → Type 0
Within is js = All (λ i. is_invoked i js ≡ true) is

visit_all-SelectedIn :
    (weigh : Invoker → ℤ) (now : ℤ) (is js : List Invoker) (s : Round)
    → Within is js
    → SelectedIn js s
    → SelectedIn js (visit_all weigh now is s)
unfolding visit_all
visit_all-SelectedIn weigh now [] js s m h = h
visit_all-SelectedIn weigh now (i ∷ is) js s m h =
    visit_all-SelectedIn weigh now is js (visit now (at_least_zero (weigh i)) i s) m.1
      (visit-SelectedIn now (at_least_zero (weigh i)) i js s m.0 h)

Within-more : (i : Invoker) (is js : List Invoker) → Within is js → Within is (i ∷ js)
Within-more i [] js h = tt
Within-more i (j ∷ is) js h = (member_tail i j js h.0, Within-more i is js h.1)

Within-refl : (is : List Invoker) → Within is is
Within-refl [] = tt
Within-refl (i ∷ is) = (member_head i i is refl, Within-more i is is (Within-refl is))

start-SelectedIn :
    (weigh : Invoker → ℤ) (now : ℤ) (m : CachedInvokers) (is : List Invoker)
    → SelectedIn is (round_start weigh now m)
start-SelectedIn weigh now m is v k e = absurd (no_selection v k e)
  where
    no_selection :
        (v : Invoker) (k : Text) → ◌≡◌ {A = Option (Invoker × Text)} none (some (v, k)) → ⊥
    no_selection v k e = cc

finish-is_invoked :
    (weigh : Invoker → ℤ) (now : ℤ) (updating : Bool) (i : Invoker) (is : List Invoker) (s : Round)
    → SelectedIn (i ∷ is) s
    → is_invoked (finish weigh now updating i s).0 (i ∷ is) ≡ true
unfolding finish
finish-is_invoked weigh now updating i is s h = elim (Option-cases s.selected) [
  | inl e ↦ rw (e, finish) (member_head i i is refl)
  | inr (p, e) ↦ rw (e, finish) (h p.0 p.1 e)
]

select_by-is_invoked :
    (weigh : Invoker → ℤ) (now : ℤ) (updating : Bool) (i : Invoker) (is : List Invoker)
    (m : CachedInvokers)
    → is_invoked (RoundRobin.select_by weigh now updating i (i ∷ is) m).0 (i ∷ is) ≡ true
unfolding RoundRobin.select_by
select_by-is_invoked weigh now updating i is m =
    finish-is_invoked weigh now updating i is
      (visit_all weigh now (i ∷ is) (round_start weigh now m))
      (visit_all-SelectedIn weigh now (i ∷ is) (i ∷ is) (round_start weigh now m)
        (Within-refl (i ∷ is)) (start-SelectedIn weigh now m (i ∷ is)))

-- The round robin strategy is a load balance that the cluster invokers may rely on: from a list
-- that is not empty it chooses an invoker of the list, whatever its cache holds.
pub round_robin-Selects : (now unix : ℤ) → Selects (round_robin now unix)
unfolding round_robin RoundRobin.select
round_robin-Selects now unix = record { chooses = chosen }
  where
    chosen :
        (i : Invoker) (is : List Invoker) (inv : Invocation) (g : List (Text × CachedInvokers))
        → (v : Invoker) × (g' : List (Text × CachedInvokers)) × ((round_robin now unix).select
              (i ∷ is)
              inv
              g
            ≡ done (some v, g'))
          × (is_invoked v (i ∷ is) ≡ true)
    chosen i [] inv g = (i, g, refl, member_head i i [] refl)
    chosen i (j ∷ is) inv g =
        let m = or_empty (lookup (weight_key i inv.method_name) g) in
        let p = RoundRobin.select_by (λ v. get_weight unix v inv) now false i (i ∷ j ∷ is) m in
        (
          p.0,
          insert (weight_key i inv.method_name) p.1 g,
          refl,
          select_by-is_invoked (λ v. get_weight unix v inv) now false i (j ∷ is) m,
        )
