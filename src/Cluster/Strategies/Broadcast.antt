-- ===== src/Cluster/Strategies/Broadcast.antt =====
-- The broadcast strategy: whom it calls, and what it returns.
use incubator_dubbo_go.Prelude.{
  ◌≡◌, refl, ap, ◌∙◌, false, List, [], ◌∷◌, ◌++◌, Option, none, some, if◌then◌else◌,
}
use mathlib.Core.List.{append-nil, append_assoc}
use incubator_dubbo_go.Protocol.{
  Invoker, Invocation, RpcResult, Error, done, destroyed, error_result,
}
use incubator_dubbo_go.Cluster.{Env, State, list_invokers, is_destroyed}
use incubator_dubbo_go.Cluster.Ensures.{
  Ensures, Ensures-exactly, Ensures-option, Ensures-given', Ensures-bind,
}
use incubator_dubbo_go.Cluster.Select.{check_invokers, check_whether_destroyed}
use incubator_dubbo_go.Cluster.Strategies.{call_all, broadcast_result, broadcast_invoke}

module _ {W : Type 0} (env : Env W) (inv : Invocation) where
  -- What the invokers answer, called one after the other.
  unfoldable pub answers : List Invoker → W → List RpcResult × W
  answers [] w = ([], w)
  answers (i ∷ is) w =
      let (r, w') = env.invoke i inv w in let (rs, w'') = answers is w' in (r ∷ rs, w'')

  -- The error of the last answer that has one.
  unfoldable pub last_error : List RpcResult → Option Error → Option Error
  last_error [] e = e
  last_error (r ∷ rs) e = last_error rs (elim r.err [ none ↦ e | some e' ↦ some e' ])

  unfoldable pub last_answer : List RpcResult → Option RpcResult → Option RpcResult
  last_answer [] r = r
  last_answer (r ∷ rs) _ = last_answer rs (some r)

  call_all-answers :
      (is : List Invoker) (e : Option Error) (r : Option RpcResult) (s : State W)
      → call_all env inv is e r s
        ≡ done (
          (last_error (answers is s.world).0 e, last_answer (answers is s.world).0 r),
          record s { world = (answers is s.world).1; calls = s.calls ++ is },
        )
  unfolding call_all answers last_error last_answer
  call_all-answers [] e r s = rw (append-nil s.calls) refl
  call_all-answers (i ∷ is) e r s =
      call_all-answers is (elim (env.invoke i inv s.world).0.err [ none ↦ e | some e' ↦ some e' ])
        (some (env.invoke i inv s.world).0)
        (record s { world = (env.invoke i inv s.world).1; calls = s.calls ++ i ∷ [] })
      ∙ rw (append_assoc s.calls (i ∷ []) is) refl

  unfoldable pub last_of : RpcResult → List RpcResult → RpcResult
  last_of r [] = r
  last_of r (q ∷ rs) = last_of q rs

  last_answer-some :
      (r : RpcResult) (rs : List RpcResult) → last_answer rs (some r) ≡ some (last_of r rs)
  unfolding last_answer last_of
  last_answer-some r [] = refl
  last_answer-some r (q ∷ rs) = last_answer-some q rs

  -- What broadcast makes of the answers: the last error, and without an error the last answer.
  abbrev pub combined : Option Error → RpcResult → RpcResult
  combined none r = r
  combined (some e) r = error_result e

  broadcast_result-combined :
      (e : Option Error) (r : RpcResult) (s : State W)
      → broadcast_result env inv (e, some r) s ≡ done (combined e r, s)
  unfolding broadcast_result
  broadcast_result-combined none r s = refl
  broadcast_result-combined (some e) r s = refl

  pub listed_exactly :
      (s : State W) (is : List Invoker) (w : W)
      → env.list inv s.world ≡ (is, w)
      → list_invokers env inv s ≡ done (is, record s { world = w })
  unfolding list_invokers
  listed_exactly s is w h = ap (λ p. done (p.0, record s { world = p.1 })) h

  pub not_destroyed :
      (s : State W) → env.destroyed s.world ≡ false → check_whether_destroyed env s ≡ done (none, s)
  unfolding check_whether_destroyed is_destroyed
  not_destroyed s h = ap (λ b. done (if b then some destroyed else none, s)) h

  last_answer-next :
      (r : RpcResult) (rs : List RpcResult) → last_answer (r ∷ rs) none ≡ some (last_of r rs)
  unfolding last_answer
  last_answer-next r rs = last_answer-some r rs

  call_all_listed :
      (l : List Invoker) (i : Invoker) (is : List Invoker) (w' : W) (r : RpcResult)
      (rs : List RpcResult) (s : State W)
      → l ≡ i ∷ is
      → answers (i ∷ is) s.world ≡ (r ∷ rs, w')
      → call_all env inv l none none s
        ≡ done (
          (last_error (r ∷ rs) none, some (last_of r rs)),
          record s { world = w'; calls = s.calls ++ i ∷ is },
        )
  call_all_listed l i is w' r rs s el ha =
      ap (λ x. call_all env inv x none none s) el
      ∙ call_all-answers (i ∷ is) none none s
      ∙ ap
          (λ x. done (
            (last_error x.0 none, last_answer x.0 none),
            record s { world = x.1; calls = s.calls ++ i ∷ is },
          ))
          ha
      ∙ ap
          (λ x.
            done
              ((last_error (r ∷ rs) none, x), record s { world = w'; calls = s.calls ++ i ∷ is }))
          (last_answer-next r rs)

  pub not_empty :
      (l : List Invoker) (i : Invoker) (is : List Invoker)
      → l ≡ i ∷ is
      → (s : State W) → check_invokers env l inv s ≡ done (none, s)
  unfolding check_invokers
  not_empty l i is h s = ap (λ x. check_invokers env x inv s) h

  -- Where the cluster invoker is not destroyed, broadcast calls every invoker that the directory
  -- lists, of which there is one at least, once and in order, also behind one that
  -- fails. It returns the last error of the answers, and without an error the last answer.
  pub broadcast_invoke-answers :
      (i : Invoker) (is : List Invoker) (w w' : W) (r : RpcResult) (rs : List RpcResult)
      (s : State W)
      → env.list inv s.world ≡ (i ∷ is, w)
      → env.destroyed w ≡ false
      → answers (i ∷ is) w ≡ (r ∷ rs, w')
      → Ensures
          (λ t. t ≡ s)
          (broadcast_invoke env inv)
          (λ q t.
            (q ≡ combined (last_error (r ∷ rs) none) (last_of r rs))
            × (t ≡ record s { world = w'; calls = s.calls ++ i ∷ is }))
  unfolding broadcast_invoke
  broadcast_invoke-answers i is w w' r rs s hl hd ha =
      Ensures-bind _ (Ensures-exactly (list_invokers env inv) s (listed_exactly s (i ∷ is) w hl))
        (λ l. Ensures-given' (λ el.
          Ensures-bind _
            (Ensures-exactly (check_invokers env l inv) (record s { world = w })
              (not_empty l i is el (record s { world = w })))
            (λ c. Ensures-given' (λ ec.
              Ensures-option c
                (λ _.
                  Ensures-bind _
                    (Ensures-exactly (check_whether_destroyed env) (record s { world = w })
                      (not_destroyed (record s { world = w }) hd))
                    (λ d. Ensures-given' (λ ed.
                      Ensures-option d
                        (λ _.
                          Ensures-bind _
                            (Ensures-exactly (call_all env inv l none none) (record s { world = w })
                              (call_all_listed l i is w' r rs (record s { world = w }) el ha))
                            (λ p. Ensures-given' (λ ep.
                              Ensures-exactly (broadcast_result env inv p)
                                (record s { world = w'; calls = s.calls ++ i ∷ is })
                                (ap
                                    (λ q.
                                      broadcast_result env inv q
                                        (record s { world = w'; calls = s.calls ++ i ∷ is }))
                                    ep
                                  ∙ broadcast_result-combined (last_error (r ∷ rs) none)
                                      (last_of r rs) _))))
                        (λ e q. absurd (cc (ed, q))))))
                (λ e q. absurd (cc (ec, q)))))))
