-- ===== src/Cluster/Failback/Retries.antt =====
-- cluster/cluster/failback/cluster_invoker.go: how often the ticker calls again.
use incubator_dubbo_go.Prelude.{
  ℕ, zero, suc, ◌+◌, ◌-◌, ◌<◌, ◌≤◌, ◌^◌, ◌≡◌, ◌≢◌, refl, sym, ap, ◌∙◌, subst, arith, Bool, true,
  false, List, [], ◌∷◌, ◌++◌, some, Option-cases, Bool-cases, ◌⊎◌, inl, inr, if◌then◌else◌, All,
  All-append,
}
use incubator_dubbo_go.Prelude.Int.{ℤ, pos, negsuc, ◌+ℤ◌, ◌-ℤ◌, ltb_ℤ, wrap64, wrap64_fits}
use incubator_dubbo_go.Protocol.{Outcome, done, panic, Outcome-cases}
use incubator_dubbo_go.Cluster.{Env, M, invoke, not_nil}
use incubator_dubbo_go.Cluster.Select.{do_select}
use incubator_dubbo_go.Cluster.Failback.{
  RetryTimerTask, Peeked, disposed, empty, task, Queue, IsQueue, Failback, Fm, ◌>>=◌, on_cluster,
  Tick, no_task_due, queue_disposed, out_of_fuel, time_now, put_task, check_retry, put_again,
  retry_or_drop, try_timer_task_proc, process,
}

-- The task has been called again at most `max` times.
abbrev pub Tries : {W : Type 0} → ℕ → RetryTimerTask W → Type 0
Tries max t = (k : ℕ) × (t.retries ≡ pos k) × (k ≤ max)

-- How often the tasks may still be called again.
abbrev tries_of : ℕ → ℤ → ℕ
tries_of max (pos k) = max + 1 - k
tries_of max (negsuc k) = 0

abbrev tries_left : {W : Type 0} → ℕ → RetryTimerTask W → ℕ
tries_left max t = tries_of max t.retries

abbrev pub all_tries_left : {W : Type 0} → ℕ → List (RetryTimerTask W) → ℕ
all_tries_left max [] = 0
all_tries_left max (t ∷ ts) = tries_left max t + all_tries_left max ts

all_tries_left-append :
    {W : Type 0} (max : ℕ) (ts : List (RetryTimerTask W)) (t : RetryTimerTask W)
    → all_tries_left max (ts ++ t ∷ []) ≡ all_tries_left max ts + tries_left max t
all_tries_left-append max [] t = omega arith
all_tries_left-append max (u ∷ ts) t = omega (arith, all_tries_left-append max ts t)

Peeked-cases :
    {T : Type 0} (p : Peeked T) → (p ≡ disposed) ⊎ ((p ≡ empty) ⊎ ((t : T) × (p ≡ task t)))
Peeked-cases disposed = inl refl
Peeked-cases empty = inr (inl refl)
Peeked-cases (task t) = inr (inr (t, refl))

module _ {W Q : Type 0} {queue : Queue Q (RetryTimerTask W)} (law : IsQueue queue) where
  -- A queue of tasks, each within its tries.
  pub record IsFine (max : ℕ) (s : Failback W Q) (q : Q) : Type 0 where
    pub listed : s.task_list ≡ some q
    pub max_is : s.max_retries ≡ pos max
    pub tries : All (Tries max) (law.items q)

  items-put :
      (t : RetryTimerTask W) (q : Q)
      → (law.items (queue.put t q) ≡ law.items q ++ t ∷ [])
        ⊎ (law.items (queue.put t q) ≡ law.items q)
  items-put t q = peeked (queue.peek q) refl
    where
      peeked :
          (p : Peeked (RetryTimerTask W))
          → queue.peek q ≡ p
          → (law.items (queue.put t q) ≡ law.items q ++ t ∷ [])
            ⊎ (law.items (queue.put t q) ≡ law.items q)
      peeked disposed e = inr (law.items_put_disposed t q e)
      peeked empty e = inl (law.items_put t q e)
      peeked (task u) e = inl (law.items_put_behind t u q e)

  -- A call that keeps the tasks within their tries, and leaves fewer than `n`.
  abbrev Keeps : ℕ → ℕ → Outcome (Unit {0} × Failback W Q) → Type 0
  Keeps max n o =
      (o ≡ panic)
      ⊎ ((s : Failback W Q) × (q : Q) × (o ≡ done (tt, s))
          × IsFine max s q
          × (all_tries_left max (law.items q) < n))

  module _ (env : Env W) (clock : W → ℤ × W) (max : ℕ) (fits : max + 1 < 2 ^ 63) where
    put_task-Keeps :
        (n : ℕ) (t : RetryTimerTask W) (s : Failback W Q) (q : Q)
        → IsFine max s q
        → Tries max t
        → all_tries_left max (law.items q) + tries_left max t < n
        → Keeps max n (put_task env queue clock t s)
    unfolding put_task
    put_task-Keeps n t s q fine within h = elim (items-put t q) [
      | inl e ↦ inr (
        record s { task_list = some (queue.put t q) },
        queue.put t q,
        rw (fine.listed, put_task) refl,
        record {
          listed = refl;
          max_is = fine.max_is;
          tries = rw e (All-append (Tries max) (law.items q) (t ∷ []) fine.tries (within, tt));
        },
        rw e (omega (arith, h, all_tries_left-append max (law.items q) t)),
      )
      | inr e ↦ inr (
        record s { task_list = some (queue.put t q) },
        queue.put t q,
        rw (fine.listed, put_task) refl,
        record { listed = refl; max_is = fine.max_is; tries = rw e fine.tries },
        rw e (omega (arith, h)),
      )
    ]

    one_more : (k : ℕ) → k ≤ max → wrap64 (pos k +ℤ pos 1) ≡ pos (k + 1)
    unfolding ◌+ℤ◌
    one_more k h =
        let e : pos k +ℤ pos 1 ≡ pos (k + 1) = ground arith in
        rw e (wrap64_fits (pos (k + 1)) (omega (arith, fits, h)))

    put_unless :
        (b : Bool) (n : ℕ) (t : RetryTimerTask W) (s : Failback W Q) (q : Q)
        → IsFine max s q
        → (b ≡ true → all_tries_left max (law.items q) < n)
        → (b ≡ false → Tries max t × (all_tries_left max (law.items q) + tries_left max t < n))
        → Keeps max n (if b then done (tt, s) else put_task env queue clock t s)
    put_unless true n t s q fine h _ = inr (s, q, refl, fine, h refl)
    put_unless false n t s q fine _ h = put_task-Keeps n t s q fine (h refl).0 (h refl).1

    -- A task that is called again is put back within its tries, or given up.
    put_again-Keeps :
        (now : ℤ) (t : RetryTimerTask W) (k n : ℕ) (s : Failback W Q) (q : Q)
        → IsFine max s q
        → t.retries ≡ pos k
        → k ≤ max
        → all_tries_left max (law.items q) + (max + 1 - k) ≤ n
        → Keeps max n (put_again env queue clock now t s)
    unfolding put_again
    put_again-Keeps now t k n s q fine e h left =
        let again : wrap64 (t.retries +ℤ pos 1) ≡ pos (k + 1) =
          ap (λ r. wrap64 (r +ℤ pos 1)) e ∙ one_more k h in
        put_unless (ltb_ℤ s.max_retries (wrap64 (t.retries +ℤ pos 1))) n _ s q fine
          (λ g. omega (arith, left, h))
          (λ g.
            let below : ltb_ℤ (pos max) (pos (k + 1)) ≡ false = rw (fine.max_is, again) at g in
            let one : k + 1 ≤ max = ground (arith, below) in
            ((k + 1, again, one), omega (arith, left, one, ap (tries_of max) again)))

    -- A call of the base leaves the queue alone.
    after_cluster :
        {A : Type 0} (call : M W A) (f : A → Fm W Q (Unit {0})) (n : ℕ) (s : Failback W Q) (q : Q)
        → IsFine max s q
        → ((a : A) (s' : Failback W Q) → IsFine max s' q → Keeps max n (f a s'))
        → Keeps max n ((on_cluster call >>= f) s)
    after_cluster call f n s q fine h = elim (Outcome-cases (call s.cluster)) [
      | inl e ↦ inl (rw (e, ◌>>=◌, on_cluster) refl)
      | inr ((a, c), e) ↦
          rw (e, ◌>>=◌, on_cluster)
            (h a (record s { cluster = c })
              (record { listed = fine.listed; max_is = fine.max_is; tries = fine.tries }))
    ]

    check_retry-Keeps :
        (t : RetryTimerTask W) (k n : ℕ) (s : Failback W Q) (q : Q)
        → IsFine max s q
        → t.retries ≡ pos k
        → k ≤ max
        → all_tries_left max (law.items q) + (max + 1 - k) ≤ n
        → Keeps max n (check_retry env queue clock t s)
    unfolding check_retry time_now
    check_retry-Keeps t k n s q fine e h left =
        let (now, w) = clock s.cluster.world in
        put_again-Keeps now t k n (record s { cluster = record (s.cluster) { world = w } }) q
          (record { listed = fine.listed; max_is = fine.max_is; tries = fine.tries }) e h left

    try_timer_task_proc-Keeps :
        (t : RetryTimerTask W) (k n : ℕ) (s : Failback W Q) (q : Q)
        → IsFine max s q
        → t.retries ≡ pos k
        → k ≤ max
        → all_tries_left max (law.items q) + (max + 1 - k) ≤ n
        → Keeps max n (try_timer_task_proc env queue clock t s)
    unfolding try_timer_task_proc retry_or_drop
    try_timer_task_proc-Keeps t k n s q fine e h left =
        after_cluster (do_select env t.load_balance t.invocation (t.last_invoker ∷ []) t.invokers) _
          n s q fine
          (λ v s1 fine1. after_cluster (not_nil v) _ n s1 q fine1 (λ i s2 fine2.
            after_cluster (invoke env i t.invocation) _ n s2 q fine2 (λ r s3 fine3.
              elim (Option-cases r.err) [
                | inl x ↦ rw (x, retry_or_drop) (inr (s3, q, refl, fine3, omega (arith, left, h)))
                | inr (x, y) ↦
                    rw (y, retry_or_drop)
                      (check_retry-Keeps (record t { last_invoker = i }) k n s3 q fine3 e h left)
              ])))

    -- What a tick promises: it panics, or it ends by itself and every task in the queue is within its
    -- tries.
    abbrev pub Ends : Outcome (Tick × Failback W Q) → Type 0
    Ends o =
        (o ≡ panic)
        ⊎ ((r : Tick) × (s : Failback W Q) × (q : Q) × (o ≡ done (r, s))
            × (r ≢ out_of_fuel)
            × IsFine max s q)

    left_behind :
        (k : ℕ) (t : RetryTimerTask W) (q q' : Q)
        → t.retries ≡ pos k
        → law.items q ≡ t ∷ law.items q'
        → all_tries_left max (law.items q') + (max + 1 - k) ≤ all_tries_left max (law.items q)
    left_behind k t q q' ek is = rw is (omega (arith, ap (tries_of max) ek))

    -- One round of a tick, given that the rounds behind it end.
    process-round :
        (fuel : ℕ)
        → ((s : Failback W Q) (q : Q)
            → IsFine max s q
            → all_tries_left max (law.items q) < fuel
            → Ends (process env queue clock fuel s))
        → (s : Failback W Q) (q : Q) → s.max_retries ≡ pos max
        → All (Tries max) (law.items q)
        → all_tries_left max (law.items q) < suc fuel
        → Ends (process env queue clock (suc fuel) (record s { task_list = some q }))
    unfolding process
    process-round fuel rest s q max_is within h =
        let (now, w) = clock s.cluster.world in
        let s0 : Failback W Q = record s { task_list = some q } in
        let s1 : Failback W Q = record s0 { cluster = record (s.cluster) { world = w } } in
        let fine0 : IsFine max s0 q = record { listed = refl; max_is = max_is; tries = within } in
        let fine1 : IsFine max s1 q = record { listed = refl; max_is = max_is; tries = within } in
        elim (Peeked-cases (queue.peek q)) [
          | inl e ↦ inr (queue_disposed, s0, q, rw (e, process) refl, (λ x. cc x), fine0)
          | inr (inl e) ↦ inr (no_task_due, s0, q, rw (e, process) refl, (λ x. cc x), fine0)
          | inr (inr (t, e)) ↦
              let (q', got, is) = law.items_get t q e in
              elim (Bool-cases (ltb_ℤ (now -ℤ t.last_t) (pos 5_000_000_000))) [
                | inl early ↦
                    inr (no_task_due, s1, q, rw (e, early, process) refl, (λ x. cc x), fine1)
                | inr due ↦
                    let tries : All (Tries max) (t ∷ law.items q') = rw is at within in
                    let (k, ek, hk) = tries.0 in
                    let s2 : Failback W Q = record s1 { task_list = some q' } in
                    elim (try_timer_task_proc-Keeps t k (all_tries_left max (law.items q)) s2 q'
                      (record { listed = refl; max_is = max_is; tries = tries.1 }) ek hk
                      (left_behind k t q q' ek is)) [
                        | inl p ↦ inl (rw (e, due, got, p, process) refl)
                        | inr (s3, q3, run, fine3, less) ↦
                            rw (e, due, got, run, process)
                              (rest s3 q3 fine3 (omega (arith, less, h)))
                      ]
              ]
        ]

    -- A tick ends, however long its calls take and whatever the clock shows, within as many rounds as
    -- there are calls left: by a panic of a round, as where DoSelect chooses nil or the load balance
    -- panics, or else by returning, with a queue of tasks that are all within their tries.
    pub process-Ends :
        (fuel : ℕ) (s : Failback W Q) (q : Q)
        → IsFine max s q
        → all_tries_left max (law.items q) < fuel
        → Ends (process env queue clock fuel s)
    process-Ends zero s q fine h = absurd (omega (arith, h))
    process-Ends (suc fuel) s q fine h =
        let e : record s { task_list = some q } ≡ s =
          ap (λ o. record s { task_list = o }) (sym fine.listed) in
        subst (λ x. Ends (process env queue clock (suc fuel) x)) e
          (process-round fuel (process-Ends fuel) s q fine.max_is fine.tries h)
