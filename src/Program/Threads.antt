-- ===== src/Program/Threads.antt =====
-- The threads that `main` makes for the flows.
use mcmqhost.Prelude.{
  ℕ, zero, suc, ◌+◌, ◌≡◌, refl, sym, ap, ◌∙◌, List, [], ◌∷◌, ◌++◌, none, some, length, get_elem?,
  arith,
}
use mcmqhost.Config.Host.{FlowDefinition, HostConfig, find}
use mcmqhost.Program.{Job, stopped, went, unknown_namespace, make_threads}

module _ {Real : Type 0} (config : HostConfig Real) where
  -- The namespace of each flow is configured.
  abbrev pub Known : List (FlowDefinition Real) → Type 0
  Known [] = Unit {0}
  Known (flow ∷ rest) = ((c : ℕ) × (find flow.nsid config.namespaces ≡ some c)) × Known rest

  abbrev pub thread_for : ℕ → ℕ → FlowDefinition Real → Job Real
  thread_for thread_id capacity flow = record {
    thread_id = thread_id;
    queue_depth = config.io_queue_depth;
    sector_size = config.sector_size;
    max_lsa = capacity;
    flow = flow;
  }

  -- The jobs are the threads of the flows, with ids from `id` on and each flow's namespace's capacity.
  abbrev pub ThreadsOf : ℕ → List (FlowDefinition Real) → List (Job Real) → Type 0
  ThreadsOf id flows jobs =
      (j : ℕ) (flow : FlowDefinition Real)
      → get_elem? flows j ≡ some flow
      → (c : ℕ) × (find flow.nsid config.namespaces ≡ some c)
        × (get_elem? jobs j ≡ some (thread_for (id + j) c flow))

  each_thread :
      (id c : ℕ) (flow : FlowDefinition Real) (rest : List (FlowDefinition Real))
      (jobs : List (Job Real))
      → find flow.nsid config.namespaces ≡ some c
      → ThreadsOf (id + 1) rest jobs
      → ThreadsOf id (flow ∷ rest) (thread_for id c flow ∷ jobs)
  each_thread id c flow rest jobs found each zero flow' there =
      let it : some flow ≡ some flow' = there in
      let same : flow ≡ flow' = cc in
      let here : id + 0 ≡ id = omega arith in
      (
        c,
        ap (λ f. find f.nsid config.namespaces) (sym same) ∙ found,
        rw here (ap (λ f. some (thread_for id c f)) same),
      )
  each_thread id c flow rest jobs found each (suc j) flow' there =
      let (c', found', at) = each j flow' there in
      let key : id + suc j ≡ id + 1 + j = omega arith in (c', found', rw key at)

  threads-Known :
      (id : ℕ) (flows : List (FlowDefinition Real))
      → Known flows
      → (jobs : List (Job Real)) × (make_threads config id flows ≡ went jobs)
        × (length jobs ≡ length flows)
        × ThreadsOf id flows jobs
  unfolding make_threads
  threads-Known id [] known = ([], refl, refl, λ j flow there. cc)
  threads-Known id (flow ∷ rest) ((c, found), known) =
      let (jobs, made, count, each) = threads-Known (id + 1) rest known in
      (
        thread_for id c flow ∷ jobs,
        rw (found, made) refl,
        omega (arith, count),
        each_thread id c flow rest jobs found each,
      )

  threads_unknown :
      (id : ℕ) (before : List (FlowDefinition Real)) (flow : FlowDefinition Real)
      (after : List (FlowDefinition Real))
      → Known before
      → find flow.nsid config.namespaces ≡ none
      → make_threads config id (before ++ (flow ∷ after))
        ≡ stopped (unknown_namespace (id + length before))
  unfolding make_threads
  threads_unknown id [] flow after known missing =
      rw missing (ap (λ n. stopped (unknown_namespace n)) (omega arith))
  threads_unknown id (f ∷ before) flow after ((c, found), known) missing =
      let count : id + 1 + length before ≡ id + length (f ∷ before) = omega arith in
      rw (found, threads_unknown (id + 1) before flow after known missing)
        (ap (λ n. stopped (unknown_namespace n)) count)

  -- The loop of `main` over the flows: if the namespace of each is configured, it makes one thread
  -- for each, in order, with ids from `id` on and the capacity of the flow's namespace; else it ends
  -- at the first flow whose namespace is not.
  pub make_threads_lem :
      (id : ℕ) (before : List (FlowDefinition Real))
      → Known before
      → ((jobs : List (Job Real)) × (make_threads config id before ≡ went jobs)
          × (length jobs ≡ length before)
          × ThreadsOf id before jobs)
        × ((flow : FlowDefinition Real) (after : List (FlowDefinition Real))
            → find flow.nsid config.namespaces ≡ none
            → make_threads config id (before ++ (flow ∷ after))
              ≡ stopped (unknown_namespace (id + length before)))
  make_threads_lem id before known = (
    threads-Known id before known,
    λ flow after missing. threads_unknown id before flow after known missing,
  )
