-- ===== src/Config/Host/Capacity.antt =====
-- The namespaces and flows that `load_host_config` leaves.
use mathlib.Core.List.{append-nil, append_assoc}
use mcmqhost.Prelude.{
  ℕ, zero, suc, ◌+◌, ◌≤◌, ◌<◌, ◌≡◌, refl, sym, ap, ◌∙◌, ◌⊎◌, inl, inr, List, [], ◌∷◌, ◌++◌, none,
  some, map, arith, length, get_elem?,
}
use mcmqhost.Config.Yaml.{Yaml, loaded}
use mcmqhost.Config.Ssd.{Namespace, SsdConfig, field}
use mcmqhost.Config.Host.{
  HostConfig, chip_capacity_sects, ns_capacity_sects, find, emplace, add_namespaces, workload_flow,
  load_flows, load_host_config,
}

-- No key above `i` is in the map.
abbrev pub Below : ℕ → List (ℕ × ℕ) → Type 0
Below i m = (k : ℕ) → i < k → find k m ≡ none

emplace-fresh : (id c : ℕ) (m : List (ℕ × ℕ)) → find id m ≡ none → emplace id c m ≡ (id, c) ∷ m
unfolding emplace
emplace-fresh id c m fresh = rw (fresh, emplace) refl

find-other : (k id c : ℕ) (m : List (ℕ × ℕ)) → (k ≡ id → ⊥) → find k ((id, c) ∷ m) ≡ find k m
unfolding find
find-other k id c m apart = ground (arith)

find-same : (id c : ℕ) (m : List (ℕ × ℕ)) → find id ((id, c) ∷ m) ≡ some c
unfolding find
find-same id c m = ground (arith)

find-nil : (k : ℕ) → find k [] ≡ none
unfolding find
find-nil k = refl

emplace-Below : (i c : ℕ) (m : List (ℕ × ℕ)) → Below i m → Below (i + 1) (emplace (i + 1) c m)
emplace-Below i c m below k above =
    rw (emplace-fresh (i + 1) c m (below (i + 1) (omega arith)))
      (find-other k (i + 1) c m (λ e. omega (arith, e)) ∙ below k (omega arith))

module _ (chip : ℕ) where
  add_namespaces-old :
      (nss : List Namespace) (i k : ℕ) (m : List (ℕ × ℕ))
      → Below i m
      → k ≤ i
      → find k (add_namespaces chip i nss m) ≡ find k m
  unfolding add_namespaces
  add_namespaces-old [] i k m below old = refl
  add_namespaces-old (ns ∷ nss) i k m below old =
      let c = ns_capacity_sects chip ns in
      add_namespaces-old nss (i + 1) k (emplace (i + 1) c m) (emplace-Below i c m below)
        (omega arith)
      ∙ rw (emplace-fresh (i + 1) c m (below (i + 1) (omega arith)))
          (find-other k (i + 1) c m (λ e. omega (arith, e)))

  add_namespaces-new :
      (nss : List Namespace) (i j : ℕ) (m : List (ℕ × ℕ)) {ns : Namespace}
      → Below i m
      → get_elem? nss j ≡ some ns
      → find (i + 1 + j) (add_namespaces chip i nss m) ≡ some (ns_capacity_sects chip ns)
  unfolding add_namespaces
  add_namespaces-new [] i j m below there = cc
  add_namespaces-new (n ∷ nss) i zero m {ns = ns} below there =
      let c = ns_capacity_sects chip n in
      let key : i + 1 + 0 ≡ i + 1 = omega arith in
      let it : some n ≡ some ns = there in
      let same : some (ns_capacity_sects chip n) ≡ some (ns_capacity_sects chip ns) = cc in
      rw key (
        add_namespaces-old nss (i + 1) (i + 1) (emplace (i + 1) c m) (emplace-Below i c m below)
          (omega arith)
        ∙ ap (find (i + 1)) (emplace-fresh (i + 1) c m (below (i + 1) (omega arith)))
        ∙ find-same (i + 1) c m
        ∙ same)
  add_namespaces-new (n ∷ nss) i (suc j) m below there =
      let c = ns_capacity_sects chip n in
      let key : i + 1 + suc j ≡ i + 1 + 1 + j = omega arith in
      rw key
        (add_namespaces-new nss (i + 1) j (emplace (i + 1) c m) (emplace-Below i c m below) there)

  add_namespaces-Below :
      (nss : List Namespace) (i : ℕ) (m : List (ℕ × ℕ))
      → Below i m
      → Below (i + length nss) (add_namespaces chip i nss m)
  unfolding add_namespaces
  add_namespaces-Below [] i m below k above = below k (omega arith)
  add_namespaces-Below (n ∷ nss) i m below k above =
      add_namespaces-Below nss (i + 1) (emplace (i + 1) (ns_capacity_sects chip n) m)
        (emplace-Below i (ns_capacity_sects chip n) m below) k (omega arith)

module _ {Node Real : Type 0} (yaml : Yaml Node Real) (zero_real : Real) where
  load_flows-append :
      (nodes : List Node) (c : HostConfig Real)
      → load_flows yaml zero_real nodes c
        ≡ record c { flows = c.flows ++ map (workload_flow yaml zero_real) nodes }
  unfolding load_flows
  load_flows-append [] c = ap (λ fs. record c { flows = fs }) (sym (append-nil c.flows))
  load_flows-append (n ∷ ns) c =
      load_flows-append ns (record c { flows = c.flows ++ (workload_flow yaml zero_real n ∷ []) })
      ∙ ap (λ fs. record c { flows = fs })
          (append_assoc c.flows (workload_flow yaml zero_real n ∷ [])
            (map (workload_flow yaml zero_real) ns))

  -- On a configuration without namespaces, `load_host_config` of a file that can be read returns:
  -- the SSD's namespace with index `j` then has the id `j + 1`, with the capacity that the code
  -- computes from the flash, the channels and the chips; no other id is in the map; and the flows of
  -- the file are appended, one for each entry, in order.
  pub load_host_config_lem :
      (root : Node) (ssd : SsdConfig) (c : HostConfig Real)
      → c.namespaces ≡ []
      → (c' : HostConfig Real) × (load_host_config yaml zero_real (some root) ssd c ≡ loaded c')
        × ((j : ℕ) (ns : Namespace)
            → get_elem? ssd.namespaces j ≡ some ns
            → find (1 + j) c'.namespaces
              ≡ some (ns_capacity_sects (chip_capacity_sects ssd.flash_config 512) ns))
        × ((k : ℕ) → (k ≡ 0) ⊎ (length ssd.namespaces < k) → find k c'.namespaces ≡ none)
        × (c'.flows
            ≡ c.flows
              ++ map (workload_flow yaml zero_real) (yaml.elements (yaml.child root "flows")))
  unfolding load_host_config
  load_host_config_lem root ssd c bare =
      let chip = chip_capacity_sects ssd.flash_config 512 in
      let none_yet : Below 0 c.namespaces = λ k above. rw bare (find-nil k) in
      let nodes = yaml.elements (yaml.child root "flows") in
      let before = record c {
        sector_size = 512;
        io_queue_depth = field yaml root "io_queue_depth" 1024;
        namespaces = add_namespaces chip 0 ssd.namespaces c.namespaces;
      } in
      (
        record before { flows = c.flows ++ map (workload_flow yaml zero_real) nodes },
        ap loaded (load_flows-append nodes before),
        λ j ns there. add_namespaces-new chip ssd.namespaces 0 j c.namespaces none_yet there,
        λ k outside. elim outside [
          | inl nought ↦
              add_namespaces-old chip ssd.namespaces 0 k c.namespaces none_yet
                (omega (arith, nought))
              ∙ rw bare (find-nil k)
          | inr above ↦
              add_namespaces-Below chip ssd.namespaces 0 c.namespaces none_yet k
                (omega (arith, above))
        ],
        refl,
      )
