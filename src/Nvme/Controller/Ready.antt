-- ===== src/Nvme/Controller/Ready.antt =====
-- What `wait_ready` waits for.
use mcmqhost.Prelude.{
  ℕ, ◌≡◌, ◌≢◌, refl, ◌∙◌, Bool, List, [], ◌∷◌, ◌++◌, arith, bit_and, if◌then◌else◌,
}
use mcmqhost.Nvme.World.{World, done, fail, device_io, bad_csts, blocked}
use mcmqhost.Nvme.Controller.{all_ones, poll_ready, wait_ready}

-- The values at which the loop goes on.
abbrev pub Undecided : ℕ → List ℕ → Type 0
Undecided bit [] = Unit {0}
Undecided bit (csts ∷ rest) = ((csts ≢ all_ones) × (bit_and csts 1 ≢ bit)) × Undecided bit rest

abbrev pub wanted : Bool → ℕ
wanted enabled = if enabled then 1 else 0

poll_ready-append :
    (bit : ℕ) (before rest : List ℕ) (w : World)
    → Undecided bit before
    → poll_ready bit (before ++ rest) w ≡ poll_ready bit rest w
unfolding poll_ready
poll_ready-append bit [] rest w u = refl
poll_ready-append bit (csts ∷ before) rest w (u, us) =
    ground (arith, poll_ready-append bit before rest w us)

poll_ready-blocked :
    (bit : ℕ) (before : List ℕ) (w : World)
    → Undecided bit before
    → poll_ready bit before w ≡ fail blocked (record w { reads = [] })
unfolding poll_ready
poll_ready-blocked bit [] w u = refl
poll_ready-blocked bit (csts ∷ before) w (u, us) =
    ground (arith, poll_ready-blocked bit before w us)

-- `wait_ready` reads the status register until it is all ones, and then throws, or until its ready
-- bit is the wanted one, and then returns; it leaves the later values of the register unread. If
-- neither ever comes it does not return.
pub wait_ready_lem :
    (enabled : Bool) (before : List ℕ) (csts : ℕ) (rest : List ℕ) (w : World)
    → Undecided (wanted enabled) before
    → let run = λ (reads : List ℕ). wait_ready enabled (record w { reads = reads }) in
      let w' = record w { reads = rest } in
      (csts ≡ all_ones → run (before ++ csts ∷ rest) ≡ fail (device_io bad_csts) w')
      × (csts ≢ all_ones
          → bit_and csts 1 ≡ wanted enabled
          → run (before ++ csts ∷ rest) ≡ done tt w')
      × (run before ≡ fail blocked (record w { reads = [] }))
unfolding wait_ready poll_ready
wait_ready_lem enabled before csts rest w u =
    let bit = wanted enabled in
    let skip =
      poll_ready-append bit before (csts ∷ rest) (record w { reads = before ++ csts ∷ rest }) u in
    (
      λ bad. skip ∙ ground arith,
      λ good ready. skip ∙ ground arith,
      poll_ready-blocked bit before (record w { reads = before }) u,
    )
