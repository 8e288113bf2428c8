-- ===== src/Link/Base/Tests.antt =====
-- A wake-up that is lost.
use mcmqhost.Prelude.{◌≡◌, refl, false}
use mcmqhost.Link.Base.{
  Ready, checking, found_unready, unset, Step, check_unready, Reach, nothing, after,
}
use mcmqhost.Link.Base.Wakeup.{stuck, Reach-stuck}

abbrev about_to_sleep : Ready
about_to_sleep = record { device_ready = false; waiter = found_unready; setter = unset }

Reach-stuck_example :
    Reach about_to_sleep stuck
    × ((s : Ready) → Step stuck s → s ≡ record stuck { waiter = checking })
Reach-stuck_example = Reach-stuck (after nothing check_unready) refl (λ e. cc)
