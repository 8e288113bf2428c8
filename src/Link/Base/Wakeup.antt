-- ===== src/Link/Base/Wakeup.antt =====
-- What the wait for the device comes to.
use mcmqhost.Prelude.{◌≡◌, ◌≢◌, refl, sym, subst, Bool, true, false}
use mcmqhost.Link.Base.{
  Waiter, checking, found_unready, asleep, returned, Setter, unset, assigned, notified, Ready,
  ready_start, Step, check_ready, check_unready, sleep, wake_for_nothing, set_ready, notify_all,
  Reach, nothing, after, woken_up,
}

abbrev pub is_set : Setter → Bool
is_set unset = false
is_set assigned = true
is_set notified = true

-- The flag is set once the setter has assigned it, and a waiter that returned has seen it.
abbrev pub Agrees : Bool → Waiter → Setter → Type 0
Agrees b t s = (b ≡ is_set s) × (t ≡ returned → b ≡ true)

abbrev pub Consistent : Ready → Type 0
Consistent r = Agrees r.device_ready r.waiter r.setter

woken_up-Agrees : (b : Bool) (t : Waiter) → Agrees b t assigned → Agrees b (woken_up t) notified
woken_up-Agrees b checking a = a
woken_up-Agrees b found_unready a = a
woken_up-Agrees b asleep (flag, seen) = (flag, λ e. flag)
woken_up-Agrees b returned a = a

Step-Consistent : {r s : Ready} → Step r s → Consistent r → Consistent s
Step-Consistent check_ready (flag, seen) = (flag, λ e. refl)
Step-Consistent check_unready (flag, seen) = (flag, λ e. cc)
Step-Consistent sleep (flag, seen) = (flag, λ e. cc)
Step-Consistent wake_for_nothing (flag, seen) = (flag, λ e. cc)
Step-Consistent set_ready (flag, seen) = (refl, λ e. refl)
Step-Consistent (notify_all {b} {t}) a = woken_up-Agrees b t a

Reach-Consistent : {r s : Ready} → Reach r s → Consistent r → Consistent s
Reach-Consistent nothing c = c
Reach-Consistent (after earlier last) c = Step-Consistent last (Reach-Consistent earlier c)

abbrev pub stuck : Ready
stuck = record { device_ready = true; waiter = asleep; setter = notified }

stuck-Step : (s : Ready) → Step stuck s → s ≡ record stuck { waiter = checking }
stuck-Step s wake_for_nothing = refl

to_stuck :
    (b : Bool) (s : Setter)
    → b ≡ is_set s
    → s ≢ notified
    → Reach (record { device_ready = b; waiter = found_unready; setter = s }) stuck
to_stuck b unset flag more = after (after (after nothing set_ready) notify_all) sleep
to_stuck false assigned flag more = absurd cc
to_stuck true assigned flag more = after (after nothing notify_all) sleep
to_stuck b notified flag more = absurd (more refl)

start-Consistent : Consistent ready_start
start-Consistent = (refl, λ e. cc)

-- In any run of the two threads, one that is back from `wait_for_device_ready` has found the device
-- ready.
pub Reach-returned : {r : Ready} → Reach ready_start r → r.waiter ≡ returned → r.device_ready ≡ true
Reach-returned run back = (Reach-Consistent run start-Consistent).1 back

-- In any run of the two threads, once the waiter has found the device not ready and as long as the
-- notification is still to come: the run can go on to a state in which the device is ready, the
-- notification is over and the waiter sleeps, and from which nothing but a wake-up for no reason
-- leads on. The notification is lost.
pub Reach-stuck :
    {r : Ready}
    → Reach ready_start r
    → r.waiter ≡ found_unready
    → r.setter ≢ notified
    → Reach r stuck × ((s : Ready) → Step stuck s → s ≡ record stuck { waiter = checking })
Reach-stuck {r} run found more =
    let flag = (Reach-Consistent run start-Consistent).0 in
    let at : Waiter → Ready =
      λ t. record { device_ready = r.device_ready; waiter = t; setter = r.setter } in
    (
      subst (λ t. Reach (at t) stuck) (sym found) (to_stuck r.device_ready r.setter flag more),
      stuck-Step,
    )
