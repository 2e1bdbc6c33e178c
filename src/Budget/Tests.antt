-- ===== src/Budget/Tests.antt =====
-- A small budget.
use opendata_go.Base.{inl, [], refl, ◌∷◌, true, ◌≡◌}
use opendata_go.Bytes.{pos}
use opendata_go.Budget.{Budget, new_budget, reserve_bytes, release, wait, pass}
use opendata_go.Budget.Accounts.{start, reserved, Balanced, Reachable-Balanced}
use opendata_go.Budget.Wakeup.{here, then, reserve, release_wakes_waiters}

abbrev small : Budget
small = new_budget (pos 10) (pos 1)

abbrev after_one : Budget
after_one = (reserve_bytes 8 small).0

one_passes : reserve_bytes 8 small ≡ (after_one, pass)
unfolding reserve_bytes
one_passes = refl

Reachable-Balanced_example : Balanced small after_one (record { bytes = 8; slots = 0 } ∷ [])
Reachable-Balanced_example = Reachable-Balanced refl refl (reserved 8 start one_passes)

two_waits : (reserve_bytes 3 after_one).1 ≡ wait 0
unfolding reserve_bytes
two_waits = refl

release_wakes_waiters_example :
    (release 8 0 (reserve_bytes 1 (reserve_bytes 3 after_one).0).0).closed 0 ≡ true
release_wakes_waiters_example =
    release_wakes_waiters after_one (reserve_bytes 1 (reserve_bytes 3 after_one).0).0 3 0 8 0
      (inl (two_waits, then here (reserve 1)))
