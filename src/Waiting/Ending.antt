-- ===== src/Waiting/Ending.antt =====
-- When a wait ends (networkwait.go, `Wait`).
use kube_vnet.Prelude.{
  ℕ, zero, suc, ◌+◌, ◌*◌, ◌≤◌, ◌<◌, String, ◌≡◌, refl, Bool, true, false, Option, none, some, List,
  [], arith, Map,
}
use kube_vnet.Waiting.{
  Config, WaitResult, Network, with_defaults, release, give_up, all_in, earlier, deadline, is_over,
  over_at, now_resolved, now_accepted, end_round, wait_from, wait,
}

module _ (net : Network) (cfg : Config) (busy : ℕ) where
  earlier-max_wait : (o : Option ℕ) → earlier net cfg o cfg.max_wait ≤ cfg.max_wait
  earlier-max_wait none = omega arith
  earlier-max_wait (some ending) = ground arith

  deadline-max_wait : deadline net cfg ≤ cfg.max_wait
  unfolding deadline
  deadline-max_wait = earlier-max_wait net.cancelled

  -- What a wait comes to: a result, in time.
  abbrev InTime : Option WaitResult → Type 0
  InTime o = (r : WaitResult) × (o ≡ some r) × (r.elapsed ≤ deadline net cfg + busy)

  over_at_lem :
      (at : ℕ) → at ≤ deadline net cfg + busy → over_at net cfg at ≤ deadline net cfg + busy
  unfolding over_at
  over_at_lem at h = ground (arith, h)

  end_round-InTime :
      (b is_done : Bool) (at : ℕ) (now : List String) (accepted : Map String ℕ)
      (next : Option WaitResult)
      → at ≤ deadline net cfg + busy
      → (is_done ≡ false → InTime next)
      → InTime (end_round net cfg b is_done at now accepted next)
  end_round-InTime true is_done at now accepted next h later =
      (release net cfg at now accepted, refl, h)
  end_round-InTime false true at now accepted next h later =
      (give_up net cfg at now accepted, refl, over_at_lem at h)
  end_round-InTime false false at now accepted next h later = later refl

  -- A round that is not the last one ends before the deadline.
  next_start : (n at : ℕ) → is_over net cfg n at ≡ false → at + cfg.interval ≤ deadline net cfg
  unfolding is_over
  next_start n at h = ground (arith, h)

  -- The rounds run out, since each takes the interval.
  wait_from-InTime :
      ((n : ℕ) → net.takes n ≤ busy)
      → (fuel n start : ℕ) (current : List String) (accepted : Map String ℕ)
      → start ≤ deadline net cfg
      → deadline net cfg < start + fuel * cfg.interval
      → InTime (wait_from net cfg fuel n start current accepted)
  unfolding wait_from
  wait_from-InTime short zero n start current accepted early enough = absurd (omega arith)
  wait_from-InTime short (suc fuel) n start current accepted early enough =
      let now = now_resolved net cfg n current in
      let found = now_accepted net cfg n now accepted in
      let at = start + net.takes n in
      let quick = short n in
      end_round-InTime (all_in net cfg now found) (is_over net cfg n at) at now found _
        (omega arith)
        (λ alive.
          let begins = next_start n at alive in
          wait_from-InTime short fuel (suc n) (at + cfg.interval) now found begins (omega arith))

-- A wait ends, in time: with as many rounds as take the intervals past the longest wait it gives a
-- result, and the time that it reports is at most the longest wait and `busy` together, where no round
-- resolves and dials for longer than `busy`.
pub wait_total :
    (net : Network) (cfg : Config) (busy fuel : ℕ)
    → ((n : ℕ) → net.takes n ≤ busy)
    → cfg.max_wait < fuel * (with_defaults cfg).interval
    → (r : WaitResult) × (wait net cfg fuel ≡ some r) × (r.elapsed ≤ cfg.max_wait + busy)
unfolding wait with_defaults
wait_total net cfg busy fuel short enough =
    let within = deadline-max_wait net (with_defaults cfg) busy in
    let (r, given, early) =
      wait_from-InTime net (with_defaults cfg) busy short fuel 0 0 [] [] (omega arith)
        (omega arith) in
    (r, given, omega arith)
