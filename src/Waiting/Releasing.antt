-- ===== src/Waiting/Releasing.antt =====
-- What a wait that is released has seen (networkwait.go, `Wait`).
use kube_vnet.Prelude.{
  some-inj, ℕ, zero, suc, ◌+◌, String, ◌≡◌, refl, sym, ap, ◌∙◌, inl, inr, Bool, true, false, not,
  ◌||◌, Option, none, some, List, [], ◌∷◌, arith, if◌then◌else◌, ◌==◌, string_eq, beq→eq, is_nil,
  all, select, is_some, or_else, Map, lookup, lookup-insert, Bool-cases,
}
use kube_vnet.Prelude.Sorting.{is_nil-sort}
use kube_vnet.Resolution.{by_text}
use kube_vnet.Waiting.{
  Config, WaitResult, Network, with_defaults, not_in, keep_found, dialed, dial_all, all_in,
  now_accepted, end_round, is_over, wait_from, wait,
}

-- The addresses that the host last resolved to in the first rounds, none before one succeeds.
abbrev pub last_resolved : Network → (host : String) → (rounds : ℕ) → List String
last_resolved net host zero = []
last_resolved net host (suc n) = or_else (net.resolve n host) (last_resolved net host n)

module _ (net : Network) (cfg : Config) where
  -- The address accepted a connection in one of the first rounds.
  abbrev pub has_accepted : (rounds : ℕ) → String → Bool
  has_accepted zero a = false
  has_accepted (suc n) a = is_some (dialed net cfg n a) || has_accepted n a

  -- What is recorded as accepted has accepted.
  abbrev IsSound : ℕ → Map String ℕ → Type 0
  IsSound n accepted = (a : String) → is_some (lookup a accepted) ≡ true → has_accepted n a ≡ true

  keep_found-IsSound :
      (n : ℕ) (ip : String) (o : Option ℕ) (m : Map String ℕ)
      → dialed net cfg n ip ≡ o
      → IsSound (suc n) m
      → IsSound (suc n) (keep_found ip o m)
  keep_found-IsSound n ip none m h sound = sound
  keep_found-IsSound n ip (some d) m h sound = λ a there. elim (Bool-cases (ip == a)) [
    | inl same ↦
        let here = ap (dialed net cfg n) (sym (beq→eq ip a same)) ∙ h in ground (arith, here)
    | inr other ↦ sound a (
        ap is_some (sym (lookup-insert ip a d m ∙ ap (λ b. if b then some d else lookup a m) other))
        ∙ there)
  ]

  dial_all-IsSound :
      (n : ℕ) (ips : List String) (m : Map String ℕ)
      → IsSound n m
      → IsSound (suc n) (dial_all net cfg n ips m)
  unfolding dial_all
  dial_all-IsSound n [] m sound = λ a there. let before = sound a there in ground (arith, before)
  dial_all-IsSound n (ip ∷ ips) m sound =
      keep_found-IsSound n ip (dialed net cfg n ip) (dial_all net cfg n ips m) refl
        (dial_all-IsSound n ips m sound)

  all_accepted :
      (n : ℕ) (addrs : List String) (m : Map String ℕ)
      → IsSound n m
      → is_nil (select (λ a. not (is_some (lookup a m))) addrs) ≡ true
      → all (has_accepted n) addrs ≡ true
  all_accepted n [] m sound h = refl
  all_accepted n (a ∷ addrs) m sound h = ground (arith, h, sound a, all_accepted n addrs m sound)

  -- What a released result says of the network.
  abbrev pub AllAccepted : Type 0
  AllAccepted =
      (n : ℕ) × (is_nil (last_resolved net cfg.host n) ≡ false)
      × (all (has_accepted n) (last_resolved net cfg.host n) ≡ true)

  end_round_released :
      (b is_done : Bool) (n at : ℕ) (accepted : Map String ℕ) (next : Option WaitResult)
      (r : WaitResult)
      → all_in net cfg (last_resolved net cfg.host (suc n)) accepted ≡ b
      → IsSound (suc n) accepted
      → end_round net cfg b is_done at (last_resolved net cfg.host (suc n)) accepted next ≡ some r
      → r.released ≡ true
      → (next ≡ some r → AllAccepted)
      → AllAccepted
  unfolding not_in
  end_round_released true is_done n at accepted next r e sound h released later =
      let addrs = last_resolved net cfg.host (suc n) in
      let missing = select (λ a. not (is_some (lookup a accepted))) addrs in
      (
        suc n,
        ground (arith, e),
        all_accepted (suc n) addrs accepted sound
            (sym (is_nil-sort by_text missing) ∙ ground (arith, e)),
      )
  end_round_released false true n at accepted next r e sound h released later =
      let same = ap (λ (x : WaitResult). x.released) (some-inj _ r h) in
      absurd (cc (same, released))
  end_round_released false false n at accepted next r e sound h released later = later h

  wait_from_released :
      (fuel n start : ℕ) (accepted : Map String ℕ) (r : WaitResult)
      → IsSound n accepted
      → wait_from net cfg fuel n start (last_resolved net cfg.host n) accepted ≡ some r
      → r.released ≡ true
      → AllAccepted
  unfolding wait_from
  wait_from_released zero n start accepted r sound h released = absurd (cc h)
  wait_from_released (suc fuel) n start accepted r sound h released =
      let now = last_resolved net cfg.host (suc n) in
      let found = now_accepted net cfg n now accepted in
      let sound' = dial_all-IsSound n (not_in now accepted) accepted sound in
      end_round_released (all_in net cfg now found) (is_over net cfg n (start + net.takes n)) n
        (start + net.takes n) found _ r refl sound' h released
        (λ h'.
          wait_from_released fuel (suc n) (start + net.takes n + cfg.interval) found r sound' h'
            released)

-- A wait is released only if, after some number of rounds, the host's last addresses are not none
-- and every one of them has accepted a connection in one of these rounds.
pub wait_released :
    (net : Network) (cfg : Config) (fuel : ℕ) (r : WaitResult)
    → wait net cfg fuel ≡ some r
    → r.released ≡ true
    → AllAccepted net (with_defaults cfg)
unfolding wait lookup
wait_released net cfg fuel r h released =
    wait_from_released net (with_defaults cfg) fuel 0 0 [] r (λ a there. absurd (cc there)) h
      released
