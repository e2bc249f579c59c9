-- ===== src/Waiting.antt =====
-- internal/networkwait/networkwait.go: the rounds in which an init container waits until every
-- beacon accepts a connection. What the network does in each round, and how long that takes, is a
-- parameter; the dials of a round run at once, and all of them end before the round goes on.
pub mod Ending
pub mod Releasing
use Prim.Native.Char.{Char, code}
use Prim.Native.String
use Prim.Native.String.{◌++◌}
use kube_vnet.Prelude.{
  ℕ, zero, suc, ◌+◌, leb, ltb, String, Bool, true, false, not, ◌&&◌, ◌||◌, Option, none, some, List,
  [], ◌∷◌, if◌then◌else◌, ◌==◌, string_eq, nat_beq, is_nil, select, is_some, or_else, Map, lookup,
  insert,
}
use kube_vnet.Prelude.Sorting.{sort}
use kube_vnet.Resolution.{by_text}

-- Durations are in nanoseconds.
pub record Config : Type 0 where
  pub host : String
  pub port : String
  pub max_wait : ℕ
  pub interval : ℕ
  pub dial_timeout : ℕ

pub record WaitResult : Type 0 where
  pub released : Bool
  pub elapsed : ℕ
  pub accepted : Map String ℕ
  pub pending : List String

-- What each round, from 0 on, meets: the addresses that `Resolve` gives, when `Dial` succeeded, how
-- long the round resolves and dials, and whether `select` takes `ctx.Done()` where both timers fire at
-- once. The caller's context ends at a time, if it does. Times count from the start of the wait.
pub record Network : Type 0 where
  pub resolve : ℕ → (host : String) → Option (List String)
  pub dial : ℕ → (timeout : ℕ) → (address : String) → Option ℕ
  pub takes : ℕ → ℕ
  pub takes_done : ℕ → Bool
  pub cancelled : Option ℕ

-- The resolver and the dialer of the Config are the network's.
unfoldable pub with_defaults : Config → Config
with_defaults cfg = record cfg {
  interval = if nat_beq cfg.interval 0 then 150000000 else cfg.interval;
  dial_timeout = if nat_beq cfg.dial_timeout 0 then 500000000 else cfg.dial_timeout;
}

unfoldable pub has_colon : String → Bool
has_colon String.[] = false
has_colon (String.◌∷◌ c s) = nat_beq (code c) b':' || has_colon s

-- `net.JoinHostPort`: an IPv6 address stands in brackets.
unfoldable pub join_host_port : (host port : String) → String
join_host_port host port =
    if has_colon host then "[" ++ host ++ "]:" ++ port else host ++ ":" ++ port

unfoldable pub not_in : List String → Map String ℕ → List String
not_in addrs accepted = sort by_text (select (λ a. not (is_some (lookup a accepted))) addrs)

abbrev keep_found : String → Option ℕ → Map String ℕ → Map String ℕ
keep_found a none out = out
keep_found a (some d) out = insert a d out

unfoldable pub only : List String → Map String ℕ → Map String ℕ
only [] accepted = []
only (a ∷ addrs) accepted = keep_found a (lookup a accepted) (only addrs accepted)

module _ (net : Network) (cfg : Config) where
  abbrev pub dialed : ℕ → String → Option ℕ
  dialed n ip = net.dial n cfg.dial_timeout (join_host_port ip cfg.port)

  -- The goroutines of a round; each writes under its own address.
  unfoldable pub dial_all : ℕ → List String → Map String ℕ → Map String ℕ
  dial_all n [] accepted = accepted
  dial_all n (ip ∷ ips) accepted = keep_found ip (dialed n ip) (dial_all n ips accepted)

  -- `context.WithTimeout(ctx, cfg.MaxWait)`: the earlier one of the two ends.
  abbrev pub earlier : Option ℕ → ℕ → ℕ
  earlier none max_wait = max_wait
  earlier (some ending) max_wait = if leb ending max_wait then ending else max_wait

  unfoldable pub deadline : ℕ
  deadline = earlier net.cancelled cfg.max_wait

  -- Whether `select`, entered at a time, takes `ctx.Done()` before `time.After(cfg.Interval)`.
  unfoldable pub is_over : (n now : ℕ) → Bool
  is_over n now =
      ltb deadline (now + cfg.interval)
      || (nat_beq deadline (now + cfg.interval) && net.takes_done n)

  -- When `select` takes `ctx.Done()`: at once where it is past already.
  unfoldable pub over_at : (now : ℕ) → ℕ
  over_at now = if leb now deadline then deadline else now

  abbrev pub release : (now : ℕ) → List String → Map String ℕ → WaitResult
  release now current accepted = record {
    released = true;
    elapsed = now;
    accepted = only current accepted;
    pending = [];
  }

  abbrev pub give_up : (now : ℕ) → List String → Map String ℕ → WaitResult
  give_up now current accepted = record {
    released = false;
    elapsed = over_at now;
    accepted = only current accepted;
    pending = not_in current accepted;
  }

  abbrev pub all_in : List String → Map String ℕ → Bool
  all_in current accepted = not (is_nil current) && is_nil (not_in current accepted)

  abbrev pub now_resolved : ℕ → List String → List String
  now_resolved n current = or_else (net.resolve n cfg.host) current

  abbrev pub now_accepted : ℕ → List String → Map String ℕ → Map String ℕ
  now_accepted n now accepted = dial_all n (not_in now accepted) accepted

  -- The end of a round: every beacon has accepted, the time is up, or the next round comes.
  abbrev pub end_round :
      (all_accepted is_done : Bool)
      → (at : ℕ) → List String
      → Map String ℕ
      → (next : Option WaitResult) → Option WaitResult
  end_round true is_done at now accepted next = some (release at now accepted)
  end_round false true at now accepted next = some (give_up at now accepted)
  end_round false false at now accepted next = next

  -- The loop, on fuel, from round `n` on, which starts at a time.
  unfoldable pub wait_from :
      (fuel n start : ℕ) → (current : List String) → (accepted : Map String ℕ) → Option WaitResult
  wait_from zero n start current accepted = none
  wait_from (suc fuel) n start current accepted =
      let now = now_resolved n current in
      let found = now_accepted n now accepted in
      let at = start + net.takes n in
      let next = wait_from fuel (suc n) (at + cfg.interval) now found in
      end_round (all_in now found) (is_over n at) at now found next

-- `Wait`
unfoldable pub wait : Network → Config → (fuel : ℕ) → Option WaitResult
wait net cfg fuel = wait_from net (with_defaults cfg) fuel 0 0 [] []
