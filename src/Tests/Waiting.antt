-- ===== src/Tests/Waiting.antt =====
-- The network wait, and the lengths of names, at concrete inputs.
use kube_vnet.Prelude.{
  ℕ, ◌+◌, ◌*◌, ◌≤◌, ◌<◌, String, ◌≡◌, refl, true, none, some, [], ◌∷◌, arith, if◌then◌else◌, ltb,
  lookup, insert,
}
use kube_vnet.Prelude.Sorting.{place, sort}
use kube_vnet.Policies.{text_length, policy_name, source_label_value}
use kube_vnet.Exposure.{service_policy_name}
use kube_vnet.Exposure.Bounds.{names_fit}
use kube_vnet.Waiting.{
  Config, WaitResult, Network, with_defaults, has_colon, join_host_port, not_in, only, dial_all,
  deadline, is_over, over_at, wait_from, wait,
}
use kube_vnet.Waiting.Releasing.{AllAccepted, wait_released}
use kube_vnet.Waiting.Ending.{wait_total}

running : Unit {0}
unfolding place sort with_defaults has_colon join_host_port not_in only dial_all deadline is_over
    over_at wait_from wait lookup insert text_length
running = tt

abbrev config : Config
config = record { host = "beacons"; port = "1234"; max_wait = 5; interval = 2; dial_timeout = 1 }

-- One beacon, which accepts from the second round on.
abbrev network : Network
network = record {
  resolve = λ _ _. some ("10.0.0.1" ∷ []);
  dial = λ n _ _. if ltb n 1 then none else some (n * 2);
  takes = λ _. 1;
  takes_done = λ _. true;
  cancelled = none;
}

short_rounds : (n : ℕ) → network.takes n ≤ 1
short_rounds n = omega arith

enough : config.max_wait < 3 * (with_defaults config).interval
unfolding running
enough = omega arith

wait_total_example :
    (r : WaitResult) × (wait network config 3 ≡ some r) × (r.elapsed ≤ config.max_wait + 1)
wait_total_example = wait_total network config 1 3 short_rounds enough

releases :
    wait network config 4
    ≡ some (record { released = true; elapsed = 4; accepted = ("10.0.0.1", 2) ∷ []; pending = [] })
unfolding running
releases = refl

wait_released_example : AllAccepted network (with_defaults config)
wait_released_example =
    wait_released network config 4
      (record { released = true; elapsed = 4; accepted = ("10.0.0.1", 2) ∷ []; pending = [] })
      releases refl

abbrev hash : String → String
hash s = "01234567"

hash_digits : (s : String) → text_length (hash s) ≡ 8
unfolding running
hash_digits s = refl

short : text_length "apiserver" ≤ 39
unfolding running
short = omega arith

brief : text_length "apiserver-" ≤ 54
unfolding running
brief = omega arith

names_fit_example :
    (text_length (policy_name hash "web" "shop") ≤ 253)
    × (text_length (service_policy_name hash "apiserver" "shop" "web") ≤ 63)
    × (text_length (source_label_value hash "apiserver-" "shop" "web") ≤ 63)
names_fit_example =
    names_fit hash hash_digits "web" "shop" "apiserver" "apiserver-" "shop" "web" short brief
