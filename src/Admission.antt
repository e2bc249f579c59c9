-- ===== src/Admission.antt =====
-- internal/webhook/podresolution: the admission webhook that stamps pods (mutator.go) and refuses
-- forged stamps (validator.go), over what both share (handlers.go). Decoding requests, encoding pods
-- and the responses' JSON patches are the libraries': a request carries the outcome of its decoding,
-- and a response the pod that it patches to.
pub mod Failing
pub mod Judging
pub mod Stamping
use Prim.Native.String.{◌++◌ as ◌+++◌}
use kube_vnet.Prelude.{
  String, Bool, true, false, not, ◌&&◌, ◌||◌, Option, none, some, List, [], ◌∷◌, ◌++◌,
  if◌then◌else◌, ◌==◌, string_eq, is_nil, Map, lookup, is_some, or_else,
}
use kube_vnet.Prelude.Sorting.{sort}
use kube_vnet.Effects.{Error, Result, ok, err, Event}
use kube_vnet.Effects.Eff.{Eff}
use kube_vnet.Objects.{Labels, Container, Pod}
use kube_vnet.Cluster.{Cluster}
use kube_vnet.Resolution.{by_text}
use kube_vnet.Resolver.{desired_labels}
use kube_vnet.Stamps.{resolution_stamps, sync_stamps, mark_resolved}
use kube_vnet.Namespaces.{NamespaceFilter, manages}
use kube_vnet.NetworkWait.{NetworkWaitConfig, Durations, network_wait, network_wait_warning}

pub record Deps : Type 0 where
  pub cluster : Cluster
  pub recorder : Bool
  pub filter : NamespaceFilter
  pub operator_username : String
  pub durations : Durations
  pub wait_config : Option NetworkWaitConfig
  -- The failure of `json.Marshal`, if it fails.
  pub marshal_error : Pod → Option Error

pub data Operation : Type 0 where
  create update delete connect : Operation

-- `old_object` is `none` where the request carries none.
pub record Request : Type 0 where
  pub operation : Operation
  pub namespace : String
  pub username : String
  pub object : Result Pod
  pub old_object : Option (Result Pod)

-- A stamp that does not match the resolution.
pub data BadStamp : Type 0 where
  unresolved : (key value : String) → BadStamp
  differs : (key value want : String) → BadStamp
  removed : (key want : String) → BadStamp

pub data Response : Type 0 where
  allowed : (reason : String) (warning : Option String) → Response
  denied : List BadStamp → Response
  bad_request : Error → Response
  server_error : Error → Response
  patched : Pod → (warning : Option String) → Response

unfoldable pub is_operator : Deps → Request → Bool
is_operator d req = not (d.operator_username == "") && req.username == d.operator_username

pub record PodRequest : Type 0 where
  pub pod : Pod
  pub stamps : Labels
  pub old_stamps : Labels

abbrev pub decode_old : Pod → Option (Result Pod) → Result PodRequest
decode_old pod none =
    ok (record { pod = pod; stamps = resolution_stamps pod.labels; old_stamps = [] })
decode_old pod (some (err e)) = err e
decode_old pod (some (ok old)) = ok (record {
  pod = pod;
  stamps = resolution_stamps pod.labels;
  old_stamps = resolution_stamps old.labels;
})

unfoldable pub decode : Request → Result PodRequest
decode req = elim req.object [ err e ↦ err e | ok pod ↦ decode_old pod req.old_object ]

abbrev pub same_value : Option String → Option String → Bool
same_value none none = true
same_value (some v) (some w) = v == w
same_value _ _ = false

unfoldable pub untouched : PodRequest → String → Bool
untouched r k = same_value (lookup k r.stamps) (lookup k r.old_stamps)

abbrev managed_error : String → Result Bool → Result Bool
managed_error name (ok b) = ok b
managed_error name (err e) = err ("read namespace \"" +++ name +++ "\": " +++ e)

unfoldable pub namespace_managed : Deps → String → Result Bool
namespace_managed d name =
    if name == "" then ok false else managed_error name (manages d.filter d.cluster name)

-- The loops of the validator that collect the touched stamps.
unfoldable pub touched_new : PodRequest → Labels → List String
touched_new r [] = []
touched_new r ((k, _) ∷ m) = let rest = touched_new r m in if untouched r k then rest else k ∷ rest

unfoldable pub touched_old : PodRequest → Labels → List String
touched_old r [] = []
touched_old r ((k, _) ∷ m) =
    let rest = touched_old r m in if is_some (lookup k r.stamps) then rest else k ∷ rest

unfoldable pub touched : PodRequest → List String
touched r = touched_new r r.stamps ++ touched_old r r.old_stamps

unfoldable pub judge_stamp : String → Option String → Option String → Option BadStamp
judge_stamp k (some val) none = some (unresolved k val)
judge_stamp k (some val) (some want) = if want == val then none else some (differs k val want)
judge_stamp k none (some want) = some (removed k want)
judge_stamp k none none = none

abbrev pub cons_some : Option BadStamp → List BadStamp → List BadStamp
cons_some none bs = bs
cons_some (some b) bs = b ∷ bs

unfoldable pub bad_stamps : PodRequest → Labels → List String → List BadStamp
bad_stamps r desired [] = []
bad_stamps r desired (k ∷ ks) =
    cons_some (judge_stamp k (lookup k r.stamps) (lookup k desired)) (bad_stamps r desired ks)

abbrev bad_text : BadStamp → String
bad_text (unresolved k val) = k +++ "=" +++ val +++ " (pod resolves to no such membership)"
bad_text (differs k val want) = k +++ "=" +++ val +++ " (resolves to \"" +++ want +++ "\")"
bad_text (removed k want) = k +++ " removed (still resolves to \"" +++ want +++ "\")"

unfoldable pub judge : PodRequest → List String → Labels → Response
judge r ks desired =
    let bad = bad_stamps r desired ks in
    if is_nil bad
    then allowed "kube-vnet.system labels match resolved membership" none
    else denied (sort (λ a b. by_text (bad_text a) (bad_text b)) bad)

-- An unmanaged namespace resolves to nothing.
unfoldable pub resolved_in : Deps → Result Bool → Pod → Eff Labels
resolved_in d (err e) pod = ([], err e)
resolved_in d (ok false) pod = ([], ok [])
resolved_in d (ok true) pod =
    let (es, r) = desired_labels d.cluster d.recorder pod in
    elim r [ err e ↦ (es, err e) | ok (desired, _) ↦ (es, ok desired) ]

abbrev pub judged : PodRequest → Eff Labels → List Event × Response
judged r (es, err e) = (es, server_error e)
judged r (es, ok desired) = (es, judge r (touched r) desired)

-- What follows the decoding, in the validator and in the mutator.
unfoldable pub validate_pod : Deps → Request → PodRequest → List Event × Response
validate_pod d req r =
    if is_nil (touched r)
    then ([], allowed "no change to kube-vnet.system labels" none)
    else judged r (resolved_in d (namespace_managed d req.namespace) r.pod)

-- `Validator.Handle`: the Events that resolving wrote, and the response.
unfoldable pub validate : Deps → Request → List Event × Response
validate d req =
    if is_operator d req
    then ([], allowed "operator ServiceAccount" none)
    else elim (decode req) [ err e ↦ ([], bad_request e) | ok r ↦ validate_pod d req r ]

abbrev pub is_create : Operation → Bool
is_create create = true
is_create _ = false

abbrev pub prepend_wait : Pod → Option Container → Pod
prepend_wait pod none = pod
prepend_wait pod (some c) = record pod { init_containers = c ∷ pod.init_containers }

-- The pod and the warning after the stamps are written.
unfoldable pub with_wait : Deps → Operation → Pod → Pod × Option String
with_wait d op out =
    if is_create op
    then (let (wait, warning) = network_wait d.durations out d.wait_config in
        (prepend_wait out wait, warning))
    else (out, none)

abbrev pub resolved_by_admission : String
resolved_by_admission = "admission"

unfoldable pub stamp_pod : PodRequest → Labels → Pod
stamp_pod r desired =
    mark_resolved (sync_stamps r.pod desired (untouched r)).0 resolved_by_admission

unfoldable pub patch_to : Deps → Pod × Option String → Response
patch_to d (out, warning) = elim (d.marshal_error out) [
  | some e ↦ server_error e
  | none ↦ patched out warning
]

abbrev unmanaged_warning : Deps → Operation → Pod → Option String
unmanaged_warning d op pod =
    if is_create op then network_wait_warning d.durations pod false false else none

abbrev pub stamped : Deps → Operation → PodRequest → Eff Labels → List Event × Response
stamped d op r (es, err e) = (es, server_error e)
stamped d op r (es, ok desired) = (es, patch_to d (with_wait d op (stamp_pod r desired)))

unfoldable pub mutate_pod : Deps → Request → PodRequest → List Event × Response
mutate_pod d req r = elim (namespace_managed d req.namespace) [
  | err e ↦ ([], server_error e)
  | ok false ↦ (
    [],
    allowed "namespace is not managed by kube-vnet" (unmanaged_warning d req.operation r.pod),
  )
  | ok true ↦ stamped d req.operation r (resolved_in d (ok true) r.pod)
]

-- `Mutator.Handle`
unfoldable pub mutate : Deps → Request → List Event × Response
mutate d req =
    if is_operator d req
    then ([], allowed "operator ServiceAccount" none)
    else elim (decode req) [ err e ↦ ([], bad_request e) | ok r ↦ mutate_pod d req r ]
