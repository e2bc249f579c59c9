-- ===== src/Tests/Fixtures.antt =====
-- The cluster of the tests: the vnet `web` of namespace `shop` admits namespace `front`.
use kube_vnet.Prelude.{
  String, Bool, false, ◌&&◌, none, some, [], ◌∷◌, if◌then◌else◌, ◌==◌, string_eq, all,
}
use kube_vnet.Effects.{ok, found, not_found}
use kube_vnet.Objects.{Labels, LabelSelector, VirtualNetwork, Namespace, Pod}
use kube_vnet.Cluster.{Cluster}
use kube_vnet.Direction.{Direction}
use kube_vnet.Resolution.{ResolutionRule, ResolutionResult}
use kube_vnet.Stamps.{has_value}
use kube_vnet.Generator.Reach.{holds}

abbrev pub web : VirtualNetwork
web = record {
  namespace = "shop";
  name = "web";
  uid = "u1";
  labels = [];
  deleting = false;
  allowed_namespaces = some (record { all = false; names = "front" ∷ []; selector = none });
}

abbrev pub plain_namespace : String → Namespace
plain_namespace ns = record { name = ns; labels = []; annotations = []; deleting = false }

-- Labels that must be there, and `In` requirements.
abbrev pub selects : LabelSelector → Labels → Bool
selects s labels =
    all (λ (k, v). has_value k v labels) s.match_labels
    && all (λ e. holds e.values e.key labels) s.match_expressions

abbrev pub cluster : Cluster
cluster = record {
  get_vnet = λ ns name. if ns == "shop" && name == "web" then found web else not_found;
  get_namespace = λ ns. found (plain_namespace ns);
  get_cluster_baseline = λ _. not_found;
  get_baseline = λ _ _. not_found;
  list_bindings = λ _. ok [];
  list_namespaces = ok (plain_namespace "front" ∷ plain_namespace "back" ∷ []);
  list_pods = λ _. ok [];
  as_selector = λ s. some (selects s);
}

-- A pod of `front` with the given labels.
abbrev pub pod_with : Labels → Pod
pod_with labels = record {
  namespace = "front";
  name = "ui";
  uid = "p1";
  generation = 2;
  deleting = false;
  labels = labels;
  annotations = [];
  host_network = false;
  containers = [];
  init_containers = [];
}

abbrev pub ui : Pod
ui = pod_with (("kube-vnet/net.shop.web", "both") ∷ [])

abbrev pub web_stamp : String
web_stamp = "kube-vnet.system/net.shop.web"

abbrev pub ui_stamps : Labels
ui_stamps = (web_stamp, "both") ∷ []

abbrev pub ui_resolution : ResolutionResult
ui_resolution = record {
  effective = ("shop.web", Direction.both) ∷ [];
  conflicts = [];
  override_rejected = [];
}

abbrev pub rule : Direction → String → ResolutionRule
rule d source = record {
  vnet = "shop.web";
  direction = d;
  source = source;
  ref = record { name = ""; namespace = "" };
  hint = "";
  owner = none;
}
