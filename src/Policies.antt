-- ===== src/Policies.antt =====
-- internal/controller/policy_generator.go and baseline.go: the labels and names of generated
-- policies, and the baseline policy. SHA-256 is a library's: `hash8` stands for the hex digits of
-- the first four bytes of a text's digest.
use Prim.Native.String.{String, ◌++◌}
use kube_vnet.Prelude.{ℕ, zero, suc, ◌-◌, false, [], ◌∷◌, if◌then◌else◌, leb, ◌==◌, string_eq}
use kube_vnet.Objects.{Labels, LabelSelector, NetworkPolicy}
use kube_vnet.Keys.{system_vnet_cluster}

abbrev pub label_k8s_managed_by : String
label_k8s_managed_by = "app.kubernetes.io/managed-by"

abbrev pub label_managed_by : String
label_managed_by = "kube-vnet.system/managed-by"

abbrev pub label_managed_by_value : String
label_managed_by_value = "kube-vnet"

abbrev pub label_network : String
label_network = "kube-vnet.system/network"

abbrev pub label_role : String
label_role = "kube-vnet.system/role"

abbrev pub label_source : String
label_source = "kube-vnet.system/source"

abbrev pub label_source_kind : String
label_source_kind = "kube-vnet.system/source-kind"

abbrev pub namespace_metadata_name_label : String
namespace_metadata_name_label = "kubernetes.io/metadata.name"

abbrev pub baseline_policy_name : String
baseline_policy_name = "kube-vnet.base"

-- The names are ASCII, so that Go's bytes are the characters.
unfoldable pub text_length : String → ℕ
text_length String.[] = 0
text_length (String.◌∷◌ c s) = suc (text_length s)

unfoldable pub text_take : ℕ → String → String
text_take zero s = ""
text_take (suc n) String.[] = ""
text_take (suc n) (String.◌∷◌ c s) = String.◌∷◌ c (text_take n s)

abbrev pub selects_all : LabelSelector
selects_all = record { match_labels = []; match_expressions = [] }

module _ (hash8 : String → String) where
  -- `policyHash`, of three parts.
  abbrev pub policy_hash : String → String → String → String
  policy_hash a b c = hash8 (a ++ "\0" ++ b ++ "\0" ++ c)

  unfoldable pub truncate_policy_name : String → String
  truncate_policy_name name =
      let suffix = "-" ++ hash8 name in
      if leb (text_length name) 253
      then name
      else text_take (253 - text_length suffix) name ++ suffix

  unfoldable pub policy_name : (vnet home_ns : String) → String
  policy_name vnet home_ns =
      if vnet == system_vnet_cluster
      then truncate_policy_name (
          "kube-vnet.mem."
          ++ system_vnet_cluster
          ++ "-"
          ++ policy_hash "membership" "" system_vnet_cluster)
      else truncate_policy_name (
          "kube-vnet.mem."
          ++ home_ns
          ++ "."
          ++ vnet
          ++ "-"
          ++ policy_hash "membership" home_ns vnet)

  unfoldable pub source_label_value : (prefix namespace name : String) → String
  source_label_value prefix namespace name =
      let suffix = "-" ++ policy_hash "source" namespace name in
      if leb (text_length (prefix ++ name)) 63
      then prefix ++ name
      else prefix ++ text_take (63 - text_length prefix - text_length suffix) name ++ suffix

-- The labels that every generated policy has.
abbrev pub managed_labels : Labels → Labels
managed_labels rest =
    (label_managed_by, label_managed_by_value)
    ∷ (label_k8s_managed_by, label_managed_by_value)
    ∷ rest

-- `DesiredBaseline`
unfoldable pub desired_baseline : String → NetworkPolicy
desired_baseline ns = record {
  namespace = ns;
  name = baseline_policy_name;
  labels = managed_labels ((label_role, "baseline") ∷ []);
  annotations = [];
  owner_references = [];
  deleting = false;
  spec = record { pod_selector = selects_all; ingress = []; policy_types = "Ingress" ∷ [] };
}
