-- ===== src/Sweep.antt =====
-- internal/controller/sweep.go: applying and sweeping policies, on the collection of policies that
-- the API server keeps. The server's answers, and the comparisons of apimachinery, are parameters.
pub mod Applying
pub mod Sweeping
pub mod Comparing
pub mod Settling
use kube_vnet.Prelude.{
  String, Bool, true, false, not, ◌&&◌, ◌||◌, Option, none, some, List, [], ◌∷◌, ◌++◌,
  if◌then◌else◌, ◌==◌, string_eq, nat_beq, length, all, any, Map, lookup, insert, delete_if,
  is_some, or_else,
}
use kube_vnet.Effects.{Error, Result, ok, err}
use kube_vnet.Objects.{
  Labels, ObjectKey, object_key_eq, OwnerReference, NetworkPolicySpec, NetworkPolicy,
}
use kube_vnet.Policies.{label_managed_by, label_managed_by_value}
use kube_vnet.Stamps.{has_value}

abbrev pub Policies : Type 0
Policies = Map ObjectKey NetworkPolicy

-- What a delete comes to: NotFound means that the policy was gone already.
pub data DeleteOutcome : Type 0 where
  deleted already_gone : DeleteOutcome
  delete_failed : Error → DeleteOutcome

-- The API server, and `equality.Semantic.DeepEqual` on the two types that are compared.
pub record Api : Type 0 where
  pub get_error : ObjectKey → Option Error
  pub patch_error : NetworkPolicy → Option Error
  pub list_error : Option Error
  pub delete_outcome : ObjectKey → DeleteOutcome
  -- What is stored once `desired` is applied over what was there.
  pub applied : (live : Option NetworkPolicy) (desired : NetworkPolicy) → NetworkPolicy
  pub same_owners : List OwnerReference → List OwnerReference → Bool
  pub same_spec : NetworkPolicySpec → NetworkPolicySpec → Bool

abbrev pub key_of : NetworkPolicy → ObjectKey
key_of p = record { namespace = p.namespace; name = p.name }

-- `maps.Equal`
unfoldable pub maps_equal : Labels → Labels → Bool
maps_equal a b = nat_beq (length a) (length b) && all (λ (k, v). has_value k v b) a

unfoldable pub operator_managed : Labels → Bool
operator_managed labels = has_value label_managed_by label_managed_by_value labels

-- The labels of `inNamespacePolicyLabels`.
abbrev pub managed_and : Labels → Labels
managed_and extra = (label_managed_by, label_managed_by_value) ∷ extra

-- The options of a List call: a namespace, or all of them, and labels that must be there.
pub record ListOptions : Type 0 where
  pub namespace : Option String
  pub matching_labels : Labels

abbrev pub in_namespace : Option String → String → Bool
in_namespace none ns = true
in_namespace (some n) ns = n == ns

unfoldable pub listed : ListOptions → NetworkPolicy → Bool
listed opts p =
    in_namespace opts.namespace p.namespace
    && all (λ (k, v). has_value k v p.labels) opts.matching_labels

unfoldable pub in_namespace_policy_labels : String → Labels → ListOptions
in_namespace_policy_labels ns extra = record {
  namespace = some ns;
  matching_labels = managed_and extra;
}

abbrev true_and_equal : Option Bool → Bool → Bool
true_and_equal (some true) b = b
true_and_equal _ b = false

unfoldable pub has_controller_owner : List OwnerReference → (kind name uid : String) → Bool
has_controller_owner [] kind name uid = false
has_controller_owner (o ∷ os) kind name uid =
    true_and_equal o.controller (o.kind == kind && (o.name == name && o.uid == uid))
    || has_controller_owner os kind name uid

module _ (api : Api) where
  unfoldable pub policy_up_to_date : (live desired : NetworkPolicy) → Bool
  policy_up_to_date live desired =
      not live.deleting
      && (maps_equal live.labels desired.labels
          && (all (λ (k, v). has_value k v live.annotations) desired.annotations
              && (api.same_owners live.owner_references desired.owner_references
                  && api.same_spec live.spec desired.spec)))

  abbrev pub patch_with :
      NetworkPolicy → Option Error → Option NetworkPolicy → Policies → Policies × Result Bool
  patch_with desired (some e) live ps = (ps, err e)
  patch_with desired none live ps =
      (insert (key_of desired) (api.applied live desired) ps, ok (not (is_some live)))

  abbrev pub apply_over : NetworkPolicy → Option NetworkPolicy → Policies → Policies × Result Bool
  apply_over desired none ps = patch_with desired (api.patch_error desired) none ps
  apply_over desired (some live) ps =
      if policy_up_to_date live desired
      then (ps, ok false)
      else patch_with desired (api.patch_error desired) (some live) ps

  abbrev pub apply_read :
      NetworkPolicy → Option Error → Option NetworkPolicy → Policies → Policies × Result Bool
  apply_read desired (some e) live ps = (ps, err e)
  apply_read desired none live ps = apply_over desired live ps

  -- `applyPolicy`: the policies after it, and whether it created one. The source returns `created`
  -- beside a failed patch too, which no caller reads.
  unfoldable pub apply_policy : NetworkPolicy → Policies → Policies × Result Bool
  apply_policy desired ps =
      apply_read desired (api.get_error (key_of desired)) (lookup (key_of desired) ps) ps

  abbrev pub remove : ObjectKey → Policies → Policies
  remove k ps = delete_if (λ j. j == k) ps

  abbrev pub after_delete :
      DeleteOutcome → Policies → Policies × Option Error → Policies × Option Error
  after_delete deleted ps rest = rest
  after_delete already_gone ps rest = rest
  after_delete (delete_failed e) ps rest = (ps, some e)

  -- The loop over the listed policies: it returns on the first error.
  unfoldable pub sweep_keys : List ObjectKey → Policies → Policies × Option Error
  sweep_keys [] ps = (ps, none)
  sweep_keys (k ∷ ks) ps =
      let rest = sweep_keys ks (remove k ps) in after_delete (api.delete_outcome k) ps rest

  abbrev pub is_stale :
      ListOptions → (ObjectKey → Bool) → (NetworkPolicy → Bool) → ObjectKey → NetworkPolicy → Bool
  is_stale opts keep skip k p = listed opts p && not (keep k || skip p)

  -- The policies that a sweep deletes.
  unfoldable pub stale_keys :
      ListOptions → (ObjectKey → Bool) → (NetworkPolicy → Bool) → Policies → List ObjectKey
  stale_keys opts keep skip [] = []
  stale_keys opts keep skip ((k, p) ∷ ps) =
      let rest = stale_keys opts keep skip ps in
      if is_stale opts keep skip k p then k ∷ rest else rest

  abbrev pub swept : Option Error → List ObjectKey → Policies → Policies × Option Error
  swept (some e) ks ps = (ps, some e)
  swept none ks ps = sweep_keys ks ps

  unfoldable pub sweep_stale_policies :
      ListOptions → (ObjectKey → Bool) → (NetworkPolicy → Bool) → Policies → Policies × Option Error
  sweep_stale_policies opts keep skip ps = swept api.list_error (stale_keys opts keep skip ps) ps
