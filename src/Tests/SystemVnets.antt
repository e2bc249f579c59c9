-- ===== src/Tests/SystemVnets.antt =====
-- The system vnets at a concrete cluster.
use kube_vnet.Prelude.{◌≡◌, refl, true, none, [], ◌∷◌, if◌then◌else◌, ◌==◌, string_eq, lookup}
use kube_vnet.Effects.{found}
use kube_vnet.Objects.{ObjectKey, object_key_eq}
use kube_vnet.Keys.{system_vnet_namespace}
use kube_vnet.Namespaces.{NamespaceFilter, is_managed}
use kube_vnet.Sweep.{deleted}
use kube_vnet.SystemVnets.{
  Vnets, VnetApi, vnet_key, apply_system_vnet, namespace_vnet_key, reconcile_system_vnets,
}
use kube_vnet.SystemVnets.Keeping.{
  cluster_vnet_key, kept_namespace_vnet, kept_cluster_vnet, lookup-reconcile_system_vnets,
}
use kube_vnet.Tests.Fixtures.{web, plain_namespace}

-- An API server on which every call succeeds, and which stores what is applied.
abbrev api : VnetApi
api = record {
  get_error = λ _. none;
  patch_error = λ _. none;
  delete_outcome = λ _. deleted;
  applied = λ _ desired. desired;
}

abbrev filter : NamespaceFilter
filter = record { excluded = "ops" ∷ [] }

abbrev vnets : Vnets
vnets = (vnet_key web, web) ∷ []

abbrev front_key : ObjectKey
front_key = record { namespace = "front"; name = system_vnet_namespace }

reconciles :
    (reconcile_system_vnets api true filter "ops" (found (plain_namespace "front")) vnets).error
    ≡ none
unfolding reconcile_system_vnets apply_system_vnet is_managed lookup
reconciles = refl

lookup-reconcile_system_vnets_example :
    lookup front_key
      (reconcile_system_vnets api true filter "ops" (found (plain_namespace "front")) vnets).vnets
    ≡ (if cluster_vnet_key "ops" == front_key
        then kept_cluster_vnet api true filter "ops"
            (plain_namespace "front")
            (lookup front_key vnets)
        else if namespace_vnet_key api true "front" == front_key
        then kept_namespace_vnet api true filter "ops"
            (plain_namespace "front")
            (lookup front_key vnets)
        else lookup front_key vnets)
lookup-reconcile_system_vnets_example =
    lookup-reconcile_system_vnets api true filter "ops" (plain_namespace "front") front_key vnets
      refl reconciles
