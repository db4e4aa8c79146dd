-- ===== src/Examples/Policies.antt =====
-- The policy for the ServiceExport CRD at concrete inputs.
use multicluster_cloud_provi.Prelude.{
  ℕ, ◌≡◌, ◌↔◌, refl, String, none, some, List, [], ◌∷◌, contains, any, str_eq,
}
use multicluster_cloud_provi.Api.{ok, err, not_found, Cluster, ClusterPropagationPolicy}
use multicluster_cloud_provi.Platform.{done, Client, cluster_policy_created}
use multicluster_cloud_provi.CrdInstallation.{
  remove, next_clusters, cluster_propagation_policy, cluster_names, reconcile,
}
use multicluster_cloud_provi.CrdInstallation.Names.{
  IsUnique, names_after, wanted, is_ensure, names_after_lem,
}
use multicluster_cloud_provi.CrdInstallation.Policy.{event_of, Written, reconcile-Written, gone_lem}
use multicluster_cloud_provi.CrdInstallation.Watches.{
  fictional, policy_requests, IsLoss, recreated_lem,
}
use multicluster_cloud_provi.Platform.Watching.{deleted}
use multicluster_cloud_provi.Examples.Fixtures.{client, key, start, east, usual}

abbrev names : List String
names = "west" ∷ "north" ∷ []

abbrev policy : ClusterPropagationPolicy
policy =
    let p = cluster_propagation_policy [] in
    let s = p.spec in record p { spec = record s { cluster_affinity = some names } }

abbrev joining : Client ℕ
joining = client (record usual { cluster_policy = ok policy })

abbrev gone : Client ℕ
gone = client (record usual { cluster = err not_found; cluster_policy = ok policy })

names_after_lem_example :
    ((a : String) → contains (names_after remove names "west") a ≡ wanted remove names "west" a)
    × IsUnique (names_after remove names "west")
    × ((next_clusters remove names "west" ≡ none) ↔ (contains names "west" ≡ is_ensure remove))
names_after_lem_example = names_after_lem names "west" (refl, (refl, tt)) remove

reconcile-Written_example :
    Written joining key start (event_of east) policy names "east" (reconcile joining key start)
reconcile-Written_example = reconcile-Written joining key start east policy names refl refl refl

gone_lem_example :
    ((reconcile gone key start).0 ≡ done tt) × ((reconcile gone key start).1.log ≡ [])
gone_lem_example = gone_lem gone key start policy names refl refl refl refl

-- There is neither a cluster of that name nor a policy.
abbrev lost : Client ℕ
lost = client (record usual { cluster = err not_found })

recreated_lem_example :
    (IsLoss (deleted policy) → policy_requests (deleted policy) ≡ fictional ∷ [])
    × ((IsLoss (deleted policy) → ⊥) → policy_requests (deleted policy) ≡ [])
    × ((reconcile lost fictional start).0 ≡ done tt)
    × ((reconcile lost fictional start).1.log
        ≡ cluster_policy_created
            (cluster_propagation_policy (cluster_names (east ∷ [])))
            (ok (cluster_propagation_policy (cluster_names (east ∷ []))))
          ∷ [])
    × ((name : String)
        → contains (cluster_names (east ∷ [])) name
          ≡ any (λ (c : Cluster). str_eq c.name name) (east ∷ []))
recreated_lem_example = recreated_lem lost start (deleted policy) (east ∷ []) refl refl refl
