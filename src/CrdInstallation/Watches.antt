-- ===== src/CrdInstallation/Watches.antt =====
-- SetupWithManager of pkg/controllers/crdinstallation/crd_installation_controller.go: which events
-- lead to a run, and what the deletion of the policy leads to.
use multicluster_cloud_provi.Prelude.{
  ◌≡◌, ◌≢◌, refl, ap, ◌∙◌, inl, inr, ℕ, String, true, false, not, ◌&&◌, Option, List, [], ◌∷◌,
  if◌then◌else◌, str_eq, eq_iff, any, contains, Bool-cases,
}
use multicluster_cloud_provi.Api.{
  NamespacedName, not_found, ok, err, is_zero, Cluster, ClusterPropagationPolicy,
}
use multicluster_cloud_provi.Platform.{World, Client, cluster_policy_created, exit_of}
use multicluster_cloud_provi.Platform.Watching.{
  Predicate, Incoming, created, updated, deleted, sent, passes, subject,
}
use multicluster_cloud_provi.IngressWatch.{same_flag}
use multicluster_cloud_provi.CrdInstallation.{
  cluster_propagation_policy_name, cluster_propagation_policy, cluster_names, sync_policy,
  create_cluster_propagation_policy, sync_cluster_propagation_policy, reconcile_got, reconcile,
}
use multicluster_cloud_provi.CrdInstallation.Policy.{
  event_of, contains-cluster_names, policy_key, create_lem,
}

-- WithEventFilter(clusterFilter), which the events of both kinds have to pass. It reads the mark of
-- deletion only.
cluster_filter : {A : Type 0} → (A → Option ℕ) → Predicate A
cluster_filter deletion_timestamp = record {
  on_create = λ _. true;
  on_update = λ old new.
      not (same_flag (is_zero (deletion_timestamp old)) (is_zero (deletion_timestamp new)));
  on_delete = λ _. true;
  on_generic = λ _. false;
}

cpp_filter : Predicate ClusterPropagationPolicy
cpp_filter = record {
  on_create = λ _. false;
  on_update = λ _ _. false;
  on_delete = λ policy. str_eq policy.name cluster_propagation_policy_name;
  on_generic = λ _. false;
}

-- The fictional cluster.
abbrev pub fictional : NamespacedName
fictional = record { namespace = ""; name = "no-exist-cluster" }

-- cppHandlerFn
map_policy : ClusterPropagationPolicy → List NamespacedName
map_policy policy = fictional ∷ []

-- The requests that an event of a watched policy adds to the queue.
unfoldable pub policy_requests : Incoming ClusterPropagationPolicy → List NamespacedName
unfolding cluster_filter cpp_filter map_policy
policy_requests i =
    if passes cpp_filter i && passes (cluster_filter (λ p. p.deletion_timestamp)) i
    then map_policy (subject i)
    else []

-- For(&Cluster{})
cluster_requests : Incoming Cluster → List NamespacedName
unfolding cluster_filter
cluster_requests i =
    if passes (cluster_filter (λ (c : Cluster). c.deletion_timestamp)) i
    then record { namespace = (subject i).namespace; name = (subject i).name } ∷ []
    else []

-- The event is the deletion of the policy that the reconciler keeps.
abbrev pub IsLoss : Incoming ClusterPropagationPolicy → Type 0
IsLoss i =
    (p : ClusterPropagationPolicy) × (i ≡ deleted p) × (p.name ≡ cluster_propagation_policy_name)

no_requests : (i : Incoming ClusterPropagationPolicy) → (IsLoss i → ⊥) → policy_requests i ≡ []
unfolding policy_requests
no_requests (created p) n = refl
no_requests (updated p q) n = refl
no_requests (sent p) n = refl
no_requests (deleted p) n = elim (Bool-cases (str_eq p.name cluster_propagation_policy_name)) [
  | inl e ↦ absurd (n (p, refl, (eq_iff p.name cluster_propagation_policy_name).0 e))
  | inr e ↦ rw e refl
]

loss_requests :
    (i : Incoming ClusterPropagationPolicy) → IsLoss i → policy_requests i ≡ fictional ∷ []
unfolding policy_requests
loss_requests i (p, e, n) =
    let same = (eq_iff p.name cluster_propagation_policy_name).1 n in rw (e, same) refl

module _ {C P : Type 0} (client : Client C) (w : World C P) where
  -- The deletion of the policy, and no other event of a policy, leads to a run, for a cluster name
  -- that stands for no cluster. If there is no cluster of that name, no policy, and the list of the
  -- clusters can be read, the run creates the policy with the names of all the listed clusters and
  -- returns the error of that call.
  pub recreated_lem :
      (i : Incoming ClusterPropagationPolicy) (cs : List Cluster)
      → (client.get_cluster fictional w.api).0 ≡ err not_found
      → let c = (client.get_cluster fictional w.api).1 in
        (client.get_cluster_policy policy_key c).0 ≡ err not_found
        → let listed = client.list_clusters (client.get_cluster_policy policy_key c).1 in
          listed.0 ≡ ok cs
          → let policy = cluster_propagation_policy (cluster_names cs) in
            let answer = (client.create_cluster_policy policy listed.1).0 in
            (IsLoss i → policy_requests i ≡ fictional ∷ [])
            × ((IsLoss i → ⊥) → policy_requests i ≡ [])
            × ((reconcile client fictional w).0 ≡ exit_of answer)
            × ((reconcile client fictional w).1.log ≡ cluster_policy_created policy answer ∷ w.log)
            × ((name : String)
                → contains (cluster_names cs) name ≡ any (λ c. str_eq c.name name) cs)
  unfolding reconcile reconcile_got sync_cluster_propagation_policy sync_policy
  recreated_lem i cs hc hp hl =
      let v : World C P = record w {
        api = (client.get_cluster_policy policy_key (client.get_cluster fictional w.api).1).1;
      } in
      let (exit, log) = create_lem client fictional w cs v hl in
      let run : reconcile client fictional w ≡ create_cluster_propagation_policy client v =
        rw hc (rw hp refl) in
      (
        loss_requests i,
        no_requests i,
        ap (λ r. r.0) run ∙ exit,
        ap (λ r. r.1.log) run ∙ log,
        contains-cluster_names cs,
      )

-- The update of a cluster leads to no run if a run would carry out the same event for the old and
-- for the new cluster, and to one run for the new cluster if the event differs.
cluster_update_lem :
    (old new : Cluster)
    → (event_of old ≡ event_of new → cluster_requests (updated old new) ≡ [])
      × (event_of old ≢ event_of new
          → cluster_requests (updated old new)
            ≡ record { namespace = new.namespace; name = new.name } ∷ [])
unfolding cluster_requests
cluster_update_lem old new = elim (Bool-cases (is_zero old.deletion_timestamp)) [
  | inl a ↦ elim (Bool-cases (is_zero new.deletion_timestamp)) [
    | inl b ↦ (λ _. rw (a, b) refl, λ d. absurd (d (rw (a, b, event_of) refl)))
    | inr b ↦ (λ e. absurd (cc (rw (a, b, event_of) at e)), λ _. rw (a, b) refl)
  ]
  | inr a ↦ elim (Bool-cases (is_zero new.deletion_timestamp)) [
    | inl b ↦ (λ e. absurd (cc (rw (a, b, event_of) at e)), λ _. rw (a, b) refl)
    | inr b ↦ (λ _. rw (a, b) refl, λ d. absurd (d (rw (a, b, event_of) refl)))
  ]
]
