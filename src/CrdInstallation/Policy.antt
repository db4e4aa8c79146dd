-- ===== src/CrdInstallation/Policy.antt =====
-- What a run of the reconciler writes to the ClusterPropagationPolicy.
use multicluster_cloud_provi.Prelude.{
  ◌≡◌, refl, sym, ap, ◌∙◌, inl, inr, String, true, false, not, some, List, [], ◌∷◌, arith, str_eq,
  contains, any, Option-cases, Bool-cases, subst,
}
use multicluster_cloud_provi.Api.{
  NamespacedName, not_found, Result, ok, err, is_zero, Cluster, ClusterPropagationPolicy,
  Result-cases,
}
use multicluster_cloud_provi.Platform.{
  done, deref, ◌>>=◌, World, Client, cluster_policy_created, cluster_policy_updated, exit_of, Exit,
}
use multicluster_cloud_provi.CrdInstallation.{
  EventType, ensure, remove, cluster_propagation_policy_name, next_clusters,
  cluster_propagation_policy, with_clusters, cluster_names, create_cluster_propagation_policy,
  update_clusters, sync_policy, sync_cluster_propagation_policy, reconcile_got, reconcile,
}
use multicluster_cloud_provi.CrdInstallation.Names.{
  is_ensure, names_after, next_clusters-none, next_clusters-some, next_clusters_absent,
}

abbrev pub policy_key : NamespacedName
policy_key = record { namespace = ""; name = cluster_propagation_policy_name }

-- A cluster that is being deleted is removed, any other is ensured.
abbrev pub event_of : Cluster → EventType
event_of c = elim (is_zero c.deletion_timestamp) [ true ↦ ensure | false ↦ remove ]

-- Every listed cluster has its name in the new policy, and no other name is in it.
pub contains-cluster_names :
    (cs : List Cluster) (name : String)
    → contains (cluster_names cs) name ≡ any (λ c. str_eq c.name name) cs
unfolding cluster_names
contains-cluster_names [] name = refl
contains-cluster_names (c ∷ cs) name = ground (arith, contains-cluster_names cs name)

module _ {C P : Type 0} (client : Client C) (req : NamespacedName) (w : World C P) where
  abbrev cluster_answer : Result Cluster × C
  cluster_answer = client.get_cluster req w.api

  abbrev policy_answer : Result ClusterPropagationPolicy × C
  policy_answer = client.get_cluster_policy policy_key cluster_answer.1

  abbrev listed : Result (List Cluster) × C
  listed = client.list_clusters policy_answer.1

  -- What a run has done that found the policy, with these names in it.
  pub data Written (t : EventType) (policy : ClusterPropagationPolicy) (cs : List String)
      (name : String) : Exit (Unit {0}) × World C P → Type 0 where
    settled :
        {r : Exit (Unit {0}) × World C P}
        → contains cs name ≡ is_ensure t
        → names_after t cs name ≡ cs
        → r.0 ≡ done tt
        → r.1.log ≡ w.log
        → Written t policy cs name r
    updated :
        {r : Exit (Unit {0}) × World C P} (answer : Result ClusterPropagationPolicy)
        → contains cs name ≡ not (is_ensure t)
        → (with_clusters (names_after t cs name) policy).spec.cluster_affinity
          ≡ some (names_after t cs name)
        → r.0 ≡ exit_of answer
        → r.1.log
          ≡ cluster_policy_updated (with_clusters (names_after t cs name) policy) answer ∷ w.log
        → Written t policy cs name r

  reads :
      reconcile client req w
      ≡ reconcile_got client cluster_answer.0 (record w { api = cluster_answer.1 })
  unfolding reconcile
  reads = refl

  sync_reads :
      (name : String) (t : EventType)
      → sync_cluster_propagation_policy client name t (record w { api = cluster_answer.1 })
        ≡ sync_policy client policy_answer.0 name t (record w { api = policy_answer.1 })
  unfolding sync_cluster_propagation_policy
  sync_reads name t = refl

  changed_lem :
      (policy : ClusterPropagationPolicy) (ds : List String) (v : World C P)
      → let answer : Result ClusterPropagationPolicy =
          (client.update_cluster_policy (with_clusters ds policy) v.api).0 in
        ((update_clusters client policy (some ds) v).0 ≡ exit_of answer)
        × ((update_clusters client policy (some ds) v).1.log
            ≡ cluster_policy_updated (with_clusters ds policy) answer ∷ v.log)
  unfolding update_clusters
  changed_lem policy ds v =
      elim (Result-cases (client.update_cluster_policy (with_clusters ds policy) v.api).0) [
        | inl (a, e) ↦ (rw e refl, rw e refl)
        | inr (a, e) ↦ (rw e refl, rw e refl)
      ]

  steps :
      (policy : ClusterPropagationPolicy) (cs : List String) (name : String) (t : EventType)
      (v : World C P)
      → policy.spec.cluster_affinity ≡ some cs
      → sync_policy client (ok policy) name t v
        ≡ update_clusters client policy (next_clusters t cs name) v
  unfolding sync_policy
  steps policy cs name t v a =
      ap (λ o. (deref o >>= λ ds. update_clusters client policy (next_clusters t ds name)) v) a

  found_lem :
      (policy : ClusterPropagationPolicy) (cs : List String) (name : String) (t : EventType)
      (v : World C P)
      → v.log ≡ w.log
      → policy.spec.cluster_affinity ≡ some cs
      → Written t policy cs name (sync_policy client (ok policy) name t v)
  unfolding update_clusters
  found_lem policy cs name t v l a = elim (Option-cases (next_clusters t cs name)) [
    | inl e ↦
        let s = steps policy cs name t v a ∙ ap (λ o. update_clusters client policy o v) e in
        settled (next_clusters-none t cs name e) (rw (e, names_after)) (ap (λ r. r.0) s)
          (ap (λ r. r.1.log) s ∙ l)
    | inr (ds, e) ↦
        let s = steps policy cs name t v a ∙ ap (λ o. update_clusters client policy o v) e in
        let c = changed_lem policy ds v in
        let answer = (client.update_cluster_policy (with_clusters ds policy) v.api).0 in
        updated answer (next_clusters-some t cs name ds e) refl (ap (λ r. r.0) s ∙ c.0) (
          ap (λ r. r.1.log) s
          ∙ c.1
          ∙ ap (λ l. cluster_policy_updated (with_clusters ds policy) answer ∷ l) l
          ∙ ap (λ cs. cluster_policy_updated (with_clusters cs policy) answer ∷ w.log)
              (sym (names e)))
  ]
    where
      names : {ds : List String} → next_clusters t cs name ≡ some ds → names_after t cs name ≡ ds
      names e = rw (e, names_after)

  handled :
      (c : Cluster) (v : World C P)
      → reconcile_got client (ok c) v ≡ sync_cluster_propagation_policy client c.name (event_of c) v
  unfolding reconcile_got
  handled c v = elim (Bool-cases (is_zero c.deletion_timestamp)) [
    | inl e ↦ rw (e, event_of) refl
    | inr n ↦ rw (n, event_of) refl
  ]

  steps_to :
      (c : Cluster) (answer : Result ClusterPropagationPolicy)
      → cluster_answer.0 ≡ ok c
      → policy_answer.0 ≡ answer
      → reconcile client req w
        ≡ sync_policy client answer c.name (event_of c) (record w { api = policy_answer.1 })
  steps_to c answer hc hp =
      reads
      ∙ ap (λ r. reconcile_got client r (record w { api = cluster_answer.1 })) hc
      ∙ handled c (record w { api = cluster_answer.1 })
      ∙ sync_reads c.name (event_of c)
      ∙ ap (λ r. sync_policy client r c.name (event_of c) (record w { api = policy_answer.1 })) hp

  pub create_lem :
      (cs : List Cluster) (v : World C P)
      → (client.list_clusters v.api).0 ≡ ok cs
      → let policy = cluster_propagation_policy (cluster_names cs) in
        let answer = (client.create_cluster_policy policy (client.list_clusters v.api).1).0 in
        ((create_cluster_propagation_policy client v).0 ≡ exit_of answer)
        × ((create_cluster_propagation_policy client v).1.log
            ≡ cluster_policy_created policy answer ∷ v.log)
  unfolding create_cluster_propagation_policy
  create_lem cs v h =
      let policy = cluster_propagation_policy (cluster_names cs) in
      let c = (client.list_clusters v.api).1 in
      rw h (elim (Result-cases (client.create_cluster_policy policy c).0) [
        | inl (a, e) ↦ (rw e refl, rw e refl)
        | inr (a, e) ↦ (rw e refl, rw e refl)
      ])

  -- For a cluster that is found, and a policy that is found and has an affinity, a run either writes
  -- nothing, and then the names hold the cluster's if it is live, and do not if it is being deleted;
  -- or it writes the policy once, and then the names did not hold that of the live cluster, or did
  -- hold that of the cluster that is being deleted. It writes exactly the names that `names_after`
  -- gives for `ensure`, or for `remove` if the cluster is being deleted, and changes nothing else;
  -- it returns the error of that write.
  pub reconcile-Written :
      (c : Cluster) (policy : ClusterPropagationPolicy) (cs : List String)
      → cluster_answer.0 ≡ ok c
      → policy_answer.0 ≡ ok policy
      → policy.spec.cluster_affinity ≡ some cs
      → Written (event_of c) policy cs c.name (reconcile client req w)
  reconcile-Written c policy cs hc hp ha =
      subst (λ r. Written (event_of c) policy cs c.name r) (sym (steps_to c (ok policy) hc hp))
        (found_lem policy cs c.name (event_of c) (record w { api = policy_answer.1 }) refl ha)

  gone_reads :
      reconcile_got client (err not_found) (record w { api = cluster_answer.1 })
      ≡ sync_policy client policy_answer.0 "" remove (record w { api = policy_answer.1 })
  unfolding reconcile_got sync_cluster_propagation_policy
  gone_reads = refl

  -- A cluster that is gone (Get answers that it does not exist) has no effect on a policy whose
  -- names do not hold the empty name: nothing is written, though the name may be in the policy.
  pub gone_lem :
      (policy : ClusterPropagationPolicy) (cs : List String)
      → cluster_answer.0 ≡ err not_found
      → policy_answer.0 ≡ ok policy
      → policy.spec.cluster_affinity ≡ some cs
      → contains cs "" ≡ false
      → ((reconcile client req w).0 ≡ done tt) × ((reconcile client req w).1.log ≡ w.log)
  unfolding update_clusters
  gone_lem policy cs hc hp ha n =
      let v = record w { api = policy_answer.1 } in
      let s =
        reads
        ∙ ap (λ r. reconcile_got client r (record w { api = cluster_answer.1 })) hc
        ∙ gone_reads
        ∙ ap (λ r. sync_policy client r "" remove v) hp
        ∙ steps policy cs "" remove v ha
        ∙ ap (λ o. update_clusters client policy o v) (next_clusters_absent cs "" n) in
      (ap (λ r. r.0) s, ap (λ r. r.1.log) s)

  -- If there is no policy, a run for a cluster that is being deleted creates the policy with the
  -- names of all the listed clusters, that cluster's among them if it is listed still.
  pub created_lem :
      (c : Cluster) (cs : List Cluster)
      → cluster_answer.0 ≡ ok c
      → policy_answer.0 ≡ err not_found
      → listed.0 ≡ ok cs
      → let policy = cluster_propagation_policy (cluster_names cs) in
        let answer = (client.create_cluster_policy policy listed.1).0 in
        ((reconcile client req w).0 ≡ exit_of answer)
        × ((reconcile client req w).1.log ≡ cluster_policy_created policy answer ∷ w.log)
        × ((name : String) → contains (cluster_names cs) name ≡ any (λ c. str_eq c.name name) cs)
  unfolding sync_policy
  created_lem c cs hc hp hl =
      let s = steps_to c (err not_found) hc hp in
      let l = create_lem cs (record w { api = policy_answer.1 }) hl in
      (ap (λ r. r.0) s ∙ l.0, ap (λ r. r.1.log) s ∙ l.1, contains-cluster_names cs)
