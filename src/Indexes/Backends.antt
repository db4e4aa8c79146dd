-- ===== src/Indexes/Backends.antt =====
-- The backends that the code collects are those of the ingress.
use multicluster_cloud_provi.Prelude.{
  ◌≡◌, refl, ap, ◌∙◌, ◌↔◌, inl, inr, Option, none, some, List, [], ◌∷◌, ◌++◌, items, In, In-append,
  In-append_left, In-append_right, Option-cases,
}
use multicluster_cloud_provi.Api.{MultiClusterIngress, IngressBackend, IngressRule, HttpIngressPath}
use multicluster_cloud_provi.Indexes.{path_backends, rule_backends, default_backends, backends}

-- The backends of an ingress: the default one, and those of the paths of its rules.
pub data BackendOf (mci : MultiClusterIngress) (b : IngressBackend) : Type 0 where
  default : mci.spec.default_backend ≡ some b → BackendOf mci b
  path :
      (r : IngressRule) (ps : List HttpIngressPath) (p : HttpIngressPath)
      → In r (items mci.spec.rules)
      → r.http ≡ some ps
      → In p ps
      → p.backend ≡ b
      → BackendOf mci b

RulePath : List IngressRule → IngressBackend → Type 0
RulePath rs b =
    (r : IngressRule) × (ps : List HttpIngressPath) × (p : HttpIngressPath) × In r rs
    × (r.http ≡ some ps)
    × In p ps
    × (p.backend ≡ b)

In-path_backends :
    (b : IngressBackend) (ps : List HttpIngressPath)
    → In b (path_backends ps)
    → (p : HttpIngressPath) × In p ps × (p.backend ≡ b)
unfolding path_backends
In-path_backends b [] h = elim h [ ]
In-path_backends b (p ∷ ps) (inl e) = (p, inl refl, e)
In-path_backends b (p ∷ ps) (inr h) = let (q, i, e) = In-path_backends b ps h in (q, inr i, e)

path_backends-In :
    (p : HttpIngressPath) (ps : List HttpIngressPath) → In p ps → In p.backend (path_backends ps)
unfolding path_backends
path_backends-In p [] h = elim h [ ]
path_backends-In p (q ∷ ps) (inl e) = inl (ap (λ (x : HttpIngressPath). x.backend) e)
path_backends-In p (q ∷ ps) (inr h) = inr (path_backends-In p ps h)

skip :
    (r : IngressRule) (rs : List IngressRule) (b : IngressBackend)
    → RulePath rs b
    → RulePath (r ∷ rs) b
unfolding RulePath
skip r rs b (q, ps, p, i, h, j, e) = (q, ps, p, inr i, h, j, e)

In-rule_backends :
    (b : IngressBackend) (rs : List IngressRule) → In b (rule_backends rs) → RulePath rs b
unfolding rule_backends RulePath
In-rule_backends b [] h = elim h [ ]
In-rule_backends b (r ∷ rs) h = elim (Option-cases r.http) [
  | inl e ↦ skip r rs b (In-rule_backends b rs (rw (e, rule_backends) at h))
  | inr (ps, e) ↦
      elim (In-append b (path_backends ps) (rule_backends rs) (rw (e, rule_backends) at h)) [
        | inl i ↦ let (p, j, q) = In-path_backends b ps i in (r, ps, p, inl refl, e, j, q)
        | inr i ↦ skip r rs b (In-rule_backends b rs i)
      ]
]

rule_backends-In :
    (r : IngressRule) (ps : List HttpIngressPath) (p : HttpIngressPath) (rs : List IngressRule)
    → In r rs
    → r.http ≡ some ps
    → In p ps
    → In p.backend (rule_backends rs)
unfolding rule_backends
rule_backends-In r ps p [] i h j = elim i [ ]
rule_backends-In r ps p (q ∷ rs) (inl e) h j =
    rw (ap (λ (x : IngressRule). x.http) e ∙ h)
      (In-append_left p.backend (path_backends ps) (rule_backends rs) (path_backends-In p ps j))
rule_backends-In r ps p (q ∷ rs) (inr i) h j = elim (Option-cases q.http) [
  | inl e ↦ rw e (rule_backends-In r ps p rs i h j)
  | inr (qs, e) ↦ rw e (
      In-append_right p.backend (path_backends qs) (rule_backends rs)
        (rule_backends-In r ps p rs i h j))
]

In-default_backends :
    (b : IngressBackend) (o : Option IngressBackend) → In b (default_backends o) ↔ (o ≡ some b)
unfolding default_backends
In-default_backends b none = (λ h. elim h [ ], λ e. cc)
In-default_backends b (some d) =
    (λ h. elim h [ inl e ↦ ap some e | inr i ↦ elim i [ ] ], λ e. inl (cc))

pub In-backends :
    (mci : MultiClusterIngress) (b : IngressBackend) → In b (backends mci) ↔ BackendOf mci b
unfolding backends RulePath
In-backends mci b = (to, from)
  where
    rules : List IngressRule
    rules = items mci.spec.rules

    to : In b (backends mci) → BackendOf mci b
    to h = elim (In-append b (default_backends mci.spec.default_backend) (rule_backends rules) h) [
      | inl i ↦ default ((In-default_backends b mci.spec.default_backend).0 i)
      | inr i ↦ let (r, ps, p, j, e, k, q) = In-rule_backends b rules i in path r ps p j e k q
    ]

    from : BackendOf mci b → In b (backends mci)
    from (default e) =
        In-append_left b (default_backends mci.spec.default_backend) (rule_backends rules)
          ((In-default_backends b mci.spec.default_backend).1 e)
    from (path r ps p j e k q) =
        In-append_right b (default_backends mci.spec.default_backend) (rule_backends rules)
          (rw q at (rule_backends-In r ps p rules j e k))

pub same_backends :
    (a b : MultiClusterIngress)
    → a.spec.default_backend ≡ b.spec.default_backend
    → a.spec.rules ≡ b.spec.rules
    → backends a ≡ backends b
unfolding backends
same_backends a b d r =
    ap (λ o. default_backends o ++ rule_backends (items a.spec.rules)) d
    ∙ ap (λ rs. default_backends b.spec.default_backend ++ rule_backends (items rs)) r
