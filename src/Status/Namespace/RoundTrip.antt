-- ===== src/Status/Namespace/RoundTrip.antt =====
-- What is set is read back.
use netobserv_operator.Base.{
  ◌≡◌, ◌≢◌, refl, sym, ap, ◌∙◌, subst, Option, none, some, List, [], ◌∷◌, Text, text, text_eq,
  load-store_self, load-store_ne, Text-discrete, to_lower, to_lower_byte, Result, ok, err, arith,
  if◌then◌else◌, inl, inr, ◌⊎◌,
}
use netobserv_operator.Kube.{Object, Client, key_of, ApiError, not_found, forbidden, other_error}
use netobserv_operator.Kube.Lawful.{Alike, IsLawful}
use netobserv_operator.Status.Component.{
  loki_stack, demo_loki, network_policy, static_controller, monitoring, flp_transformer,
  flp_monolith, flp_informers, flp_parent, web_console, ebpf_agents, flow_collector_controller,
  ComponentName, component_text,
}
use netobserv_operator.Status.Namespace.{
  annotation, get_deployed_namespace, collector_key, with_namespace, attempt_with, attempt, Retry,
  set_deployed_namespace,
}

abbrev all_components : List ComponentName
all_components =
    flow_collector_controller ∷ ebpf_agents ∷ web_console ∷ flp_parent ∷ flp_informers
    ∷ flp_monolith ∷ flp_transformer ∷ monitoring ∷ static_controller ∷ network_policy ∷ demo_loki
    ∷ loki_stack ∷ []

first_named : Text → List ComponentName → Option ComponentName
first_named t [] = none
first_named t (c ∷ cs) =
    let rest = first_named t cs in if text_eq (annotation c) t then some c else rest

first_named-annotation : (c : ComponentName) → first_named (annotation c) all_components ≡ some c
unfolding first_named annotation text text_eq to_lower to_lower_byte component_text
first_named-annotation flow_collector_controller = refl
first_named-annotation ebpf_agents = refl
first_named-annotation web_console = refl
first_named-annotation flp_parent = refl
first_named-annotation flp_informers = refl
first_named-annotation flp_monolith = refl
first_named-annotation flp_transformer = refl
first_named-annotation monitoring = refl
first_named-annotation static_controller = refl
first_named-annotation network_policy = refl
first_named-annotation demo_loki = refl
first_named-annotation loki_stack = refl

-- No two components share an annotation.
annotation-injective : (c d : ComponentName) → annotation c ≡ annotation d → c ≡ d
annotation-injective c d h =
    let same : some c ≡ some d =
      sym (first_named-annotation c)
      ∙ ap (λ t. first_named t all_components) h
      ∙ first_named-annotation d in
    ground (arith, same)

get_deployed_namespace-with_namespace_self :
    (c : ComponentName) (ns : Text) (fc : Object Text)
    → get_deployed_namespace c (with_namespace c ns fc) ≡ ns
unfolding get_deployed_namespace with_namespace
get_deployed_namespace-with_namespace_self c ns fc =
    rw (load-store_self Text-discrete (annotation c) ns fc.metadata.annotations) refl

get_deployed_namespace-with_namespace_ne :
    (c d : ComponentName) (ns : Text) (fc : Object Text)
    → c ≢ d
    → get_deployed_namespace d (with_namespace c ns fc) ≡ get_deployed_namespace d fc
unfolding get_deployed_namespace with_namespace
get_deployed_namespace-with_namespace_ne c d ns fc h =
    rw
      (load-store_ne Text-discrete (annotation d) (annotation c) ns fc.metadata.annotations
        (λ e. h (annotation-injective c d e)))
      refl

get_deployed_namespace-Alike :
    (d : ComponentName) (o p : Object Text)
    → Alike o p
    → get_deployed_namespace d o ≡ get_deployed_namespace d p
unfolding get_deployed_namespace
get_deployed_namespace-Alike d o p a = rw (a.annotations, a.content) refl

key_of-with_namespace :
    (c : ComponentName) (ns : Text) (fc : Object Text) → key_of (with_namespace c ns fc) ≡ key_of fc
unfolding with_namespace
key_of-with_namespace c ns fc = refl

module _ (client : Client Text) where
  -- The collector has in `s` the namespace for the component, and for the others what it had in `t`.
  pub record HasNamespace (c : ComponentName) (ns : Text) (t s : client.State) : Type 0 where
    pub before : Object Text
    pub get_before : client.get collector_key t ≡ ok before
    pub after : Object Text
    pub get_after : client.get collector_key s ≡ ok after
    pub own : get_deployed_namespace c after ≡ ns
    pub others :
        (d : ComponentName)
        → c ≢ d
        → get_deployed_namespace d after ≡ get_deployed_namespace d before

  -- The last attempt decides what is returned: it is made in some state `t`.
  abbrev pub Retries : Retry client → Type 0
  Retries retry =
      (f : client.State → Option ApiError × client.State) (s : client.State)
      → (t : client.State) × (retry f s ≡ f t)

  module _ (lawful : IsLawful client) where
    attempt_with-IsSet :
        (c : ComponentName) (ns : Text) (a : Result ApiError (Object Text)) (t : client.State)
        → client.get collector_key t ≡ a
        → (attempt_with client c ns a t).0 ≡ none
        → (client.get collector_key (attempt_with client c ns a t).1 ≡ err not_found)
          ⊎ HasNamespace c ns t (attempt_with client c ns a t).1
    unfolding attempt_with
    attempt_with-IsSet c ns (err not_found) t got h = inl got
    attempt_with-IsSet c ns (err forbidden) t got h = absurd (ground (arith, h))
    attempt_with-IsSet c ns (err (other_error e)) t got h = absurd (ground (arith, h))
    attempt_with-IsSet c ns (ok fc) t got h =
        let (p, get, alike) = lawful.get-update (with_namespace c ns fc) t h in
        inr (record {
          before = fc;
          get_before = got;
          after = p;
          get_after =
              subst (λ k. client.get k (client.update (with_namespace c ns fc) t).1 ≡ ok p)
                (key_of-with_namespace c ns fc ∙ lawful.key_of-get collector_key t fc got) get;
          own =
              get_deployed_namespace-Alike c p (with_namespace c ns fc) alike
              ∙ get_deployed_namespace-with_namespace_self c ns fc;
          others = λ d ne.
              get_deployed_namespace-Alike d p (with_namespace c ns fc) alike
              ∙ get_deployed_namespace-with_namespace_ne c d ns fc ne;
        })

    -- If SetDeployedNamespace returns no error, then the collector is gone, or GetDeployedNamespace of
    -- the collector on the server gives that namespace for the component, and for every other component
    -- what it gave for the collector that was on the server before the last attempt. The client reads from
    -- the API server and behaves as documented, and the retry returns what its last attempt returns.
    pub get_deployed_namespace-set_deployed_namespace :
        (retry : Retry client) (c : ComponentName) (ns : Text) (s s' : client.State)
        (retries : Retries retry)
        → set_deployed_namespace client retry c ns s ≡ (none, s')
        → (client.get collector_key s' ≡ err not_found)
          ⊎ HasNamespace c ns (retries (attempt client c ns) s).0 s'
    unfolding set_deployed_namespace attempt
    get_deployed_namespace-set_deployed_namespace retry c ns s s' retries h =
        let (t, last) = retries (attempt client c ns) s in
        let result : attempt client c ns t ≡ (none, s') = sym last ∙ h in
        subst (λ x. (client.get collector_key x ≡ err not_found) ⊎ HasNamespace c ns t x)
          (ap (λ r. r.1) result)
          (attempt_with-IsSet c ns (client.get collector_key t) t refl (ap (λ r. r.0) result))
