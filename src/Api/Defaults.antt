-- ===== src/Api/Defaults.antt =====
-- pkg/api/services/{pods,containers}/v1/defaults.go, and UnmarshalYaml of unmarshal.go.
use eliot.Prelude.{
  Bytes, List, [], ◌∷◌, some, none, if◌then◌else◌, bytes_beq, Outcome, ok, crash, ◌>>=◌, traverse,
  ◌≡◌, refl, arith,
}
use eliot.Model.{default_namespace}
use eliot.Utils.Yaml.{documents}
use eliot.Api.Types.{ApiPod, ApiPodSpec, ApiContainer, ResourceMetadata}

-- containers.Default
unfoldable pub default_container : ApiContainer → ApiContainer
default_container container = container

-- containers.Defaults
unfoldable pub default_containers : List ApiContainer → List ApiContainer
unfolding default_container
default_containers [] = []
default_containers (c ∷ cs) = default_container c ∷ default_containers cs

unfoldable pub with_namespace : ResourceMetadata → ResourceMetadata
with_namespace m =
    if bytes_beq m.namespace [] then record m { namespace = default_namespace } else m

-- pods.Default; crash: a nil dereference.
unfoldable pub default_pod : ApiPod → Outcome ApiPod
unfolding with_namespace default_containers
default_pod pod = elim pod.metadata [
  | none ↦ crash
  | some m ↦ elim pod.spec [
    | none ↦ crash
    | some s ↦ ok (record pod {
      metadata = some (with_namespace m);
      spec = some (record s { containers = default_containers s.containers });
    })
  ]
]

-- pods.Defaults
unfoldable pub default_pods : List ApiPod → Outcome (List ApiPod)
unfolding default_pod traverse
default_pods = traverse default_pod

-- The YAML decoder of one document; it is not under pkg.
module _ (unmarshal : Bytes → Outcome ApiPod) where
  -- UnmarshalYaml
  unfoldable pub unmarshal_yaml : Bytes → Outcome (List ApiPod)
  unfolding traverse
  unmarshal_yaml text = elim (documents text) [
    | none ↦ crash
    | some ds ↦ (do pods ← traverse unmarshal ds; default_pods pods)
  ]

-- UnmarshalListYaml and UnmarshalListJSON, with the decoder of a list of pods
unfoldable pub unmarshal_list : (Bytes → Outcome (List ApiPod)) → Bytes → Outcome (List ApiPod)
unfolding default_pods
unmarshal_list unmarshal text = do target ← unmarshal text; default_pods target

default_containers_self : (cs : List ApiContainer) → default_containers cs ≡ cs
unfolding default_containers
default_containers_self [] = refl
default_containers_self (c ∷ cs) = rw (default_containers_self cs)

-- A pod with metadata and a spec gets the namespace eliot if it has none, and is otherwise kept.
pub default_pod_keeps :
    (m : ResourceMetadata) (s : ApiPodSpec) (pod : ApiPod)
    → pod.metadata ≡ some m
    → pod.spec ≡ some s
    → default_pod pod
      ≡ ok (record pod {
        metadata = some (record m {
          namespace = if bytes_beq m.namespace [] then default_namespace else m.namespace;
        });
      })
unfolding default_pod
default_pod_keeps m s pod h k = ground (arith, default_containers_self s.containers)
