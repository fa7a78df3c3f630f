-- ===== src/Resolve/Laws.antt =====
-- BuildPod of pkg/resolve/pods.go: the containers of the pod.
use eliot.Prelude.{
  ℕ, zero, suc, ◌+◌, Bytes, false, List, [], ◌∷◌, ◌++◌, Option, none, some, if◌then◌else◌, Outcome,
  ok, err, crash, ◌>>=◌, Dict, lookup, insert, lookup-insert, decimal, bytes_beq, eq_iff, ◌==◌,
  nat_eq, bytes_eq, All, inl, inr, Bool-cases, arith, ◌≡◌, refl, sym, ap, ◌∙◌,
}
use eliot.Utils.Fqin.{resolve_fqin, print_fqin, expand_to_fqin}
use eliot.Utils.Fqin.Laws.{get_fqin-expand_to_fqin}
use eliot.Model.{default_namespace}
use eliot.Api.Types.{ResourceMetadata, ApiContainer, ApiPod}
use eliot.Api.Defaults.{default_pod, with_namespace, default_pod_keeps}
use eliot.Resolve.{or_crash, image_container, container_name, build_containers, build_pod}

-- How often the name is in the list.
abbrev pub occurs : Bytes → List Bytes → ℕ
occurs b [] = 0
occurs b (x ∷ xs) = let n = occurs b xs in if x == b then n + 1 else n

-- The user and the short name of the image.
abbrev pub base_name : Bytes → Bytes
base_name image = (resolve_fqin image).username ++ (b'-' ∷ (resolve_fqin image).image)

abbrev pub numbered : ℕ → Bytes → Bytes
numbered zero base = base
numbered (suc n) base = base ++ (b'-' ∷ decimal (suc n))

-- The containers of the images: the image in full, under its base name, with the number of the
-- images before it that have the same base name, if there are any.
abbrev pub containers_of : List Bytes → List Bytes → List ApiContainer
containers_of earlier [] = []
containers_of earlier (i ∷ is) =
    image_container (numbered (occurs (base_name i) earlier) (base_name i))
      (print_fqin (resolve_fqin i))
    ∷ containers_of (base_name i ∷ earlier) is

counted : ℕ → Option ℕ
counted zero = none
counted (suc n) = some (suc n)

-- The map holds how often a name was met.
record Counts (names : Dict ℕ) (earlier : List Bytes) : Type 0 where
  count : (b : Bytes) → lookup b names ≡ counted (occurs b earlier)

Counts-insert :
    (names : Dict ℕ) (earlier : List Bytes) (b : Bytes) (n : ℕ)
    → Counts names earlier
    → n ≡ occurs b earlier
    → Counts (insert b (n + 1) names) (b ∷ earlier)
unfolding counted
Counts-insert names earlier b n h e = record {
  count = λ c. elim (Bool-cases (bytes_beq b c)) [
    | inl t ↦
        rw (lookup-insert b c (n + 1) names, t)
          (counted_suc n
            ∙ ap (λ m. counted (m + 1)) (e ∙ ap (λ x. occurs x earlier) ((eq_iff b c).0 t)))
    | inr t ↦ rw (lookup-insert b c (n + 1) names, t) (h.count c)
  ];
}
  where
    counted_suc : (n : ℕ) → some (n + 1) ≡ counted (n + 1)
    counted_suc n = let e : n + 1 ≡ suc n = omega arith in ap some e ∙ ap counted (sym e)

container_name_at :
    (names : Dict ℕ) (earlier : List Bytes) (b : Bytes) (n : ℕ)
    → Counts names earlier
    → n ≡ occurs b earlier
    → lookup b names ≡ counted n
    → ((container_name names b).0 ≡ numbered n b) × Counts (container_name names b).1 (b ∷ earlier)
unfolding container_name counted
container_name_at names earlier b zero h e f =
    rw (container_name, f) (refl, Counts-insert names earlier b 0 h e)
container_name_at names earlier b (suc n) h e f =
    rw (container_name, f) (refl, Counts-insert names earlier b (suc n) h e)

container_name_lem :
    (names : Dict ℕ) (earlier : List Bytes) (b : Bytes)
    → Counts names earlier
    → ((container_name names b).0 ≡ numbered (occurs b earlier) b)
      × Counts (container_name names b).1 (b ∷ earlier)
container_name_lem names earlier b h =
    container_name_at names earlier b (occurs b earlier) h refl (h.count b)

expand_to_fqin-some :
    (i : Bytes) → bytes_beq i [] ≡ false → expand_to_fqin i ≡ some (print_fqin (resolve_fqin i))
unfolding expand_to_fqin
expand_to_fqin-some i h = rw h refl

build_containers_lem :
    (images : List Bytes) (names : Dict ℕ) (earlier : List Bytes)
    → Counts names earlier
    → All (λ i. bytes_beq i [] ≡ false) images
    → build_containers names images ≡ ok (containers_of earlier images)
unfolding build_containers or_crash
build_containers_lem [] names earlier h n = refl
build_containers_lem (i ∷ is) names earlier h (n, ns) =
    let e = expand_to_fqin-some i n in
    let parts = get_fqin-expand_to_fqin i (print_fqin (resolve_fqin i)) e in
    let (name, counts) = container_name_lem names earlier (base_name i) h in
    rw
      (
        build_containers,
        e,
        parts.0,
        parts.1,
        name,
        build_containers_lem is (container_name names (base_name i)).1 (base_name i ∷ earlier)
            counts ns,
      )
      refl

none_met : Counts [] []
unfolding lookup counted
none_met = record { count = λ b. refl }

-- The pod of some images, none of them empty, has one container for each, in order: with the image in
-- full, and named after the user and the image, with a number where images before it have the same
-- user and image.
pub build_pod-containers_of :
    (name : Bytes) (images : List Bytes)
    → All (λ i. bytes_beq i [] ≡ false) images
    → build_pod name images
      ≡ ok (record {
        metadata = some (record { name = name; namespace = default_namespace });
        spec = some (record {
          containers = containers_of [] images;
          host_network = false;
          host_pid = false;
          restart_policy = [];
        });
        status = none;
      })
unfolding build_pod bytes_beq
build_pod-containers_of name images h =
    rw (build_containers_lem images [] [] none_met h) (default_pod_keeps _ _ _ refl refl)

defaulted :
    (r : Outcome (List ApiContainer)) (name : Bytes) (pod : ApiPod)
    → (r >>= λ containers. default_pod (record {
      metadata = some (record { name = name; namespace = [] });
      spec = some (record {
        containers = containers;
        host_network = false;
        host_pid = false;
        restart_policy = [];
      });
      status = none;
    }))
      ≡ ok pod
    → pod.metadata ≡ some (record { name = name; namespace = default_namespace })
unfolding default_pod with_namespace bytes_beq
defaulted (ok cs) name pod h = sym (ap metadata_of h)
  where
    metadata_of : Outcome ApiPod → Option ResourceMetadata
    metadata_of (ok p) = p.metadata
    metadata_of (err e) = none
    metadata_of crash = none
defaulted (err e) name pod h = cc
defaulted crash name pod h = cc

pub build_pod-metadata :
    (name : Bytes) (images : List Bytes) (pod : ApiPod)
    → build_pod name images ≡ ok pod
    → pod.metadata ≡ some (record { name = name; namespace = default_namespace })
unfolding build_pod
build_pod-metadata name images pod h = defaulted (build_containers [] images) name pod h
