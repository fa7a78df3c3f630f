-- ===== src/Api/Mapping/RoundTrip.antt =====
-- pkg/api/mapping: from the internal model to the API and back.
use eliot.Prelude.{
  List, [], ◌∷◌, Option, some, none, Outcome, ok, crash, ◌>>=◌, map, false, true, Bool, ◌&&◌, ◌≡◌,
  refl, ap,
}
use eliot.Model.{Mount, PipeSet, Container, Pod}
use eliot.Api.Types.{ApiPipeSet, ApiContainer, ApiPod}
use eliot.Api.Mapping.{
  deref, map_mounts_to_internal_model, map_mounts_to_api_model, map_pipe_to_internal_model,
  map_pipe_to_api_model, container_to_internal, container_to_api, map_container_to_internal_model,
  map_containers_to_api_model, map_pod_to_internal_model, map_pod_to_api_model,
}

-- A container without its terminal flag.
pub without_tty : Container → Container
without_tty c = record c { tty = false }

-- A pod without terminal flags, restart policy and status.
pub request_part : Pod → Pod
unfolding without_tty
request_part p = record p {
  spec = record p.spec { containers = map without_tty p.spec.containers; restart_policy = [] };
  status = record { hostname = []; container_statuses = [] };
}

mounts_round_trip :
    (ms : List Mount) → map_mounts_to_internal_model (map_mounts_to_api_model ms) ≡ ms
unfolding map_mounts_to_internal_model map_mounts_to_api_model
mounts_round_trip [] = refl
mounts_round_trip (m ∷ ms) = ap (λ r. m ∷ r) (mounts_round_trip ms)

pipe_round_trip : (p : Option PipeSet) → map_pipe_to_internal_model (map_pipe_to_api_model p) ≡ ok p
unfolding map_pipe_to_internal_model map_pipe_to_api_model
pipe_round_trip none = refl
pipe_round_trip (some p) = refl

container_round_trip :
    (c : Container) → container_to_internal (container_to_api c) ≡ ok (without_tty c)
unfolding container_to_internal container_to_api without_tty
container_round_trip c =
    rw (pipe_round_trip c.pipe, container_to_internal) (rw (mounts_round_trip c.mounts))

containers_round_trip :
    (cs : List Container)
    → map_container_to_internal_model (map_containers_to_api_model cs) ≡ ok (map without_tty cs)
unfolding map_container_to_internal_model map_containers_to_api_model
containers_round_trip [] = refl
containers_round_trip (c ∷ cs) =
    rw (container_round_trip c, ◌>>=◌) (rw (containers_round_trip cs, ◌>>=◌))

-- A pod comes back from the API's model, but for the terminal flags, the restart policy and the
-- status, which are at their zero values.
pub map_pod_to_internal_model-map_pod_to_api_model :
    (p : Pod) → map_pod_to_internal_model (map_pod_to_api_model p) ≡ ok (request_part p)
unfolding map_pod_to_internal_model map_pod_to_api_model request_part
map_pod_to_internal_model-map_pod_to_api_model p =
    rw (containers_round_trip p.spec.containers, ◌>>=◌)

-- The pointer is not nil, and what it points to passes the test.
abbrev holds {ℓ} : {A : Type ℓ} → Option A → (A → Bool) → Bool
holds none test = false
holds (some a) test = test a

-- A pipe that is given names a target: no pointer on the way is nil.
pub pipe_is_whole : Option ApiPipeSet → Bool
pipe_is_whole none = true
pipe_is_whole (some p) = holds p.stdout (λ o. holds o.stdin (λ i. true))

pub pipes_are_whole : List ApiContainer → Bool
unfolding pipe_is_whole
pipes_are_whole [] = true
pipes_are_whole (c ∷ cs) = pipe_is_whole c.pipe && pipes_are_whole cs

-- The pod has metadata and a spec, and every pipe of its containers names a target.
unfoldable pub is_whole : ApiPod → Bool
unfolding pipes_are_whole
is_whole p = holds p.metadata (λ m. holds p.spec (λ s. pipes_are_whole s.containers))

-- The result is a value, or a crash.
abbrev pub OkOrCrash {ℓ} : {A : Type ℓ} → Bool → Outcome A → Type ℓ
OkOrCrash {A} true r = (a : A) × (r ≡ ok a)
OkOrCrash false r = r ≡ crash

module _ {A B : Type 0} where
  outcome-deref :
      (o : Option A) (test : A → Bool) (f : A → Outcome B)
      → ((a : A) → OkOrCrash (test a) (f a))
      → OkOrCrash (holds o test) (deref o >>= f)
  outcome-deref none test f h = refl
  outcome-deref (some a) test f h = h a

  outcome-bind :
      (b c : Bool) (m : Outcome A) (f : A → Outcome B)
      → OkOrCrash b m
      → ((a : A) → OkOrCrash c (f a))
      → OkOrCrash (b && c) (m >>= f)
  outcome-bind true c m f (a, e) h = rw (e, ◌>>=◌) (h a)
  outcome-bind false c m f e h = rw (e, ◌>>=◌)

  outcome-last :
      (b : Bool) (m : Outcome A) (f : A → B) → OkOrCrash b m → OkOrCrash b (m >>= λ a. ok (f a))
  outcome-last true m f (a, e) = (f a, rw (e, ◌>>=◌))
  outcome-last false m f e = rw (e, ◌>>=◌)

pipe_outcome : (p : Option ApiPipeSet) → OkOrCrash (pipe_is_whole p) (map_pipe_to_internal_model p)
unfolding pipe_is_whole map_pipe_to_internal_model
pipe_outcome none = (none, refl)
pipe_outcome (some p) = outcome-deref p.stdout _ _ λ o.
    outcome-deref o.stdin _ _
      λ i. (some (record { stdout = record { stdin = record { name = i.name } } }), refl)

container_outcome : (c : ApiContainer) → OkOrCrash (pipe_is_whole c.pipe) (container_to_internal c)
unfolding container_to_internal
container_outcome c =
    outcome-last (pipe_is_whole c.pipe) (map_pipe_to_internal_model c.pipe) _ (pipe_outcome c.pipe)

containers_outcome :
    (cs : List ApiContainer) → OkOrCrash (pipes_are_whole cs) (map_container_to_internal_model cs)
unfolding pipes_are_whole map_container_to_internal_model
containers_outcome [] = ([], refl)
containers_outcome (c ∷ cs) =
    outcome-bind (pipe_is_whole c.pipe) (pipes_are_whole cs) (container_to_internal c) _
      (container_outcome c)
      λ x.
        outcome-last (pipes_are_whole cs) (map_container_to_internal_model cs) _
          (containers_outcome cs)

-- A request is mapped if it is whole, and ends in a nil dereference if it is not: the mapping never
-- returns an error.
pub map_pod_to_internal_model_outcome :
    (p : ApiPod) → OkOrCrash (is_whole p) (map_pod_to_internal_model p)
unfolding is_whole map_pod_to_internal_model
map_pod_to_internal_model_outcome p = outcome-deref p.metadata _ _ λ m.
    outcome-deref p.spec _ _ λ s.
      outcome-last (pipes_are_whole s.containers) (map_container_to_internal_model s.containers) _
        (containers_outcome s.containers)
