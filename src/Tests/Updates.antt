-- ===== src/Tests/Updates.antt =====
-- The theorems on the progress that Create streams, at one order of its steps.
use eliot.Prelude.{codes, false, List, [], ◌∷◌, ◌++◌, none, ◌≡◌, refl, All}
use eliot.Model.{Container}
use eliot.Progress.{Status}
use eliot.Progress.Laws.{op_add, op_all_done}
use eliot.Api.Mapping.Progress.{map_image_fetch_progress_to_api_model}
use eliot.Api.Server.Updates.{
  Event, next, method, close_done, tick, last, steps, step, new_updates, asked, told, IsPrefix,
  steps-prefix, steps-last,
}

abbrev same : List Status → List Status
same l = l

abbrev web : Container
web = record {
  name = codes "web";
  image = codes "nginx";
  tty = false;
  args = [];
  env = [];
  working_dir = [];
  mounts = [];
  pipe = none;
}

abbrev containers : List Container
containers = web ∷ record web { name = codes "db"; image = codes "redis" } ∷ []

-- An update runs between the two containers.
abbrev events : List Event
events =
    next
    ∷ method 0 (op_add (codes "layer-1") (codes "sha256:1"))
    ∷ tick
    ∷ method 0 op_all_done
    ∷ next
    ∷ close_done
    ∷ []

steps-prefix_example :
    All
      (λ m. IsPrefix (told m) (asked containers))
      (steps same events (new_updates containers)).sent
steps-prefix_example = steps-prefix same containers events

steps-last_example :
    (let s = steps same events (new_updates containers) in
      let message = map_image_fetch_progress_to_api_model same s.progresses in
      ((steps same (last ∷ tick ∷ []) s).sent ≡ s.sent ++ message ∷ [])
      × (told message ≡ asked containers))
unfolding steps step new_updates
steps-last_example = steps-last same containers events (tick ∷ []) refl refl refl
