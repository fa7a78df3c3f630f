-- ===== src/Tests/Pipes.antt =====
-- The theorems on the pipes of the client, the extensions of a container and the bag of layers, at
-- small inputs.
use eliot.Prelude.{
  codes, true, false, List, [], ◌∷◌, none, some, ok, ◌≡◌, ◌⊎◌, refl, sym, insert, lookup, bytes_beq,
}
use eliot.Api.Stream.{Response, message, read_ok, eof, pipe_stdout, pipe_stdin}
use eliot.Api.Client.Pipes.{
  Race, new_race, with_input, Steps, no_step, step_then, passes_input, ends_input,
}
use eliot.Api.Client.Pipes.Laws.{Steps-ended}
use eliot.Model.{PipeSet}
use eliot.Runtime.Containerd.Extensions.{
  Decoded, a_pipe, a_lifecycle, TypeUrl, Decodes, Extensions, with_pipe_extension,
  get_pipe_extension, with_lifecycle_extension, get_lifecycle_extension, increment_restart,
  pipe_set_extension_name, lifecycle_extension_name,
}
use eliot.Runtime.Containerd.Extensions.Laws.{increments, extensions-back}
use mathlib.Core.List.Perm
use eliot.Progress.Laws.{IsOrder}
use eliot.Progress.{Status, new_status, get_progress, all_done, add}
use eliot.Progress.Bag.{layers_of, sums_of, finish, added, layers_of-refines}
use eliot.Tests.Data.{fetch}

abbrev pipe : PipeSet
pipe = record { stdout = record { stdin = record { name = codes "logs" } } }

-- Values that are kept as they are.
abbrev plain : TypeUrl
plain = record { Any = Decoded; marshal_any = λ x. ok x; unmarshal_any = λ a. ok a }

plain-Decodes : Decodes plain
plain-Decodes = record { back = λ x a e. sym e }

abbrev created : Extensions plain
created =
    (lifecycle_extension_name, a_lifecycle (record { start_count = 0; restart_policy = 0 }))
    ∷ (pipe_set_extension_name, a_pipe pipe)
    ∷ []

extensions-back_example :
    (get_lifecycle_extension plain (
        (lifecycle_extension_name, a_lifecycle (record { start_count = 2; restart_policy = 0 }))
        ∷ (pipe_set_extension_name, a_pipe pipe)
        ∷ [])
      ≡ ok (record { start_count = 2; restart_policy = 0 }))
    × (get_pipe_extension plain (
          (lifecycle_extension_name, a_lifecycle (record { start_count = 2; restart_policy = 0 }))
          ∷ (pipe_set_extension_name, a_pipe pipe)
          ∷ [])
        ≡ ok (some pipe))
unfolding increments increment_restart with_lifecycle_extension with_pipe_extension insert bytes_beq
    lookup
extensions-back_example =
    extensions-back plain plain-Decodes 2 created
      ((lifecycle_extension_name, a_lifecycle (record { start_count = 2; restart_policy = 0 }))
        ∷ (pipe_set_extension_name, a_pipe pipe)
        ∷ [])
      pipe refl refl

abbrev out : Response
out = record { stderr = false; output = codes "hi" }

abbrev first : Race
first = new_race (message out ∷ []) (read_ok (codes "ls") ∷ eof ∷ []) true

-- The input goes through first, and its end is before that of the output.
abbrev sent : Race
sent = with_input (codes "ls") (eof ∷ []) first

abbrev last : Race
last = record sent { result = some true }

first-Steps : Steps first last
unfolding new_race with_input
first-Steps =
    step_then sent last
      (step_then first sent no_step (passes_input (codes "ls") (eof ∷ []) refl refl refl))
      (ends_input [] refl refl refl)

Steps-ended_example :
    (record { stdout = last.stdout; stderr = last.stderr; is_ok = true }
      ≡ pipe_stdout (message out ∷ []) [] [])
    ⊎ ((last.sent, true) ≡ pipe_stdin (read_ok (codes "ls") ∷ eof ∷ []))
unfolding with_input
Steps-ended_example =
    Steps-ended (message out ∷ []) (read_ok (codes "ls") ∷ eof ∷ []) true last first-Steps refl

abbrev same : List Status → List Status
same l = l

same-IsOrder : IsOrder same
same-IsOrder l = Perm.refl l

layers_of-refines_example :
    (get_progress same fetch ≡ sums_of (layers_of fetch))
    × ((layers_of (all_done fetch) ≡ finish (layers_of fetch))
        × (layers_of (add fetch (codes "b") (codes "e"))
            ≡ added none (new_status (codes "b") (codes "e")) (layers_of fetch)))
unfolding lookup bytes_beq
layers_of-refines_example = layers_of-refines same fetch (codes "b") (codes "e") same-IsOrder
