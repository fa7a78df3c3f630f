-- ===== src/Runtime/Containerd/Extensions.antt =====
-- pkg/runtime/containerd/extensions: the data that a container of containerd carries in encoded form.
-- Package typeurl, which encodes and decodes it, is a parameter.
pub mod Laws
use eliot.Prelude.{
  ℕ, ◌+◌, ◌%◌, ◌^◌, Bytes, codes, List, [], Option, none, some, Outcome, ok, err, not_found,
  failure, Dict, insert, lookup, ◌≡◌, ◌>>=◌,
}
use eliot.Model.{PipeSet}
use eliot.Runtime.Containerd.Containers.{ContainerLifecycle}

-- What typeurl.UnmarshalAny gives: a value of one of the registered types.
pub data Decoded : Type 0 where
  a_pipe : PipeSet → Decoded
  a_lifecycle : ContainerLifecycle → Decoded
  another : Decoded

pub record TypeUrl : Type 1 where
  pub Any : Type 0
  pub marshal_any : Decoded → Outcome Any
  pub unmarshal_any : Any → Outcome Decoded

-- A value that was encoded is decoded.
pub record Decodes (t : TypeUrl) : Type 0 where
  pub back : (x : Decoded) (a : t.Any) → t.marshal_any x ≡ ok a → t.unmarshal_any a ≡ ok x

unfoldable pub pipe_set_extension_name : Bytes
pipe_set_extension_name = codes "eliot.io.pipeset"

unfoldable pub lifecycle_extension_name : Bytes
lifecycle_extension_name = codes "eliot.io.lifecycle"

module _ (t : TypeUrl) where
  -- Extensions of containers.Container; a nil map is made when it is written.
  abbrev pub Extensions : Type 0
  Extensions = Dict t.Any

  unfoldable pub with_pipe_extension : PipeSet → Extensions → Outcome Extensions
  unfolding pipe_set_extension_name
  with_pipe_extension pipe extensions = do
    any ← t.marshal_any (a_pipe pipe)
    ok (insert pipe_set_extension_name any extensions)

  abbrev pipe_of : Decoded → Outcome (Option PipeSet)
  pipe_of (a_pipe pipe) = ok (some pipe)
  pipe_of (a_lifecycle l) = err (failure (codes "Failed to decode PipeSet"))
  pipe_of another = err (failure (codes "Failed to decode PipeSet"))

  abbrev pipe_in : Option t.Any → Outcome (Option PipeSet)
  pipe_in none = ok none
  pipe_in (some extension) = do decoded ← t.unmarshal_any extension; pipe_of decoded

  unfoldable pub get_pipe_extension : Extensions → Outcome (Option PipeSet)
  unfolding pipe_set_extension_name
  get_pipe_extension extensions = pipe_in (lookup pipe_set_extension_name extensions)

  unfoldable pub update_lifecycle_extension : ContainerLifecycle → Extensions → Outcome Extensions
  unfolding lifecycle_extension_name
  update_lifecycle_extension lifecycle extensions = do
    any ← t.marshal_any (a_lifecycle lifecycle)
    ok (insert lifecycle_extension_name any extensions)

  unfoldable pub with_lifecycle_extension : Extensions → Outcome Extensions
  unfolding update_lifecycle_extension
  with_lifecycle_extension extensions =
      update_lifecycle_extension (record { start_count = 0; restart_policy = 0 }) extensions

  abbrev lifecycle_of : Decoded → Outcome ContainerLifecycle
  lifecycle_of (a_lifecycle l) = ok l
  lifecycle_of (a_pipe pipe) = err (failure (codes "Failed to decode ContainerLifecycle"))
  lifecycle_of another = err (failure (codes "Failed to decode ContainerLifecycle"))

  abbrev lifecycle_in : Option t.Any → Outcome ContainerLifecycle
  lifecycle_in none = err not_found
  lifecycle_in (some extension) = do decoded ← t.unmarshal_any extension; lifecycle_of decoded

  unfoldable pub get_lifecycle_extension : Extensions → Outcome ContainerLifecycle
  unfolding lifecycle_extension_name
  get_lifecycle_extension extensions = lifecycle_in (lookup lifecycle_extension_name extensions)

  unfoldable pub increment_restart : Extensions → Outcome Extensions
  unfolding get_lifecycle_extension update_lifecycle_extension
  increment_restart extensions = do
    lifecycle ← get_lifecycle_extension extensions
    update_lifecycle_extension
        (record lifecycle { start_count = (lifecycle.start_count + 1) % 2 ^ 64 }) extensions
