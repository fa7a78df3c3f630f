-- ===== src/Runtime/Containerd/Tasks/Created.antt =====
-- pkg/runtime/containerd.go: what CreateContainer changes, and what is read back from the container.
use eliot.Prelude.{
  Bytes, codes, Bool, true, false, ◌||◌, List, [], ◌∷◌, ◌++◌, Option, none, some, if◌then◌else◌,
  Outcome, ok, err, crash, ◌≡◌, refl, sym, ap, ◌∙◌, append-nil,
}
use eliot.Model.{Mount, PipeSet, Container, Pod}
use eliot.Runtime.Containerd.Env.{with_env}
use eliot.Runtime.Containerd.Containers.{
  Spec, get_spec, map_pipe, with_lifecycle_extension, map_container_to_internal_model,
  get_pod_name-new_labels,
}
use eliot.Runtime.Containerd.Tasks.Creation.{
  SpecOpts, Oci, with_cwd, with_env_opt, with_mounts, apply_all, if_any, spec_opts, new_spec,
  pipe_name, container_info_of,
}

-- WithTTY gives the process a terminal of this kind.
abbrev term : List Bytes
term = codes "TERM=xterm" ∷ []

-- What the options WithProcessArgs and WithTTY of package oci do.
pub record Documented (oci : Oci) : Type 0 where
  pub args : (a : List Bytes) (s : Spec) → oci.with_process_args a s ≡ ok (record s { args = a })
  pub tty : (s : Spec) → oci.with_tty s ≡ ok (record s { terminal = true; env = s.env ++ term })

abbrev or_else : List Bytes → List Bytes → List Bytes
or_else [] ys = ys
or_else (x ∷ xs) ys = x ∷ xs

abbrev or_text : Bytes → Bytes → Bytes
or_text [] d = d
or_text (x ∷ xs) d = x ∷ xs

-- The environment of a process with a terminal or without.
abbrev pub terminal_env : Bool → List Bytes → List Bytes
terminal_env false env = env
terminal_env true env = env ++ term

-- The spec of the image with what the container says.
abbrev pub spec_with : Container → Spec → Spec
spec_with c s = record s {
  terminal = c.tty || s.terminal;
  args = or_else c.args s.args;
  env = with_env c.env (terminal_env c.tty s.env);
  cwd = or_text c.working_dir s.cwd;
  mounts = s.mounts ++ c.mounts;
}

module _ (oci : Oci) (h : Documented oci) where
  args_step :
      (a : List Bytes) (rest : List SpecOpts) (s : Spec)
      → apply_all (if_any a (oci.with_process_args a ∷ []) ++ rest) s
        ≡ apply_all rest (record s { args = or_else a s.args })
  unfolding apply_all if_any
  args_step [] rest s = refl
  args_step (x ∷ xs) rest s = rw (h.args (x ∷ xs) s) refl

  tty_step :
      (b : Bool) (rest : List SpecOpts) (s : Spec)
      → apply_all ((if b then oci.with_tty ∷ [] else []) ++ rest) s
        ≡ apply_all rest (record s { terminal = b || s.terminal; env = terminal_env b s.env })
  unfolding apply_all
  tty_step false rest s = refl
  tty_step true rest s = rw (h.tty s) refl

cwd_step :
    (cwd : Bytes) (rest : List SpecOpts) (s : Spec)
    → apply_all (if_any cwd (with_cwd cwd ∷ []) ++ rest) s
      ≡ apply_all rest (record s { cwd = or_text cwd s.cwd })
unfolding apply_all if_any with_cwd
cwd_step [] rest s = refl
cwd_step (x ∷ xs) rest s = refl

env_step :
    (env : List Bytes) (rest : List SpecOpts) (s : Spec)
    → apply_all (if_any env (with_env_opt env ∷ []) ++ rest) s
      ≡ apply_all rest (record s { env = with_env env s.env })
unfolding apply_all if_any with_env_opt with_env
env_step [] rest s = refl
env_step (x ∷ xs) rest s = refl

mounts_step :
    (mounts : List Mount) (rest : List SpecOpts) (s : Spec)
    → apply_all (if_any mounts (with_mounts mounts ∷ []) ++ rest) s
      ≡ apply_all rest (record s { mounts = s.mounts ++ mounts })
unfolding apply_all if_any with_mounts
mounts_step [] rest s =
    ap (λ ms. apply_all rest (record s { mounts = ms })) (sym (append-nil s.mounts))
mounts_step (x ∷ xs) rest s = refl

spec_opts-with :
    (oci : Oci) (pod : Pod) (c : Container) (s : Spec)
    → Documented oci
    → pod.spec.host_network ≡ false
    → pod.spec.host_pid ≡ false
    → apply_all (spec_opts oci pod c) s ≡ ok (spec_with c s)
unfolding spec_opts apply_all
spec_opts-with oci pod c s h n p =
    rw (n, p)
      (args_step oci h c.args _ s
        ∙ tty_step oci h c.tty _ _
        ∙ cwd_step c.working_dir _ _
        ∙ env_step c.env _ _
        ∙ mounts_step c.mounts [] _)

pipe_back : (oci : Oci) (pipe : Option PipeSet) → map_pipe (pipe_name oci pipe) ≡ pipe
unfolding map_pipe pipe_name
pipe_back oci none = refl
pipe_back oci (some p) = refl

-- What is read back of a container that was created for a pod off the host's namespaces, where the
-- two options of package oci do as they are written: its name, its pipe and the image, and of the
-- terminal, the arguments, the environment, the directory and the mounts what the container says, in
-- place of what the image says or behind it. A container with a terminal has TERM=xterm behind the
-- environment of the image, before its own is put into it.
pub map_container-container_info_of :
    (oci : Oci) (id image : Bytes) (pod : Pod) (c : Container) (base : Spec)
    → Documented oci
    → pod.spec.host_network ≡ false
    → pod.spec.host_pid ≡ false
    → oci.image_spec image ≡ ok base
    → (new_spec oci image pod c ≡ ok (spec_with c base))
      × (map_container_to_internal_model (container_info_of oci id image pod c (spec_with c base))
          ≡ ok (record {
            name = c.name;
            image = image;
            tty = c.tty || base.terminal;
            args = or_else c.args base.args;
            env = with_env c.env (terminal_env c.tty base.env);
            working_dir = or_text c.working_dir base.cwd;
            mounts = base.mounts ++ c.mounts;
            pipe = c.pipe;
          }))
unfolding new_spec container_info_of map_container_to_internal_model get_spec
    with_lifecycle_extension
map_container-container_info_of oci id image pod c base h n p e = (
  ap spec_from e ∙ spec_opts-with oci pod c base h n p,
  ap (λ x. ok (read x (map_pipe (pipe_name oci c.pipe)))) (get_pod_name-new_labels pod c).0
      ∙ ap (λ x. ok (read c.name x)) (pipe_back oci c.pipe),
)
  where
    spec_from : Outcome Spec → Outcome Spec
    spec_from (ok s) = apply_all (spec_opts oci pod c) s
    spec_from (err x) = err x
    spec_from crash = crash

    read : Bytes → Option PipeSet → Container
    read name pipe = record {
      name = name;
      image = image;
      tty = c.tty || base.terminal;
      args = or_else c.args base.args;
      env = with_env c.env (terminal_env c.tty base.env);
      working_dir = or_text c.working_dir base.cwd;
      mounts = base.mounts ++ c.mounts;
      pipe = pipe;
    }
