-- ===== src/Cmd/Session/Arguments.antt =====
-- cmd/eli/runCommand.go and cmd/eli/upCommand.go: what the commands make of their arguments and of the
-- project's file, and GetCurrentDirectory of cmd/utils.go.
use eliot.Prelude.{
  Bytes, codes, Bool, true, false, List, [], ◌∷◌, ◌++◌, Option, if◌then◌else◌, Outcome, ok, err,
  crash, failure, bytes_beq, ◌>>=◌, ◌>>◌,
}
use eliot.Api.Types.{ApiMount}
use eliot.Resolve.{Stat, dir_exist}
use eliot.Config.Project.{env_with}
use eliot.Config.File.{ProjectConfig}
use eliot.Cmd.Ui.{Output, fatal, after_op}
use eliot.Cmd.Flags.{
  first, drop_double_dash, Sync, must_parse_binds, must_parse_mounts, must_parse_syncs,
}

-- The directories that packages os and filepath give: Abs of Dir of a path, and Stat of the path.
pub record Directories : Type 0 where
  pub abs_dir : Bytes → Outcome Bytes
  pub stat : Bytes → Stat
  pub base : Bytes → Bytes
  -- os.Args[0] and $PWD
  pub program : Bytes
  pub pwd : Bytes

module _ (output : Output) (d : Directories) where
  or_next : Outcome Bytes → Outcome Bool → Outcome Bytes → Outcome Bytes
  or_next (ok dir) exist next = do is_dir ← exist; (if is_dir then ok dir else next)
  or_next (err e) exist next = next
  or_next crash exist next = crash

  first_directory : List Bytes → Outcome Bytes
  unfolding or_next dir_exist
  first_directory [] = do
    after_op output (fatal (codes "Failed to resolve current directory"))
    ok []
  first_directory (path ∷ paths) =
      let rest = first_directory paths in or_next (d.abs_dir path) (dir_exist (d.stat path)) rest

  unfoldable pub get_current_directory : Outcome Bytes
  unfolding first_directory
  get_current_directory = first_directory (codes "." ∷ d.program ∷ d.pwd ∷ [])

-- The flags and the arguments of the command line. For run, `image` is the first argument, whose name
-- is made whole by the session, and `args` those behind it.
pub record CommandLine : Type 0 where
  pub name : Bytes
  pub image : Bytes
  pub rm : Bool
  pub tty : Bool
  pub env : List Bytes
  pub workdir : Bytes
  pub syncs : List Bytes
  pub mounts : List Bytes
  pub binds : List Bytes
  pub args : List Bytes
  -- --detach or -d is set
  pub detach : Bool

-- What the commands go on with; a bind that did not parse is a nil pointer.
pub record Arguments : Type 0 where
  pub name : Bytes
  pub image : Bytes
  pub rm : Bool
  pub tty : Bool
  pub env : List Bytes
  pub workdir : Bytes
  pub syncs : List Sync
  pub mounts : List ApiMount
  pub binds : List (Option ApiMount)
  pub args : List Bytes

unless_detached : Bool → Outcome (Unit {0})
unless_detached true = err (failure (codes "Detach not available"))
unless_detached false = ok tt

-- A fatal message on an output that is hidden ends nothing: the image stays empty.
image_or_fatal : Output → Outcome (Bytes × Bytes) → Outcome Bytes
image_or_fatal output (ok resolved) = ok resolved.1
image_or_fatal output (err e) = do
  after_op output (
      fatal (
        codes
          "Unable to automatically resolve image for the project. You must define target container image with --image option"))
  ok []
image_or_fatal output crash = crash

module _ (output : Output) (d : Directories) (read_csv : Bytes → Option (List Bytes)) where
  -- up, up to the configuration of the client
  unfoldable pub up_arguments : ProjectConfig → CommandLine → Outcome Arguments
  unfolding get_current_directory first env_with must_parse_syncs must_parse_mounts must_parse_binds
      drop_double_dash unless_detached
  up_arguments project c = do
    directory ← get_current_directory output d
    env ← env_with project.env c.env
    syncs ← must_parse_syncs (project.syncs ++ c.syncs)
    mounts ← must_parse_mounts read_csv output (project.mounts ++ c.mounts)
    binds ← must_parse_binds output (project.binds ++ c.binds)
    unless_detached c.detach
    ok (record {
      name = first (c.name ∷ project.name ∷ d.base directory ∷ []);
      image = first (c.image ∷ project.image ∷ []);
      rm = c.rm;
      tty = c.tty;
      env = env;
      workdir = first (c.workdir ∷ project.work_dir ∷ []);
      syncs = syncs;
      mounts = mounts;
      binds = binds;
      args = project.command ++ drop_double_dash c.args;
    })

  -- run, up to the configuration of the client, and the name behind it
  unfoldable pub run_arguments : CommandLine → Outcome Arguments
  unfolding get_current_directory must_parse_mounts must_parse_binds drop_double_dash
      unless_detached bytes_beq
  run_arguments c = do
    mounts ← must_parse_mounts read_csv output c.mounts
    binds ← must_parse_binds output c.binds
    unless_detached c.detach
    name ←
        if bytes_beq c.name []
        then (do directory ← get_current_directory output d; ok (d.base directory))
        else ok c.name
    ok (record {
      name = name;
      image = c.image;
      rm = c.rm;
      tty = c.tty;
      env = c.env;
      workdir = c.workdir;
      syncs = [];
      mounts = mounts;
      binds = binds;
      args = drop_double_dash c.args;
    })

  -- The image of up: that of its arguments, or the one for the kind of the project.
  unfoldable pub up_image : (Bytes → Outcome (Bytes × Bytes)) → Bytes → Outcome Bytes
  unfolding get_current_directory image_or_fatal
  up_image resolve_image [] = do
    directory ← get_current_directory output d
    image_or_fatal output (resolve_image directory)
  up_image resolve_image (c ∷ image) = ok (c ∷ image)
