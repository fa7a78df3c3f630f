-- ===== src/Config/File.antt =====
-- pkg/config/config.go and project.go: the files of the configuration and of a project; cmd/utils.go
-- and cmd/eli/configSetCommand.go, which change the first. The files and the YAML library are
-- parameters.
pub mod Laws
use eliot.Prelude.{
  ℕ, Bytes, codes, Bool, List, [], ◌∷◌, Option, none, some, if◌then◌else◌, Outcome, ok, err, crash,
  length, ◌==◌, nat_eq, ◌≡◌, true, false, ◌>>=◌, ◌>>◌,
}
use eliot.Config.{Config, default_config}
use eliot.Config.Field.{set_field}
use eliot.Api.Types.{ApiContainer}
use eliot.Cmd.Ui.{Output, fatal, after_op}

-- The files of the host: fs.FileExist, and ReadFile and WriteFile of package ioutil.
pub record Files : Type 1 where
  pub State : Type 0
  pub exist : State → Bytes → Bool
  pub read : State → Bytes → Outcome Bytes
  pub write : State → Bytes → Bytes → Outcome State

-- Marshal and Unmarshal of the YAML library; the second fills in what is there already.
pub record Yaml (A : Type 0) : Type 0 where
  pub marshal : A → Outcome Bytes
  pub unmarshal : Bytes → A → Outcome A

-- A file that was written is there and is read as it was written.
pub record Keeps (files : Files) : Type 0 where
  pub there :
      (s s' : files.State) (path text : Bytes)
      → files.write s path text ≡ ok s'
      → files.exist s' path ≡ true
  pub same :
      (s s' : files.State) (path text : Bytes)
      → files.write s path text ≡ ok s'
      → files.read s' path ≡ ok text

-- A value that was encoded is decoded, whatever was there.
pub record Decodes {A : Type 0} (yaml : Yaml A) : Type 0 where
  pub back : (a b : A) (text : Bytes) → yaml.marshal a ≡ ok text → yaml.unmarshal text b ≡ ok a

module _ (files : Files) where
  -- What the file has in place of the defaults.
  abbrev read_over : {A : Type 0} → Yaml A → files.State → Bytes → A → Outcome A
  read_over yaml s path default =
      if files.exist s path
      then (do text ← files.read s path; yaml.unmarshal text default)
      else ok default

  abbrev written : {A : Type 0} → Yaml A → files.State → Bytes → A → Outcome files.State
  written yaml s path a = do text ← yaml.marshal a; files.write s path text

  unfoldable pub get_config : Yaml Config → files.State → Bytes → Outcome Config
  get_config yaml s path = read_over yaml s path default_config

  unfoldable pub write_config : Yaml Config → files.State → Bytes → Config → Outcome files.State
  write_config yaml s path config = written yaml s path config

  -- GetConfig of cmd; the pointer is nil behind an error that did not end the process.
  abbrev pub or_fatal : Output → Outcome Config → Outcome (Option Config)
  or_fatal output (ok c) = ok (some c)
  or_fatal output (err e) = do
    after_op output (fatal (codes "Error while reading configuration file"))
    ok none
  or_fatal output crash = crash

  abbrev pub deref_config : Option Config → Outcome Config
  deref_config none = crash
  deref_config (some c) = ok c

  -- The two arguments, which are read by their indices.
  abbrev pub name_and_value : List Bytes → Outcome (Bytes × Bytes)
  name_and_value [] = crash
  name_and_value (name ∷ []) = crash
  name_and_value (name ∷ value ∷ rest) = ok (name, value)

  -- The field of the configuration that was read, set and written.
  abbrev pub set_read :
      Yaml Config
      → files.State
      → Bytes
      → Bytes
      → Bytes
      → Outcome (Option Config)
      → Outcome files.State
  set_read yaml s path name value read = do
    pointer ← read
    config ← deref_config pointer
    updated ← set_field config name value
    written yaml s path updated

  -- `eli config set`, at the path of the configuration.
  unfoldable pub config_set :
      Yaml Config → Output → files.State → Bytes → List Bytes → Outcome files.State
  unfolding get_config set_field
  config_set yaml output s path args = do
    (if length args == 2
        then ok tt
        else after_op output (fatal (codes "You must give two parameters, NAME and VALUE")))
    p ← name_and_value args
    set_read yaml s path p.0 p.1 (or_fatal output (get_config yaml s path))

pub record ProjectConfig : Type 0 where
  pub name : Bytes
  pub image : Bytes
  pub command : List Bytes
  pub env : List Bytes
  pub binds : List Bytes
  pub mounts : List Bytes
  pub work_dir : Bytes
  pub sync_container : Option ApiContainer
  pub syncs : List Bytes

-- The defaults of ReadProjectConfig.
unfoldable pub default_project : ProjectConfig
default_project = record {
  name = [];
  image = [];
  command = [];
  env = [];
  binds = [];
  mounts = [];
  work_dir = [];
  sync_container = some (record {
    name = codes "sync";
    image = codes "docker.io/ernoaapa/rsync:ff1a0fa9bc12d051bae4300508d361cc65df338b";
    tty = false;
    args = [];
    env = codes "USER=root" ∷ codes "GROUP=root" ∷ [];
    working_dir = [];
    mounts = [];
    pipe = none;
  });
  syncs = codes ".:/volume" ∷ [];
}

-- log.Fatalln
abbrev pub or_exit : {A : Type 0} → Outcome A → Outcome A
or_exit (ok a) = ok a
or_exit (err e) = crash
or_exit crash = crash

module _ (files : Files) where
  unfoldable pub read_project_config :
      Yaml ProjectConfig → files.State → Bytes → Outcome ProjectConfig
  unfolding default_project
  read_project_config yaml s path = or_exit (read_over files yaml s path default_project)

  unfoldable pub write_project_config :
      Yaml ProjectConfig → files.State → Bytes → ProjectConfig → Outcome files.State
  write_project_config yaml s path config = written files yaml s path config
