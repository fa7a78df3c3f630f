-- ===== src/Resolve.antt =====
-- pkg/resolve: the pods and the image that a command is given or finds. The file system, the network
-- and the YAML decoder are parameters.
pub mod Laws
use eliot.Prelude.{
  ℕ, zero, suc, ◌+◌, Bytes, codes, Bool, true, false, ◌||◌, List, [], ◌∷◌, ◌++◌, Option, none, some,
  if◌then◌else◌, Outcome, ok, err, crash, Error, failure, ◌>>=◌, Dict, lookup, insert, decimal,
  has_suffix, traverse,
}
use mathlib.Core.List.{flatten}
use eliot.Utils.Fqin.{expand_to_fqin, get_fqin_image, get_fqin_username}
use eliot.Api.Types.{ApiPod, ApiContainer, ApiPodSpec, ResourceMetadata}
use eliot.Api.Defaults.{default_pod, unmarshal_yaml}

-- The names that BuildPod gives: the count is appended where the image was met before.
unfoldable pub container_name : Dict ℕ → Bytes → Bytes × Dict ℕ
unfolding decimal
container_name names name = elim (lookup name names) [
  | some count ↦ (name ++ (b'-' ∷ decimal count), insert name (count + 1) names)
  | none ↦ (name, insert name 1 names)
]

or_crash : {A : Type 0} → Option A → Outcome A
or_crash none = crash
or_crash (some a) = ok a

-- A container with these two fields.
unfoldable pub image_container : Bytes → Bytes → ApiContainer
image_container name image = record {
  name = name;
  image = image;
  tty = false;
  working_dir = [];
  args = [];
  env = [];
  mounts = [];
  pipe = none;
}

-- The loop of BuildPod.
unfoldable pub build_containers : Dict ℕ → List Bytes → Outcome (List ApiContainer)
unfolding or_crash container_name image_container
build_containers names [] = ok []
build_containers names (image ∷ images) = do
  fqin ← or_crash (expand_to_fqin image)
  username ← or_crash (get_fqin_username fqin)
  short ← or_crash (get_fqin_image fqin)
  let (name, names') = container_name names (username ++ (b'-' ∷ short))
  rest ← build_containers names' images
  ok (image_container name fqin ∷ rest)

unfoldable pub build_pod : Bytes → List Bytes → Outcome ApiPod
unfolding build_containers
build_pod name images = do
  containers ← build_containers [] images
  default_pod (record {
    metadata = some (record { name = name; namespace = [] });
    spec = some (record {
      containers = containers;
      host_network = false;
      host_pid = false;
      restart_policy = [];
    });
    status = none;
  })

-- A directory entry: its name, and whether it is a directory itself.
pub record Entry : Type 0 where
  pub name : Bytes
  pub is_dir : Bool

-- What os.Stat says: there is nothing, a file or a directory, or it fails for another reason.
pub data Stat : Type 0 where
  absent regular directory unreadable : Stat

-- fs.FileExist and fs.DirExist; crash: the result of the failed call is nil.
unfoldable pub file_exist : Stat → Outcome Bool
file_exist absent = ok false
file_exist regular = ok true
file_exist directory = ok false
file_exist unreadable = crash

unfoldable pub dir_exist : Stat → Outcome Bool
dir_exist absent = ok false
dir_exist regular = ok false
dir_exist directory = ok true
dir_exist unreadable = crash

-- What the file system, the network and the decoder answer. A file system that is not at work
-- between two questions is meant, so that a question has one answer.
pub record Outside : Type 0 where
  pub stat : Bytes → Stat
  pub read_file : Bytes → Outcome Bytes
  pub read_dir : Bytes → Outcome (List Entry)
  pub is_url : Bytes → Bool
  pub http_get : Bytes → Outcome Bytes
  pub join_path : Bytes → Bytes → Bytes
  pub unmarshal : Bytes → Outcome ApiPod

module _ (o : Outside) where
  unfoldable pub read_file_source : Bytes → Outcome (List ApiPod)
  read_file_source path = do data' ← o.read_file path; unmarshal_yaml o.unmarshal data'

  -- The loop over the files of a directory.
  unfoldable pub read_entries : Bytes → List Entry → Outcome (List ApiPod)
  unfolding read_file_source
  read_entries source [] = ok []
  read_entries source (file ∷ files) =
      let rest = read_entries source files in
      let read = do
        pods ← read_file_source (o.join_path source file.name)
        more ← rest
        ok (pods ++ more)
      in if file.is_dir then rest else read

  -- One round of the loop of Pods.
  unfoldable pub resolve_source : Bytes → Outcome (List ApiPod)
  unfolding read_entries file_exist dir_exist
  resolve_source source = do
    is_file ← file_exist (o.stat source)
    (if is_file then read_file_source source else (do
      is_dir ← dir_exist (o.stat source)
      (if is_dir
          then (do files ← o.read_dir source; read_entries source files)
          else if o.is_url source
          then (do data' ← o.http_get source; unmarshal_yaml o.unmarshal data')
          else err (failure (codes "Unknown source")))))

  -- Pods: what the caller gets where there is no error.
  unfoldable pub resolve_pods : List Bytes → Outcome (List ApiPod)
  unfolding resolve_source
  resolve_pods [] = ok []
  resolve_pods (s ∷ ss) = do pods ← resolve_source s; rest ← resolve_pods ss; ok (pods ++ rest)

  has_file : Bytes → List Entry → Bool
  has_file extension [] = false
  has_file extension (f ∷ fs) = has_suffix f.name extension || has_file extension fs

  -- containsFiles
  unfoldable pub contains_files : Bytes → Bytes → Bool
  unfolding has_file
  contains_files path extension = elim (o.read_dir path) [
    | ok files ↦ has_file extension files
    | _ ↦ false
  ]

  -- golangDirs, and the loops of isGolangProject and isPythonProject
  in_dirs : Bytes → Bytes → List Bytes → Bool
  unfolding contains_files
  in_dirs project_dir extension [] = false
  in_dirs project_dir extension (d ∷ ds) =
      contains_files (o.join_path project_dir d) extension || in_dirs project_dir extension ds

  abbrev golang_dirs : List Bytes
  golang_dirs = codes "." ∷ codes "pkg" ∷ codes "cmd" ∷ []

  -- Image: the type of the project and the image.
  unfoldable pub resolve_image : Bytes → Outcome (Bytes × Bytes)
  unfolding in_dirs file_exist
  resolve_image project_dir = do
    is_node ← file_exist (o.stat (o.join_path project_dir (codes "package.json")))
    (if is_node
        then ok (codes "node", codes "docker.io/library/node:latest")
        else if in_dirs project_dir (codes ".go") golang_dirs
        then ok (codes "golang", codes "docker.io/library/golang:latest")
        else if in_dirs project_dir (codes ".py") golang_dirs
        then ok (codes "python", codes "docker.io/library/python:latest")
        else err (failure (codes "Unable to resolve container image")))
