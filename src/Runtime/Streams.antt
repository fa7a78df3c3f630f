-- ===== src/Runtime/Streams.antt =====
-- pkg/runtime/ioset.go, and buildContainerIOSets of pkg/api/server.go: the files that stand for the
-- standard streams of a container, and pipes between containers.
pub mod Pipes
use eliot.Prelude.{
  ℕ, Bytes, codes, List, [], ◌∷◌, ◌++◌, Option, none, some, Outcome, ok, err, crash, Error, failure,
  Dict, lookup, insert, update,
}
use eliot.Model.{Container, PipeSet}
use eliot.Runtime.{IoSet, Call, call_temp_dir, World, Exec, ask, pure, lift, ◌>>=◌}

-- The files of the set in its directory. A name holds no slash, so that filepath.Join puts one
-- slash between its arguments.
unfoldable pub io_set_in : Bytes → Bytes → IoSet
io_set_in id dir = record {
  stdin = dir ++ (b'/' ∷ (id ++ codes "-stdin"));
  stdout = dir ++ (b'/' ∷ (id ++ codes "-stdout"));
  stderr = dir ++ (b'/' ∷ (id ++ codes "-stderr"));
}

unfoldable pub new_io_set : World → Bytes → Exec IoSet
unfolding io_set_in
new_io_set w id = do dir ← ask call_temp_dir w.temp_dir; pure (io_set_in id dir)

unfoldable pub pipe_stdout_to : IoSet → IoSet → IoSet
pipe_stdout_to target s = record s { stdout = target.stdin }

-- The first loop: one set for each container, under its name.
unfoldable pub allocate : World → Bytes → List Container → Dict IoSet → Exec (Dict IoSet)
allocate w pod_name [] iosets = pure iosets
allocate w pod_name (c ∷ cs) iosets = do
  ioset ← new_io_set w (pod_name ++ (b'.' ∷ c.name))
  allocate w pod_name cs (insert c.name ioset iosets)

-- The second loop: the sets are shared, so that a pipe is a write to the set in the map.
unfoldable pub connect : List Container → Dict IoSet → Outcome (Dict IoSet)
unfolding pipe_stdout_to
connect [] iosets = ok iosets
connect (c ∷ cs) iosets = elim c.pipe [
  | none ↦ connect cs iosets
  | some p ↦ elim (lookup p.stdout.stdin.name iosets) [
    | none ↦ err (failure (codes "Invalid pipe definition"))
    | some target ↦ connect cs (update c.name (pipe_stdout_to target) iosets)
  ]
]

unfoldable pub build_container_io_sets : World → Bytes → List Container → Exec (Dict IoSet)
unfolding allocate connect
build_container_io_sets w pod_name containers = do
  iosets ← allocate w pod_name containers []
  lift (connect containers iosets)
