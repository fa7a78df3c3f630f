-- ===== src/Runtime/Containerd/Tasks/Io.antt =====
-- pkg/runtime/containerd/io.go: what a task is given to read and write, and how it is closed.
use eliot.Prelude.{Bytes, Bool, [], ◌∷◌, ◌++◌, Outcome, ok, err, crash, ◌≡◌, refl, ◌∙◌}
use eliot.Runtime.{IoSet}
use eliot.Program.{caught, settled, continue, lift, ask, ◌>>=◌}
use eliot.Runtime.Containerd.Tasks.{TaskCall, close_fifo, Log, Daemon, Run}

-- cio.Config
pub record IoConfig : Type 0 where
  pub terminal : Bool
  pub stdin : Bytes
  pub stdout : Bytes
  pub stderr : Bytes

-- DirectIO.Config
unfoldable pub config_of : IoSet → Bool → IoConfig
config_of set terminal = record {
  terminal = terminal;
  stdin = set.stdin;
  stdout = set.stdout;
  stderr = set.stderr;
}

-- The error that is kept, of the errors so far and the next one.
unfoldable pub first_error : Outcome (Unit {0}) → Outcome (Unit {0}) → Outcome (Unit {0})
first_error (ok _) next = next
first_error (err e) next = err e
first_error crash next = crash

module _ (d : Daemon) where
  -- DirectIO.Close
  unfoldable pub close_io : IoSet → Run (Unit {0})
  unfolding first_error
  close_io set = do
    r ← caught (ask (close_fifo set.stdin) d.done)
    r2 ← caught (ask (close_fifo set.stdout) d.done)
    r3 ← caught (ask (close_fifo set.stderr) d.done)
    lift (first_error (first_error r r2) r3)

  -- A call whose error is looked at, and the rest, where it does not panic.
  caught-then :
      {B : Type 0} (c : TaskCall) (f : Outcome (Unit {0}) → Run B) (log : Log)
      → (d.done (log ++ c ∷ []) ≡ crash → ⊥)
      → (caught (ask c d.done) >>= f) log ≡ f (d.done (log ++ c ∷ [])) (log ++ c ∷ [])
  unfolding caught ask ◌>>=◌
  caught-then c f log n = go (d.done (log ++ c ∷ [])) n
    where
      go :
          (r : Outcome (Unit {0}))
          → (r ≡ crash → ⊥)
          → continue (settled r (log ++ c ∷ [])).0 f (settled r (log ++ c ∷ [])).1
            ≡ f r (log ++ c ∷ [])
      go (ok x) n = refl
      go (err e) n = refl
      go crash n = absurd (n refl)

  -- The three files are closed, whichever of them cannot be, and the first error is returned.
  close_io-closes :
      (set : IoSet) (log : Log)
      → ((l : Log) → d.done l ≡ crash → ⊥)
      → (let r = close_io set log in
          let a = log ++ close_fifo set.stdin ∷ [] in
          let b = a ++ close_fifo set.stdout ∷ [] in
          let c = b ++ close_fifo set.stderr ∷ [] in
          r ≡ (first_error (first_error (d.done a) (d.done b)) (d.done c), c))
  unfolding close_io lift
  close_io-closes set log n =
      caught-then (close_fifo set.stdin) _ log (n _)
      ∙ caught-then (close_fifo set.stdout) _ _ (n _)
      ∙ caught-then (close_fifo set.stderr) _ _ (n _)
