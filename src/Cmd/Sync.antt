-- ===== src/Cmd/Sync.antt =====
-- pkg/sync/rsync.go, and the forwarding of signals of cmd/utils.go: what runs beside a session. The
-- goroutines stand by what wakes them up: the interval or the end of the session, and a signal.
pub mod Laws
pub mod Rounds
use eliot.Prelude.{ℕ, Bytes, Bool, List, [], ◌∷◌, if◌then◌else◌, Outcome, ◌==◌, nat_eq}
use eliot.Program.{Program, pure, ask, caught, ◌>>=◌}
use eliot.Cmd.Flags.{Sync, rsync_target}

-- A run of rsync, with the source and the destination.
pub data SyncCall : Type 0 where
  execute_rsync : Bytes → Bytes → SyncCall

abbrev pub SyncLog : Type 0
SyncLog = List SyncCall

pub data Wake : Type 0 where
  after_interval session_done : Wake

-- What rsync gives back for the runs so far.
module _ (executed : SyncLog → Outcome (Unit {0})) (host : Bytes) (port : ℕ) where
  -- One round: an error is only logged.
  unfoldable pub sync_all : List Sync → Program SyncCall (Unit {0})
  unfolding rsync_target
  sync_all [] = pure tt
  sync_all (sync ∷ syncs) = do
    _ ← caught (ask (execute_rsync sync.source (rsync_target host port sync)) executed)
    sync_all syncs

  -- The goroutine of StartRsync.
  unfoldable pub start_rsync : List Sync → List Wake → Program SyncCall (Unit {0})
  unfolding sync_all
  start_rsync syncs [] = pure tt
  start_rsync syncs (after_interval ∷ wakes) = do _ ← sync_all syncs; start_rsync syncs wakes
  start_rsync syncs (session_done ∷ wakes) = pure tt

-- The goroutine of ForwardAllSignals, on the signals of the channel; an error of the handler is only
-- logged. The number of SIGCHLD is that of the platform.
module _ {C : Type 0} (sigchld : ℕ) (handler : ℕ → Program C (Unit {0})) where
  unfoldable pub forward_all_signals : List ℕ → Program C (Unit {0})
  forward_all_signals [] = pure tt
  forward_all_signals (signal ∷ signals) =
      let rest = forward_all_signals signals in
      if signal == sigchld then rest else (do _ ← caught (handler signal); rest)
