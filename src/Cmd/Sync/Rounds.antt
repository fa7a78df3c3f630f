-- ===== src/Cmd/Sync/Rounds.antt =====
-- pkg/sync/rsync.go and ForwardAllSignals of cmd/utils.go: what the goroutines call in all.
use eliot.Prelude.{
  ℕ, Bytes, List, [], ◌∷◌, ◌++◌, if◌then◌else◌, Outcome, ok, err, crash, map, ◌≡◌, refl, ◌==◌,
  nat_eq, Bool-cases, inl, inr,
}
use eliot.Program.{Program, continue, settled, ◌>>=◌, pure, ask, lift, caught}
use eliot.Program.Always.{Always, Always-ask, Always-lift, Always-logged, AlwaysAt-bind}
use eliot.Cmd.Flags.{Sync, rsync_target}
use eliot.Cmd.Sync.{
  SyncCall, execute_rsync, SyncLog, Wake, after_interval, session_done, sync_all, start_rsync,
  forward_all_signals,
}

-- Every run counts.
abbrev each : SyncCall → List SyncCall
each c = c ∷ []

module _ (host : Bytes) (port : ℕ) where
  abbrev pub round : List Sync → List SyncCall
  round syncs = map (λ (s : Sync). execute_rsync s.source (rsync_target host port s)) syncs

  -- A round for each interval up to the end of the session.
  abbrev pub rounds : List Sync → List Wake → List SyncCall
  rounds syncs [] = []
  rounds syncs (after_interval ∷ wakes) = round syncs ++ rounds syncs wakes
  rounds syncs (session_done ∷ wakes) = []

  module _ (executed : SyncLog → Outcome (Unit {0}))
      (n : (log : SyncLog) → executed log ≡ crash → ⊥) where
    sync_all-round :
        (syncs : List Sync) → Always each (sync_all executed host port syncs) (round syncs)
    unfolding sync_all pure lift
    sync_all-round [] = Always-lift each (ok tt) (λ e. cc)
    sync_all-round (sync ∷ syncs) =
        let c = execute_rsync sync.source (rsync_target host port sync) in
        Always-logged each (ask c executed) (sync_all executed host port syncs) (c ∷ [])
          (round syncs) (Always-ask each c executed n) (sync_all-round syncs)

    logged-ok :
        (r : Outcome (Unit {0})) (rest : Program SyncCall (Unit {0})) (log : SyncLog)
        → (r ≡ crash → ⊥)
        → ((l : SyncLog) → (rest l).0 ≡ ok tt)
        → (continue (settled r log).0 (λ _. rest) (settled r log).1).0 ≡ ok tt
    logged-ok (ok x) rest log m h = h log
    logged-ok (err e) rest log m h = h log
    logged-ok crash rest log m h = absurd (m refl)

    sync_all-ok :
        (syncs : List Sync) (log : SyncLog) → (sync_all executed host port syncs log).0 ≡ ok tt
    unfolding sync_all pure caught ask ◌>>=◌
    sync_all-ok [] log = refl
    sync_all-ok (sync ∷ syncs) log =
        let ran = log ++ execute_rsync sync.source (rsync_target host port sync) ∷ [] in
        logged-ok (executed ran) (sync_all executed host port syncs) ran (n ran) (sync_all-ok syncs)

    -- rsync runs for each sync at each interval, in their order, up to the end of the session, whether
    -- runs before it failed or not.
    start_rsync-rounds :
        (syncs : List Sync) (wakes : List Wake)
        → Always each (start_rsync executed host port syncs wakes) (rounds syncs wakes)
    unfolding start_rsync pure lift
    start_rsync-rounds syncs [] = Always-lift each (ok tt) (λ e. cc)
    start_rsync-rounds syncs (session_done ∷ wakes) = Always-lift each (ok tt) (λ e. cc)
    start_rsync-rounds syncs (after_interval ∷ wakes) = λ log.
        AlwaysAt-bind each (sync_all executed host port syncs) _ log (round syncs)
          (rounds syncs wakes) tt (sync_all-ok syncs log) (sync_all-round syncs log).sees
          (start_rsync-rounds syncs wakes)

module _ {C D : Type 0} (view : C → List D) (sigchld : ℕ) (handler : ℕ → Program C (Unit {0}))
    (sent : ℕ → List D) where
  abbrev forwarded : List ℕ → List D
  forwarded [] = []
  forwarded (signal ∷ signals) =
      if signal == sigchld then forwarded signals else sent signal ++ forwarded signals

  -- What the handler does for every signal but SIGCHLD is done, in their order.
  forward_all_signals-forwarded :
      ((signal : ℕ) → Always view (handler signal) (sent signal))
      → (signals : List ℕ)
      → Always view (forward_all_signals sigchld handler signals) (forwarded signals)
  unfolding forward_all_signals pure lift
  forward_all_signals-forwarded h [] = Always-lift view (ok tt) (λ e. cc)
  forward_all_signals-forwarded h (signal ∷ signals) = elim (Bool-cases (signal == sigchld)) [
    | inl e ↦ rw e (forward_all_signals-forwarded h signals)
    | inr e ↦ rw e (
        Always-logged view (handler signal) (forward_all_signals sigchld handler signals)
          (sent signal) (forwarded signals) (h signal) (forward_all_signals-forwarded h signals))
  ]
