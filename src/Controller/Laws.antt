-- ===== src/Controller/Laws.antt =====
-- pkg/controller/lifecycle.go: what a round of the controller does, call by call.
pub mod Serve
use mathlib.Core.List.{flat_map}
use eliot.Prelude.{
  Bytes, codes, Bool, true, false, ◌||◌, ◌&&◌, ◌==◌, bytes_eq, List, [], ◌∷◌, ◌++◌, if◌then◌else◌,
  Outcome, ok, err, crash, ◌≡◌, inl, inr, refl, sym, ap, ◌∙◌, Bool-cases, subst, ok-injective,
}
use eliot.Model.{Pod, ContainerStatus}
use eliot.Program.{Program}
use eliot.Program.Plan.{Plan, must, may, void, forgiven, voided, ran, ObeysAt, Obeys, bind-ObeysAt}
use eliot.Runtime.{
  IoSet, Call, call_get_namespaces, call_get_pods, call_temp_dir, call_start_container, World, Log,
  Exec, pure, ask, continue, ◌>>=◌,
}
use eliot.Runtime.Streams.{new_io_set, io_set_in}
use eliot.Controller.{
  forgive, is_to_start, logged, unit_of, check_status, check_statuses, check_pods, check_namespaces,
  check_all,
}

-- What the runtime has: its namespaces and their pods, which stay the same.
pub record Answers (w : World) (namespaces : List Bytes) (pods : Bytes → List Pod) : Type 0 where
  pub lists : (log : Log) → w.get_namespaces (log ++ call_get_namespaces ∷ []) ≡ ok namespaces
  pub shows : (log : Log) (n : Bytes) → w.get_pods (log ++ call_get_pods n ∷ []) ≡ ok (pods n)

abbrev dir_of : Outcome Bytes → Bytes
dir_of (ok dir) = dir
dir_of (err e) = []
dir_of crash = []

module _ (w : World) where
  -- The start of a container with the streams in the directory that was made last; its error is only
  -- logged.
  abbrev pub start_in_last : Bytes → Pod → ContainerStatus → Program Call (Unit {0})
  start_in_last n pod s log =
      let set = io_set_in (pod.metadata.name ++ (b'.' ∷ s.name)) (dir_of (w.temp_dir log)) in
      may (call_start_container n s.container_id set) w.start_container log

  -- A container that is stopped, or unknown and to run always, gets a directory and is started.
  abbrev pub status_plan : Bytes → Pod → ContainerStatus → Plan Call
  status_plan n pod s =
      if s.state == codes "stopped"
        || (s.state == codes "unknown" && pod.spec.restart_policy == codes "always")
      then must call_temp_dir w.temp_dir ∷ start_in_last n pod s ∷ []
      else []

  abbrev pub pod_plan : Bytes → Pod → Plan Call
  pod_plan n pod = flat_map (status_plan n pod) pod.status.container_statuses

  abbrev pub namespace_plan : (Bytes → List Pod) → Bytes → Plan Call
  namespace_plan pods n = may (call_get_pods n) w.get_pods ∷ flat_map (pod_plan n) (pods n)

  abbrev pub check_plan : List Bytes → (Bytes → List Pod) → Plan Call
  check_plan namespaces pods =
      may call_get_namespaces w.get_namespaces ∷ flat_map (namespace_plan pods) namespaces

  logged_may :
      (r : Outcome ContainerStatus) (log : Log)
      → (let m = continue r (λ _. pure tt) log in
          (void (forgive tt m.0), m.1) ≡ continue {0, 0} (forgiven r) (λ _. ran []) log)
  unfolding forgive pure
  logged_may (ok s) log = refl
  logged_may (err e) log = refl
  logged_may crash log = refl

  logged-Obeys :
      (call : Call)
      → Obeys (logged tt (unit_of (ask call w.start_container))) (may call w.start_container ∷ [])
  unfolding logged unit_of ask ◌>>=◌
  logged-Obeys call log = logged_may (w.start_container (log ++ call ∷ [])) (log ++ call ∷ [])

  -- The start behind the making of a directory.
  in_dir :
      (n : Bytes) (pod : Pod) (s : ContainerStatus) (r : Outcome Bytes) (log : Log)
      → w.temp_dir log ≡ r
      → (let id = pod.metadata.name ++ (b'.' ∷ s.name) in
          let m = continue r (λ d. pure (io_set_in id d)) log in
          voided (
            continue m.0
              (λ set.
                logged tt
                  (unit_of (ask (call_start_container n s.container_id set) w.start_container)))
              m.1)
          ≡ continue {0, 0} (void r) (λ _. ran (start_in_last n pod s ∷ [])) log)
  unfolding pure
  in_dir n pod s (ok d) log e =
      let set = io_set_in (pod.metadata.name ++ (b'.' ∷ s.name)) d in
      logged-Obeys (call_start_container n s.container_id set) log
      ∙ ap
          (λ r.
            ran
              (may
                  (call_start_container n s.container_id
                    (io_set_in (pod.metadata.name ++ (b'.' ∷ s.name)) (dir_of r)))
                  w.start_container
                ∷ [])
              log)
          (sym e)
  in_dir n pod s (err x) log e = refl
  in_dir n pod s crash log e = refl

  started-Obeys :
      (n : Bytes) (pod : Pod) (s : ContainerStatus)
      → Obeys
          (new_io_set w (pod.metadata.name ++ (b'.' ∷ s.name)) >>= λ set.
            logged tt (unit_of (ask (call_start_container n s.container_id set) w.start_container)))
          (must call_temp_dir w.temp_dir ∷ start_in_last n pod s ∷ [])
  unfolding new_io_set ask ◌>>=◌
  started-Obeys n pod s log =
      in_dir n pod s (w.temp_dir (log ++ call_temp_dir ∷ [])) (log ++ call_temp_dir ∷ []) refl

  check_status-Obeys :
      (n : Bytes) (pod : Pod) (s : ContainerStatus)
      → Obeys (check_status w n pod s) (status_plan n pod s)
  unfolding check_status is_to_start pure
  check_status-Obeys n pod s log = elim (Bool-cases (is_to_start pod s)) [
    | inl e ↦ rw e (started-Obeys n pod s log)
    | inr e ↦ rw e refl
  ]

  check_statuses-Obeys :
      (n : Bytes) (pod : Pod) (ss : List ContainerStatus)
      → Obeys (check_statuses w n pod ss) (flat_map (status_plan n pod) ss)
  unfolding check_statuses flat_map pure
  check_statuses-Obeys n pod [] log = refl
  check_statuses-Obeys n pod (s ∷ ss) log =
      bind-ObeysAt (check_status w n pod s) (λ _. check_statuses w n pod ss) log
        (status_plan n pod s) (flat_map (status_plan n pod) ss) (check_status-Obeys n pod s log)
        λ _ _. check_statuses-Obeys n pod ss _

  check_pods-Obeys :
      (n : Bytes) (ps : List Pod) → Obeys (check_pods w n ps) (flat_map (pod_plan n) ps)
  unfolding check_pods flat_map pure
  check_pods-Obeys n [] log = refl
  check_pods-Obeys n (p ∷ ps) log =
      bind-ObeysAt (check_statuses w n p p.status.container_statuses) (λ _. check_pods w n ps) log
        (pod_plan n p) (flat_map (pod_plan n) ps)
        (check_statuses-Obeys n p p.status.container_statuses log) λ _ _. check_pods-Obeys n ps _

  -- A question that is answered, and what follows the answer.
  asked-ObeysAt :
      {A : Type 0} (call : Call) (answer : Log → Outcome A) (a d : A) (f : A → Exec (Unit {0}))
      (q : Plan Call) (log : Log)
      → answer (log ++ call ∷ []) ≡ ok a
      → Obeys (f a) q
      → ObeysAt ((logged d (ask call answer) >>= f) log) (may call answer ∷ q) log
  unfolding logged forgive ask ◌>>=◌
  asked-ObeysAt call answer a d f q log e h =
      let asked = log ++ call ∷ [] in
      ap (λ r. voided (continue (forgive d r) f asked)) e
      ∙ h asked
      ∙ ap (λ r. continue {0, 0} (forgiven r) (λ _. ran q) asked) (sym e)

  module _ (namespaces : List Bytes) (pods : Bytes → List Pod) (h : Answers w namespaces pods) where
    check_namespaces-Obeys :
        (ns : List Bytes) → Obeys (check_namespaces w ns) (flat_map (namespace_plan pods) ns)
    unfolding check_namespaces flat_map pure
    check_namespaces-Obeys [] log = refl
    check_namespaces-Obeys (n ∷ ns) log =
        asked-ObeysAt (call_get_pods n) w.get_pods (pods n) [] _
          (flat_map (pod_plan n) (pods n) ++ flat_map (namespace_plan pods) ns) log (h.shows log n)
          λ l.
            bind-ObeysAt (check_pods w n (pods n)) (λ _. check_namespaces w ns) l
              (flat_map (pod_plan n) (pods n)) (flat_map (namespace_plan pods) ns)
              (check_pods-Obeys n (pods n) l) λ _ _. check_namespaces-Obeys ns _

    pub check_all-Obeys : Obeys (check_all w) (check_plan namespaces pods)
    unfolding check_all
    check_all-Obeys log =
        asked-ObeysAt call_get_namespaces w.get_namespaces namespaces [] (check_namespaces w)
          (flat_map (namespace_plan pods) namespaces) log (h.lists log)
          (check_namespaces-Obeys namespaces)
