-- ===== src/Api/Client/Laws.antt =====
-- pkg/api/client.go: the calls that CreatePod makes.
use eliot.Prelude.{
  Bytes, List, [], ◌∷◌, ◌++◌, Outcome, ok, err, crash, Error, ◌≡◌, refl, sym, ap, ◌∙◌, append_assoc,
  append-nil,
}
use eliot.Program.{raise, lift, ask, deferred, continue, ◌>>=◌}
use eliot.Program.Returns.{deferred-log}
use eliot.Api.Types.{ApiPod}
use eliot.Api.Mapping.Progress.{ApiImageFetch, map_api_model_to_image_fetch_progress}
use eliot.Api.Stream.{Received, message, broken}
use eliot.Api.Client.{
  ClientCall, dial, close_conn, rpc_create, close_send, send_status, Log, Server, Request, PodOpts,
  apply_opts, connected, pass_on, create_pod,
}

-- What is passed on of a stream: every message up to the first error, and the end if there is none.
abbrev pub passed_on : List (Received (List ApiImageFetch)) → List ClientCall
passed_on [] = close_send ∷ []
passed_on (broken ∷ rest) = []
passed_on (message images ∷ rest) =
    send_status (map_api_model_to_image_fetch_progress images) ∷ passed_on rest

abbrev pub passed_replies : Outcome (List (Received (List ApiImageFetch))) → List ClientCall
passed_replies (ok replies) = passed_on replies
passed_replies (err e) = []
passed_replies crash = []

-- The calls for a pod, from the answers to dialling and to Create.
abbrev pub create_calls :
    Bytes
    → ApiPod
    → Outcome (Unit {0})
    → Outcome (List (Received (List ApiImageFetch)))
    → List ClientCall
create_calls url pod (ok _) replies =
    dial url ∷ rpc_create pod ∷ passed_replies replies ++ close_conn ∷ []
create_calls url pod (err e) replies = dial url ∷ []
create_calls url pod crash replies = dial url ∷ []

-- The calls of gRPC do not panic.
pub record Runs (w : Server) : Type 0 where
  pub returns : (log : Log) → w.done log ≡ crash → ⊥
  pub streams : (log : Log) → w.replies log ≡ crash → ⊥

module _ (w : Server) (url namespace : Bytes) (h : Runs w) where
  pass_on-log :
      (rs : List (Received (List ApiImageFetch))) (log : Log)
      → ((pass_on w url namespace rs log).1 ≡ log ++ passed_on rs)
        × ((pass_on w url namespace rs log).0 ≡ crash → ⊥)
  unfolding pass_on ask raise ◌>>=◌
  pass_on-log [] log = (refl, h.returns _)
  pass_on-log (broken ∷ rest) log = (sym (append-nil log), λ e. cc)
  pass_on-log (message images ∷ rest) log =
      let sent = send_status (map_api_model_to_image_fetch_progress images) in
      let (calls, runs) = pass_on-log rest (log ++ sent ∷ []) in
      (calls ∙ append_assoc log (sent ∷ []) (passed_on rest), runs)

  passed-log :
      (r : Outcome (List (Received (List ApiImageFetch)))) (log : Log)
      → (r ≡ crash → ⊥)
      → ((continue r (pass_on w url namespace) log).1 ≡ log ++ passed_replies r)
        × ((continue r (pass_on w url namespace) log).0 ≡ crash → ⊥)
  passed-log (ok rs) log n = pass_on-log rs log
  passed-log (err e) log n = (sym (append-nil log), λ x. cc)
  passed-log crash log n = absurd (n refl)

  abbrev sending : ApiPod → Request (Unit {0})
  sending pod = do replies ← ask (rpc_create pod) w.replies; pass_on w url namespace replies

  requested-log :
      (pod : ApiPod) (r : Outcome (Unit {0})) (log : Log)
      → (continue r (λ _. deferred (sending pod) (ask close_conn w.done)) (log ++ dial url ∷ [])).1
        ≡ log ++ create_calls url pod r (w.replies ((log ++ dial url ∷ []) ++ rpc_create pod ∷ []))
  unfolding ask ◌>>=◌
  requested-log pod (ok x) log =
      let made = (log ++ dial url ∷ []) ++ rpc_create pod ∷ [] in
      let rest = passed_replies (w.replies made) ++ close_conn ∷ [] in
      let (calls, runs) = passed-log (w.replies made) made (h.streams made) in
      (deferred-log (sending pod) (ask close_conn w.done) (log ++ dial url ∷ []) runs).0
      ∙ ap (λ l. l ++ close_conn ∷ []) calls
      ∙ append_assoc made (passed_replies (w.replies made)) (close_conn ∷ [])
      ∙ append_assoc (log ++ dial url ∷ []) (rpc_create pod ∷ []) rest
      ∙ append_assoc log (dial url ∷ []) (rpc_create pod ∷ rest)
  requested-log pod (err e) log = refl
  requested-log pod crash log = refl

  -- A pod whose options fail is not sent, and nothing is called.
  create_pod-opts :
      (pod : ApiPod) (opts : List PodOpts) (e : Error) (log : Log)
      → apply_opts opts pod ≡ err e
      → create_pod w url namespace pod opts log ≡ (err e, log)
  unfolding create_pod lift ◌>>=◌
  create_pod-opts pod opts e log x = rw x refl

-- What CreatePod calls for the pod that the options make of its argument, where the calls of gRPC do
-- not panic: it dials and, if that fails, nothing more; otherwise it asks for the pod, passes on every
-- message of the answer in order up to its first error, or with the end of the stream behind them if
-- it has none (nothing if Create fails), and closes the connection.
pub create_pod-calls :
    (w : Server) (url namespace : Bytes) (pod pod' : ApiPod) (opts : List PodOpts) (log : Log)
    → Runs w
    → apply_opts opts pod ≡ ok pod'
    → (create_pod w url namespace pod opts log).1
      ≡ log
        ++ create_calls url pod'
            (w.done (log ++ dial url ∷ []))
            (w.replies ((log ++ dial url ∷ []) ++ rpc_create pod' ∷ []))
unfolding create_pod connected lift ◌>>=◌ ask
create_pod-calls w url namespace pod pod' opts log h e =
    rw e (requested-log w url namespace h pod' (w.done (log ++ dial url ∷ [])) log)
