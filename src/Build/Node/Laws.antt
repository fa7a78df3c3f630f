-- ===== src/Build/Node/Laws.antt =====
-- cmd/eli/buildNodeCommand.go: the calls that the command makes.
use eliot.Prelude.{
  Bytes, Bool, true, false, List, [], ◌∷◌, ◌++◌, if◌then◌else◌, Outcome, ok, err, crash, Error, leb,
  ◌&&◌, append_assoc, append-nil, ◌≡◌, refl, sym, ap, ◌∙◌, Bool-cases, inl, inr,
}
use eliot.Program.{lift, ask, deferred, continue, ◌>>=◌}
use eliot.Program.Returns.{deferred-log}
use eliot.Build.{Sources, resolve_linuxkit_config}
use eliot.Build.Node.{
  BuildCall, create_file, close_file, print_config, post, copy_image, BuildLog, Response, Outside,
  NodeFlags, image_of, build_url, build_image, write_node, to_output, build_node,
}

-- What the command calls for a configuration, from the answers.
abbrev pub image_calls : Outcome Bytes → List BuildCall
image_calls (ok image) = copy_image image ∷ []
image_calls (err e) = []
image_calls crash = []

abbrev pub response_calls : Outside → Outcome Response → List BuildCall
response_calls w (ok res) = image_calls (image_of w res)
response_calls w (err e) = []
response_calls w crash = []

abbrev pub write_calls : Outside → NodeFlags → Bytes → BuildLog → List BuildCall
write_calls w flags linuxkit log =
    let request = post (build_url w flags.build_server flags.build_type) linuxkit in
    if flags.dry_run
    then print_config linuxkit ∷ []
    else request ∷ response_calls w (w.respond (log ++ request ∷ []))

abbrev pub file_calls : Outside → NodeFlags → Bytes → BuildLog → Outcome (Unit {0}) → List BuildCall
file_calls w flags linuxkit log (ok _) = write_calls w flags linuxkit log ++ close_file ∷ []
file_calls w flags linuxkit log (err e) = []
file_calls w flags linuxkit log crash = []

abbrev pub node_calls : Outside → Bool → NodeFlags → Bytes → BuildLog → List BuildCall
node_calls w piping_out flags linuxkit log =
    let made = log ++ create_file flags.output ∷ [] in
    if piping_out
    then write_calls w flags linuxkit log
    else create_file flags.output ∷ file_calls w flags linuxkit made (w.done made)

-- Package os, the copy and the requests do not panic.
pub record Runs (w : Outside) : Type 0 where
  pub returns : (log : BuildLog) → w.done log ≡ crash → ⊥
  pub responds : (log : BuildLog) → w.respond log ≡ crash → ⊥

one_of-runs :
    (b c : Bool) (body : Bytes) (e f : Error)
    → (if b then ok body else if c then err e else err f) ≡ crash
    → ⊥
one_of-runs true c body e f = λ x. cc
one_of-runs false true body e f = λ x. cc
one_of-runs false false body e f = λ x. cc

module _ (w : Outside) (h : Runs w) where
  -- The calls behind the log, of a program that does not panic.
  abbrev Calls : {A : Type 0} → Outcome A × BuildLog → BuildLog → List BuildCall → Type 0
  Calls r log calls = (r.1 ≡ log ++ calls) × (r.0 ≡ crash → ⊥)

  behind :
      {A : Type 0} (c : BuildCall) (r : Outcome A × BuildLog) (log : BuildLog)
      (calls : List BuildCall)
      → Calls r (log ++ c ∷ []) calls
      → Calls r log (c ∷ calls)
  behind c r log calls (e, n) = (e ∙ append_assoc log (c ∷ []) calls, n)

  image_of-runs : (res : Response) → image_of w res ≡ crash → ⊥
  image_of-runs res =
      one_of-runs (leb 200 res.status_code && leb res.status_code 299) res.read_error res.body _ _

  copied :
      (image : Outcome Bytes) (log : BuildLog)
      → (image ≡ crash → ⊥)
      → Calls (continue image (λ i. ask (copy_image i) w.done) log) log (image_calls image)
  unfolding ask
  copied (ok image) log n = (refl, h.returns _)
  copied (err e) log n = (sym (append-nil log), λ x. cc)
  copied crash log n = absurd (n refl)

  responded :
      (r : Outcome Response) (log : BuildLog)
      → (r ≡ crash → ⊥)
      → Calls
          (continue
            (continue r (λ res. lift (image_of w res)) log).0
            (λ i. ask (copy_image i) w.done)
            (continue r (λ res. lift (image_of w res)) log).1)
          log
          (response_calls w r)
  unfolding lift
  responded (ok res) log n = copied (image_of w res) log (image_of-runs res)
  responded (err e) log n = (sym (append-nil log), λ x. cc)
  responded crash log n = absurd (n refl)

  write_node-calls :
      (flags : NodeFlags) (linuxkit : Bytes) (log : BuildLog)
      → Calls (write_node w flags linuxkit log) log (write_calls w flags linuxkit log)
  unfolding write_node build_image ask ◌>>=◌
  write_node-calls flags linuxkit log = elim (Bool-cases flags.dry_run) [
    | inl e ↦ rw e (refl, λ x. cc)
    | inr e ↦ rw e (
        let request = post (build_url w flags.build_server flags.build_type) linuxkit in
        let sent = log ++ request ∷ [] in
        behind request _ log _ (responded (w.respond sent) sent (h.responds sent)))
  ]

  opened :
      (flags : NodeFlags) (linuxkit : Bytes) (r : Outcome (Unit {0})) (log : BuildLog)
      → (r ≡ crash → ⊥)
      → (continue r (λ _. deferred (write_node w flags linuxkit) (ask close_file λ _. ok tt)) log).1
        ≡ log ++ file_calls w flags linuxkit log r
  unfolding ask
  opened flags linuxkit (ok x) log n =
      let (calls, runs) = write_node-calls flags linuxkit log in
      (deferred-log (write_node w flags linuxkit) (ask close_file λ _. ok tt) log runs).0
      ∙ ap (λ l. l ++ close_file ∷ []) calls
      ∙ append_assoc log _ (close_file ∷ [])
  opened flags linuxkit (err e) log n = sym (append-nil log)
  opened flags linuxkit crash log n = absurd (n refl)

  -- Where a configuration is found, `eli build node` makes the file of the output first, unless the
  -- output is piped, and closes it in the end, whatever happens in between. With --dry-run only the
  -- configuration is printed, and nothing is sent to the build server; otherwise it is sent, and the
  -- image is copied to the output if the server answered with a success.
  pub build_node-calls :
      (sources : Sources) (piping_out : Bool) (flags : NodeFlags) (source linuxkit : Bytes)
      (log : BuildLog)
      → resolve_linuxkit_config sources source ≡ ok linuxkit
      → (build_node w sources piping_out flags source log).1
        ≡ log ++ node_calls w piping_out flags linuxkit log
  unfolding build_node to_output lift ask ◌>>=◌
  build_node-calls sources piping_out flags source linuxkit log e =
      rw e (elim (Bool-cases piping_out) [
        | inl p ↦ rw p (write_node-calls flags linuxkit log).0
        | inr p ↦ rw p (
            let made = log ++ create_file flags.output ∷ [] in
            opened flags linuxkit (w.done made) made (h.returns made) ∙ append_assoc log _ _)
      ])
