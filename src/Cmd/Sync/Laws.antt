-- ===== src/Cmd/Sync/Laws.antt =====
-- pkg/sync and cmd/eli/upCommand.go: the directories that are synced, on the side of the node and on
-- that of the client.
use eliot.Prelude.{
  ℕ, Bytes, codes, false, List, [], ◌∷◌, ◌++◌, some, Outcome, ok, err, crash, map, ◌≡◌, refl, ap,
  ◌∙◌, append_assoc, ◌==◌, nat_eq, arith, split, onto_first, replace, join, has, Lacks,
  Lacks-append, All, traverse, bind-ok, ok-injective, subst, Bool-cases, inl, inr,
}
use eliot.Api.Types.{ApiContainer, ApiMount}
use eliot.Api.Client.Options.{with_container, with_shared_mount}
use eliot.Cmd.Flags.{
  Sync, sync_of, must, parse_sync, must_parse_syncs, bind_mount, must_parse_bind_flag,
}
use eliot.Cmd.Flags.Laws.{parse_bind_flag-join}
use eliot.Cmd.Session.{Flags, sync_mount, with_volumes, workdir_opts, opts_for, up_opts}

-- The name of a destination, without slashes.
abbrev pub volume_of : Sync → Bytes
volume_of sync = replace b'/' b'_' sync.destination

-- The mount of a destination: the directory of its name under that of the pod.
abbrev pub volume_mount : Bytes → Sync → ApiMount
volume_mount name sync =
    bind_mount (codes "/var/lib/volumes/" ++ (name ++ (b'/' ∷ volume_of sync))) sync.destination
      (codes "rw" ∷ codes "rshared" ∷ codes "rbind" ∷ [])

onto_first-Lacks :
    (c x : ℕ) (ps : List Bytes)
    → (x == c) ≡ false
    → All (Lacks c) ps
    → All (Lacks c) (onto_first x ps)
unfolding has
onto_first-Lacks c x [] e h = (ground arith, tt)
onto_first-Lacks c x (p ∷ ps) e (h, hs) = (ground arith, hs)

-- No part of a text that is split holds the separator.
split-All_Lacks : (c : ℕ) (s : Bytes) → All (Lacks c) (split c s)
unfolding split has
split-All_Lacks c [] = (refl, tt)
split-All_Lacks c (x ∷ s) = elim (Bool-cases (x == c)) [
  | inl e ↦ rw e (refl, split-All_Lacks c s)
  | inr e ↦ rw e (onto_first-Lacks c x (split c s) e (split-All_Lacks c s))
]

replace-Lacks : (c a b : ℕ) (s : Bytes) → (b == c) ≡ false → Lacks c s → Lacks c (replace a b s)
unfolding replace has
replace-Lacks c a b [] e h = refl
replace-Lacks c a b (x ∷ s) e h = ground (arith, replace-Lacks c a b s e)

-- The flag of the mount of a destination, as its parts.
volume_text :
    (name : Bytes) (sync : Sync)
    → codes "/var/lib/volumes/"
        ++ name
        ++ codes "/"
        ++ volume_of sync
        ++ codes ":"
        ++ sync.destination
        ++ codes ":rw,rshared"
      ≡ join b':' (
          (codes "/var/lib/volumes/" ++ (name ++ (b'/' ∷ volume_of sync)))
          ∷ sync.destination
          ∷ join b',' (codes "rw" ∷ codes "rshared" ∷ [])
          ∷ [])
unfolding join
volume_text name sync =
    let dir = codes "/var/lib/volumes/" in
    let src = dir ++ (name ++ (b'/' ∷ volume_of sync)) in
    ap (λ t. t ++ codes ":" ++ sync.destination ++ codes ":rw,rshared")
      (append_assoc (dir ++ name) (codes "/") (volume_of sync)
        ∙ append_assoc dir name (b'/' ∷ volume_of sync))
    ∙ append_assoc (src ++ codes ":") sync.destination (codes ":rw,rshared")
    ∙ append_assoc src (codes ":") (sync.destination ++ codes ":rw,rshared")

sync_mount-volume_mount :
    (name : Bytes) (sync : Sync)
    → Lacks b':' name
    → Lacks b':' sync.destination
    → sync_mount name sync ≡ ok (volume_mount name sync)
unfolding sync_mount must_parse_bind_flag has join
sync_mount-volume_mount name sync h k =
    let rest = replace-Lacks b':' b'/' b'_' sync.destination refl k in
    let src =
      Lacks-append b':' (codes "/var/lib/volumes/") (name ++ (b'/' ∷ volume_of sync)) refl
        (Lacks-append b':' name (b'/' ∷ volume_of sync) h rest) in
    let parsed =
      (parse_bind_flag-join (codes "/var/lib/volumes/" ++ (name ++ (b'/' ∷ volume_of sync)))
        sync.destination (codes "rw") (codes "rshared" ∷ []) src k refl refl (refl, tt)).0 in
    ap must_parse_bind_flag (volume_text name sync) ∙ ap must parsed

abbrev Destined : Sync → Type 0
Destined sync = Lacks b':' sync.destination

sync_of-Destined :
    (parts : List Bytes) (sync : Sync)
    → All (Lacks b':') parts
    → sync_of parts ≡ ok sync
    → Destined sync
sync_of-Destined [] sync h e = absurd cc
sync_of-Destined (p ∷ []) sync h e = absurd cc
sync_of-Destined (p ∷ q ∷ []) sync (_, (h, _)) e = subst Destined (ok-injective e) h
sync_of-Destined (p ∷ q ∷ r ∷ ps) sync h e = absurd cc

must-ok : (r : Outcome Sync) (sync : Sync) → must r ≡ ok sync → r ≡ ok sync
must-ok (ok s) sync e = e
must-ok (err x) sync e = absurd cc
must-ok crash sync e = absurd cc

must_parse_syncs-Destined :
    (texts : List Bytes) (syncs : List Sync)
    → must_parse_syncs texts ≡ ok syncs
    → All Destined syncs
unfolding must_parse_syncs parse_sync
must_parse_syncs-Destined [] syncs e = subst (All Destined) (ok-injective e) tt
must_parse_syncs-Destined (s ∷ ss) syncs e =
    let (sync, p, q) = bind-ok (must (parse_sync s)) _ syncs e in
    let (rest, p', q') = bind-ok (must_parse_syncs ss) _ syncs q in
    subst (All Destined) (ok-injective q') (
      sync_of-Destined (split b':' s) sync (split-All_Lacks b':' s) (must-ok _ sync p),
      must_parse_syncs-Destined ss rest p',
    )

traverse-volume_mount :
    (name : Bytes) (syncs : List Sync)
    → Lacks b':' name
    → All Destined syncs
    → traverse (sync_mount name) syncs ≡ ok (map (volume_mount name) syncs)
unfolding traverse
traverse-volume_mount name [] h hs = refl
traverse-volume_mount name (sync ∷ syncs) h (k, ks) =
    rw (sync_mount-volume_mount name sync h k, traverse-volume_mount name syncs h ks) refl

-- Syncs that were parsed from arguments never make up panic, if no colon is in the name of the pod,
-- whatever else is in their texts: the pod gets the container that syncs, with the variable that
-- lists the destinations, and for each sync the mount of the volume of its name at its destination.
pub up_opts-must_parse_syncs :
    (flags : Flags) (texts : List Bytes) (sync : Sync) (syncs : List Sync)
    (container : ApiContainer)
    → must_parse_syncs texts ≡ ok (sync ∷ syncs)
    → Lacks b':' flags.name
    → up_opts flags (sync ∷ syncs) (some container)
      ≡ ok (
          with_container (with_volumes container (sync ∷ syncs))
          ∷ with_shared_mount (map (volume_mount flags.name) (sync ∷ syncs))
          ∷ workdir_opts flags.workdir (sync ∷ syncs))
unfolding up_opts
up_opts-must_parse_syncs flags texts sync syncs container e h =
    ap (opts_for flags.workdir (sync ∷ syncs) container) (
      traverse-volume_mount flags.name (sync ∷ syncs) h
        (must_parse_syncs-Destined texts (sync ∷ syncs) e))
