-- ===== src/Cmd/Flags.antt =====
-- cmd/utils.go and pkg/sync/utils.go: the arguments of the commands.
pub mod Laws
use eliot.Prelude.{
  ℕ, Bytes, codes, Bool, true, false, List, [], ◌∷◌, ◌++◌, Option, none, some, if◌then◌else◌,
  Outcome, ok, err, crash, Error, failure, ◌>>=◌, ◌>>◌, ◌||◌, bytes_beq, ◌==◌, bytes_eq, split,
  split_n, Dict, insert, replace, decimal, traverse, ◌≡◌, refl,
}
use eliot.Api.Types.{ApiMount}
use eliot.Cmd.Ui.{Output, LineOp, fatal, after_op}

-- First
unfoldable pub first : List Bytes → Bytes
first [] = []
first (s ∷ ss) = if bytes_beq s [] then first ss else s

-- DropDoubleDash: the arguments behind the first "--".
behind_dash : List Bytes → Option (List Bytes)
behind_dash [] = none
behind_dash (a ∷ args) = if a == codes "--" then some args else behind_dash args

unfoldable pub drop_double_dash : List Bytes → List Bytes
unfolding behind_dash
drop_double_dash args = elim (behind_dash args) [ none ↦ args | some rest ↦ rest ]

-- The mount that ParseBindFlag returns.
unfoldable pub bind_mount : Bytes → Bytes → List Bytes → ApiMount
bind_mount src dest opts = record {
  kind = codes "bind";
  source = src;
  destination = dest;
  options = opts;
}

-- ParseBindFlag, on the parts of strings.Split(b, ":")
unfoldable pub parse_bind_flag : Bytes → Outcome ApiMount
unfolding bind_mount split
parse_bind_flag b = elim (split b':' b) [
  | src ∷ dest ∷ [] ↦ ok (bind_mount src dest (codes "rw" ∷ codes "rbind" ∷ codes "rprivate" ∷ []))
  | src ∷ dest ∷ opts ∷ [] ↦ ok (bind_mount src dest (split b',' opts ++ (codes "rbind" ∷ [])))
  | _ ∷ _ ∷ _ ∷ _ ∷ _ ↦ err (failure (codes "Cannot parse bind, too many ':'"))
  | _ ↦ err (failure (codes "Cannot parse bind, missing ':'"))
]

-- MustParseBindFlag panics at an error.
abbrev pub must : {A : Type 0} → Outcome A → Outcome A
must (ok a) = ok a
must _ = crash

unfoldable pub must_parse_bind_flag : Bytes → Outcome ApiMount
unfolding parse_bind_flag
must_parse_bind_flag b = must (parse_bind_flag b)

-- MustParseBinds: where Fatalf returns, the nil of the failed flag is appended.
unfoldable pub must_parse_binds : Output → List Bytes → Outcome (List (Option ApiMount))
unfolding parse_bind_flag after_op
must_parse_binds output [] = ok []
must_parse_binds output (b ∷ bs) = elim (parse_bind_flag b) [
  | ok m ↦ (do rest ← must_parse_binds output bs; ok (some m ∷ rest))
  | _ ↦ (do
    after_op output (fatal (codes "Failed to parse --bind flag"))
    rest ← must_parse_binds output bs
    ok (none ∷ rest))
]

-- One field of a mount, on the parts of strings.Split(field, "="); none: an error.
unfoldable pub mount_field : ApiMount → List Bytes → Option ApiMount
unfolding split
mount_field mount (key ∷ val ∷ []) =
    if key == codes "type"
    then some (record mount { kind = val })
    else if key == codes "source" || key == codes "src"
    then some (record mount { source = val })
    else if key == codes "destination" || key == codes "dst"
    then some (record mount { destination = val })
    else if key == codes "options"
    then some (record mount { options = split b':' val })
    else none
mount_field mount _ = none

-- The loop over the fields: the mount so far, and whether there is no error.
unfoldable pub mount_fields : ApiMount → List Bytes → ApiMount × Bool
unfolding mount_field
mount_fields mount [] = (mount, true)
mount_fields mount (field ∷ fields) = elim (mount_field mount (split b'=' field)) [
  | none ↦ (mount, false)
  | some mount' ↦ mount_fields mount' fields
]

-- &containers.Mount{}
abbrev pub empty_mount : ApiMount
empty_mount = record { kind = []; source = []; destination = []; options = [] }

-- The CSV reader of the standard library: the fields of the first record, or an error.
module _ (read_csv : Bytes → Option (List Bytes)) where
  unfoldable pub parse_mount_flag : Bytes → ApiMount × Bool
  unfolding mount_fields
  parse_mount_flag m = elim (read_csv m) [
    | none ↦ (empty_mount, false)
    | some fields ↦ mount_fields empty_mount fields
  ]

  -- MustParseMounts: where Fatalf returns, what there is of the failed mount is appended.
  unfoldable pub must_parse_mounts : Output → List Bytes → Outcome (List ApiMount)
  unfolding parse_mount_flag after_op
  must_parse_mounts output [] = ok []
  must_parse_mounts output (m ∷ ms) =
      let (mount, is_ok) = parse_mount_flag m in
      let rest = must_parse_mounts output ms in
      let failed = after_op output (fatal (codes "Failed to parse --mount flag")) in
      do if is_ok then ok tt else failed; mounts ← rest; ok (mount ∷ mounts)

-- GetLabels, on the values of strings.Split(param, ",")
unfoldable pub read_labels : Output → Dict Bytes → List Bytes → Outcome (Dict Bytes)
unfolding after_op split
read_labels output labels [] = ok labels
read_labels output labels (value ∷ values) = elim (split b'=' value) [
  | key ∷ val ∷ [] ↦ read_labels output (insert key val labels) values
  | _ ↦ (do
    after_op output (fatal (codes "Invalid --labels parameter"))
    read_labels output labels values)
]

-- none: the flag is not set.
unfoldable pub get_labels : Output → Option Bytes → Outcome (Dict Bytes)
unfolding read_labels
get_labels output none = ok []
get_labels output (some param) = read_labels output [] (split b',' param)

-- pkg/sync/model.go
pub record Sync : Type 0 where
  pub source : Bytes
  pub destination : Bytes

-- sync.Parse, on the parts of strings.Split(str, ":")
abbrev pub sync_of : List Bytes → Outcome Sync
sync_of (source ∷ destination ∷ []) = ok (record { source = source; destination = destination })
sync_of _ = err (failure (codes "Invalid formated sync"))

unfoldable pub parse_sync : Bytes → Outcome Sync
unfolding split
parse_sync str = sync_of (split b':' str)

-- MustParseSyncs, and MustParseAll of pkg/sync: log.Fatalf ends the process.
unfoldable pub must_parse_syncs : List Bytes → Outcome (List Sync)
unfolding parse_sync
must_parse_syncs [] = ok []
must_parse_syncs (s ∷ ss) = do
  sync ← must (parse_sync s)
  rest ← must_parse_syncs ss
  ok (sync ∷ rest)

-- The target of StartRsync: rsync://host:port/destination/, the slashes of the destination replaced.
unfoldable pub rsync_target : Bytes → ℕ → Sync → Bytes
unfolding replace decimal
rsync_target host port sync =
    codes "rsync://"
    ++ (host
        ++ (b':' ∷ (decimal port ++ (b'/' ∷ (replace b'/' b'_' sync.destination ++ codes "/")))))
