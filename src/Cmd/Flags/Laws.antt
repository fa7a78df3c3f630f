-- ===== src/Cmd/Flags/Laws.antt =====
-- cmd/utils.go: what the parsers of arguments accept.
use eliot.Prelude.{
  Bytes, codes, Bool, true, false, List, [], ◌∷◌, ◌++◌, Option, none, some, if◌then◌else◌, ok,
  crash, bytes_beq, bytes_eq, join, split-join, Lacks, All, map, ◌&&◌, ◌||◌, arith, ◌≡◌, refl,
}
use eliot.Cmd.Ui.{Output, hidden, terminal, debug, after_op}
use eliot.Cmd.Flags.{
  behind_dash, drop_double_dash, bind_mount, parse_bind_flag, parse_mount_flag, must_parse_mounts,
}

-- A bind flag of a source, a destination and options gives these options and "rbind", and one
-- without options the default options, if no part holds a colon and no option a comma.
pub parse_bind_flag-join :
    (src dest opt : Bytes) (opts : List Bytes)
    → Lacks b':' src
    → Lacks b':' dest
    → Lacks b':' (join b',' (opt ∷ opts))
    → Lacks b',' opt
    → All (Lacks b',') opts
    → (parse_bind_flag (join b':' (src ∷ dest ∷ join b',' (opt ∷ opts) ∷ []))
        ≡ ok (bind_mount src dest ((opt ∷ opts) ++ (codes "rbind" ∷ []))))
      × (parse_bind_flag (join b':' (src ∷ dest ∷ []))
          ≡ ok (bind_mount src dest (codes "rw" ∷ codes "rbind" ∷ codes "rprivate" ∷ [])))
unfolding parse_bind_flag
parse_bind_flag-join src dest opt opts hs hd ho h hopts = (
  rw (parse_bind_flag, split-join b':' src (dest ∷ join b',' (opt ∷ opts) ∷ []) hs (hd, (ho, tt)))
      (rw (split-join b',' opt opts h hopts) refl),
  rw (parse_bind_flag, split-join b':' src (dest ∷ []) hs (hd, tt)) refl,
)

module _ (read_csv : Bytes → Option (List Bytes)) where
  -- Whether every flag parses.
  abbrev pub all_parse : List Bytes → Bool
  all_parse [] = true
  all_parse (m ∷ ms) = (parse_mount_flag read_csv m).1 && all_parse ms

  abbrev pub is_hidden : Output → Bool
  is_hidden hidden = true
  is_hidden _ = false

  -- On the terminal and with debug output the mounts are returned exactly if all flags parse, and the
  -- process ends otherwise; with hidden output it goes on, with what was read of each flag.
  must_parse_mounts_lem :
      (output : Output) (ms : List Bytes)
      → must_parse_mounts read_csv output ms ≡ (
          if all_parse ms || is_hidden output
          then ok (map (λ m. (parse_mount_flag read_csv m).0) ms)
          else crash)
  unfolding must_parse_mounts after_op
  must_parse_mounts_lem terminal [] = refl
  must_parse_mounts_lem debug [] = refl
  must_parse_mounts_lem hidden [] = refl
  must_parse_mounts_lem terminal (m ∷ ms) = ground (arith, must_parse_mounts_lem terminal ms)
  must_parse_mounts_lem debug (m ∷ ms) = ground (arith, must_parse_mounts_lem debug ms)
  must_parse_mounts_lem hidden (m ∷ ms) = ground (arith, must_parse_mounts_lem hidden ms)

-- No argument is "--".
abbrev pub NoDash : List Bytes → Type 0
NoDash = All λ a. bytes_beq a (codes "--") ≡ false

behind_dash-append :
    (before behind : List Bytes)
    → NoDash before
    → (behind_dash (before ++ codes "--" ∷ behind) ≡ some behind) × (behind_dash before ≡ none)
unfolding behind_dash bytes_beq
behind_dash-append [] behind h = (refl, refl)
behind_dash-append (a ∷ before) behind (h, hs) = rw h (behind_dash-append before behind hs)

-- The arguments behind the first "--" remain, and all of them if there is none.
drop_double_dash-append :
    (before behind : List Bytes)
    → NoDash before
    → (drop_double_dash (before ++ codes "--" ∷ behind) ≡ behind)
      × (drop_double_dash before ≡ before)
unfolding drop_double_dash
drop_double_dash-append before behind h =
    let (p, q) = behind_dash-append before behind h in
    (rw (drop_double_dash, p) refl, rw (drop_double_dash, q) refl)
