-- ===== src/Config/Field.antt =====
-- pkg/converter/kebabcase.go, and Set of pkg/config/config.go, which looks a field up by its name.
-- Texts are ASCII here, so that a rune is a byte.
use eliot.Prelude.{
  Bytes, codes, Bool, true, false, List, [], ◌∷◌, ◌++◌, if◌then◌else◌, Outcome, ok, crash, ◌≡◌,
  refl, All, arith, append_assoc, append-nil, ◌==◌, nat_eq, bytes_eq, leb, ◌&&◌, ◌||◌, ◌-◌, ◌+◌, ℕ,
  ◌<◌, Lacks, has, join, map, ◌∙◌,
}
use mathlib.Core.List.{flatten}
use eliot.Config.{Config}

-- strings.ToUpper at an ASCII character
unfoldable pub to_upper : ℕ → ℕ
to_upper c = if leb b'a' c && leb c b'z' then c - 32 else c

-- The loop over the runes, at the index i.
camel_loop : ℕ → Bool → Bytes → Bytes → Bytes
camel_loop i is_to_upper camel [] = camel
camel_loop i is_to_upper camel (c ∷ s) =
    let upper = camel_loop (i + 1) false (camel ++ to_upper c ∷ []) s in
    let dash = camel_loop (i + 1) true camel s in
    let plain = camel_loop (i + 1) is_to_upper (camel ++ c ∷ []) s in
    if is_to_upper || i == 0 then upper else if c == b'-' then dash else plain

unfoldable pub kebab_case_to_camel_case : Bytes → Bytes
unfolding camel_loop
kebab_case_to_camel_case kebab = camel_loop 0 false [] kebab

-- reflect: the fields of Config are Endpoints, a slice, at which SetString panics, and Namespace.
unfoldable pub set_field : Config → Bytes → Bytes → Outcome Config
set_field c field value =
    let name = kebab_case_to_camel_case field in
    if name == codes "Endpoints"
    then crash
    else if name == codes "Namespace"
    then ok (record c { namespace = value })
    else ok c

tests :
    (kebab_case_to_camel_case (codes "foo-bar") ≡ codes "FooBar")
    × (kebab_case_to_camel_case (codes "namespace") ≡ codes "Namespace")
unfolding kebab_case_to_camel_case to_upper
tests = (refl, refl)

-- A word with its first letter in upper case.
unfoldable pub capitalize : Bytes → Bytes
capitalize [] = []
capitalize (c ∷ s) = to_upper c ∷ s

-- A word of a kebab-case name: not empty, and with no dash.
pub data IsWord : Bytes → Type 0 where
  word : (c : ℕ) (s : Bytes) → Lacks b'-' s → IsWord (c ∷ s)

-- Only whether the index is 0 matters.
camel_loop_index :
    (s : Bytes) (i j : ℕ) (up : Bool) (camel : Bytes)
    → 0 < i
    → 0 < j
    → camel_loop i up camel s ≡ camel_loop j up camel s
unfolding camel_loop
camel_loop_index [] i j up camel h k = refl
camel_loop_index (c ∷ s) i j up camel h k = ground (
  arith,
  camel_loop_index s (i + 1) (j + 1) false (camel ++ to_upper c ∷ []),
  camel_loop_index s (i + 1) (j + 1) true camel,
  camel_loop_index s (i + 1) (j + 1) up (camel ++ c ∷ []),
)

-- The rest of a word, up to the dash behind it.
camel_loop_dash :
    (s t camel : Bytes)
    → Lacks b'-' s
    → camel_loop 1 false camel (s ++ b'-' ∷ t) ≡ camel_loop 1 true (camel ++ s) t
unfolding camel_loop has
camel_loop_dash [] t camel h =
    rw append-nil (camel_loop_index t 2 1 true camel (omega arith) (omega arith))
camel_loop_dash (c ∷ s) t camel h = ground (
  arith,
  camel_loop_dash s t (camel ++ c ∷ []),
  camel_loop_index (s ++ b'-' ∷ t) 2 1 false (camel ++ c ∷ []),
  append_assoc camel (c ∷ []) s,
)

-- The rest of the last word.
camel_loop_last : (s camel : Bytes) → Lacks b'-' s → camel_loop 1 false camel s ≡ camel ++ s
unfolding camel_loop has
camel_loop_last [] camel h = rw append-nil
camel_loop_last (c ∷ s) camel h = ground (
  arith,
  camel_loop_last s (camel ++ c ∷ []),
  camel_loop_index s 2 1 false (camel ++ c ∷ []),
  append_assoc camel (c ∷ []) s,
)

camel_loop_words :
    (w : Bytes) (ws : List Bytes) (camel : Bytes)
    → IsWord w
    → All IsWord ws
    → camel_loop 1 true camel (join b'-' (w ∷ ws)) ≡ camel ++ flatten (map capitalize (w ∷ ws))
unfolding camel_loop join capitalize to_upper flatten
camel_loop_words [] ws camel h hs = elim h [ ]
camel_loop_words (c ∷ s) [] camel (word _ _ h) hs =
    let start = camel ++ to_upper c ∷ [] in
    camel_loop_index s 2 1 false start (omega arith) (omega arith)
    ∙ camel_loop_last s start h
    ∙ simp (append_assoc, append-nil)
camel_loop_words (c ∷ s) (v ∷ ws) camel (word _ _ h) (hv, hs) =
    let start = camel ++ to_upper c ∷ [] in
    camel_loop_index (s ++ b'-' ∷ join b'-' (v ∷ ws)) 2 1 false start (omega arith) (omega arith)
    ∙ camel_loop_dash s (join b'-' (v ∷ ws)) start h
    ∙ camel_loop_words v ws (start ++ s) hv hs
    ∙ simp append_assoc

start_up : (s : Bytes) → kebab_case_to_camel_case s ≡ camel_loop 1 true [] s
unfolding kebab_case_to_camel_case
start_up [] = refl
start_up (c ∷ s) = camel_loop_index s 1 2 false (to_upper c ∷ []) (omega arith) (omega arith)

-- Words joined by dashes become the words with their first letters in upper case, joined by nothing.
kebab_case_to_camel_case-join :
    (w : Bytes) (ws : List Bytes)
    → IsWord w
    → All IsWord ws
    → kebab_case_to_camel_case (join b'-' (w ∷ ws)) ≡ flatten (map capitalize (w ∷ ws))
kebab_case_to_camel_case-join w ws h hs =
    start_up (join b'-' (w ∷ ws)) ∙ camel_loop_words w ws [] h hs
