-- ===== src/Utils/Yaml.antt =====
-- pkg/utils/yaml/splitdocument.go: the split function for streams of YAML documents, and the
-- bufio.Scanner loop that drives it. The scanner is modelled for input that fits its buffer: it
-- offers all bytes left, first without and then, if nothing was taken, with the end of the file.
pub mod Laws
pub mod Scan
use mathlib.Core.Option
use eliot.Prelude.{
  ℕ, zero, suc, ◌+◌, ◌-◌, ◌≡◌, refl, Bytes, codes, Bool, true, false, ◌&&◌, Option, none, some,
  List, [], ◌∷◌, ◌++◌, length, take, drop, has_prefix, bytes_beq, ◌==◌, nat_eq, if◌then◌else◌,
}

abbrev pub yaml_separator : Bytes
yaml_separator = codes "\n---"

-- bytes.Index(s, sep), for a separator that is not empty
unfoldable pub index : Bytes → Bytes → Option ℕ
index sep [] = none
index sep (x ∷ s) =
    let later = Option.map suc (index sep s) in if has_prefix (x ∷ s) sep then some 0 else later

-- bytes.IndexByte(s, c)
unfoldable pub index_byte : ℕ → Bytes → Option ℕ
index_byte c [] = none
index_byte c (x ∷ s) =
    let later = Option.map suc (index_byte c s) in if x == c then some 0 else later

-- advance and token; the error is always nil.
abbrev pub Split : Type 0
Split = ℕ × Option Bytes

-- What stands behind the separator at i - sep.
behind_separator : Bytes → Bool → ℕ → Bytes → Split
behind_separator s at_eof i [] =
    if at_eof then (length s, some (take (length s - 4) s)) else (0, none)
behind_separator s at_eof i (x ∷ after) = elim (index_byte b'\n' (x ∷ after)) [
  | some j ↦ (i + j + 1, some (take (i - 4) s))
  | none ↦ (0, none)
]

unfoldable pub split_yaml_document : Bytes → Bool → Split
unfolding behind_separator
split_yaml_document s at_eof =
    if at_eof && bytes_beq s [] then (0, none) else elim (index yaml_separator s) [
      | some k ↦ let i = k + 4 in behind_separator s at_eof i (drop i s)
      | none ↦ if at_eof then (length s, some s) else (0, none)
    ]

-- scanner.Scan(): the split function is called on the bytes left, and called again with the end
-- of the file when it took nothing.
unfoldable pub next_document : Bytes → Split
next_document s = elim (split_yaml_document s false).1 [
  | some t ↦ split_yaml_document s false
  | none ↦ split_yaml_document s true
]

-- for scanner.Scan() { … scanner.Bytes() … }. none: the fuel ran out.
unfoldable pub scan : ℕ → Bytes → Option (List Bytes)
unfolding next_document
scan zero s = none
scan (suc fuel) s = elim (next_document s).1 [
  | some t ↦ Option.map (λ (ts : List Bytes). t ∷ ts) (scan fuel (drop (next_document s).0 s))
  | none ↦ some []
]

-- All documents of a stream.
unfoldable pub documents : Bytes → Option (List Bytes)
unfolding scan split_yaml_document index index_byte has_prefix bytes_beq
documents s = scan (suc (length s)) s

tests :
    (documents (codes "\nfoo: bar\n---\nfoo: baz\n")
      ≡ some (codes "\nfoo: bar" ∷ codes "foo: baz\n" ∷ []))
    × (documents (codes "a\n---") ≡ some (codes "a" ∷ []))
    × (documents [] ≡ some [])
    × (documents (codes "a: 1\n--- # end") ≡ some [])
unfolding documents
tests = (refl, refl, refl, refl)
