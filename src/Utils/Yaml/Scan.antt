-- ===== src/Utils/Yaml/Scan.antt =====
-- pkg/utils/yaml/splitdocument.go: the reading of a whole stream.
use mathlib.Core.Option
use eliot.Prelude.{
  ℕ, zero, suc, ◌+◌, ◌-◌, ◌≡◌, ◌<◌, refl, Bytes, Bool, true, false, none, some, List, [], ◌∷◌, ◌++◌,
  length, drop, bytes_beq, nat_eq, arith, Option-cases, inl, inr, Lacks,
}
use eliot.Utils.Yaml.{
  yaml_separator, index, behind_separator, split_yaml_document, next_document, scan, documents,
}
use eliot.Utils.Yaml.Laws.{split_yaml_document_pos, index-document, index_byte-Lacks}

length-drop : (n : ℕ) (xs : Bytes) → length (drop n xs) ≡ length xs - n
length-drop zero xs = omega arith
length-drop (suc n) [] = omega arith
length-drop (suc n) (x ∷ xs) = omega (arith, length-drop n xs)

split_yaml_document-nil : (at_eof : Bool) → split_yaml_document [] at_eof ≡ (0, none)
unfolding split_yaml_document index bytes_beq
split_yaml_document-nil true = refl
split_yaml_document-nil false = refl

advance_pos :
    (s : Bytes) (at_eof : Bool) (t : Bytes)
    → (split_yaml_document s at_eof).1 ≡ some t
    → 0 < (split_yaml_document s at_eof).0
advance_pos s at_eof t h =
    split_yaml_document_pos s at_eof _ t (λ i. ((split_yaml_document s at_eof).0, h i))

next_document_pos : (s t : Bytes) → (next_document s).1 ≡ some t → 0 < (next_document s).0
unfolding next_document
next_document_pos s t h = ground (arith, advance_pos s true t, advance_pos s false t)

next_document-nil : next_document [] ≡ (0, none)
unfolding next_document
next_document-nil = rw (split_yaml_document-nil false, next_document) (split_yaml_document-nil true)

-- A scan that has more fuel than there are bytes ends, with a list of documents.
scan_total : (fuel : ℕ) (s : Bytes) → length s < fuel → (ts : List Bytes) × (scan fuel s ≡ some ts)
unfolding scan
scan_total zero s h = elim h [ ]
scan_total (suc fuel) [] h = ([], rw (next_document-nil, scan))
scan_total (suc fuel) (x ∷ s) h = elim (Option-cases (next_document (x ∷ s)).1) [
  | inl e ↦ ([], rw (e, scan))
  | inr (t, e) ↦
      let n = (next_document (x ∷ s)).0 in
      let (ts, f) =
        scan_total fuel (drop n (x ∷ s))
          (omega (arith, next_document_pos (x ∷ s) t e, length-drop n (x ∷ s))) in
      (t ∷ ts, rw (e, scan) (rw f))
]

-- The fuel that `documents` gives is enough on every stream of bytes.
documents_total : (s : Bytes) → (ts : List Bytes) × (documents s ≡ some ts)
unfolding documents
documents_total s = scan_total (suc (length s)) s (omega arith)

-- A text behind a document, its separator line and the line's end.
abbrev pub stream : List Bytes → Bytes → Bytes
stream [] last = last
stream (d ∷ ds) last = d ++ (yaml_separator ++ (b'\n' ∷ stream ds last))

-- No separator stands in the text.
abbrev pub IsPlain : Bytes → Type 0
IsPlain d = index yaml_separator d ≡ none

drop_suffix : (n k : ℕ) (d t : Bytes) → n ≡ length d + k → drop n (d ++ t) ≡ drop k t
drop_suffix n k [] t e = let f : n ≡ k = omega arith in rw f
drop_suffix zero k (x ∷ d) t e = absurd (omega arith)
drop_suffix (suc n) k (x ∷ d) t e = drop_suffix n k d t (omega arith)

split_yaml_document-unfinished :
    (d : Bytes) (x : ℕ) (t : Bytes) (at_eof : Bool)
    → IsPlain d
    → Lacks b'\n' (x ∷ t)
    → split_yaml_document (d ++ (yaml_separator ++ x ∷ t)) at_eof ≡ (0, none)
unfolding split_yaml_document behind_separator
split_yaml_document-unfinished d x t at_eof h l =
    let n = length d + 4 in
    ground (
      arith,
      index-document d (x ∷ t) h,
      drop_suffix n 4 d (yaml_separator ++ x ∷ t) refl,
      index_byte-Lacks b'\n' (x ∷ t) l,
    )

-- A document is lost, and so is all that follows, when its separator line has more text on it and
-- the stream ends before the line does.
pub documents_lost :
    (d : Bytes) (x : ℕ) (t : Bytes)
    → IsPlain d
    → Lacks b'\n' (x ∷ t)
    → documents (d ++ (yaml_separator ++ x ∷ t)) ≡ some []
unfolding documents scan next_document
documents_lost d x t h l = ground (
  arith,
  split_yaml_document-unfinished d x t true h l,
  split_yaml_document-unfinished d x t false h l,
)
