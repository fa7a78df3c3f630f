-- ===== src/Utils/Yaml/Laws.antt =====
-- pkg/utils/yaml/splitdocument.go: the split function on longer and longer input.
use eliot.Prelude.{
  ℕ, zero, suc, ◌+◌, ◌-◌, ◌≡◌, ◌≤◌, ◌<◌, refl, ap, Bytes, Bool, true, false, ◌&&◌, none, some, [],
  ◌∷◌, ◌++◌, length, take, drop, has_prefix, bytes_beq, ◌==◌, nat_eq, arith, Option-cases, inl, inr,
  Lacks, has,
}
use eliot.Utils.Yaml.{yaml_separator, index, index_byte, behind_separator, split_yaml_document}

-- Whether a text begins with p shows in its first bytes.
has_prefix-append : (s t p : Bytes) → length p ≤ length s → has_prefix (s ++ t) p ≡ has_prefix s p
unfolding has_prefix
has_prefix-append [] [] [] h = refl
has_prefix-append [] (y ∷ t) [] h = refl
has_prefix-append (x ∷ s) t [] h = refl
has_prefix-append [] t (c ∷ p) h = absurd (omega arith)
has_prefix-append (x ∷ s) t (c ∷ p) h =
    ap (λ r. x == c && r) (has_prefix-append s t p (omega arith))

length-le-has_prefix : (s p : Bytes) → has_prefix s p ≡ true → length p ≤ length s
unfolding has_prefix
length-le-has_prefix [] [] h = omega arith
length-le-has_prefix (x ∷ s) [] h = omega arith
length-le-has_prefix [] (c ∷ p) h = cc
length-le-has_prefix (x ∷ s) (c ∷ p) h = ground (arith, length-le-has_prefix s p)

-- An occurrence lies within the text.
pub index_bound : (p s : Bytes) (k : ℕ) → index p s ≡ some k → k + length p ≤ length s
unfolding index
index_bound p [] k h = cc
index_bound p (x ∷ s) zero h = ground (arith, length-le-has_prefix (x ∷ s) p, index_bound p s)
index_bound p (x ∷ s) (suc k) h = ground (arith, index_bound p s k)

-- More text behind it does not move the first occurrence.
index-append : (p s t : Bytes) (k : ℕ) → index p s ≡ some k → index p (s ++ t) ≡ some k
unfolding index
index-append p [] t k h = cc
index-append p (x ∷ s) t zero h =
    ground (arith, length-le-has_prefix (x ∷ s) p, has_prefix-append (x ∷ s) t p)
index-append p (x ∷ s) t (suc k) h =
    ground (arith, index-append p s t k, index_bound p s k, has_prefix-append (x ∷ s) t p)

index_byte-append :
    (c : ℕ) (s t : Bytes) (k : ℕ) → index_byte c s ≡ some k → index_byte c (s ++ t) ≡ some k
unfolding index_byte
index_byte-append c [] t k h = cc
index_byte-append c (x ∷ s) t zero h = ground arith
index_byte-append c (x ∷ s) t (suc k) h = ground (arith, index_byte-append c s t k)

-- A separator that follows a text without one is found behind that text.
pub index-document :
    (d r : Bytes)
    → index yaml_separator d ≡ none
    → index yaml_separator (d ++ (yaml_separator ++ r)) ≡ some (length d)
unfolding index has_prefix
index-document [] r h = ground arith
index-document (x ∷ d) r h = ground (arith, index-document d r, front x d r)
  where
    front :
        (x : ℕ) (d r : Bytes)
        → has_prefix (x ∷ d) yaml_separator ≡ false
        → has_prefix ((x ∷ d) ++ (yaml_separator ++ r)) yaml_separator ≡ false
    front x [] r h = ground arith
    front x (a ∷ []) r h = ground arith
    front x (a ∷ b ∷ []) r h = ground arith
    front x (a ∷ b ∷ c ∷ d) r h = ground arith

pub index_byte-Lacks : (c : ℕ) (s : Bytes) → Lacks c s → index_byte c s ≡ none
unfolding index_byte has
index_byte-Lacks c [] h = refl
index_byte-Lacks c (x ∷ s) h = ground (arith, index_byte-Lacks c s)

length-eq-zero : (s : Bytes) → bytes_beq s [] ≡ false → 0 < length s
unfolding bytes_beq
length-eq-zero [] h = cc
length-eq-zero (x ∷ s) h = omega arith

behind_separator_pos :
    (s after : Bytes) (at_eof : Bool) (i a : ℕ) (t : Bytes)
    → 0 < i
    → 0 < length s
    → behind_separator s at_eof i after ≡ (a, some t)
    → 0 < a
unfolding behind_separator
behind_separator_pos s [] at_eof i a t h l e = ground arith
behind_separator_pos s (x ∷ after) at_eof i a t h l e = ground arith

-- A token comes with an advance, so that a scanner makes progress.
pub split_yaml_document_pos :
    (s : Bytes) (at_eof : Bool) (a : ℕ) (t : Bytes)
    → split_yaml_document s at_eof ≡ (a, some t)
    → 0 < a
unfolding split_yaml_document
split_yaml_document_pos s at_eof a t h = elim (Option-cases (index yaml_separator s)) [
  | inl e ↦ ground (arith, length-eq-zero s)
  | inr (k, e) ↦ ground (
    arith,
    index_bound yaml_separator s k e,
    behind_separator_pos s (drop (k + 4) s) at_eof (k + 4) a t,
  )
]

drop-append : (k : ℕ) (s t : Bytes) → k ≤ length s → drop k (s ++ t) ≡ drop k s ++ t
drop-append zero s t h = refl
drop-append (suc k) [] t h = absurd (omega arith)
drop-append (suc k) (x ∷ s) t h = drop-append k s t (omega arith)

take-append : (k : ℕ) (s t : Bytes) → k ≤ length s → take k (s ++ t) ≡ take k s
take-append zero s t h = refl
take-append (suc k) [] t h = absurd (omega arith)
take-append (suc k) (x ∷ s) t h = ap (λ r. x ∷ r) (take-append k s t (omega arith))

behind_separator-append :
    (s t after : Bytes) (at_eof : Bool) (i a : ℕ) (token : Bytes)
    → i ≤ length s
    → behind_separator s false i after ≡ (a, some token)
    → behind_separator (s ++ t) at_eof i (after ++ t) ≡ (a, some token)
unfolding behind_separator
behind_separator-append s t [] at_eof i a token h e = ground arith
behind_separator-append s t (x ∷ after) at_eof i a token h e =
    elim (Option-cases (index_byte b'\n' (x ∷ after))) [
      | inl f ↦ ground arith
      | inr (j, f) ↦
          ground (
            arith,
            index_byte-append b'\n' (x ∷ after) t j f,
            take-append (i - 4) s t (omega arith),
          )
    ]

-- A document that was split off without the end of the file is split off the same way when more
-- bytes follow: what a reader delivers in one piece or in several gives the same documents.
split_yaml_document-append :
    (s t : Bytes) (at_eof : Bool) (a : ℕ) (token : Bytes)
    → split_yaml_document s false ≡ (a, some token)
    → split_yaml_document (s ++ t) at_eof ≡ (a, some token)
unfolding split_yaml_document
split_yaml_document-append s t at_eof a token h = elim (Option-cases (index yaml_separator s)) [
  | inl e ↦ ground arith
  | inr (k, e) ↦ ground (
    arith,
    index_bound yaml_separator s k e,
    index-append yaml_separator s t k e,
    drop-append (k + 4) s t (index_bound yaml_separator s k e),
    behind_separator-append s t (drop (k + 4) s) at_eof (k + 4) a token
        (index_bound yaml_separator s k e),
    nonempty s t k e,
  )
]
  where
    nonempty :
        (s t : Bytes) (k : ℕ) → index yaml_separator s ≡ some k → bytes_beq (s ++ t) [] ≡ false
    nonempty [] t k e = absurd (omega (arith, index_bound yaml_separator [] k e))
    nonempty (x ∷ s) t k e = unfold bytes_beq in refl
