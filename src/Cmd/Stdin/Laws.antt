-- ===== src/Cmd/Stdin/Laws.antt =====
-- pkg/cmd/pipes.go: what ReadAllStdin keeps of its input.
use eliot.Prelude.{
  ℕ, Bytes, Bool, true, false, if◌then◌else◌, onto_first, ◌==◌, nat_eq, List, [], ◌∷◌, ◌++◌, ok,
  length, ◌≡◌, refl, ap, ◌∙◌, sym, All, All-append, Lacks, ltb, split, split-Lacks, split-append,
  append_assoc, append-nil,
}
use eliot.Cmd.Stdin.{drop_cr, drop_last_empty, max_scan_token_size, scan_lines, read_all_stdin}

-- A line that fits the scanner's buffer, with no newline in it and no carriage return at its end.
pub record IsLine (s : Bytes) : Type 0 where
  pub one : Lacks b'\n' s
  pub plain : drop_cr s ≡ s
  pub fits : ltb (length s) max_scan_token_size ≡ true

-- The lines, each with its newline.
abbrev pub text_of : List Bytes → Bytes
text_of [] = []
text_of (l ∷ ls) = l ++ b'\n' ∷ text_of ls

scan_lines-text_of :
    (result : Bytes) (ls : List Bytes)
    → All IsLine ls
    → scan_lines result ls ≡ ok (result ++ text_of ls)
unfolding scan_lines
scan_lines-text_of result [] h = ap ok (sym (append-nil result))
scan_lines-text_of result (l ∷ ls) (h, hs) =
    rw (h.plain, h.fits)
      (scan_lines-text_of (result ++ (l ++ b'\n' ∷ [])) ls hs
        ∙ ap ok (append_assoc result _ (text_of ls) ∙ ap (λ t. result ++ t) (append_assoc l _ _)))

drop_last_empty-cons :
    (s : Bytes) (ts : List Bytes)
    → (ts ≡ [] → ⊥)
    → drop_last_empty (s ∷ ts) ≡ s ∷ drop_last_empty ts
unfolding drop_last_empty
drop_last_empty-cons s [] h = absurd (h refl)
drop_last_empty-cons s (t ∷ ts) h = refl

part_not_nil :
    (b : Bool) (c : ℕ) (ps : List Bytes) → (if b then [] ∷ ps else onto_first c ps) ≡ [] → ⊥
part_not_nil true c ps = λ e. cc
part_not_nil false c [] = λ e. cc
part_not_nil false c (p ∷ ps) = λ e. cc

split-not_nil : (s : Bytes) → split b'\n' s ≡ [] → ⊥
unfolding split
split-not_nil [] = λ e. cc
split-not_nil (c ∷ s) = part_not_nil (c == b'\n') c (split b'\n' s)

-- What is scanned of the lines and a rest without a newline.
scanned :
    (ls : List Bytes) (rest : Bytes)
    → All IsLine ls
    → Lacks b'\n' rest
    → drop_last_empty (split b'\n' (text_of ls ++ rest)) ≡ ls ++ drop_last_empty (rest ∷ [])
scanned [] rest h k = ap drop_last_empty (split-Lacks b'\n' rest k)
scanned (l ∷ ls) rest (h, hs) k =
    ap (λ t. drop_last_empty (split b'\n' t)) (append_assoc l _ rest)
    ∙ ap drop_last_empty (split-append b'\n' l (text_of ls ++ rest) h.one)
    ∙ drop_last_empty-cons l _ (split-not_nil (text_of ls ++ rest))
    ∙ ap (λ ts. l ∷ ts) (scanned ls rest hs k)

text_of-append : (ls ms : List Bytes) → text_of (ls ++ ms) ≡ text_of ls ++ text_of ms
text_of-append [] ms = refl
text_of-append (l ∷ ls) ms =
    ap (λ t. l ++ b'\n' ∷ t) (text_of-append ls ms) ∙ sym (append_assoc l _ (text_of ms))

-- A rest with a newline behind it, if it is not empty.
abbrev pub closed : Bytes → Bytes
closed [] = []
closed (c ∷ s) = text_of ((c ∷ s) ∷ [])

last_line :
    (ls : List Bytes) (rest : Bytes)
    → IsLine rest
    → All IsLine ls
    → scan_lines [] (ls ++ drop_last_empty (rest ∷ [])) ≡ ok (text_of ls ++ closed rest)
unfolding drop_last_empty
last_line ls [] h hs =
    ap (scan_lines []) (append-nil ls)
    ∙ scan_lines-text_of [] ls hs
    ∙ ap ok (sym (append-nil (text_of ls)))
last_line ls (c ∷ s) h hs =
    scan_lines-text_of [] (ls ++ (c ∷ s) ∷ []) (All-append IsLine ls _ hs (h, tt))
    ∙ ap ok (text_of-append ls ((c ∷ s) ∷ []))

-- An input of lines that fit the buffer, none of which ends with a carriage return, is read as it is,
-- where its last line has a newline; otherwise a newline is put behind it.
pub read_all_stdin-text_of :
    (ls : List Bytes) (rest : Bytes)
    → All IsLine ls
    → IsLine rest
    → read_all_stdin (text_of ls ++ rest) ≡ ok (text_of ls ++ closed rest)
unfolding read_all_stdin
read_all_stdin-text_of ls rest hs h =
    ap (scan_lines []) (scanned ls rest hs h.one) ∙ last_line ls rest h hs
