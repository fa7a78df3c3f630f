-- ===== src/Model/Validation/Names.antt =====
-- pkg/model/validation.go: the languages of the checks.
use eliot.Prelude.{
  ℕ, Bytes, Bool, true, false, List, [], ◌∷◌, ◌++◌, none, ◌==◌, nat_eq, bytes_beq, ◌≡◌, refl, has,
  cut, if◌then◌else◌, All, inl, inr, ◌↔◌, arith, Option-cases, cut_sound, Lacks, ap, cut-none, sym,
  ◌∙◌, split_n-Lacks, split_n-append, Lacks-of_cut, append-ne-nil,
}
use eliot.Model.Validation.{
  is_alphanum, is_name_byte, is_name_tail, is_alphanumeric_or_dash, is_valid_env_key_value_pair,
  first_part,
}

-- The language of the regular expression, by the three places of a byte: a first and a last byte
-- from [A-Za-z0-9] with bytes from [A-Za-z0-9_-] between, or one byte from [A-Za-z0-9].
abbrev pub AllBool : (ℕ → Bool) → Bytes → Type 0
AllBool f = All (λ c. f c ≡ true)

pub data IsName : Bytes → Type 0 where
  single : (x : ℕ) → is_alphanum x ≡ true → IsName (x ∷ [])
  longer :
      (x : ℕ) (middle : Bytes) (z : ℕ) (s : Bytes)
      → is_alphanum x ≡ true
      → AllBool is_name_byte middle
      → is_alphanum z ≡ true
      → s ≡ middle ++ z ∷ []
      → IsName (x ∷ s)

is_name_tail_complete :
    (y : ℕ) (s middle : Bytes) (z : ℕ)
    → AllBool is_name_byte middle
    → is_alphanum z ≡ true
    → y ∷ s ≡ middle ++ z ∷ []
    → is_name_tail y s ≡ true
unfolding is_name_tail
is_name_tail_complete y [] [] z h k e = ground arith
is_name_tail_complete y [] (m ∷ []) z h k e = cc
is_name_tail_complete y [] (m ∷ n ∷ r) z h k e = cc
is_name_tail_complete y (w ∷ s) [] z h k e = cc
is_name_tail_complete y (w ∷ s) (m ∷ r) z (hm, hr) k e =
    ground (arith, is_name_tail_complete w s r z hr k)

is_name_tail_sound :
    (y : ℕ) (s : Bytes)
    → is_name_tail y s ≡ true
    → (middle : Bytes) × (z : ℕ) × AllBool is_name_byte middle
      × (is_alphanum z ≡ true)
      × (y ∷ s ≡ middle ++ z ∷ [])
unfolding is_name_tail
is_name_tail_sound y [] h = ([], y, tt, h, refl)
is_name_tail_sound y (w ∷ s) h =
    let (m, z, a, b, e) = is_name_tail_sound w s (ground arith) in
    (y ∷ m, z, (ground arith, a), b, ap (λ r. y ∷ r) e)

sound : (s : Bytes) → is_alphanumeric_or_dash s ≡ true → IsName s
unfolding is_alphanumeric_or_dash
sound [] h = cc
sound (x ∷ []) h = single x h
sound (x ∷ y ∷ s) h =
    let (m, z, a, b, e) = is_name_tail_sound y s (ground arith) in
    longer x m z (y ∷ s) (ground arith) a b e

complete : (s : Bytes) → IsName s → is_alphanumeric_or_dash s ≡ true
unfolding is_alphanumeric_or_dash
complete [] h = elim h [ ]
complete (x ∷ []) (single y h) = h
complete (x ∷ []) (longer _ [] z _ h m k e) = cc
complete (x ∷ []) (longer _ (a ∷ r) z _ h m k e) = cc
complete (x ∷ y ∷ s) (longer _ r z _ h m k e) = ground (arith, is_name_tail_complete y s r z m k e)

-- The check accepts exactly the language of its regular expression: a byte from [A-Za-z0-9], or
-- two such bytes with any bytes from [A-Za-z0-9_-] between them.
is_alphanumeric_or_dash_iff : (s : Bytes) → (is_alphanumeric_or_dash s ≡ true) ↔ IsName s
is_alphanumeric_or_dash_iff s = (sound s, complete s)

is_name_byte-ne : (c : ℕ) → is_name_byte c ≡ true → (c == b'=') ≡ false
unfolding is_name_byte
is_name_byte-ne c h = ground arith

is_alphanum-ne : (c : ℕ) → is_alphanum c ≡ true → (c == b'=') ≡ false
unfolding is_alphanum
is_alphanum-ne c h = ground arith

is_name_tail-Lacks : (x : ℕ) (s : Bytes) → is_name_tail x s ≡ true → Lacks b'=' (x ∷ s)
unfolding is_name_tail has
is_name_tail-Lacks x [] h = ground (arith, is_alphanum-ne x h)
is_name_tail-Lacks x (y ∷ s) h = ground (arith, is_name_byte-ne x, is_name_tail-Lacks y s)

name-Lacks : (s : Bytes) → is_alphanumeric_or_dash s ≡ true → Lacks b'=' s
unfolding is_alphanumeric_or_dash has
name-Lacks [] h = refl
name-Lacks (x ∷ []) h = ground (arith, is_alphanum-ne x)
name-Lacks (x ∷ y ∷ s) h = ground (arith, is_alphanum-ne x, is_name_tail-Lacks y s)

-- An environment variable: a name alone, or a name, an equals sign and any value.
pub data IsEnv : Bytes → Type 0 where
  key : (k : Bytes) → IsName k → IsEnv k
  pair : (k v : Bytes) (s : Bytes) → IsName k → s ≡ k ++ b'=' ∷ v → IsEnv s

if_self : (b : Bool) → (if b then true else false) ≡ b
if_self true = refl
if_self false = refl

valid_key :
    (s : Bytes) → cut b'=' s ≡ none → is_valid_env_key_value_pair s ≡ is_alphanumeric_or_dash s
unfolding is_valid_env_key_value_pair is_alphanumeric_or_dash bytes_beq
valid_key [] e = refl
valid_key (x ∷ s) e =
    ap (λ (p : List Bytes). if is_alphanumeric_or_dash (first_part p) then true else false)
      (split_n-Lacks b'=' 0 (x ∷ s) (Lacks-of_cut b'=' (x ∷ s) e))
    ∙ if_self (is_alphanumeric_or_dash (x ∷ s))

valid_pair :
    (k v : Bytes)
    → Lacks b'=' k
    → is_valid_env_key_value_pair (k ++ b'=' ∷ v) ≡ is_alphanumeric_or_dash k
unfolding is_valid_env_key_value_pair bytes_beq
valid_pair k v l = rw (append-ne-nil k v b'=') (
    ap (λ (p : List Bytes). if is_alphanumeric_or_dash (first_part p) then true else false)
      (split_n-append b'=' 0 k v l)
    ∙ if_self (is_alphanumeric_or_dash k))

IsEnv-sound : (s : Bytes) → is_valid_env_key_value_pair s ≡ true → IsEnv s
IsEnv-sound s h = elim (Option-cases (cut b'=' s)) [
  | inl e ↦ key s (sound s (sym (valid_key s e) ∙ h))
  | inr (p, e) ↦
      let (shape, l) = cut_sound b'=' s p.0 p.1 e in
      pair p.0 p.1 s (sound p.0 (sym (valid_pair p.0 p.1 l) ∙ (rw shape at h))) shape
]

IsEnv-complete : (s : Bytes) → IsEnv s → is_valid_env_key_value_pair s ≡ true
IsEnv-complete s (key _ n) =
    valid_key s (cut-none b'=' s (name-Lacks s (complete s n))) ∙ complete s n
IsEnv-complete s (pair k v _ n e) =
    rw (e, valid_pair k v (name-Lacks k (complete k n))) (complete k n)

-- An environment variable is accepted exactly if it is a name, alone or with an equals sign and any
-- value behind it.
is_valid_env_key_value_pair_iff : (s : Bytes) → (is_valid_env_key_value_pair s ≡ true) ↔ IsEnv s
is_valid_env_key_value_pair_iff s = (IsEnv-sound s, IsEnv-complete s)
