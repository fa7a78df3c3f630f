-- ===== src/Prelude/Text.antt =====
-- The functions of Go's packages strings and bytes that the code calls, over byte lists.
use Prim.Native.Nat.{ℕ, zero, suc}
use Prim.Native.Char.{code}
use Prim.Native.String.{String}
use mathlib.Core.Path.{◌≡◌}
use mathlib.Core.Bool.{Bool, true, false, ◌&&◌, ◌||◌}
use mathlib.Core.List.{List, [], ◌∷◌, ◌++◌}
use mathlib.Core.Option.{Option, none, some}
use mathlib.Core.Option
use eliot.Prelude.Tests.{Bytes, bytes_beq, ◌==◌, nat_eq, if◌then◌else◌}

-- The code points of a literal, which are its bytes when the text is ASCII.
abbrev pub codes : String → Bytes
codes String.[] = []
codes (String.◌∷◌ c s) = code c ∷ codes s

-- strings.Contains(s, c) and bytes.IndexByte(s, c) >= 0 at a one-byte text
unfoldable pub has : ℕ → Bytes → Bool
has c [] = false
has c (x ∷ s) = x == c || has c s

-- The text holds no byte c.
abbrev pub Lacks : ℕ → Bytes → Type 0
Lacks c s = has c s ≡ false

-- The parts before and behind the first c.
unfoldable pub cut : ℕ → Bytes → Option (Bytes × Bytes)
cut c [] = none
cut c (x ∷ s) =
    let rest = Option.map (λ (p : Bytes × Bytes). (x ∷ p.0, p.1)) (cut c s) in
    if x == c then some ([], s) else rest

-- strings.SplitN(s, c, n), n positive
unfoldable pub split_n : ℕ → ℕ → Bytes → List Bytes
split_n c zero s = []
split_n c (suc zero) s = s ∷ []
split_n c (suc (suc n)) s = elim (cut c s) [ none ↦ s ∷ [] | some p ↦ p.0 ∷ split_n c (suc n) p.1 ]

abbrev pub onto_first : ℕ → List Bytes → List Bytes
onto_first x [] = (x ∷ []) ∷ []
onto_first x (p ∷ ps) = (x ∷ p) ∷ ps

-- strings.Split(s, c)
unfoldable pub split : ℕ → Bytes → List Bytes
split c [] = [] ∷ []
split c (x ∷ s) = let rest = split c s in if x == c then [] ∷ rest else onto_first x rest

-- strings.Join(parts, c)
unfoldable pub join : ℕ → List Bytes → Bytes
join c [] = []
join c (p ∷ []) = p
join c (p ∷ q ∷ ps) = p ++ (c ∷ join c (q ∷ ps))

-- strings.HasPrefix(s, p)
unfoldable pub has_prefix : Bytes → Bytes → Bool
has_prefix s [] = true
has_prefix [] (c ∷ p) = false
has_prefix (x ∷ s) (c ∷ p) = x == c && has_prefix s p

-- strings.HasSuffix(s, t)
unfoldable pub has_suffix : Bytes → Bytes → Bool
has_suffix [] t = bytes_beq [] t
has_suffix (x ∷ s) t = bytes_beq (x ∷ s) t || has_suffix s t

-- strings.Replace(s, a, b, -1) at one-byte texts
unfoldable pub replace : ℕ → ℕ → Bytes → Bytes
replace a b [] = []
replace a b (x ∷ s) = (if x == a then b else x) ∷ replace a b s
