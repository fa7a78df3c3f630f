-- ===== src/Runtime/Containerd/Env.antt =====
-- replaceOrAppendEnvValues of pkg/runtime/containerd/opts.go. The defaults are a slice of its own that
-- the loop writes to, and the cache maps a key to an index of it.
use eliot.Prelude.{
  ℕ, zero, suc, ◌+◌, ◌<◌, ◌≤◌, Bytes, Bool, true, false, List, [], ◌∷◌, ◌++◌, none, some,
  if◌then◌else◌, Dict, lookup, insert, lookup-insert, bytes_beq, eq_iff, ◌==◌, nat_eq, ◌||◌,
  bytes_eq, has, split_n, set, length, length-append, arith, ◌≡◌, refl, sym, ap, ◌∙◌, subst, inl,
  inr, Bool-cases, Option-cases,
}

-- parts[0] of strings.SplitN(e, "=", 2)
env_key : Bytes → Bytes
unfolding split_n
env_key e = elim (split_n b'=' 2 e) [ [] ↦ [] | k ∷ _ ↦ k ]

-- The first loop, from the index i on.
unfoldable pub index_env : ℕ → List Bytes → Dict ℕ → Dict ℕ
unfolding env_key
index_env i [] cache = cache
index_env i (e ∷ es) cache = index_env (i + 1) es (insert (env_key e) i cache)

-- One round of the second loop.
override_env : Dict ℕ → List Bytes → Bytes → List Bytes
unfolding env_key
override_env cache defaults value =
    if has b'=' value
    then elim (lookup (env_key value) cache) [
      | some i ↦ set defaults i value
      | none ↦ defaults ++ (value ∷ [])
    ]
    else elim (lookup value cache) [ some i ↦ set defaults i [] | none ↦ defaults ]

unfoldable pub override_envs : Dict ℕ → List Bytes → List Bytes → List Bytes
unfolding override_env
override_envs cache defaults [] = defaults
override_envs cache defaults (v ∷ vs) = override_envs cache (override_env cache defaults v) vs

-- The third loop takes the empty entries out.
unfoldable pub remove_unset : List Bytes → List Bytes
remove_unset [] = []
remove_unset (e ∷ es) = let rest = remove_unset es in if bytes_beq e [] then rest else e ∷ rest

unfoldable pub replace_or_append_env_values : List Bytes → List Bytes → List Bytes
unfolding index_env override_envs remove_unset
replace_or_append_env_values defaults overrides =
    remove_unset (override_envs (index_env 0 defaults []) defaults overrides)

-- WithEnv
unfoldable pub with_env : List Bytes → List Bytes → List Bytes
unfolding replace_or_append_env_values
with_env [] env = env
with_env (v ∷ vs) env = replace_or_append_env_values env (v ∷ vs)

-- Every index of the cache is below the bound.
record IsIndex (cache : Dict ℕ) (n : ℕ) : Type 0 where
  below : (k : Bytes) (i : ℕ) → lookup k cache ≡ some i → i < n

some-injective : {A : Type 0} {a b : A} → some a ≡ some b → a ≡ b
some-injective e = cc

IsIndex-insert :
    (cache : Dict ℕ) (k : Bytes) (i n : ℕ) → IsIndex cache n → i < n → IsIndex (insert k i cache) n
IsIndex-insert cache k i n h l = record {
  below = λ j m e. elim (Bool-cases (bytes_beq k j)) [
    | inl t ↦
        subst (λ x. x < n) (some-injective (sym (lookup-insert k j i cache ∙ rw t refl) ∙ e)) l
    | inr t ↦ h.below j m (sym (lookup-insert k j i cache ∙ rw t refl) ∙ e)
  ];
}

IsIndex-index_env :
    (es : List Bytes) (i n : ℕ) (cache : Dict ℕ)
    → i + length es ≤ n
    → IsIndex cache n
    → IsIndex (index_env i es cache) n
unfolding index_env
IsIndex-index_env [] i n cache l h = h
IsIndex-index_env (e ∷ es) i n cache l h =
    IsIndex-index_env es (i + 1) n _ (omega arith)
      (IsIndex-insert cache (env_key e) i n h (omega arith))

length-set : (es : List Bytes) (i : ℕ) (v : Bytes) → length (set es i v) ≡ length es
length-set [] i v = refl
length-set (e ∷ es) zero v = refl
length-set (e ∷ es) (suc i) v = ap suc (length-set es i v)

length-override_env :
    (cache : Dict ℕ) (es : List Bytes) (v : Bytes) → length es ≤ length (override_env cache es v)
unfolding override_env
length-override_env cache es v = elim (Bool-cases (has b'=' v)) [
  | inl t ↦ elim (Option-cases (lookup (env_key v) cache)) [
    | inl e ↦ rw (t, e) (omega (arith, length-append es (v ∷ [])))
    | inr (i, e) ↦ rw (t, e) (omega (arith, length-set es i v))
  ]
  | inr t ↦ elim (Option-cases (lookup v cache)) [
    | inl e ↦ rw (t, e) (omega arith)
    | inr (i, e) ↦ rw (t, e) (omega (arith, length-set es i []))
  ]
]

length-override_envs :
    (cache : Dict ℕ) (es vs : List Bytes) → length es ≤ length (override_envs cache es vs)
unfolding override_envs
length-override_envs cache es [] = omega arith
length-override_envs cache es (v ∷ vs) =
    omega (
      arith,
      length-override_env cache es v,
      length-override_envs cache (override_env cache es v) vs,
    )

-- The value is an entry of the list.
unfoldable pub contains_env : Bytes → List Bytes → Bool
contains_env v [] = false
contains_env v (e ∷ es) = e == v || contains_env v es

contains_env-set :
    (v : Bytes) (es : List Bytes) (i : ℕ) → i < length es → contains_env v (set es i v) ≡ true
unfolding contains_env
contains_env-set v [] i l = absurd (omega arith)
contains_env-set v (e ∷ es) zero l = ground (arith, eq_iff v v)
contains_env-set v (e ∷ es) (suc i) l = ground (arith, contains_env-set v es i (omega arith))

contains_env-append : (v : Bytes) (es : List Bytes) → contains_env v (es ++ v ∷ []) ≡ true
unfolding contains_env
contains_env-append v [] = ground (arith, eq_iff v v)
contains_env-append v (e ∷ es) = ground (arith, contains_env-append v es)

contains_env-remove_unset :
    (v : Bytes) (es : List Bytes)
    → contains_env v (remove_unset es) ≡ (if bytes_beq v [] then false else contains_env v es)
unfolding contains_env remove_unset
contains_env-remove_unset v [] = ground arith
contains_env-remove_unset v (e ∷ es) =
    ground (arith, contains_env-remove_unset v es, eq_iff e v, eq_iff e [], eq_iff v [])

override_envs-append :
    (cache : Dict ℕ) (es vs : List Bytes) (v : Bytes)
    → override_envs cache es (vs ++ v ∷ []) ≡ override_env cache (override_envs cache es vs) v
unfolding override_envs
override_envs-append cache es [] v = refl
override_envs-append cache es (w ∷ vs) v = override_envs-append cache (override_env cache es w) vs v

contains_env-override_env :
    (cache : Dict ℕ) (es : List Bytes) (v : Bytes)
    → has b'=' v ≡ true
    → IsIndex cache (length es)
    → contains_env v (override_env cache es v) ≡ true
unfolding override_env
contains_env-override_env cache es v t h = elim (Option-cases (lookup (env_key v) cache)) [
  | inl e ↦ rw (t, e) (contains_env-append v es)
  | inr (i, e) ↦ rw (t, e) (contains_env-set v es i (h.below (env_key v) i e))
]

not_empty : (v : Bytes) → has b'=' v ≡ true → bytes_beq v [] ≡ false
unfolding has bytes_beq
not_empty [] h = cc
not_empty (c ∷ v) h = refl

-- If the last override sets a variable, it is in the result, and no entry of the result is empty.
replace_or_append_env_values-last :
    (defaults overrides : List Bytes) (value : Bytes)
    → has b'=' value ≡ true
    → (contains_env value (replace_or_append_env_values defaults (overrides ++ value ∷ [])) ≡ true)
      × (contains_env [] (replace_or_append_env_values defaults (overrides ++ value ∷ [])) ≡ false)
unfolding replace_or_append_env_values bytes_beq lookup
replace_or_append_env_values-last defaults overrides value t =
    let cache = index_env 0 defaults [] in
    let es = override_envs cache defaults overrides in
    let all = override_envs cache defaults (overrides ++ value ∷ []) in
    (
      contains_env-remove_unset value all
          ∙ rw (not_empty value t, override_envs-append cache defaults overrides value)
              (contains_env-override_env cache es value t (
                IsIndex-index_env defaults 0 (length es) []
                  (omega (arith, length-override_envs cache defaults overrides))
                  (record { below = λ k i e. cc }))),
      contains_env-remove_unset [] all,
    )
