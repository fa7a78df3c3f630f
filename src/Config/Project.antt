-- ===== src/Config/Project.antt =====
-- pkg/config/project.go: the environment variables of a project.
use eliot.Prelude.{
  Bytes, true, List, [], ◌∷◌, ◌++◌, if◌then◌else◌, Outcome, ok, crash, ◌≡◌, All, arith, Bool-cases,
  inl, inr, append_assoc, append-nil, ◌↔◌,
}
use eliot.Model.Validation.{is_valid_env_key_value_pair}

-- The loop over values; crash: log.Fatalf at the first value that is not valid.
env_loop : List Bytes → List Bytes → Outcome (List Bytes)
env_loop [] result = ok result
env_loop (value ∷ values) result =
    let rest = env_loop values (result ++ value ∷ []) in
    if is_valid_env_key_value_pair value then rest else crash

-- EnvWith, for a project with the variables env.
unfoldable pub env_with : List Bytes → List Bytes → Outcome (List Bytes)
unfolding env_loop
env_with env values = env_loop values env

abbrev pub AllValid : List Bytes → Type 0
AllValid = All (λ v. is_valid_env_key_value_pair v ≡ true)

env_loop_valid :
    (values result : List Bytes) → AllValid values → env_loop values result ≡ ok (result ++ values)
unfolding env_loop
env_loop_valid [] result h = rw append-nil
env_loop_valid (v ∷ values) result (hv, hs) =
    rw (hv, env_loop) (rw (env_loop_valid values (result ++ v ∷ []) hs, append_assoc))

env_loop-AllValid :
    (values result out : List Bytes) → env_loop values result ≡ ok out → AllValid values
unfolding env_loop
env_loop-AllValid [] result out h = tt
env_loop-AllValid (v ∷ values) result out h = elim (Bool-cases (is_valid_env_key_value_pair v)) [
  | inl e ↦ (e, env_loop-AllValid values (result ++ v ∷ []) out (ground arith))
  | inr e ↦ ground arith
]

-- The variables given are appended behind the project's own exactly if each of them is valid.
env_with_iff :
    (env values : List Bytes) → (env_with env values ≡ ok (env ++ values)) ↔ AllValid values
unfolding env_with
env_with_iff env values = (env_loop-AllValid values env (env ++ values), env_loop_valid values env)
