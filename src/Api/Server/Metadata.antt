-- ===== src/Api/Server/Metadata.antt =====
-- Exec and Attach of pkg/api/server.go, which read their arguments from the metadata of the call,
-- and the metadata that Attach and Exec of pkg/api/client.go send.
use eliot.Prelude.{
  ℕ, Bytes, codes, Bool, false, List, [], ◌∷◌, ◌++◌, Option, none, some, Outcome, ok, crash,
  failure, Dict, lookup, split, join, split-join, if◌then◌else◌, bytes_beq, length, ◌==◌, nat_eq,
  All, Lacks, has, ◌≡◌, ◌≢◌, refl, ◌↔◌, arith, ap, sym, ◌∙◌, eq_iff, onto_first, subst, Bool-cases,
  inl, inr,
}
use eliot.Runtime.{Call, call_exec, call_attach, World, Log, Exec, raise, lift, ask, ◌>>=◌}

-- metadata.MD
abbrev pub Metadata : Type 0
Metadata = Dict (List Bytes)

-- crash: val[0] at an empty list.
unfoldable pub get_metadata_value : Metadata → Bytes → Outcome Bytes
get_metadata_value md key = elim (lookup key md) [
  | none ↦ ok []
  | some val ↦ elim val [ [] ↦ crash | v ∷ _ ↦ ok v ]
]

-- The variables of Exec, with args split at spaces. The parser of tty is strconv.ParseBool, whose
-- result is false beside an error.
module _ (parse_bool : Bytes → Bool) where
  unfoldable pub exec : World → Option Metadata → Exec (Unit {0})
  unfolding get_metadata_value
  exec w none = raise (failure (codes "Incoming Exec request don't have metadata"))
  exec w (some md) = do
    exec_id ← lift (get_metadata_value md (codes "execid"))
    namespace ← lift (get_metadata_value md (codes "namespace"))
    container_id ← lift (get_metadata_value md (codes "container"))
    arg_text ← lift (get_metadata_value md (codes "args"))
    tty_text ← lift (get_metadata_value md (codes "tty"))
    let args = split b' ' arg_text
    (if bytes_beq namespace []
        then raise (failure (codes "You must define 'namespace' metadata"))
        else if bytes_beq container_id []
        then raise (failure (codes "You must define 'container' metadata"))
        else if length args == 0
        then raise (failure (codes "You must define 'args' metadata"))
        else ask (call_exec namespace container_id exec_id args (parse_bool tty_text)) w.exec)

unfoldable pub attach : World → Option Metadata → Exec (Unit {0})
unfolding get_metadata_value
attach w none = raise (failure (codes "Incoming attach request don't have metadata"))
attach w (some md) = do
  namespace ← lift (get_metadata_value md (codes "namespace"))
  container_id ← lift (get_metadata_value md (codes "container"))
  (if bytes_beq namespace []
      then raise (failure (codes "You must define 'namespace' metadata"))
      else if bytes_beq container_id []
      then raise (failure (codes "You must define 'container' metadata"))
      else ask (call_attach namespace container_id) w.attach)

-- metadata.Pairs of the client's Exec
unfoldable pub exec_metadata : Bytes → Bytes → Bytes → List Bytes → Bytes → Metadata
exec_metadata namespace container_id exec_id args tty =
    (codes "namespace", namespace ∷ [])
    ∷ (codes "container", container_id ∷ [])
    ∷ (codes "execid", exec_id ∷ [])
    ∷ (codes "args", join b' ' args ∷ [])
    ∷ (codes "tty", tty ∷ [])
    ∷ []

-- metadata.Pairs of the client's Attach
unfoldable pub attach_metadata : Bytes → Bytes → Metadata
attach_metadata namespace container_id =
    (codes "namespace", namespace ∷ []) ∷ (codes "container", container_id ∷ []) ∷ []

-- The call that the server makes for the metadata of the client's Exec.
abbrev server_call : Bytes → Bytes → Bytes → List Bytes → Bool → Log → Log
server_call namespace container_id exec_id args tty log =
    log ++ call_exec namespace container_id exec_id args tty ∷ []

split-ne-nil : (c : ℕ) (s : Bytes) → (length (split c s) == 0) ≡ false
unfolding split
split-ne-nil c [] = refl
split-ne-nil c (x ∷ s) = ground (arith, split-ne-nil c s)

-- The command that a client sends reaches the runtime with its arguments joined by spaces and cut at
-- every space.
exec-exec_metadata :
    (parse_bool : Bytes → Bool) (w : World) (namespace container_id exec_id : Bytes)
    (args : List Bytes) (tty : Bytes) (log : Log)
    → namespace ≢ []
    → container_id ≢ []
    → (exec parse_bool w (some (exec_metadata namespace container_id exec_id args tty)) log).1
      ≡ server_call namespace container_id exec_id
          (split b' ' (join b' ' args))
          (parse_bool tty)
          log
unfolding exec exec_metadata lift raise ask ◌>>=◌ lookup bytes_beq
exec-exec_metadata parse_bool w namespace container_id exec_id args tty log n m =
    ground (arith, eq_iff namespace [], eq_iff container_id [], split-ne-nil b' ' (join b' ' args))

onto_first-AllLacks :
    (c x : ℕ) (ps : List Bytes)
    → (x == c) ≡ false
    → All (Lacks c) ps
    → All (Lacks c) (onto_first x ps)
unfolding has
onto_first-AllLacks c x [] h _ = (rw h, tt)
onto_first-AllLacks c x (p ∷ ps) h (k, ks) = (rw (h, k), ks)

split-AllLacks : (c : ℕ) (s : Bytes) → All (Lacks c) (split c s)
unfolding split has
split-AllLacks c [] = (refl, tt)
split-AllLacks c (x ∷ s) = elim (Bool-cases (x == c)) [
  | inl e ↦ rw e (refl, split-AllLacks c s)
  | inr e ↦ rw e (onto_first-AllLacks c x (split c s) e (split-AllLacks c s))
]

split-join_iff :
    (args : List Bytes)
    → (split b' ' (join b' ' args) ≡ args) ↔ ((args ≢ []) × All (Lacks b' ') args)
split-join_iff [] = (λ e. absurd (unfold split join in (cc e)), λ (n, _). absurd (n refl))
split-join_iff (x ∷ xs) = (
  λ e. (λ n. cc n, subst (All (Lacks b' ')) e (split-AllLacks b' ' (join b' ' (x ∷ xs)))),
  λ h. split-join b' ' x xs h.1.0 h.1.1,
)

last-injective : (log : Log) (x y : Call) → log ++ x ∷ [] ≡ log ++ y ∷ [] → x ≡ y
last-injective [] x y e = cc
last-injective (c ∷ log) x y e = last-injective log x y (cc)

-- For a namespace and a container that are not empty, the runtime is asked to run the client's
-- command with the arguments as the client gave them exactly if there is at least one argument
-- and none holds a space.
pub exec-exec_metadata_iff :
    (parse_bool : Bytes → Bool) (w : World) (namespace container_id exec_id : Bytes)
    (args : List Bytes) (tty : Bytes) (log : Log)
    → namespace ≢ []
    → container_id ≢ []
    → ((exec parse_bool w (some (exec_metadata namespace container_id exec_id args tty)) log).1
        ≡ log ++ call_exec namespace container_id exec_id args (parse_bool tty) ∷ [])
      ↔ ((args ≢ []) × All (Lacks b' ') args)
exec-exec_metadata_iff parse_bool w namespace container_id exec_id args tty log n m =
    let made = exec-exec_metadata parse_bool w namespace container_id exec_id args tty log n m in
    (
      λ e. (split-join_iff args).0 (call_args (last-injective log _ _ (sym made ∙ e))),
      λ h.
          made
          ∙ ap (λ a. log ++ call_exec namespace container_id exec_id a (parse_bool tty) ∷ [])
              ((split-join_iff args).1 h),
    )
  where
    call_args :
        {a b : List Bytes}
        → call_exec namespace container_id exec_id a (parse_bool tty)
          ≡ call_exec namespace container_id exec_id b (parse_bool tty)
        → a ≡ b
    call_args e = cc
