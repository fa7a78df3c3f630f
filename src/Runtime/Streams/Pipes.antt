-- ===== src/Runtime/Streams/Pipes.antt =====
-- The pipes of buildContainerIOSets in pkg/api/server.go.
use mathlib.Core.Option
use eliot.Prelude.{
  Bytes, false, List, [], ◌∷◌, Option, none, some, ok, Dict, lookup, update, lookup-update,
  if◌then◌else◌, eq_iff, bytes_beq, arith, ◌≡◌, refl, sym, ap, ◌∙◌, subst, ◌⊎◌, All, Option-cases,
  inl, inr,
}
use eliot.Model.{Container, PipeSet}
use eliot.Runtime.{IoSet}
use eliot.Runtime.Streams.{pipe_stdout_to, connect}

abbrev pub stdin_of : Dict IoSet → Bytes → Option Bytes
stdin_of m k = Option.map (λ (s : IoSet). s.stdin) (lookup k m)

abbrev pub stdout_of : Dict IoSet → Bytes → Option Bytes
stdout_of m k = Option.map (λ (s : IoSet). s.stdout) (lookup k m)

-- No container of the list has the name.
abbrev pub IsFree : Bytes → List Container → Type 0
IsFree k = All (λ (c : Container). bytes_beq c.name k ≡ false)

-- The containers have different names.
abbrev pub NamesDiffer : List Container → Type 0
NamesDiffer [] = Unit
NamesDiffer (c ∷ cs) = IsFree c.name cs × NamesDiffer cs

-- What a successful round did.
abbrev Round : Container → List Container → Dict IoSet → Dict IoSet → Type 0
Round c cs m m' =
    ((c.pipe ≡ none) × (connect cs m ≡ ok m'))
    ⊎ ((p : PipeSet) × (t : IoSet) × (c.pipe ≡ some p)
        × (lookup p.stdout.stdin.name m ≡ some t)
        × (connect cs (update c.name (pipe_stdout_to t) m) ≡ ok m'))

round :
    (c : Container) (cs : List Container) (m m' : Dict IoSet)
    → connect (c ∷ cs) m ≡ ok m'
    → Round c cs m m'
unfolding connect
round c cs m m' h = elim (Option-cases c.pipe) [
  | inl e ↦ inl (e, ground arith)
  | inr (p, e) ↦ elim (Option-cases (lookup p.stdout.stdin.name m)) [
    | inl f ↦ ground arith
    | inr (t, f) ↦ inr (p, t, e, f, ground arith)
  ]
]

module _ (k : Bytes) where
  stdin_of-update :
      (c : Bytes) (t : IoSet) (m : Dict IoSet)
      → stdin_of (update c (pipe_stdout_to t) m) k ≡ stdin_of m k
  unfolding pipe_stdout_to
  stdin_of-update c t m = rw lookup-update (ground arith)

  stdout_of-update_ne :
      (c : Bytes) (t : IoSet) (m : Dict IoSet)
      → bytes_beq c k ≡ false
      → stdout_of (update c (pipe_stdout_to t) m) k ≡ stdout_of m k
  stdout_of-update_ne c t m h = rw (lookup-update, h)

  stdout_of-update_self :
      (s t : IoSet) (m : Dict IoSet)
      → lookup k m ≡ some s
      → stdout_of (update k (pipe_stdout_to t) m) k ≡ some t.stdin
  unfolding pipe_stdout_to
  stdout_of-update_self s t m h = rw (lookup-update, (eq_iff k k).1 refl, h)

  -- no pipe changes an input
  stdin_of-connect :
      (cs : List Container) (m m' : Dict IoSet)
      → connect cs m ≡ ok m'
      → stdin_of m' k ≡ stdin_of m k
  unfolding connect
  stdin_of-connect [] m m' h = ground arith
  stdin_of-connect (c ∷ cs) m m' h = elim (round c cs m m' h) [
    | inl (_, e) ↦ stdin_of-connect cs m m' e
    | inr (p, t, _, _, e) ↦
        stdin_of-connect cs (update c.name (pipe_stdout_to t) m) m' e ∙ stdin_of-update c.name t m
  ]

  stdout_of-connect_free :
      (cs : List Container) (m m' : Dict IoSet)
      → IsFree k cs
      → connect cs m ≡ ok m'
      → stdout_of m' k ≡ stdout_of m k
  unfolding connect
  stdout_of-connect_free [] m m' f h = ground arith
  stdout_of-connect_free (c ∷ cs) m m' (f, fs) h = elim (round c cs m m' h) [
    | inl (_, e) ↦ stdout_of-connect_free cs m m' fs e
    | inr (p, t, _, _, e) ↦
        stdout_of-connect_free cs (update c.name (pipe_stdout_to t) m) m' fs e
        ∙ stdout_of-update_ne c.name t m f
  ]

-- The set under the container's name writes to the input of the pipe's target, or where it did
-- before if the container has no pipe.
abbrev pub OutputIs : Dict IoSet → Dict IoSet → Container → Option PipeSet → Type 0
OutputIs m m' c none = stdout_of m' c.name ≡ stdout_of m c.name
OutputIs m m' c (some p) = stdout_of m' c.name ≡ stdin_of m p.stdout.stdin.name

-- Every container has a set.
abbrev pub HasSets : Dict IoSet → List Container → Type 0
HasSets m = All (λ (c : Container). (s : IoSet) × (lookup c.name m ≡ some s))

HasSets-update :
    (d : Bytes) (t : IoSet) (m : Dict IoSet) (cs : List Container)
    → HasSets m cs
    → HasSets (update d (pipe_stdout_to t) m) cs
unfolding pipe_stdout_to
HasSets-update d t m [] h = tt
HasSets-update d t m (c ∷ cs) ((s, e), h) = (
  (if bytes_beq d c.name then pipe_stdout_to t s else s, rw (lookup-update, e) (ground arith)),
  HasSets-update d t m cs h,
)

OutputIs-update :
    (d : Container) (t : IoSet) (m m' : Dict IoSet) (c : Container) (o : Option PipeSet)
    → bytes_beq d.name c.name ≡ false
    → OutputIs (update d.name (pipe_stdout_to t) m) m' c o
    → OutputIs m m' c o
OutputIs-update d t m m' c none h e = e ∙ stdout_of-update_ne c.name d.name t m h
OutputIs-update d t m m' c (some p) h e = e ∙ stdin_of-update p.stdout.stdin.name d.name t m

OutputIs-update-All :
    (d : Container) (t : IoSet) (m m' : Dict IoSet) (cs : List Container)
    → IsFree d.name cs
    → All (λ (c : Container). OutputIs (update d.name (pipe_stdout_to t) m) m' c c.pipe) cs
    → All (λ (c : Container). OutputIs m m' c c.pipe) cs
OutputIs-update-All d t m m' [] h e = tt
OutputIs-update-All d t m m' (c ∷ cs) (h, hs) (e, es) = (
  OutputIs-update d t m m' c c.pipe (ground (arith, eq_iff d.name c.name, eq_iff c.name d.name)) e,
  OutputIs-update-All d t m m' cs hs es,
)

-- Where containers with different names, each with a set, have their pipes connected without an
-- error, every container with a pipe writes to the input of its target, every other one writes
-- where it did, and no input changes.
pub connect_outputs :
    (cs : List Container) (m m' : Dict IoSet)
    → NamesDiffer cs
    → HasSets m cs
    → connect cs m ≡ ok m'
    → All (λ (c : Container). OutputIs m m' c c.pipe) cs
      × ((k : Bytes) → stdin_of m' k ≡ stdin_of m k)
connect_outputs cs m m' d h e = (outputs cs m m' d h e, λ k. stdin_of-connect k cs m m' e)
  where
    outputs :
        (cs : List Container) (m m' : Dict IoSet)
        → NamesDiffer cs
        → HasSets m cs
        → connect cs m ≡ ok m'
        → All (λ (c : Container). OutputIs m m' c c.pipe) cs
    outputs [] m m' d h e = tt
    outputs (c ∷ cs) m m' (f, d) ((s, es), h) e = elim (round c cs m m' e) [
      | inl (n, e') ↦ (
        subst (OutputIs m m' c) (sym n) (stdout_of-connect_free c.name cs m m' f e'),
        outputs cs m m' d h e',
      )
      | inr (p, t, n, l, e') ↦
          let u = update c.name (pipe_stdout_to t) m in
          (
            subst (OutputIs m m' c) (sym n) (
                stdout_of-connect_free c.name cs u m' f e'
                ∙ stdout_of-update_self c.name s t m es
                ∙ sym (ap (Option.map (λ (x : IoSet). x.stdin)) l)),
            OutputIs-update-All c t m m' cs f
                (outputs cs u m' d (HasSets-update c.name t m cs h) e'),
          )
    ]
