-- ===== src/Runtime/Containerd/Extensions/Laws.antt =====
-- pkg/runtime/containerd/extensions: what is read back of the extensions of a container.
use eliot.Prelude.{
  ℕ, zero, suc, ◌+◌, ◌%◌, ◌^◌, ◌<◌, [], Option, none, some, Outcome, ok, lookup, insert,
  lookup-insert, bytes_beq, ◌≡◌, refl, sym, ap, subst, ok-injective, ◌∙◌, bind-ok, arith, ◌>>=◌,
}
use eliot.Model.{PipeSet}
use eliot.Runtime.Containerd.Containers.{ContainerLifecycle}
use eliot.Runtime.Containerd.Extensions.{
  a_pipe, a_lifecycle, TypeUrl, Decodes, pipe_set_extension_name, lifecycle_extension_name,
  Extensions, with_pipe_extension, get_pipe_extension, update_lifecycle_extension,
  with_lifecycle_extension, get_lifecycle_extension, increment_restart, pipe_in, pipe_of,
  lifecycle_in, lifecycle_of,
}

module _ (t : TypeUrl) (d : Decodes t) where
  -- What is under the two names.
  record Carries (e : Extensions t) (l : ContainerLifecycle) (p : Option PipeSet) : Type 0 where
    lifecycle : get_lifecycle_extension t e ≡ ok l
    pipe : get_pipe_extension t e ≡ ok p

  -- Under a name that was not written there is what was there before.
  kept-lifecycle :
      (e : Extensions t) (a : t.Any)
      → get_lifecycle_extension t (insert pipe_set_extension_name a e) ≡ get_lifecycle_extension t e
  unfolding get_lifecycle_extension pipe_set_extension_name lifecycle_extension_name bytes_beq
  kept-lifecycle e a =
      ap (lifecycle_in t) (lookup-insert pipe_set_extension_name lifecycle_extension_name a e)

  kept-pipe :
      (e : Extensions t) (a : t.Any)
      → get_pipe_extension t (insert lifecycle_extension_name a e) ≡ get_pipe_extension t e
  unfolding get_pipe_extension pipe_set_extension_name lifecycle_extension_name bytes_beq
  kept-pipe e a =
      ap (pipe_in t) (lookup-insert lifecycle_extension_name pipe_set_extension_name a e)

  written-lifecycle :
      (e : Extensions t) (a : t.Any) (l : ContainerLifecycle)
      → t.unmarshal_any a ≡ ok (a_lifecycle l)
      → get_lifecycle_extension t (insert lifecycle_extension_name a e) ≡ ok l
  unfolding get_lifecycle_extension lifecycle_extension_name bytes_beq
  written-lifecycle e a l h =
      ap (lifecycle_in t) (lookup-insert lifecycle_extension_name lifecycle_extension_name a e)
      ∙ ap (λ r. r >>= lifecycle_of t) h

  written-pipe :
      (e : Extensions t) (a : t.Any) (p : PipeSet)
      → t.unmarshal_any a ≡ ok (a_pipe p)
      → get_pipe_extension t (insert pipe_set_extension_name a e) ≡ ok (some p)
  unfolding get_pipe_extension pipe_set_extension_name bytes_beq
  written-pipe e a p h =
      ap (pipe_in t) (lookup-insert pipe_set_extension_name pipe_set_extension_name a e)
      ∙ ap (λ r. r >>= pipe_of t) h

  update-Carries :
      (e e' : Extensions t) (l : ContainerLifecycle) (p : Option PipeSet)
      → get_pipe_extension t e ≡ ok p
      → update_lifecycle_extension t l e ≡ ok e'
      → Carries e' l p
  unfolding update_lifecycle_extension
  update-Carries e e' l p h x =
      let (a, m, o) = bind-ok (t.marshal_any (a_lifecycle l)) _ e' x in
      subst (λ e. Carries e l p) (ok-injective o)
        (record { lifecycle = written-lifecycle e a l (d.back _ a m); pipe = kept-pipe e a ∙ h })

  pipe-Carries :
      (e e' : Extensions t) (l : ContainerLifecycle) (p : PipeSet)
      → get_lifecycle_extension t e ≡ ok l
      → with_pipe_extension t p e ≡ ok e'
      → Carries e' l (some p)
  unfolding with_pipe_extension
  pipe-Carries e e' l p h x =
      let (a, m, o) = bind-ok (t.marshal_any (a_pipe p)) _ e' x in
      subst (λ e. Carries e l (some p)) (ok-injective o)
        (record { lifecycle = kept-lifecycle e a ∙ h; pipe = written-pipe e a p (d.back _ a m) })

  increment-Carries :
      (e e' : Extensions t) (l : ContainerLifecycle) (p : Option PipeSet)
      → Carries e l p
      → increment_restart t e ≡ ok e'
      → Carries e' (record l { start_count = (l.start_count + 1) % 2 ^ 64 }) p
  unfolding increment_restart
  increment-Carries e e' l p h x =
      let started =
        λ (l : ContainerLifecycle). record l { start_count = (l.start_count + 1) % 2 ^ 64 } in
      update-Carries e e' (started l) p h.pipe
        (sym (ap (λ r. r >>= λ l. update_lifecycle_extension t (started l) e) h.lifecycle) ∙ x)

no_pipe : (t : TypeUrl) → get_pipe_extension t [] ≡ ok none
unfolding get_pipe_extension lookup
no_pipe t = refl

-- IncrementRestart, n times.
unfoldable pub increments : (t : TypeUrl) → ℕ → Extensions t → Outcome (Extensions t)
unfolding increment_restart
increments t zero e = ok e
increments t (suc n) e = do e' ← increments t n e; increment_restart t e'

increments-Carries :
    (t : TypeUrl) (d : Decodes t) (n : ℕ) (e e' : Extensions t) (l : ContainerLifecycle)
    (p : Option PipeSet)
    → l.start_count < 2 ^ 64
    → Carries t d e l p
    → increments t n e ≡ ok e'
    → Carries t d e' (record l { start_count = (l.start_count + n) % 2 ^ 64 }) p
unfolding increments
increments-Carries t d zero e e' l p b h x =
    let same : l.start_count ≡ (l.start_count + 0) % 2 ^ 64 = omega arith in
    subst (λ k. Carries t d e' (record l { start_count = k }) p) same
      (subst (λ e. Carries t d e l p) (ok-injective x) h)
increments-Carries t d (suc n) e e' l p b h x =
    let (f, y, z) = bind-ok (increments t n e) (increment_restart t) e' x in
    let c = increment-Carries t d f e' _ p (increments-Carries t d n e f l p b h y) z in
    let next : ((l.start_count + n) % 2 ^ 64 + 1) % 2 ^ 64 ≡ (l.start_count + suc n) % 2 ^ 64 =
      omega arith in
    subst (λ k. Carries t d e' (record l { start_count = k }) p) next c

-- Where package typeurl decodes what it encoded, a container that was created with the lifecycle and
-- then the pipe, and started a number of times, carries the pipe still, and this number of starts
-- modulo 2 ^ 64, with the first restart policy.
pub extensions-back :
    (t : TypeUrl) (d : Decodes t) (n : ℕ) (created started : Extensions t) (pipe : PipeSet)
    → (do e ← with_lifecycle_extension t []; with_pipe_extension t pipe e) ≡ ok created
    → increments t n created ≡ ok started
    → (get_lifecycle_extension t started
        ≡ ok (record { start_count = n % 2 ^ 64; restart_policy = 0 }))
      × (get_pipe_extension t started ≡ ok (some pipe))
unfolding with_lifecycle_extension
extensions-back t d n created started pipe c s =
    let (e, l, p) =
      bind-ok (with_lifecycle_extension t []) (with_pipe_extension t pipe) created c in
    let first = update-Carries t d [] e _ none (no_pipe t) l in
    let both = pipe-Carries t d e created _ pipe first.lifecycle p in
    let h = increments-Carries t d n created started _ (some pipe) (omega arith) both s in
    let zero_plus : (0 + n) % 2 ^ 64 ≡ n % 2 ^ 64 = omega arith in
    (h.lifecycle ∙ ap (λ k. ok (record { start_count = k; restart_policy = 0 })) zero_plus, h.pipe)
