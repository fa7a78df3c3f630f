-- ===== src/Runtime/Containerd/Images/Laws.antt =====
-- pkg/runtime/containerd.go and pkg/runtime/containerd/progress.go: when a pull succeeds, and what it
-- leaves in the progress.
use mathlib.Core.List.{map}
use mathlib.Core.Option
use eliot.Prelude.{
  Bytes, codes, Bool, true, false, List, [], Option, none, some, Outcome, ok, err, crash, bytes_eq,
  ◌≡◌, refl, sym, ap, ◌∙◌, lookup, Bool-cases, inl, inr, ◌↔◌, lookup-map_values, subst, bind-ok,
}
use eliot.Progress.{Status, ImageFetch, done, all_done}
use eliot.Runtime.Containerd.Images.{
  Answers, Pulling, idle, updated, platform_exist, run_events, Pull, supports, is_available,
  pull_result, finished, started, pull_image,
}

some-injective : {A : Type 0} {a b : A} → some a ≡ some b → a ≡ b
some-injective e = cc

module _ (order : List Status → List Status) (from_string : Bytes → Bytes) where
  module _ {Platform : Type 0} (matches : Platform → Bool) where
    started-nothing :
        (c : Outcome (Unit {0})) (p : Pulling) → started order from_string matches c [] p ≡ p
    unfolding started run_events
    started-nothing (ok x) p = refl
    started-nothing (err e) p = refl
    started-nothing crash p = refl

    ends-done :
        (c r : Outcome (Unit {0})) (late : List Answers) (p : Pulling)
        → r ≡ ok tt
        → late ≡ []
        → (started order from_string matches c
            (map updated late)
            (record p { progress = finished order from_string matches r p.progress })).progress
          ≡ all_done p.progress
    unfolding finished
    ends-done c r late p e l =
        rw (e, l)
          (ap (λ (q : Pulling). q.progress)
            (started-nothing c (record p { progress = all_done p.progress })))

    found-done :
        (o : Option Status) (v : Status)
        → Option.map done o ≡ some v
        → (v.status ≡ codes "done") × (v.offset ≡ v.total)
    unfolding done
    found-done none v h = cc
    found-done (some w) v h =
        subst (λ (x : Status). (x.status ≡ codes "done") × (x.offset ≡ x.total)) (some-injective h)
          (refl, refl)

    -- A pull that succeeded, with no step of the goroutine behind its end, leaves every layer in the state done with
    -- all its bytes.
    pull_image-done :
        (p : Pull order from_string matches) (s : ImageFetch) (k : Bytes) (v : Status)
        → (pull_image order from_string matches p s).0 ≡ ok tt
        → p.late ≡ []
        → lookup k (pull_image order from_string matches p s).1.layers ≡ some v
        → (v.status ≡ codes "done") × (v.offset ≡ v.total)
    unfolding pull_image all_done
    pull_image-done p s k v r l e =
        let a =
          started order from_string matches p.connected p.during
            (record { progress = s; updater = idle }) in
        found-done (lookup k a.progress.layers) v (
          sym (
            ap (λ (f : ImageFetch). lookup k f.layers) (ends-done p.connected _ p.late a r l)
            ∙ lookup-map_values k done a.progress.layers)
          ∙ e)

    supports-exist :
        (platforms : List Platform)
        → supports order from_string matches platforms ≡ ok tt
        → platform_exist matches platforms ≡ true
    unfolding supports
    supports-exist platforms h = elim (Bool-cases (platform_exist matches platforms)) [
      | inl e ↦ e
      | inr e ↦ cc
    ]

    is_available-true : (b : Bool) → is_available order from_string matches b ≡ ok tt → b ≡ true
    unfolding is_available
    is_available-true true h = refl
    is_available-true false h = cc

    -- Every step of a pull succeeds, the image supports the platform and is available for it.
    abbrev pub IsPulled : Pull order from_string matches → Type 0
    IsPulled p =
        (p.connected ≡ ok tt)
        × (p.pulled ≡ ok tt)
        × ((platforms : List Platform) × (p.supported ≡ ok platforms)
            × (platform_exist matches platforms ≡ true))
        × (p.available ≡ ok true)
        × (p.unpacked ≡ ok tt)

    pull_result-IsPulled :
        (p : Pull order from_string matches)
        → pull_result order from_string matches p ≡ ok tt
        → IsPulled p
    unfolding pull_result
    pull_result-IsPulled p h =
        let (_, c, h1) = bind-ok p.connected _ tt h in
        let (_, q, h2) = bind-ok p.pulled _ tt h1 in
        let (platforms, s, h3) = bind-ok p.supported _ tt h2 in
        let (_, x, h4) = bind-ok (supports order from_string matches platforms) _ tt h3 in
        let (b, a, h5) = bind-ok p.available _ tt h4 in
        let (_, y, u) = bind-ok (is_available order from_string matches b) _ tt h5 in
        (c, q, (platforms, s, supports-exist platforms x), a ∙ ap ok (is_available-true b y), u)

    pull_result-of_IsPulled :
        (p : Pull order from_string matches)
        → IsPulled p
        → pull_result order from_string matches p ≡ ok tt
    unfolding pull_result supports is_available
    pull_result-of_IsPulled p (c, q, (platforms, s, x), a, u) = rw (c, q, s, x, a, u) refl

    -- A pull succeeds exactly if each of its steps does, the image supports the platform, and the
    -- image is available for it.
    pull_result_iff :
        (p : Pull order from_string matches)
        → (pull_result order from_string matches p ≡ ok tt) ↔ IsPulled p
    pull_result_iff p = (pull_result-IsPulled p, pull_result-of_IsPulled p)
