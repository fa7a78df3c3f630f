-- ===== src/Api/Server/Updates.antt =====
-- pkg/api/server.go: the goroutine of Create that sends the progress, next to the loop over the
-- containers. Both read and write `progresses`; an event is one step of either, or of a method of a
-- fetch, which holds the lock, and a list of events is an order in which they may run.
use eliot.Prelude.{
  ℕ, zero, suc, Bytes, lookup, Option-cases, inl, inr, Bool, true, false, List, [], ◌∷◌, ◌++◌, map,
  All, All-append, append_assoc, append-nil, ◌≡◌, refl, sym, ap, ◌∙◌, if◌then◌else◌,
}
use eliot.Model.{Container}
use eliot.Progress.{
  Status, ImageFetch, create_image_fetch, new_image_fetch, add, set_to_waiting, set_to_downloading,
  set_to_done, set_to_failed, all_done,
}
use eliot.Progress.Laws.{
  Op, op_add, op_waiting, op_downloading, op_done, op_failed, op_all_done, run_op,
}
use eliot.Api.Mapping.Progress.{ApiImageFetch, map_image_fetch_progress_to_api_model}

-- The variables that the two share: the containers that the loop has left, `progresses`, the messages
-- that were sent, and whether `done` is closed and the goroutine has returned.
pub record Updates : Type 0 where
  pub left : List Container
  pub progresses : List ImageFetch
  pub sent : List (List ApiImageFetch)
  pub closed : Bool
  pub returned : Bool

pub data Event : Type 0 where
  -- The loop takes the next container.
  next : Event
  -- A method of a fetch, by its index.
  method : ℕ → Op → Event
  -- The handler returns.
  close_done : Event
  -- The two branches of select.
  tick : Event
  last : Event

unfoldable pub method_at : ℕ → Op → List ImageFetch → List ImageFetch
unfolding run_op
method_at n o [] = []
method_at zero o (f ∷ fs) = run_op f o ∷ fs
method_at (suc n) o (f ∷ fs) = f ∷ method_at n o fs

-- The start of an iteration, unless the handler has returned.
unfoldable take_next : Bool → List Container → Updates → Updates
take_next true cs s = s
take_next false [] s = s
take_next false (c ∷ cs) s = record s {
  left = cs;
  progresses = s.progresses ++ new_image_fetch c.name c.image ∷ [];
}

module _ (order : List Status → List Status) where
  unfoldable pub send : Updates → Updates
  send s = record s {
    sent = s.sent ++ map_image_fetch_progress_to_api_model order s.progresses ∷ [];
  }

  -- The branch of select for the end, which is there once `done` is closed.
  unfoldable ended : Updates → Updates
  unfolding send
  ended s = if s.closed then record (send s) { returned = true } else s

  unfoldable pub step : Updates → Event → Updates
  unfolding send method_at take_next ended
  step s next = take_next s.closed s.left s
  step s (method n o) = record s { progresses = method_at n o s.progresses }
  step s close_done = record s { closed = true }
  step s tick = if s.returned then s else send s
  step s last = if s.returned then s else ended s

  unfoldable pub steps : List Event → Updates → Updates
  unfolding step
  steps [] s = s
  steps (e ∷ es) s = steps es (step s e)

unfoldable pub new_updates : List Container → Updates
new_updates cs = record { left = cs; progresses = []; sent = []; closed = false; returned = false }

-- What names a fetch: the container and the image.
abbrev pub asked : List Container → List (Bytes × Bytes)
asked cs = map (λ (c : Container). (c.name, c.image)) cs

abbrev fetched : List ImageFetch → List (Bytes × Bytes)
fetched fs = map (λ (f : ImageFetch). (f.container_id, f.image)) fs

abbrev pub told : List ApiImageFetch → List (Bytes × Bytes)
told fs = map (λ (f : ApiImageFetch). (f.container_id, f.image)) fs

-- The first list is a prefix of the second.
pub record IsPrefix (xs ys : List (Bytes × Bytes)) : Type 0 where
  pub rest : List (Bytes × Bytes)
  pub whole : xs ++ rest ≡ ys

record IsOrdered (cs : List Container) (s : Updates) : Type 0 where
  known : fetched s.progresses ++ asked s.left ≡ asked cs
  messages : All (λ m. IsPrefix (told m) (asked cs)) s.sent

named_run_op :
    (f : ImageFetch) (o : Op)
    → ((run_op f o).container_id ≡ f.container_id) × ((run_op f o).image ≡ f.image)
unfolding run_op add set_to_waiting set_to_downloading set_to_done set_to_failed all_done
named_run_op f (op_add ref digest) = elim (Option-cases (lookup ref f.layers)) [
  | inl e ↦ rw (e, run_op, add) (refl, refl)
  | inr (v, e) ↦ rw (e, run_op, add) (refl, refl)
]
named_run_op f (op_waiting ref) = (refl, refl)
named_run_op f (op_downloading ref a b) = (refl, refl)
named_run_op f (op_done ref) = (refl, refl)
named_run_op f op_failed = (refl, refl)
named_run_op f op_all_done = (refl, refl)

method_at-fetched :
    (n : ℕ) (o : Op) (fs : List ImageFetch) → fetched (method_at n o fs) ≡ fetched fs
unfolding method_at
method_at-fetched n o [] = refl
method_at-fetched zero o (f ∷ fs) = let (i, j) = named_run_op f o in rw (i, j) refl
method_at-fetched (suc n) o (f ∷ fs) =
    ap (λ xs. (f.container_id, f.image) ∷ xs) (method_at-fetched n o fs)

fetched-append : (fs gs : List ImageFetch) → fetched (fs ++ gs) ≡ fetched fs ++ fetched gs
fetched-append [] gs = refl
fetched-append (f ∷ fs) gs = ap (λ xs. (f.container_id, f.image) ∷ xs) (fetched-append fs gs)

take_next-IsOrdered :
    (cs : List Container) (b : Bool) (left : List Container) (s : Updates)
    → s.left ≡ left
    → IsOrdered cs s
    → IsOrdered cs (take_next b left s)
unfolding take_next new_image_fetch create_image_fetch
take_next-IsOrdered cs true left s e h = h
take_next-IsOrdered cs false [] s e h = h
take_next-IsOrdered cs false (c ∷ left) s e h = record {
  known =
      ap (λ xs. xs ++ asked left)
        (fetched-append s.progresses (new_image_fetch c.name c.image ∷ []))
      ∙ append_assoc (fetched s.progresses) _ (asked left)
      ∙ sym (ap (λ cs. fetched s.progresses ++ asked cs) e)
      ∙ h.known;
  messages = h.messages;
}

take_next-keeps :
    (b : Bool) (cs : List Container) (s : Updates)
    → ((take_next b cs s).returned ≡ s.returned) × ((take_next b cs s).sent ≡ s.sent)
unfolding take_next
take_next-keeps true cs s = (refl, refl)
take_next-keeps false [] s = (refl, refl)
take_next-keeps false (c ∷ cs) s = (refl, refl)

if-IsOrdered :
    (cs : List Container) (b : Bool) (s t : Updates)
    → IsOrdered cs s
    → IsOrdered cs t
    → IsOrdered cs (if b then s else t)
if-IsOrdered cs true s t h k = h
if-IsOrdered cs false s t h k = k

module _ (order : List Status → List Status) where
  told_map :
      (fs : List ImageFetch) → told (map_image_fetch_progress_to_api_model order fs) ≡ fetched fs
  unfolding map_image_fetch_progress_to_api_model
  told_map [] = refl
  told_map (f ∷ fs) = ap (λ xs. (f.container_id, f.image) ∷ xs) (told_map fs)

  send-IsOrdered :
      (cs : List Container) (s : Updates) → IsOrdered cs s → IsOrdered cs (send order s)
  unfolding send
  send-IsOrdered cs s h = record {
    known = h.known;
    messages = All-append _ s.sent _ h.messages (
      record {
        rest = asked s.left;
        whole = ap (λ xs. xs ++ asked s.left) (told_map s.progresses) ∙ h.known;
      },
      tt,
    );
  }

  step-IsOrdered :
      (cs : List Container) (s : Updates) (e : Event)
      → IsOrdered cs s
      → IsOrdered cs (step order s e)
  unfolding step ended
  step-IsOrdered cs s next h = take_next-IsOrdered cs s.closed s.left s refl h
  step-IsOrdered cs s (method n o) h = record {
    known = ap (λ xs. xs ++ asked s.left) (method_at-fetched n o s.progresses) ∙ h.known;
    messages = h.messages;
  }
  step-IsOrdered cs s close_done h = record { known = h.known; messages = h.messages }
  step-IsOrdered cs s tick h = if-IsOrdered cs s.returned s _ h (send-IsOrdered cs s h)
  step-IsOrdered cs s last h =
      let sending = send-IsOrdered cs s h in
      if-IsOrdered cs s.returned s _ h (
        if-IsOrdered cs s.closed _ s (record { known = sending.known; messages = sending.messages })
          h)

  steps-IsOrdered :
      (cs : List Container) (es : List Event) (s : Updates)
      → IsOrdered cs s
      → IsOrdered cs (steps order es s)
  unfolding steps
  steps-IsOrdered cs [] s h = h
  steps-IsOrdered cs (e ∷ es) s h = steps-IsOrdered cs es (step order s e) (step-IsOrdered cs s e h)

  reached-IsOrdered :
      (cs : List Container) (es : List Event) → IsOrdered cs (steps order es (new_updates cs))
  unfolding new_updates
  reached-IsOrdered cs es = steps-IsOrdered cs es _ (record { known = refl; messages = tt })

  -- In whatever order the loop, the pulls and the goroutine run, every message names, in their order,
  -- the first of the pod's containers with their images, and nothing else.
  pub steps-prefix :
      (cs : List Container) (es : List Event)
      → All (λ m. IsPrefix (told m) (asked cs)) (steps order es (new_updates cs)).sent
  steps-prefix cs es = (reached-IsOrdered cs es).messages

  stays_returned : (s : Updates) (e : Event) → s.returned ≡ true → (step order s e).returned ≡ true
  unfolding step take_next
  stays_returned s next h = (take_next-keeps s.closed s.left s).0 ∙ h
  stays_returned s (method n o) h = h
  stays_returned s close_done h = h
  stays_returned s tick h = ap (λ b. (if b then s else send order s).returned) h ∙ h
  stays_returned s last h = ap (λ b. (if b then s else ended order s).returned) h ∙ h

  step-returned : (s : Updates) (e : Event) → s.returned ≡ true → (step order s e).sent ≡ s.sent
  unfolding step take_next
  step-returned s next h = (take_next-keeps s.closed s.left s).1
  step-returned s (method n o) h = refl
  step-returned s close_done h = refl
  step-returned s tick h = rw h refl
  step-returned s last h = rw h refl

  steps-returned :
      (es : List Event) (s : Updates) → s.returned ≡ true → (steps order es s).sent ≡ s.sent
  unfolding steps
  steps-returned [] s h = refl
  steps-returned (e ∷ es) s h =
      steps-returned es (step order s e) (stays_returned s e h) ∙ step-returned s e h

  last-sent :
      (es : List Event) (s : Updates)
      → s.closed ≡ true
      → s.returned ≡ false
      → (steps order (last ∷ es) s).sent
        ≡ s.sent ++ map_image_fetch_progress_to_api_model order s.progresses ∷ []
  unfolding steps step send ended
  last-sent es s c r =
      let sending = record (send order s) { returned = true } in
      ap (λ b. (steps order es (if b then s else ended order s)).sent) r
      ∙ ap (λ b. (steps order es (if b then sending else s)).sent) c
      ∙ steps-returned es sending refl

  -- Where the loop has taken all containers, the handler has returned and the goroutine has not, the
  -- goroutine's branch for the end sends one message, which shows the fetches as they are then and
  -- names all containers with their images; whatever runs behind it, nothing more is sent.
  pub steps-last :
      (cs : List Container) (es es' : List Event)
      → (let s = steps order es (new_updates cs) in
          let message = map_image_fetch_progress_to_api_model order s.progresses in
          s.closed ≡ true
          → s.returned ≡ false
          → s.left ≡ []
          → ((steps order (last ∷ es') s).sent ≡ s.sent ++ message ∷ [])
            × (told message ≡ asked cs))
  steps-last cs es es' c r l =
      let s = steps order es (new_updates cs) in
      let h = reached-IsOrdered cs es in
      (
        last-sent es' s c r,
        told_map s.progresses
            ∙ sym (append-nil (fetched s.progresses))
            ∙ sym (ap (λ left. fetched s.progresses ++ asked left) l)
            ∙ h.known,
      )
