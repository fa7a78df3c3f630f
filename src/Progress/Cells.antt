-- ===== src/Progress/Cells.antt =====
-- pkg/progress/imagefetch.go: the fetch as a family of layers that do not meet.
use eliot.Prelude.{
  Bytes, true, List, [], ◌∷◌, Option, some, none, if◌then◌else◌, lookup, insert, lookup-insert,
  lookup-update, lookup-map_values, ◌==◌, bytes_eq, eq_iff, ◌≡◌, refl, sym, ap, ◌∙◌, Bool-cases,
  inl, inr,
}
use mathlib.Core.Option
use eliot.Progress.{
  Status, ImageFetch, new_status, waiting, downloading, done, add, set_to_waiting,
  set_to_downloading, set_to_done, set_to_failed, all_done,
}
use eliot.Progress.Laws.{
  Op, op_add, op_waiting, op_downloading, op_done, op_failed, op_all_done, run_op, run_ops,
}

-- What a call does to the layer under k, whether it is there or not.
abbrev pub at_cell : Bytes → Op → Option Status → Option Status
at_cell k (op_add ref digest) none = if ref == k then some (new_status ref digest) else none
at_cell k (op_add ref digest) (some s) = some s
at_cell k (op_waiting ref) c = if ref == k then Option.map waiting c else c
at_cell k (op_downloading ref offset total) c =
    if ref == k then Option.map (downloading offset total) c else c
at_cell k (op_done ref) c = if ref == k then Option.map done c else c
at_cell k op_failed c = c
at_cell k op_all_done c = Option.map done c

-- What a sequence of calls does to it.
abbrev pub replay : Bytes → List Op → Option Status → Option Status
replay k [] c = c
replay k (o ∷ os) c = replay k os (at_cell k o c)

absent :
    (k ref digest : Bytes) (c : Option Status)
    → ((ref == k) ≡ true → c ≡ none)
    → (if ref == k then some (new_status ref digest) else c) ≡ at_cell k (op_add ref digest) c
absent k ref digest none h = refl
absent k ref digest (some s) h = elim (Bool-cases (ref == k)) [
  | inl e ↦ let x = h e in cc
  | inr e ↦ rw e refl
]

present :
    (k ref digest : Bytes) (c : Option Status)
    → ((ref == k) ≡ true → c ≡ none → ⊥)
    → c ≡ at_cell k (op_add ref digest) c
present k ref digest none h = elim (Bool-cases (ref == k)) [
  | inl e ↦ absurd (h e refl)
  | inr e ↦ rw e refl
]
present k ref digest (some s) h = refl

-- add, given what is under the reference.
abbrev added : Bytes → Bytes → ImageFetch → Option Status → ImageFetch
added ref digest s o = elim o [
  | some _ ↦ record s { resolved = true }
  | none ↦ record s { resolved = true; layers = insert ref (new_status ref digest) s.layers }
]

add-at_cell :
    (k ref digest : Bytes) (s : ImageFetch) (c : Option Status)
    → lookup ref s.layers ≡ c
    → lookup k (add s ref digest).layers ≡ at_cell k (op_add ref digest) (lookup k s.layers)
unfolding add
add-at_cell k ref digest s none e =
    ap (λ o. lookup k (added ref digest s o).layers) e
    ∙ lookup-insert ref k (new_status ref digest) s.layers
    ∙ absent k ref digest (lookup k s.layers)
        λ h. sym (ap (λ r. lookup r s.layers) ((eq_iff ref k).0 h)) ∙ e
add-at_cell k ref digest s (some v) e =
    ap (λ o. lookup k (added ref digest s o).layers) e
    ∙ present k ref digest (lookup k s.layers)
        λ h n. some≢none (sym e ∙ ap (λ r. lookup r s.layers) ((eq_iff ref k).0 h) ∙ n)
  where
    some≢none : some v ≡ none → ⊥
    some≢none x = cc

-- A call acts on every layer by itself.
run_op-at_cell :
    (k : Bytes) (o : Op) (s : ImageFetch)
    → lookup k (run_op s o).layers ≡ at_cell k o (lookup k s.layers)
unfolding run_op set_to_waiting set_to_downloading set_to_done set_to_failed all_done
run_op-at_cell k (op_add ref digest) s = add-at_cell k ref digest s (lookup ref s.layers) refl
run_op-at_cell k (op_waiting ref) s = lookup-update ref k waiting s.layers
run_op-at_cell k (op_downloading ref offset total) s =
    lookup-update ref k (downloading offset total) s.layers
run_op-at_cell k (op_done ref) s = lookup-update ref k done s.layers
run_op-at_cell k op_failed s = refl
run_op-at_cell k op_all_done s = lookup-map_values k done s.layers

-- Whatever the calls and their order, what is under a key in the end is what the calls make of what
-- was under it at first: the map of layers implements a family of layers that do not meet.
pub run_ops-replay :
    (k : Bytes) (os : List Op) (s : ImageFetch)
    → lookup k (run_ops os s).layers ≡ replay k os (lookup k s.layers)
unfolding run_ops
run_ops-replay k [] s = refl
run_ops-replay k (o ∷ os) s =
    run_ops-replay k os (run_op s o) ∙ ap (replay k os) (run_op-at_cell k o s)
