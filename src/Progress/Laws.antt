-- ===== src/Progress/Laws.antt =====
-- pkg/progress/imagefetch.go: orders of iteration, and sequences of calls.
use mathlib.Core.List.{Perm, Permᴰ}
use mathlib.Core.Option
use mathlib.Core.Logic.{∥∥₁_elim}
use native.Mathlib.Nat.{ℕ_set}
use eliot.Prelude.{
  ℕ, Bytes, codes, Bool, true, false, List, [], ◌∷◌, Option, some, none, if◌then◌else◌, Dict,
  lookup, lookup-insert, lookup-update, lookup-map_values, values, map_values, ◌+◌, ◌%◌, ◌^◌, ◌==◌,
  nat_eq, not, ◌≡◌, refl, ◌∙◌, bytes_beq, eq_iff, arith, Option-cases, inl, inr,
}
use eliot.Progress.{
  Status, ImageFetch, sums, get_progress, is_done, add, set_to_waiting, set_to_downloading,
  set_to_done, set_to_failed, all_done, new_image_fetch, new_status, waiting, downloading, done,
}

-- Two layers may change places in the sums.
sums_swap : (a b : Status) (l : List Status) (c t : ℕ) → sums c t (a ∷ b ∷ l) ≡ sums c t (b ∷ a ∷ l)
unfolding sums
sums_swap a b l c t =
    let e : ((c + a.offset) % 2 ^ 64 + b.offset) % 2 ^ 64
        ≡ ((c + b.offset) % 2 ^ 64 + a.offset) % 2 ^ 64 =
      omega arith in
    let f : ((t + a.total) % 2 ^ 64 + b.total) % 2 ^ 64
        ≡ ((t + b.total) % 2 ^ 64 + a.total) % 2 ^ 64 =
      omega arith in
    λ i. sums (e i) (f i) l

sums-Permᴰ : {l m : List Status} → Permᴰ l m → (c t : ℕ) → sums c t l ≡ sums c t m
unfolding sums
sums-Permᴰ Permᴰ.nil c t = refl
sums-Permᴰ (Permᴰ.cons {a} {b} {l₁} {l₂} e p) c t =
    rw (← e) (sums-Permᴰ p ((c + a.offset) % 2 ^ 64) ((t + a.total) % 2 ^ 64))
sums-Permᴰ (Permᴰ.swap {a} {b} {a'} {b'} {l} e f) c t = rw (← e, ← f) (sums_swap a b l c t)
sums-Permᴰ (Permᴰ.trans p q) c t = sums-Permᴰ p c t ∙ sums-Permᴰ q c t

pub sums-Perm : (l m : List Status) → Perm l m → (c t : ℕ) → sums c t l ≡ sums c t m
sums-Perm l m p c t = ∥∥₁_elim p (hlevel ℕ_set) (λ q. sums-Permᴰ q c t)

-- Every order is a way to go through all the layers.
abbrev pub IsOrder : (List Status → List Status) → Type 0
IsOrder order = (l : List Status) → Perm (order l) l

-- The progress does not depend on the order in which the layers are visited.
pub get_progress-order :
    (order : List Status → List Status) (s : ImageFetch)
    → IsOrder order
    → get_progress order s ≡ get_progress (λ l. l) s
unfolding get_progress
get_progress-order order s h =
    sums-Perm (order (values s.layers)) (values s.layers) (h (values s.layers)) 0 0

sums-done :
    (m : Dict Status) (c t : ℕ)
    → let T = (sums c t (values m)).1 in sums t t (values (map_values done m)) ≡ (T, T)
unfolding sums done map_values
sums-done [] c t = refl
sums-done ((k, v) ∷ m) c t = sums-done m ((c + v.offset) % 2 ^ 64) ((t + v.total) % 2 ^ 64)

get_progress-all_done :
    (s : ImageFetch)
    → let T = (get_progress (λ l. l) s).1 in get_progress (λ l. l) (all_done s) ≡ (T, T)
unfolding get_progress all_done
get_progress-all_done s = sums-done s.layers 0 0

-- When all layers are marked as done, the fetch counts as done exactly if the layers' total is not
-- zero, in whatever order the layers are visited.
is_done-all_done :
    (order : List Status → List Status) (s : ImageFetch)
    → IsOrder order
    → is_done order (all_done s) ≡ not ((get_progress order s).1 == 0)
unfolding is_done
is_done-all_done order s h =
    rw
      (
        get_progress-order order (all_done s) h,
        get_progress-order order s h,
        get_progress-all_done s,
      )
      (ground arith)

-- A call of one of the methods that change a fetch.
pub data Op : Type 0 where
  op_add : Bytes → Bytes → Op
  op_waiting : Bytes → Op
  op_downloading : Bytes → ℕ → ℕ → Op
  op_done : Bytes → Op
  op_failed : Op
  op_all_done : Op

unfoldable pub run_op : ImageFetch → Op → ImageFetch
run_op s (op_add ref digest) = add s ref digest
run_op s (op_waiting ref) = set_to_waiting s ref
run_op s (op_downloading ref offset total) = set_to_downloading s ref offset total
run_op s (op_done ref) = set_to_done s ref
run_op s op_failed = set_to_failed s
run_op s op_all_done = all_done s

unfoldable pub run_ops : List Op → ImageFetch → ImageFetch
unfolding run_op
run_ops [] s = s
run_ops (o ∷ os) s = run_ops os (run_op s o)

-- A layer stands under its own reference, and has all its bytes once it is done.
abbrev pub LayerIsSound : Bytes → Option Status → Type 0
LayerIsSound k none = Unit
LayerIsSound k (some v) = (v.ref ≡ k) × (v.status ≡ codes "done" → v.offset ≡ v.total)

pub record IsSound (s : ImageFetch) : Type 0 where
  pub layer : (k : Bytes) → LayerIsSound k (lookup k s.layers)

not_done : (t : Bytes) (A : Type 0) → bytes_beq t (codes "done") ≡ false → t ≡ codes "done" → A
not_done t A h e = absurd (ground (arith, eq_iff t (codes "done")))

new_status-IsSound : (k digest : Bytes) → LayerIsSound k (some (new_status k digest))
unfolding new_status
new_status-IsSound k digest = (refl, λ e. refl)

waiting-IsSound :
    (k : Bytes) (o : Option Status) → LayerIsSound k o → LayerIsSound k (Option.map waiting o)
unfolding waiting bytes_beq
waiting-IsSound k none h = tt
waiting-IsSound k (some v) (h, _) = (h, λ e. not_done (codes "waiting") _ refl e)

downloading-IsSound :
    (k : Bytes) (a b : ℕ) (o : Option Status)
    → LayerIsSound k o
    → LayerIsSound k (Option.map (downloading a b) o)
unfolding downloading bytes_beq
downloading-IsSound k a b none h = tt
downloading-IsSound k a b (some v) (h, _) = (h, λ e. not_done (codes "downloading") _ refl e)

done-IsSound :
    (k : Bytes) (o : Option Status) → LayerIsSound k o → LayerIsSound k (Option.map done o)
unfolding done
done-IsSound k none h = tt
done-IsSound k (some v) (h, _) = (h, λ e. refl)

LayerIsSound-if :
    (b : Bool) (k : Bytes) (x y : Option Status)
    → (b ≡ true → LayerIsSound k x)
    → LayerIsSound k y
    → LayerIsSound k (if b then x else y)
LayerIsSound-if true k x y h h' = h refl
LayerIsSound-if false k x y h h' = h'

run_op-IsSound : (s : ImageFetch) (o : Op) → IsSound s → IsSound (run_op s o)
unfolding run_op add set_to_waiting set_to_downloading set_to_done set_to_failed all_done
run_op-IsSound s (op_add ref digest) h = elim (Option-cases (lookup ref s.layers)) [
  | inl e ↦ record {
    layer = λ k.
        rw (e, add)
          (rw lookup-insert (
            LayerIsSound-if (bytes_beq ref k) k _ _
              (λ t. rw ((eq_iff ref k).0 t) (new_status-IsSound k digest)) (h.layer k)));
  }
  | inr (v, e) ↦ record { layer = λ k. rw (e, add) (h.layer k) }
]
run_op-IsSound s (op_waiting ref) h = record {
  layer = λ k. rw lookup-update (
      LayerIsSound-if (bytes_beq ref k) k _ _
        (λ t. waiting-IsSound k (lookup k s.layers) (h.layer k)) (h.layer k));
}
run_op-IsSound s (op_downloading ref a b) h = record {
  layer = λ k. rw lookup-update (
      LayerIsSound-if (bytes_beq ref k) k _ _
        (λ t. downloading-IsSound k a b (lookup k s.layers) (h.layer k)) (h.layer k));
}
run_op-IsSound s (op_done ref) h = record {
  layer = λ k. rw lookup-update (
      LayerIsSound-if (bytes_beq ref k) k _ _ (λ t. done-IsSound k (lookup k s.layers) (h.layer k))
        (h.layer k));
}
run_op-IsSound s op_failed h = record { layer = h.layer }
run_op-IsSound s op_all_done h = record {
  layer = λ k. rw lookup-map_values (done-IsSound k (lookup k s.layers) (h.layer k));
}

run_ops-IsSound : (os : List Op) (s : ImageFetch) → IsSound s → IsSound (run_ops os s)
unfolding run_ops
run_ops-IsSound [] s h = h
run_ops-IsSound (o ∷ os) s h = run_ops-IsSound os (run_op s o) (run_op-IsSound s o h)

-- Whatever the calls and their order, every layer of a new fetch stands under its own reference, and
-- a layer in the state done has as many bytes as its total.
pub new_image_fetch-IsSound :
    (container_id image : Bytes) (os : List Op)
    → IsSound (run_ops os (new_image_fetch container_id image))
unfolding new_image_fetch lookup
new_image_fetch-IsSound container_id image os = run_ops-IsSound os _ (record { layer = λ k. tt })
