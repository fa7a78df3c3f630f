-- ===== src/Utils/Fqin/Laws.antt =====
-- pkg/utils/fqin.go: the parts of a fully qualified image name.
use eliot.Prelude.{
  ℕ, ◌≡◌, Bytes, some, List, [], ◌∷◌, ◌++◌, arith, has, Lacks, cut, cut_sound, Lacks-of_cut, inl,
  inr, Option-cases, split_n-append, append-ne-nil, false, split_n, bytes_beq, ◌∙◌, ap,
}
use eliot.Utils.Fqin.{
  Fqin, by_slashes, by_colon, resolve_fqin, print_fqin, expand_to_fqin, get_fqin_image,
  get_fqin_username,
}

-- The parts between the separators hold no separator of theirs.
pub record IsResolved (f : Fqin) : Type 0 where
  pub registry : Lacks b'/' f.registry
  pub username : Lacks b'/' f.username
  pub image : Lacks b':' f.image

cut_head : (c : ℕ) (s : Bytes) (p : Bytes × Bytes) → cut c s ≡ some p → Lacks c p.0
cut_head c s p e = (cut_sound c s p.0 p.1 e).1

by_slashes_registry : (s : Bytes) → Lacks b'/' (by_slashes s (split_n b'/' 3 s)).registry
unfolding by_slashes split_n has
by_slashes_registry s = elim (Option-cases (cut b'/' s)) [
  | inl e ↦ rw (e, split_n)
  | inr (p, e) ↦ elim (Option-cases (cut b'/' p.1)) [
    | inl e' ↦ rw (e, by_slashes) (rw (e', by_slashes))
    | inr (q, e') ↦ rw (e, by_slashes) (rw (e', by_slashes) (cut_head b'/' s p e))
  ]
]

by_slashes_username : (s : Bytes) → Lacks b'/' (by_slashes s (split_n b'/' 3 s)).username
unfolding by_slashes split_n has
by_slashes_username s = elim (Option-cases (cut b'/' s)) [
  | inl e ↦ rw (e, split_n)
  | inr (p, e) ↦ elim (Option-cases (cut b'/' p.1)) [
    | inl e' ↦ rw (e, by_slashes) (rw (e', by_slashes) (cut_head b'/' s p e))
    | inr (q, e') ↦ rw (e, by_slashes) (rw (e', by_slashes) (cut_head b'/' p.1 q e'))
  ]
]

by_colon_image : (f : Fqin) → Lacks b':' (by_colon f (split_n b':' 2 f.image)).image
unfolding by_colon split_n
by_colon_image f = elim (Option-cases (cut b':' f.image)) [
  | inl e ↦ ground (arith, Lacks-of_cut b':' f.image)
  | inr (p, e) ↦ ground (arith, cut_sound b':' f.image p.0 p.1)
]

by_colon_keeps :
    (f : Fqin) (ps : List Bytes)
    → ((by_colon f ps).registry ≡ f.registry) × ((by_colon f ps).username ≡ f.username)
unfolding by_colon
by_colon_keeps f ps = ground arith

resolve_fqin-IsResolved : (s : Bytes) → IsResolved (resolve_fqin s)
unfolding resolve_fqin
resolve_fqin-IsResolved s =
    let f = by_slashes s (split_n b'/' 3 s) in
    let kept = by_colon_keeps f (split_n b':' 2 f.image) in
    record {
      registry = rw kept.0 (by_slashes_registry s);
      username = rw kept.1 (by_slashes_username s);
      image = by_colon_image f;
    }

split_n-print_fqin :
    (f : Fqin)
    → IsResolved f
    → split_n b'/' 3 (print_fqin f) ≡ f.registry ∷ f.username ∷ (f.image ++ (b':' ∷ f.tag)) ∷ []
unfolding split_n print_fqin
split_n-print_fqin f h =
    split_n-append b'/' 1 f.registry _ h.registry
    ∙ ap (λ r. f.registry ∷ r) (split_n-append b'/' 0 f.username _ h.username)

split_n_image :
    (f : Fqin) → IsResolved f → split_n b':' 2 (f.image ++ (b':' ∷ f.tag)) ≡ f.image ∷ f.tag ∷ []
unfolding split_n
split_n_image f h = split_n-append b':' 0 f.image _ h.image

resolve_fqin-print_fqin : (f : Fqin) → IsResolved f → resolve_fqin (print_fqin f) ≡ f
unfolding resolve_fqin by_slashes by_colon
resolve_fqin-print_fqin f h =
    rw (split_n-print_fqin f h, by_slashes) (rw (split_n_image f h, by_colon))

print_fqin-ne-nil : (f : Fqin) → bytes_beq (print_fqin f) [] ≡ false
unfolding print_fqin
print_fqin-ne-nil f = append-ne-nil f.registry _ b'/'

expand_to_fqin-print_fqin :
    (s e : Bytes) → expand_to_fqin s ≡ some e → e ≡ print_fqin (resolve_fqin s)
unfolding expand_to_fqin
expand_to_fqin-print_fqin s e h = ground arith

-- Expanding an image name once is enough: the expanded name expands to itself.
expand_to_fqin_idem : (s e : Bytes) → expand_to_fqin s ≡ some e → expand_to_fqin e ≡ some e
unfolding expand_to_fqin
expand_to_fqin_idem s e h =
    let f = resolve_fqin s in
    let p = expand_to_fqin-print_fqin s e h in
    ground (arith, p, print_fqin-ne-nil f, resolve_fqin-print_fqin f (resolve_fqin-IsResolved s))

-- The user and image parts read back from an expanded name are those that were expanded.
pub get_fqin-expand_to_fqin :
    (s e : Bytes)
    → expand_to_fqin s ≡ some e
    → (get_fqin_username e ≡ some (resolve_fqin s).username)
      × (get_fqin_image e ≡ some (resolve_fqin s).image)
unfolding get_fqin_username get_fqin_image
get_fqin-expand_to_fqin s e h =
    let f = resolve_fqin s in
    let r = resolve_fqin-IsResolved s in
    rw (expand_to_fqin-print_fqin s e h) (
      rw (split_n-print_fqin f r, get_fqin_username),
      rw (split_n-print_fqin f r, get_fqin_image) (rw (split_n_image f r, get_fqin_image)),
    )
