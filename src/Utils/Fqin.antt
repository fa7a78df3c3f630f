-- ===== src/Utils/Fqin.antt =====
-- pkg/utils/fqin.go: fully qualified image names.
pub mod Laws
use eliot.Prelude.{
  ℕ, ◌≡◌, refl, Bytes, codes, Option, none, some, List, [], ◌∷◌, ◌++◌, split_n, bytes_beq, cut,
  if◌then◌else◌,
}

abbrev default_registry : Bytes
default_registry = codes "docker.io"

abbrev default_username : Bytes
default_username = codes "library"

abbrev default_tag : Bytes
default_tag = codes "latest"

-- The four variables that the function fills in.
pub record Fqin : Type 0 where
  pub registry : Bytes
  pub username : Bytes
  pub image : Bytes
  pub tag : Bytes

-- The cases of len(parts), on the parts of strings.SplitN(source, "/", 3).
by_slashes : Bytes → List Bytes → Fqin
by_slashes source (r ∷ u ∷ i ∷ []) = record {
  registry = r;
  username = u;
  image = i;
  tag = default_tag;
}
by_slashes source (u ∷ i ∷ []) = record {
  registry = default_registry;
  username = u;
  image = i;
  tag = default_tag;
}
by_slashes source _ = record {
  registry = default_registry;
  username = default_username;
  image = source;
  tag = default_tag;
}

-- The case of len(imageParts), on the parts of strings.SplitN(image, ":", 2).
by_colon : Fqin → List Bytes → Fqin
by_colon f (i ∷ t ∷ []) = record f { image = i; tag = t }
by_colon f _ = f

unfoldable pub resolve_fqin : Bytes → Fqin
unfolding by_slashes by_colon split_n
resolve_fqin source =
    let f = by_slashes source (split_n b'/' 3 source) in by_colon f (split_n b':' 2 f.image)

-- fmt.Sprintf("%s/%s/%s:%s", registry, username, image, tag)
unfoldable pub print_fqin : Fqin → Bytes
print_fqin f = f.registry ++ (b'/' ∷ (f.username ++ (b'/' ∷ (f.image ++ (b':' ∷ f.tag)))))

-- none: log.Fatal ends the process.
unfoldable pub expand_to_fqin : Bytes → Option Bytes
expand_to_fqin source =
    if bytes_beq source [] then none else some (print_fqin (resolve_fqin source))

-- none: parts[2] panics, where there are fewer than three parts.
unfoldable pub get_fqin_image : Bytes → Option Bytes
unfolding split_n
get_fqin_image fqin = elim (split_n b'/' 3 fqin) [
  | _ ∷ _ ∷ image ∷ _ ↦ elim (split_n b':' 2 image) [ [] ↦ none | first ∷ _ ↦ some first ]
  | _ ↦ none
]

-- none: parts[1] panics, where there are fewer than two parts.
unfoldable pub get_fqin_username : Bytes → Option Bytes
unfolding split_n
get_fqin_username fqin = elim (split_n b'/' 3 fqin) [ _ ∷ username ∷ _ ↦ some username | _ ↦ none ]

tests :
    (expand_to_fqin (codes "eaapa/hello-world") ≡ some (codes "docker.io/eaapa/hello-world:latest"))
    × (expand_to_fqin (codes "nginx:tag1") ≡ some (codes "docker.io/library/nginx:tag1"))
    × (get_fqin_image (codes "docker.io/eaapa/hello-world:latest") ≡ some (codes "hello-world"))
    × (get_fqin_username (codes "docker.io/eaapa/hello-world") ≡ some (codes "eaapa"))
    × (get_fqin_image (codes "nginx") ≡ none)
unfolding expand_to_fqin resolve_fqin print_fqin get_fqin_image get_fqin_username cut bytes_beq
tests = (refl, refl, refl, refl, refl)
