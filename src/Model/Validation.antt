-- ===== src/Model/Validation.antt =====
-- pkg/model/validation.go: the checks that are registered under the struct tags. The regular
-- expression of alphanumOrDash stands as its language, and its matcher as a function.
pub mod Names
use eliot.Prelude.{
  ℕ, Bytes, codes, Bool, true, false, ◌&&◌, ◌||◌, List, [], ◌∷◌, ◌++◌, Option, some, none, leb,
  ◌==◌, nat_eq, split_n, bytes_beq, ◌≡◌, refl, has, cut, if◌then◌else◌, not,
}
use eliot.Model.{Metadata, Container, Pod, Mount, ContainerStatus}

-- [A-Za-z0-9]
unfoldable pub is_alphanum : ℕ → Bool
is_alphanum c =
    (leb b'A' c && leb c b'Z') || ((leb b'a' c && leb c b'z') || (leb b'0' c && leb c b'9'))

-- [A-Za-z0-9_-]
unfoldable pub is_name_byte : ℕ → Bool
unfolding is_alphanum
is_name_byte c = is_alphanum c || (c == b'_' || c == b'-')

-- What may stand behind the first byte: ([A-Za-z0-9_-]*[A-Za-z0-9])?$, at the byte x.
unfoldable pub is_name_tail : ℕ → Bytes → Bool
is_name_tail x [] = is_alphanum x
is_name_tail x (y ∷ s) = is_name_byte x && is_name_tail y s

-- ^[A-Za-z0-9]([A-Za-z0-9_-]*[A-Za-z0-9])?$
unfoldable pub is_alphanumeric_or_dash : Bytes → Bool
unfolding is_name_tail is_name_byte
is_alphanumeric_or_dash [] = false
is_alphanumeric_or_dash (x ∷ []) = is_alphanum x
is_alphanumeric_or_dash (x ∷ y ∷ s) = is_alphanum x && is_name_tail y s

unfoldable pub has_valid_name : Metadata → Bool
has_valid_name m = if bytes_beq m.name [] then false else true

unfoldable pub contains_spaces : Bytes → Bool
contains_spaces value = has b' ' value

unfoldable pub is_empty : Bytes → Bool
is_empty value = bytes_beq value []

-- parts[0] is there: strings.SplitN returns at least one part for a positive count.
first_part : List Bytes → Bytes
first_part [] = []
first_part (p ∷ ps) = p

unfoldable pub is_valid_env_key_value_pair : Bytes → Bool
unfolding split_n first_part
is_valid_env_key_value_pair value =
    if bytes_beq value []
    then false
    else if is_alphanumeric_or_dash (first_part (split_n b'=' 2 value))
    then true
    else false

tests :
    (is_alphanumeric_or_dash (codes "my-name_1") ≡ true)
    × (is_alphanumeric_or_dash (codes "-name") ≡ false)
    × (is_alphanumeric_or_dash (codes "name-") ≡ false)
    × (is_valid_env_key_value_pair (codes "FOO=bar=baz") ≡ true)
    × (is_valid_env_key_value_pair (codes "=bar") ≡ false)
unfolding is_alphanumeric_or_dash is_valid_env_key_value_pair bytes_beq cut
tests = (refl, refl, refl, refl, refl)
