-- ===== src/Tests/Utils.antt =====
-- The theorems on pkg/utils, pkg/model, pkg/config and pkg/progress, at small inputs.
use eliot.Prelude.{codes, [], ◌++◌, some, ◌≡◌, refl, has, has_prefix, nat_eq}
use eliot.Utils.Yaml.{yaml_separator, documents, index}
use eliot.Utils.Yaml.Scan.{documents_lost}

documents_lost_example : documents (codes "a: 1" ++ (yaml_separator ++ codes " # end")) ≡ some []
unfolding index has_prefix has
documents_lost_example = documents_lost (codes "a: 1") b' ' (codes "# end") refl refl
