-- ===== src/Build.antt =====
-- pkg/cmd/build/utils.go: where the configuration of an image build comes from. The file system, the
-- network and the standard input are parameters.
pub mod Node
use eliot.Prelude.{
  Bytes, codes, Bool, [], ◌∷◌, if◌then◌else◌, Outcome, ok, err, failure, bytes_beq, ◌>>=◌,
}

pub record Sources : Type 0 where
  -- isValidFile and ioutil.ReadFile
  pub is_file : Bytes → Bool
  pub read_file : Bytes → Outcome Bytes
  -- isValidURL and getContent
  pub is_url : Bytes → Bool
  pub get_content : Bytes → Outcome Bytes
  -- cmd.IsPipingIn and cmd.ReadAllStdin
  pub piping : Bool
  pub stdin : Outcome Bytes

unfoldable pub default_source : Bytes
default_source = codes "https://raw.githubusercontent.com/ernoaapa/eliot-os/master/rpi3.yml"

-- The three places, in their order.
unfoldable pub read_from : Sources → Bytes → Outcome Bytes
read_from s source =
    if s.is_file source
    then s.read_file source
    else if s.is_url source
    then s.get_content source
    else if s.piping
    then s.stdin
    else err (failure (codes "No Linuxkit config defined"))

abbrev not_empty : Bytes → Outcome Bytes
not_empty [] = err (failure (codes "Invalid Linuxkit config"))
not_empty (c ∷ text) = ok (c ∷ text)

unfoldable pub resolve_linuxkit_config : Sources → Bytes → Outcome Bytes
unfolding read_from default_source bytes_beq
resolve_linuxkit_config s source = do
  linuxkit ← read_from s (if bytes_beq source [] then default_source else source)
  not_empty linuxkit
