-- ===== src/Tests/Files.antt =====
-- The theorems on the configuration file, the standard input and the image build, at small inputs.
use eliot.Prelude.{
  Bytes, codes, Bool, true, false, List, [], ◌∷◌, Option, none, some, Outcome, ok, err, not_found,
  failure, Dict, insert, lookup, lookup-insert, eq_iff, ◌≡◌, refl, sym, ap, ok-injective, subst,
  arith, has, length, ltb, bytes_beq,
}
use eliot.Cmd.Stdin.{read_all_stdin, drop_cr, max_scan_token_size}
use eliot.Cmd.Stdin.Laws.{IsLine, read_all_stdin-text_of}
use eliot.Config.{Config, Endpoint, default_config}
use eliot.Config.Field.{set_field, kebab_case_to_camel_case, to_upper}
use eliot.Config.File.{Files, Yaml, Keeps, Decodes, get_config, config_set}
use eliot.Config.File.Laws.{config_set-get_config}
use eliot.Cmd.Ui.{terminal}
use eliot.Build.{Sources, resolve_linuxkit_config}
use eliot.Build.Node.{create_file, close_file, post, copy_image, Outside, NodeFlags, build_node}
use eliot.Build.Node.Laws.{Runs, build_node-calls}

text-IsLine :
    (s : Bytes)
    → has b'\n' s ≡ false
    → drop_cr s ≡ s
    → ltb (length s) max_scan_token_size ≡ true
    → IsLine s
text-IsLine s h k l = record { one = h; plain = k; fits = l }

read_all_stdin-text_of_example : read_all_stdin (codes "a: 1\nb") ≡ ok (codes "a: 1\nb\n")
unfolding has drop_cr max_scan_token_size
read_all_stdin-text_of_example =
    read_all_stdin-text_of (codes "a: 1" ∷ []) (codes "b")
      (text-IsLine (codes "a: 1") refl refl refl, tt) (text-IsLine (codes "b") refl refl refl)

abbrev is_there : Option Bytes → Bool
is_there none = false
is_there (some text) = true

-- Files that are a dictionary.
abbrev stored : Option Bytes → Outcome Bytes
stored none = err not_found
stored (some text) = ok text

abbrev files : Files
files = record {
  State = Dict Bytes;
  exist = λ s path. is_there (lookup path s);
  read = λ s path. stored (lookup path s);
  write = λ s path text. ok (insert path text s);
}

lookup_written : (path text : Bytes) (s : Dict Bytes) → lookup path (insert path text s) ≡ some text
lookup_written path text s = rw (lookup-insert path path text s) (ground (arith, eq_iff path path))

files-Keeps : Keeps files
files-Keeps = record {
  there = λ s s' path text w.
      subst (λ s. is_there (lookup path s) ≡ true) (ok-injective w)
        (ap is_there (lookup_written path text s));
  same = λ s s' path text w.
      subst (λ s. stored (lookup path s) ≡ ok text) (ok-injective w)
        (ap stored (lookup_written path text s));
}

-- Configurations without endpoints, encoded as their namespace.
abbrev encoded : List Endpoint → Bytes → Outcome Bytes
encoded [] namespace = ok namespace
encoded (e ∷ es) namespace = err (failure [])

abbrev yaml : Yaml Config
yaml = record {
  marshal = λ (c : Config). encoded c.endpoints c.namespace;
  unmarshal = λ text c. ok (record { endpoints = []; namespace = text });
}

decoded :
    (es : List Endpoint) (namespace text : Bytes)
    → encoded es namespace ≡ ok text
    → yaml.unmarshal text default_config ≡ ok (record { endpoints = es; namespace = namespace })
decoded [] namespace text e =
    ap (λ t. ok (record { endpoints = []; namespace = t })) (sym (ok-injective e))
decoded (x ∷ es) namespace text e = absurd cc

yaml-Decodes : Decodes yaml
yaml-Decodes = record { back = λ a b text e. decoded a.endpoints a.namespace text e }

config_set-get_config_example :
    get_config files yaml ((codes "config", codes "home") ∷ []) (codes "config")
    ≡ ok (record { endpoints = []; namespace = codes "home" })
unfolding get_config set_field kebab_case_to_camel_case lookup insert bytes_beq config_set to_upper
config_set-get_config_example =
    config_set-get_config files files-Keeps yaml terminal [] ((codes "config", codes "home") ∷ [])
      (codes "config") (codes "namespace") (codes "home") default_config
      (record { endpoints = []; namespace = codes "home" }) yaml-Decodes refl refl refl

abbrev sources : Sources
sources = record {
  is_file = λ path. true;
  read_file = λ path. ok (codes "kernel:");
  is_url = λ path. false;
  get_content = λ path. err not_found;
  piping = false;
  stdin = err not_found;
}

-- A server that builds an image.
abbrev outside : Outside
outside = record {
  done = λ log. ok tt;
  respond = λ log. ok (record { status_code = 200; body = codes "img"; read_error = false });
}

outside-Runs : Runs outside
outside-Runs = record { returns = λ log e. cc; responds = λ log e. cc }

abbrev node_flags : NodeFlags
node_flags = record {
  dry_run = false;
  build_server = codes "http://build";
  output = codes "node.img";
  build_type = codes "rpi3";
}

build_node-calls_example :
    (build_node outside sources false node_flags (codes "node.yml") []).1
    ≡ create_file (codes "node.img")
      ∷ post (codes "http://build/linuxkit/eli-cli/build/rpi3") (codes "kernel:")
      ∷ copy_image (codes "img")
      ∷ close_file
      ∷ []
unfolding resolve_linuxkit_config
build_node-calls_example =
    build_node-calls outside outside-Runs sources false node_flags (codes "node.yml")
      (codes "kernel:") [] refl
