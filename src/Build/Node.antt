-- ===== src/Build/Node.antt =====
-- cmd/eli/buildNodeCommand.go and BuildImage of pkg/cmd/build/utils.go: a program over the output and
-- the build server, whose answers are parameters. The lines of the terminal are left out.
pub mod Laws
use eliot.Prelude.{
  ℕ, Bytes, codes, Bool, true, false, List, [], ◌∷◌, ◌++◌, if◌then◌else◌, Outcome, ok, err, crash,
  failure, leb, ◌&&◌,
}
use eliot.Program.{Program, lift, ask, deferred, ◌>>=◌, ◌>>◌}
use eliot.Build.{Sources, resolve_linuxkit_config}

pub data BuildCall : Type 0 where
  create_file : Bytes → BuildCall
  close_file : BuildCall
  print_config : Bytes → BuildCall
  -- http.Post, with the url and the body
  post : Bytes → Bytes → BuildCall
  -- io.Copy of the image to the output
  copy_image : Bytes → BuildCall

abbrev pub BuildLog : Type 0
BuildLog = List BuildCall

-- http.Response, with what reading its body gives.
pub record Response : Type 0 where
  pub status_code : ℕ
  pub body : Bytes
  pub read_error : Bool

-- The answers to the last call.
pub record Outside : Type 0 where
  pub done : BuildLog → Outcome (Unit {0})
  pub respond : BuildLog → Outcome Response

pub record NodeFlags : Type 0 where
  pub dry_run : Bool
  pub build_server : Bytes
  pub output : Bytes
  pub build_type : Bytes

module _ (w : Outside) where
  abbrev pub image_of : Response → Outcome Bytes
  image_of res =
      if leb 200 res.status_code && leb res.status_code 299
      then ok res.body
      else if res.read_error
      then err (failure (codes "Failed to read build error response"))
      else err (failure (codes "Build failed: " ++ res.body))

  abbrev pub build_url : Bytes → Bytes → Bytes
  build_url server_url output_type = server_url ++ (codes "/linuxkit/eli-cli/build/" ++ output_type)

  -- BuildImage
  unfoldable pub build_image : Bytes → Bytes → Bytes → Program BuildCall Bytes
  build_image server_url output_type config = do
    res ← ask (post (build_url server_url output_type) config) w.respond
    lift (image_of res)

  -- The command behind the output.
  unfoldable pub write_node : NodeFlags → Bytes → Program BuildCall (Unit {0})
  unfolding build_image
  write_node flags linuxkit =
      if flags.dry_run then ask (print_config linuxkit) (λ _. ok tt) else (do
        image ← build_image flags.build_server flags.build_type linuxkit
        ask (copy_image image) w.done)

  -- The output is the standard one where it is piped, and a file otherwise.
  unfoldable pub to_output : Bool → NodeFlags → Bytes → Program BuildCall (Unit {0})
  unfolding write_node
  to_output piping_out flags linuxkit = if piping_out then write_node flags linuxkit else (do
    ask (create_file flags.output) w.done
    deferred (write_node flags linuxkit) (ask close_file λ _. ok tt))

  unfoldable pub build_node : Sources → Bool → NodeFlags → Bytes → Program BuildCall (Unit {0})
  unfolding to_output resolve_linuxkit_config
  build_node sources piping_out flags source = do
    linuxkit ← lift (resolve_linuxkit_config sources source)
    to_output piping_out flags linuxkit
