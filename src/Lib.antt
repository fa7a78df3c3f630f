-- ===== src/Lib.antt =====
-- Eliot: a daemon (eliotd) that runs the containers of a device in pods, and a command line client
-- (eli) that reaches it over gRPC. This library models the parts that carry the logic of both.
--
-- How the parts interact. The client reads its configuration (pkg/config), parses its arguments
-- (cmd/utils.go), finds or builds the pods (pkg/resolve, pkg/utils) and sends them to the server
-- (pkg/api). The server maps the messages to the internal model (pkg/model, pkg/api/mapping) and
-- drives the runtime, an interface (pkg/runtime/interface.go) that pkg/runtime/containerd.go
-- implements. The lifecycle controller (pkg/controller) drives the same runtime. The progress of the
-- pulls (pkg/progress) goes back to the client, which shows it (cmd/progress.go, pkg/cmd/ui).
--
-- The files. Each module is named for its part of the repository, and keeps the names of the source in
-- antt's spelling (MapPodToInternalModel is map_pod_to_internal_model). Children named Laws, or
-- for what they prove, hold lemmas and theorems.
--   Prelude      byte strings, lists, maps and results; the functions of Go's packages that the code
--                calls
--   Program      programs that call and keep a log of their calls; Plan the rules on a
--                program that does the steps of a list and ends at the first that fails, Effects,
--                Always and Returns those on what a program changes and returns
--   Utils        pkg/utils: image names (Fqin), lists (Lists), streams of YAML documents (Yaml)
--   Model        pkg/model; Model/Validation the checks of validation.go
--   Config       pkg/config; Config/Project project.go, Config/Field kebabcase.go and Config.Set,
--                Config/File the files of both and `eli config set`
--   Progress     pkg/progress/imagefetch.go; Progress/Bag its layers without their order
--   Runtime      the interface and its calls; Runtime/Streams ioset.go and the pipes of server.go;
--                Runtime/Containerd the runtime on containerd: the mapping of containers
--                (Containers), their grouping in pods (Pods), the environment (Env), containers and
--                their tasks (Tasks, with CreateContainer in Tasks/Creation and io.go in Tasks/Io),
--                pulls (Images), the extensions of a container (Extensions)
--   Api          Api/Types the messages; Api/Defaults the defaults and UnmarshalYaml; Api/Mapping the
--                mappings; Api/Server the handlers, Exec and Attach in Api/Server/Metadata, the
--                progress that Create streams in Api/Server/Updates; Api/Client pkg/api/client.go,
--                with pod_opts.go in Api/Client/Options and the race of the pipes of Attach and Exec in
--                Api/Client/Pipes; Api/Stream pkg/api/stream
--   Controller   pkg/controller/lifecycle.go
--   Resolve      pkg/resolve and pkg/fs
--   Node         pkg/node and the mapping of its information
--   Discovery    pkg/discovery
--   Printers     the columns that pkg/printers/humanreadable.go computes, its tables (Table), and
--                yaml.go (Yaml)
--   Cmd          cmd/utils.go (Flags, Containers, Provider), pkg/cmd/pipes.go (Stdin), pkg/cmd/ui
--                (Ui, the terminal in Ui/Terminal, the drawing of its lines in Ui/Screen and
--                Ui/Bar), cmd/progress.go (Ui/Download), pkg/sync (Flags, Sync), and of cmd/eli the
--                commands run and up (Session, their arguments in Session/Arguments) and those on
--                pods (Commands)
--   Eliotd       cmd/eliotd/main.go
--   Build        pkg/cmd/build/utils.go; Build/Node cmd/eli/buildNodeCommand.go
--   Tests        the theorems at small inputs
--
-- How state and effects are modelled. A Go string is the list of its bytes. A pointer that may be
-- nil is an Option; a nil dereference, a panic and log.Fatal are `crash`, next to `ok` and `err`. An
-- error keeps only what errors.Cause tells apart; the texts that wrapping adds are not kept. A Go
-- map is an association list used through its laws, and the order of a range over it is a parameter.
-- An int64 stands by its bits, with sums modulo 2 ^ 64. Code that calls another component (a handler
-- the runtime, the runtime containerd, a command the server) is a program; the answers are a
-- parameter, functions of the calls made so far (Runtime.World, the Daemon of
-- Runtime/Containerd/Tasks, the Server of Api/Client), and a run keeps these calls. The goroutine
-- that updates the progress of a pull stands by its steps, one for each call that locks the
-- progress, in any order with the handler's calls, and the goroutine of Create that sends the
-- progress by the list of its steps and the loop's, where each step is one event (the memory model
-- of a race on `progresses` is not modelled). The two pipes of Attach and Exec run beside each other
-- as a relation of steps. The events of the terminal and its lines stand one after another, each
-- whole; the source takes its mutex in two of them only, and the races of the others are not
-- modelled. The loops of rsync and of the signals stand by what wakes them up. The regular
-- expression of the names stands as its language.
--
-- Fuel. The reading of a stream of YAML documents runs on fuel, one more than the length of the
-- stream; every document that is read takes at least one byte, so that it is enough.
--
-- Not modelled: the ticker of Serve, the supervisor of eliotd, the start of the hooks of an
-- attachment, the copies on fifos (pkg/runtime/containerd/io.go), the templates of the details and
-- the tab writer (pkg/printers), the writer that clears the screen (a library, as is the padding and
-- colouring of texts), profiling, and the flags of the command line package. pkg/term is code of
-- another project. The CSV and YAML readers, ParseBool, package oci, package typeurl, the file
-- system, the network and the floats of the progress bar are parameters of the definitions that use
-- them. A Scanner's limit on the length of a document is not modelled: the input is taken to fit its
-- buffer; that of ReadAllStdin, on a line, is.
pub mod Api
pub mod Build
pub mod Cmd
pub mod Config
pub mod Controller
pub mod Discovery
pub mod Eliotd
pub mod Model
pub mod Node
pub mod Prelude
pub mod Printers
pub mod Program
pub mod Progress
pub mod Resolve
pub mod Runtime
pub mod Tests
pub mod Utils
