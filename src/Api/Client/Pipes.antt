-- ===== src/Api/Client/Pipes.antt =====
-- pkg/api/client.go: Attach and Exec wait for the first of their two pipes to end. The goroutines of
-- the pipes run beside each other, by a relation of steps up to the return.
pub mod Laws
use eliot.Prelude.{
  ℕ, Bytes, Bool, true, false, List, [], ◌∷◌, ◌++◌, Option, none, some, if◌then◌else◌, ◌≡◌,
}
use eliot.Api.Stream.{Received, message, broken, ReadResult, read_ok, eof, failed, Response}

-- What is still to be received and to be read, what was written and sent, and the result of the pipe
-- that ended first.
pub record Race : Type 0 where
  pub incoming : List (Received Response)
  pub reads : List ReadResult
  pub has_stdin : Bool
  pub stdout : Bytes
  pub stderr : Bytes
  pub sent : List (Received Bytes)
  pub result : Option Bool

unfoldable pub new_race : List (Received Response) → List ReadResult → Bool → Race
new_race incoming reads has_stdin = record {
  incoming = incoming;
  reads = reads;
  has_stdin = has_stdin;
  stdout = [];
  stderr = [];
  sent = [];
  result = none;
}

-- One message of the output, to one of the two files.
unfoldable pub with_output : Response → List (Received Response) → Race → Race
with_output r rest s = record s {
  incoming = rest;
  stdout = if r.stderr then s.stdout else s.stdout ++ r.output;
  stderr = if r.stderr then s.stderr ++ r.output else s.stderr;
}

unfoldable pub with_input : Bytes → List ReadResult → Race → Race
with_input buf rest s = record s { reads = rest; sent = s.sent ++ message buf ∷ [] }

-- A step of one of the pipes, before one has ended.
pub data Step (s : Race) : Race → Type 0 where
  passes_output :
      (r : Response) (rest : List (Received Response))
      → s.result ≡ none
      → s.incoming ≡ message r ∷ rest
      → Step s (with_output r rest s)
  ends_output : s.result ≡ none → s.incoming ≡ [] → Step s (record s { result = some true })
  breaks_output :
      (rest : List (Received Response))
      → s.result ≡ none
      → s.incoming ≡ broken ∷ rest
      → Step s (record s { result = some false })
  passes_input :
      (buf : Bytes) (rest : List ReadResult)
      → s.result ≡ none
      → s.has_stdin ≡ true
      → s.reads ≡ read_ok buf ∷ rest
      → Step s (with_input buf rest s)
  ends_input :
      (rest : List ReadResult)
      → s.result ≡ none
      → s.has_stdin ≡ true
      → s.reads ≡ eof ∷ rest
      → Step s (record s { result = some true })
  fails_input :
      (rest : List ReadResult)
      → s.result ≡ none
      → s.has_stdin ≡ true
      → s.reads ≡ failed ∷ rest
      → Step s (record s { result = some false })

pub data Steps (s : Race) : Race → Type 0 where
  no_step : Steps s s
  step_then : (t u : Race) → Steps s t → Step t u → Steps s u
