-- ===== src/Api/Stream.antt =====
-- pkg/api/stream: bytes through the streams of gRPC. A stream that is received from is the list of
-- what Recv returns, ended by io.EOF; a stream that is sent to is the list of what was sent.
pub mod Laws
use eliot.Prelude.{
  ℕ, zero, suc, Bytes, codes, Bool, true, false, List, [], ◌∷◌, ◌++◌, if◌then◌else◌, take, drop,
  length, leb, ◌≡◌, refl,
}

-- What Recv returns before the end: a message or an error.
pub data Received {ℓ} (A : Type ℓ) : Type ℓ where
  message : A → Received A
  broken : Received A

-- What an operation on a stream returns: io.EOF apart from the other errors.
pub data ReadResult : Type 0 where
  read_ok : Bytes → ReadResult
  eof : ReadResult
  failed : ReadResult

-- The buffer of the reader, and the stream.
pub record Reader : Type 0 where
  pub buffer : Bytes
  pub stream : List (Received Bytes)

unfoldable pub new_reader : List (Received Bytes) → Reader
new_reader stream = record { buffer = []; stream = stream }

-- bytes.Buffer.Read into n bytes: an empty buffer gives io.EOF, but nothing if n is 0.
unfoldable pub buffer_read : ℕ → Reader → ReadResult × Reader
buffer_read zero r = (read_ok [], r)
buffer_read (suc n) r = elim r.buffer [
  | [] ↦ (eof, r)
  | _ ∷ _ ↦ (read_ok (take (suc n) r.buffer), record r { buffer = drop (suc n) r.buffer })
]

-- Reader.Read into n bytes
unfoldable pub read : ℕ → Reader → ReadResult × Reader
unfolding buffer_read
read n r = elim r.buffer [
  | _ ∷ _ ↦ buffer_read n r
  | [] ↦ elim r.stream [
    | [] ↦ (eof, r)
    | broken ∷ rest ↦ (failed, record r { stream = rest })
    | message input ∷ rest ↦ buffer_read n (record { buffer = input; stream = rest })
  ]
]

-- containers.StdoutStreamResponse
pub record Response : Type 0 where
  pub output : Bytes
  pub stderr : Bool

-- Writer.Write: what is sent.
unfoldable pub write : Bool → Bytes → Response
write stderr p = record { output = p; stderr = stderr }

-- What was written to the two files, and how the loop ended.
pub record Written : Type 0 where
  pub stdout : Bytes
  pub stderr : Bytes
  pub is_ok : Bool

-- PipeStdout, with files that take every write, and a CloseSend that succeeds.
unfoldable pub pipe_stdout : List (Received Response) → Bytes → Bytes → Written
pipe_stdout [] out err = record { stdout = out; stderr = err; is_ok = true }
pipe_stdout (broken ∷ rest) out err = record { stdout = out; stderr = err; is_ok = false }
pipe_stdout (message r ∷ rest) out err =
    let to_err = pipe_stdout rest out (err ++ r.output) in
    let to_out = pipe_stdout rest (out ++ r.output) err in if r.stderr then to_err else to_out

-- PipeStdin, with a stream that takes every message, on what each Read of stdin gives, in turn: bytes,
-- an end or an error, and never two of them at once.
unfoldable pub pipe_stdin : List ReadResult → List (Received Bytes) × Bool
pipe_stdin [] = ([], true)
pipe_stdin (eof ∷ rest) = ([], true)
pipe_stdin (failed ∷ rest) = ([], false)
pipe_stdin (read_ok buf ∷ rest) = let (sent, is_ok) = pipe_stdin rest in (message buf ∷ sent, is_ok)
