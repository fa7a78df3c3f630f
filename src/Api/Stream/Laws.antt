-- ===== src/Api/Stream/Laws.antt =====
-- pkg/api/stream: the bytes that go through the readers and the pipes.
use eliot.Prelude.{
  ℕ, zero, suc, Bytes, Bool, true, false, List, [], ◌∷◌, ◌++◌, if◌then◌else◌, take, drop,
  take-append-drop, append_assoc, append-nil, arith, ◌≡◌, ◌≢◌, refl, sym, ap, ◌∙◌, All, map,
}
use eliot.Api.Stream.{
  Received, message, broken, ReadResult, read_ok, eof, failed, Reader, new_reader, buffer_read,
  read, Response, pipe_stdout,
}

-- The bytes that are still to come before the first error.
abbrev pub input_of : List (Received Bytes) → Bytes
input_of [] = []
input_of (broken ∷ rest) = []
input_of (message m ∷ rest) = m ++ input_of rest

abbrev pub pending : Reader → Bytes
pending r = r.buffer ++ input_of r.stream

-- The bytes that a read gave.
abbrev pub given : ReadResult → Bytes
given (read_ok bytes) = bytes
given eof = []
given failed = []

buffer_read-pending :
    (n : ℕ) (r : Reader) → pending r ≡ given (buffer_read n r).0 ++ pending (buffer_read n r).1
unfolding buffer_read
buffer_read-pending zero r = refl
buffer_read-pending (suc n) r = buffered n r.buffer r.stream
  where
    buffered :
        (n : ℕ) (buffer : Bytes) (stream : List (Received Bytes))
        → pending (record { buffer = buffer; stream = stream })
          ≡ given (buffer_read (suc n) (record { buffer = buffer; stream = stream })).0
            ++ pending (buffer_read (suc n) (record { buffer = buffer; stream = stream })).1
    buffered n [] stream = refl
    buffered n (c ∷ s) stream =
        ap (λ t. t ++ input_of stream) (sym (take-append-drop (suc n) (c ∷ s)))
        ∙ append_assoc (take (suc n) (c ∷ s)) (drop (suc n) (c ∷ s)) (input_of stream)

abbrev reader_of : Bytes → List (Received Bytes) → Reader
reader_of buffer stream = record { buffer = buffer; stream = stream }

read_lem :
    (n : ℕ) (buffer : Bytes) (stream : List (Received Bytes))
    → (read n (reader_of buffer stream)).0 ≢ failed
    → pending (reader_of buffer stream)
      ≡ given (read n (reader_of buffer stream)).0 ++ pending (read n (reader_of buffer stream)).1
unfolding read
read_lem n [] [] h = refl
read_lem n [] (broken ∷ rest) h = absurd (h refl)
read_lem n [] (message m ∷ rest) h = buffer_read-pending n (record { buffer = m; stream = rest })
read_lem n (c ∷ s) stream h = buffer_read-pending n (record { buffer = c ∷ s; stream = stream })

-- A read that does not fail takes its bytes off the front of what is to come.
read-pending :
    (n : ℕ) (r : Reader)
    → (read n r).0 ≢ failed
    → pending r ≡ given (read n r).0 ++ pending (read n r).1
read-pending n r h = read_lem n r.buffer r.stream h

-- A message that has a byte.
pub data IsFull : Received Bytes → Type 0 where
  full : (c : ℕ) (s : Bytes) → IsFull (message (c ∷ s))
  full_broken : IsFull broken

read-eof_lem :
    (n : ℕ) (buffer : Bytes) (stream : List (Received Bytes))
    → All IsFull stream
    → (read (suc n) (record { buffer = buffer; stream = stream })).0 ≡ eof
    → buffer ++ input_of stream ≡ []
unfolding read buffer_read
read-eof_lem n [] [] f h = refl
read-eof_lem n [] (broken ∷ rest) f h = cc
read-eof_lem n [] (message [] ∷ rest) (f, _) h = elim f [ ]
read-eof_lem n [] (message (c ∷ s) ∷ rest) f h = cc
read-eof_lem n (c ∷ s) stream f h = cc

-- Where every message has a byte, a read of at least one byte says io.EOF only if nothing is to come.
-- A message without a byte makes it say so whatever follows.
read-eof :
    (n : ℕ) (r : Reader) (rest : List (Received Bytes))
    → All IsFull r.stream
    → ((read (suc n) r).0 ≡ eof → pending r ≡ [])
      × (read (suc n) (new_reader (message [] ∷ rest)) ≡ (eof, new_reader rest))
unfolding read buffer_read new_reader
read-eof n r rest f = (λ h. read-eof_lem n r.buffer r.stream f h, refl)

-- The bytes of the responses to one of the files.
abbrev pub outputs : Bool → List Response → Bytes
outputs to_err [] = []
outputs to_err (r ∷ rs) =
    let rest = outputs to_err rs in
    if r.stderr
    then (if to_err then r.output ++ rest else rest)
    else (if to_err then rest else r.output ++ rest)

-- PipeStdout writes to each file what was sent for it, in order, up to the end of the stream or to
-- its first error.
pipe_stdout-outputs :
    (rs : List Response) (rest : List (Received Response)) (out err : Bytes)
    → (pipe_stdout (map message rs) out err ≡ record {
      stdout = out ++ outputs false rs;
      stderr = err ++ outputs true rs;
      is_ok = true;
    })
      × (pipe_stdout (map message rs ++ broken ∷ rest) out err ≡ record {
        stdout = out ++ outputs false rs;
        stderr = err ++ outputs true rs;
        is_ok = false;
      })
unfolding pipe_stdout
pipe_stdout-outputs [] rest out err = (simp append-nil, simp append-nil)
pipe_stdout-outputs (r ∷ rs) rest out err = ground (
  arith,
  pipe_stdout-outputs rs rest out (err ++ r.output),
  pipe_stdout-outputs rs rest (out ++ r.output) err,
  append_assoc out r.output (outputs false rs),
  append_assoc err r.output (outputs true rs),
)
