-- ===== src/Api/Client/Pipes/Laws.antt =====
-- pkg/api/client.go: what has gone through the pipes when Attach and Exec return.
use eliot.Prelude.{
  Bytes, Bool, true, false, List, [], ◌∷◌, ◌++◌, some, if◌then◌else◌, ◌≡◌, refl, sym, ap, ◌∙◌, ◌⊎◌,
  inl, inr, append_assoc, append-nil,
}
use eliot.Api.Stream.{
  Received, message, ReadResult, read_ok, Response, Written, pipe_stdout, pipe_stdin,
}
use eliot.Api.Client.Pipes.{
  Race, new_race, with_output, with_input, Step, passes_output, ends_output, breaks_output,
  passes_input, ends_input, fails_input, Steps, no_step, step_then,
}

-- What the pipes would write and send in the end if they ran on alone.
abbrev output_of : Race → Written
output_of s = pipe_stdout s.incoming s.stdout s.stderr

abbrev behind : List (Received Bytes) → List (Received Bytes) × Bool → List (Received Bytes) × Bool
behind sent r = (sent ++ r.0, r.1)

abbrev input_of : Race → List (Received Bytes) × Bool
input_of s = behind s.sent (pipe_stdin s.reads)

-- How the race ended, where it ended without an error: one of the pipes was at its end.
abbrev AtEnd : Race → Type 0
AtEnd s = (s.incoming ≡ []) ⊎ ((s.has_stdin ≡ true) × ((pipe_stdin s.reads ≡ ([], true))))

record Reached (first s : Race) : Type 0 where
  output : output_of s ≡ output_of first
  input : input_of s ≡ input_of first
  ended : s.result ≡ some true → AtEnd s

one_file :
    (b : Bool) (r : Response) (rest : List (Received Response)) (out err : Bytes)
    → pipe_stdout rest (if b then out else out ++ r.output) (if b then err ++ r.output else err) ≡ (
        if b
        then pipe_stdout rest out (err ++ r.output)
        else pipe_stdout rest (out ++ r.output) err)
one_file true r rest out err = refl
one_file false r rest out err = refl

with_output-output_of :
    (r : Response) (rest : List (Received Response)) (s : Race)
    → s.incoming ≡ message r ∷ rest
    → output_of (with_output r rest s) ≡ output_of s
unfolding pipe_stdout with_output
with_output-output_of r rest s e =
    one_file r.stderr r rest s.stdout s.stderr
    ∙ sym (ap (λ incoming. pipe_stdout incoming s.stdout s.stderr) e)

with_input-input_of :
    (buf : Bytes) (rest : List ReadResult) (s : Race)
    → s.reads ≡ read_ok buf ∷ rest
    → input_of (with_input buf rest s) ≡ input_of s
unfolding pipe_stdin with_input
with_input-input_of buf rest s e =
    ap (λ l. (l, (pipe_stdin rest).1)) (append_assoc s.sent (message buf ∷ []) (pipe_stdin rest).0)
    ∙ sym (ap (λ reads. behind s.sent (pipe_stdin reads)) e)

Step-Reached : (first s t : Race) → Reached first s → Step s t → Reached first t
unfolding with_output with_input pipe_stdin
Step-Reached first s t h (passes_output r rest n e) = record {
  output = with_output-output_of r rest s e ∙ h.output;
  input = h.input;
  ended = λ x. cc;
}
Step-Reached first s t h (ends_output n e) = record {
  output = h.output;
  input = h.input;
  ended = λ _. inl e;
}
Step-Reached first s t h (breaks_output rest n e) = record {
  output = h.output;
  input = h.input;
  ended = λ x. cc;
}
Step-Reached first s t h (passes_input buf rest n i e) = record {
  output = h.output;
  input = with_input-input_of buf rest s e ∙ h.input;
  ended = λ x. cc;
}
Step-Reached first s t h (ends_input rest n i e) = record {
  output = h.output;
  input = h.input;
  ended = λ _. inr (i, ap pipe_stdin e);
}
Step-Reached first s t h (fails_input rest n i e) = record {
  output = h.output;
  input = h.input;
  ended = λ x. cc;
}

Steps-Reached : (first s : Race) → Reached first first → Steps first s → Reached first s
Steps-Reached first s h no_step = h
Steps-Reached first s h (step_then t _ steps last) =
    Step-Reached first t s (Steps-Reached first t h steps) last

at_end :
    (s : Race) (out : Written) (input : List (Received Bytes) × Bool)
    → output_of s ≡ out
    → input_of s ≡ input
    → AtEnd s
    → (record { stdout = s.stdout; stderr = s.stderr; is_ok = true } ≡ out)
      ⊎ ((s.sent, true) ≡ input)
unfolding pipe_stdout
at_end s out input o i (inl e) = inl (sym (ap (λ l. pipe_stdout l s.stdout s.stderr) e) ∙ o)
at_end s out input o i (inr (_, e)) =
    inr (ap (λ l. (l, true)) (sym (append-nil s.sent)) ∙ sym (ap (behind s.sent) e) ∙ i)

-- In whatever order the two pipes run: when Attach or Exec return without an error, all of the output
-- was written, as PipeStdout alone would have written it, or all of the input was sent, as PipeStdin
-- alone would have sent it.
pub Steps-ended :
    (incoming : List (Received Response)) (reads : List ReadResult) (has_stdin : Bool) (s : Race)
    → Steps (new_race incoming reads has_stdin) s
    → s.result ≡ some true
    → (record { stdout = s.stdout; stderr = s.stderr; is_ok = true } ≡ pipe_stdout incoming [] [])
      ⊎ ((s.sent, true) ≡ pipe_stdin reads)
unfolding new_race
Steps-ended incoming reads has_stdin s steps e =
    let first = new_race incoming reads has_stdin in
    let h = Steps-Reached first s (record { output = refl; input = refl; ended = λ x. cc }) steps in
    at_end s _ _ h.output h.input (h.ended e)
