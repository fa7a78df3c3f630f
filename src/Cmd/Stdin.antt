-- ===== src/Cmd/Stdin.antt =====
-- pkg/cmd/pipes.go: whether the input or the output is piped, and what is read of a piped input.
pub mod Laws
use eliot.Prelude.{
  ℕ, ◌^◌, Bytes, codes, Bool, true, false, List, [], ◌∷◌, ◌++◌, if◌then◌else◌, Outcome, ok, err,
  failure, length, ltb, ◌==◌, nat_eq, split, ◌>>=◌,
}

-- IsPipingIn and IsPipingOut, by whether the mode of the file has the bit os.ModeCharDevice.
unfoldable pub is_piping : Bool → Bool
is_piping char_device = if char_device then false else true

-- bufio.ScanLines: a carriage return at the end of a line is dropped.
unfoldable pub drop_cr : Bytes → Bytes
drop_cr [] = []
drop_cr (c ∷ []) = if c == b'\r' then [] else c ∷ []
drop_cr (c ∷ d ∷ s) = c ∷ drop_cr (d ∷ s)

-- bufio.Scanner: nothing is scanned behind the last newline if there is nothing.
unfoldable pub drop_last_empty : List Bytes → List Bytes
drop_last_empty [] = []
drop_last_empty ([] ∷ []) = []
drop_last_empty ((c ∷ s) ∷ []) = (c ∷ s) ∷ []
drop_last_empty (s ∷ t ∷ ts) = s ∷ drop_last_empty (t ∷ ts)

-- bufio.MaxScanTokenSize
unfoldable pub max_scan_token_size : ℕ
max_scan_token_size = 65536

-- The loop: each line goes behind the result with a newline, up to one that does not fit the buffer.
unfoldable pub scan_lines : Bytes → List Bytes → Outcome Bytes
unfolding drop_cr max_scan_token_size
scan_lines result [] = ok result
scan_lines result (line ∷ lines) =
    let rest = scan_lines (result ++ (drop_cr line ++ b'\n' ∷ [])) lines in
    if ltb (length line) max_scan_token_size
    then rest
    else err (failure (codes "bufio.Scanner: token too long"))

-- ReadAllStdin
unfoldable pub read_all_stdin : Bytes → Outcome Bytes
unfolding scan_lines drop_last_empty split
read_all_stdin stdin = scan_lines [] (drop_last_empty (split b'\n' stdin))
