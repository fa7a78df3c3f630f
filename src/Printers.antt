-- ===== src/Printers.antt =====
-- pkg/printers/humanreadable.go: the numbers and the states that it prints; the tables stand in Table,
-- and yaml.go in Yaml. The templates and package durafmt are not modelled; a percentage is the whole
-- number before it is printed.
pub mod Table
pub mod Yaml
use eliot.Prelude.{
  ℕ, ◌+◌, ◌-◌, ◌*◌, ◌/◌, ◌%◌, ◌^◌, ◌≤◌, Bytes, codes, Bool, true, false, List, [], ◌∷◌, ◌++◌,
  Option, none, some, if◌then◌else◌, Dict, lookup, insert, lookup-insert, decimal, join, ◌==◌,
  nat_eq, bytes_eq, ltb, ◌≡◌, refl, sym, ap, ◌∙◌, Bool-cases, inl, inr, arith, eq_iff, map,
}
use eliot.Api.Types.{ApiContainerStatus, ApiPod}

-- The difference of two uint64.
abbrev sub64 : ℕ → ℕ → ℕ
sub64 a b = (a + (2 ^ 64 - b)) % 2 ^ 64

-- formatPercent, up to the conversion to a float: used of used and available, in kilobytes, rounded up.
rounded_up : ℕ → ℕ → ℕ
rounded_up u100 utotal =
    if (u100 % utotal) == 0 then u100 / utotal else (u100 / utotal + 1) % 2 ^ 64

unfoldable pub percent_of : ℕ → ℕ → ℕ
unfolding rounded_up
percent_of used utotal = if utotal == 0 then 0 else rounded_up ((used * 100) % 2 ^ 64) utotal

unfoldable pub format_percent : ℕ → ℕ → ℕ → ℕ
unfolding percent_of
format_percent total free available =
    let used = sub64 total free / 1024 in percent_of used ((used + available / 1024) % 2 ^ 64)

-- formatUptime, with what package durafmt makes of a number of nanoseconds; a product of which the
-- highest of the 64 bits is set is negative.
unfoldable pub format_uptime : (ℕ → Bytes) → ℕ → Bytes
unfolding decimal
format_uptime durafmt uptime =
    let duration = (uptime * 1000000000) % 2 ^ 64 in
    if ltb duration (2 ^ 63) then durafmt duration else decimal uptime ++ codes " seconds"

-- getStatus: the counts of the states.
unfoldable pub count_states : List ApiContainerStatus → Dict ℕ → Dict ℕ
count_states [] counts = counts
count_states (status ∷ statuses) counts = count_states statuses (elim (lookup status.state counts) [
  | some n ↦ insert status.state (n + 1) counts
  | none ↦ insert status.state 1 counts
])

-- sort.Strings of package sort is a parameter.
module _ (sort_strings : List Bytes → List Bytes) where
  state_text : Dict ℕ → Bytes → Bytes
  unfolding decimal
  state_text counts key =
      key ++ (b'(' ∷ (decimal (elim (lookup key counts) [ some n ↦ n | none ↦ 0 ]) ++ codes ")"))

  unfoldable pub get_status : ApiPod → Bytes
  unfolding count_states state_text join
  get_status pod =
      let counts =
        count_states (elim pod.status [ some s ↦ s.container_statuses | none ↦ [] ]) [] in
      join b',' (map (state_text counts) (sort_strings (map (λ (p : Bytes × ℕ). p.0) counts)))

-- How many of the statuses have the state.
abbrev pub with_state : Bytes → List ApiContainerStatus → ℕ
with_state state [] = 0
with_state state (s ∷ ss) = let n = with_state state ss in if s.state == state then n + 1 else n

abbrev pub count_at : Option ℕ → ℕ
count_at none = 0
count_at (some n) = n

-- p is the least whole number that is not below u / t, a percentage.
abbrev pub IsCeiling : ℕ → ℕ → ℕ → Type 0
IsCeiling u t p = (u ≤ t * p) × ((t * p ≤ u + (t - 1)) × ((p ≤ 100) × (p ≤ u)))

counted :
    (state key : Bytes) (n : Option ℕ) (counts : Dict ℕ)
    → lookup state counts ≡ n
    → count_at (
        lookup key (elim n [ some m ↦ insert state (m + 1) counts | none ↦ insert state 1 counts ]))
      ≡ (if state == key then count_at (lookup key counts) + 1 else count_at (lookup key counts))
counted state key (some m) counts e =
    ap count_at (lookup-insert state key (m + 1) counts) ∙ elim (Bool-cases (state == key)) [
      | inl h ↦ rw (h, sym (ap (λ k. lookup k counts) ((eq_iff state key).0 h)) ∙ e) refl
      | inr h ↦ rw h refl
    ]
counted state key none counts e =
    ap count_at (lookup-insert state key 1 counts) ∙ elim (Bool-cases (state == key)) [
      | inl h ↦ rw (h, sym (ap (λ k. lookup k counts) ((eq_iff state key).0 h)) ∙ e) (omega arith)
      | inr h ↦ rw h refl
    ]

sum_pick :
    (b : Bool) (x n w : ℕ) → x ≡ (if b then n + 1 else n) + w → x ≡ n + (if b then w + 1 else w)
sum_pick true x n w h = omega (arith, h)
sum_pick false x n w h = h

-- The count of a state, of the states that getStatus counts: the number of statuses with the state.
count_states-with_state :
    (key : Bytes) (statuses : List ApiContainerStatus) (counts : Dict ℕ)
    → count_at (lookup key (count_states statuses counts))
      ≡ count_at (lookup key counts) + with_state key statuses
unfolding count_states
count_states-with_state key [] counts = omega arith
count_states-with_state key (s ∷ ss) counts =
    let c = counted s.state key (lookup s.state counts) counts refl in
    sum_pick (s.state == key) _ _ (with_state key ss)
      (count_states-with_state key ss _ ∙ ap (λ n. n + with_state key ss) c)
