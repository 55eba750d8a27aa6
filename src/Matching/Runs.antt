-- ===== src/Matching/Runs.antt =====
-- The leftover runs (`leftover_runs`).
use conversational_copil.Prelude.{
  ap, All-map, ◌∙◌, sym, ℕ, zero, suc, ◌+◌, ◌-◌, ◌≤◌, ◌<◌, String, ◌≡◌, refl, Bool, true, false,
  not, ◌&&◌, ◌||◌, Option, none, some, List, [], ◌∷◌, arith, if◌then◌else◌, ◌==◌, length, take,
  drop, any, get_elem?, All, AllPairs, length-drop,
}
use conversational_copil.Matching.{
  Dictionary, TokenRun, run_end, slice, is_between, is_filler, runs_loop, breaks, leftover_runs,
}

length-take : {A : Type 0} (n : ℕ) (xs : List A) → n ≤ length xs → length (take n xs) ≡ n
length-take zero xs h = refl
length-take (suc n) [] h = absurd (omega arith)
length-take (suc n) (x ∷ xs) h = omega (arith, length-take n xs (omega arith))

length-slice :
    (start stop : ℕ) (xs : List String)
    → start ≤ stop
    → stop ≤ length xs
    → length (slice start stop xs) ≡ stop - start
length-slice start stop xs h k =
    length-take (stop - start) (drop start xs) (omega (arith, length-drop start xs))

abbrev pub covers : ℕ → TokenRun → Bool
covers i r = is_between r.start (run_end r) i

-- The flag at position `i` of flags that start at position `index`; out of range, a break.
abbrev flag_from : ℕ → List Bool → ℕ → Bool
flag_from index [] i = true
flag_from index (b ∷ bs) i = if i == index then b else flag_from (index + 1) bs i

flag_from-before : (index : ℕ) (bs : List Bool) (i : ℕ) → i < index → flag_from index bs i ≡ true
flag_from-before index [] i h = refl
flag_from-before index (b ∷ bs) i h =
    ground (arith, flag_from-before (index + 1) bs i (omega arith))

abbrev is_open : Option ℕ → ℕ → ℕ → Bool
is_open none index i = false
is_open (some start) index i = is_between start index i

abbrev IsOpenBy : ℕ → Option ℕ → Type 0
IsOpenBy index none = Unit
IsOpenBy index (some start) = start ≤ index

cover_slice :
    (tokens : List String) (i start index : ℕ)
    → start ≤ index
    → index ≤ length tokens
    → covers i (record { start = start; tokens = slice start index tokens })
      ≡ is_between start index i
cover_slice tokens i start index h k = rw (length-slice start index tokens h k) (ground arith)

cover_loop :
    (tokens : List String) (i : ℕ) (bs : List Bool) (index : ℕ) (o : Option ℕ)
    → IsOpenBy index o
    → index + length bs ≤ length tokens
    → any (covers i) (runs_loop tokens bs index o)
      ≡ (is_open o index i || not (flag_from index bs i))
unfolding any runs_loop
cover_loop tokens i [] index none k h = refl
cover_loop tokens i [] index (some start) k h =
    rw (cover_slice tokens i start index k (omega arith)) refl
cover_loop tokens i (true ∷ bs) index none k h = ground (
  arith,
  cover_loop tokens i bs (index + 1) none tt (omega arith),
  flag_from-before (index + 1) bs i,
)
cover_loop tokens i (true ∷ bs) index (some start) k h =
    rw (cover_slice tokens i start index k (omega arith)) (
      ground (
        arith,
        cover_loop tokens i bs (index + 1) none tt (omega arith),
        flag_from-before (index + 1) bs i,
      ))
cover_loop tokens i (false ∷ bs) index none k h = ground (
  arith,
  cover_loop tokens i bs (index + 1) (some index) (omega arith) (omega arith),
  flag_from-before (index + 1) bs i,
)
cover_loop tokens i (false ∷ bs) index (some start) k h = ground (
  arith,
  cover_loop tokens i bs (index + 1) (some start) (omega arith) (omega arith),
  flag_from-before (index + 1) bs i,
)

abbrev bound : Option ℕ → ℕ → ℕ
bound none index = index
bound (some start) index = start

abbrev IsBegun : ℕ → Option ℕ → Type 0
IsBegun index none = Unit
IsBegun index (some start) = start < index

starts_loop :
    (tokens : List String) (bs : List Bool) (index : ℕ) (o : Option ℕ)
    → IsOpenBy index o
    → All (λ r. bound o index ≤ r.start) (runs_loop tokens bs index o)
unfolding runs_loop
starts_loop tokens [] index none k = tt
starts_loop tokens [] index (some start) k = (omega arith, tt)
starts_loop tokens (true ∷ bs) index none k =
    All-map (λ r. index + 1 ≤ r.start) (λ r. index ≤ r.start) (λ r p. omega arith) _
      (starts_loop tokens bs (index + 1) none tt)
starts_loop tokens (true ∷ bs) index (some start) k = (
  omega arith,
  All-map (λ r. index + 1 ≤ r.start) (λ r. start ≤ r.start) (λ r p. omega arith) _
      (starts_loop tokens bs (index + 1) none tt),
)
starts_loop tokens (false ∷ bs) index none k =
    starts_loop tokens bs (index + 1) (some index) (omega arith)
starts_loop tokens (false ∷ bs) index (some start) k =
    starts_loop tokens bs (index + 1) (some start) (omega arith)

-- A run ends before the next one starts, with a word between them.
abbrev IsApart : TokenRun → TokenRun → Type 0
IsApart r s = run_end r + 1 ≤ s.start

IsApart-loop :
    (tokens : List String) (bs : List Bool) (index : ℕ) (o : Option ℕ)
    → IsOpenBy index o
    → index + length bs ≤ length tokens
    → AllPairs IsApart (runs_loop tokens bs index o)
unfolding runs_loop
IsApart-loop tokens [] index none k h = tt
IsApart-loop tokens [] index (some start) k h = (tt, tt)
IsApart-loop tokens (true ∷ bs) index none k h =
    IsApart-loop tokens bs (index + 1) none tt (omega arith)
IsApart-loop tokens (true ∷ bs) index (some start) k h = (
  All-map (λ r. index + 1 ≤ r.start) _
      (λ r p. omega (arith, length-slice start index tokens k (omega arith))) _
      (starts_loop tokens bs (index + 1) none tt),
  IsApart-loop tokens bs (index + 1) none tt (omega arith),
)
IsApart-loop tokens (false ∷ bs) index none k h =
    IsApart-loop tokens bs (index + 1) (some index) (omega arith) (omega arith)
IsApart-loop tokens (false ∷ bs) index (some start) k h =
    IsApart-loop tokens bs (index + 1) (some start) (omega arith) (omega arith)

-- A run is not empty, and has the words of its place.
abbrev IsSpelled : List String → TokenRun → Type 0
IsSpelled tokens r = (1 ≤ length r.tokens) × (r.tokens ≡ slice r.start (run_end r) tokens)

slice-IsSpelled :
    (tokens : List String) (start index : ℕ)
    → start < index
    → index ≤ length tokens
    → IsSpelled tokens (record { start = start; tokens = slice start index tokens })
slice-IsSpelled tokens start index h k =
    let e = length-slice start index tokens (omega arith) k in
    (omega (arith, e), ap (λ stop. slice start stop tokens) (omega (arith, e)))

IsSpelled-loop :
    (tokens : List String) (bs : List Bool) (index : ℕ) (o : Option ℕ)
    → IsBegun index o
    → index + length bs ≤ length tokens
    → All (IsSpelled tokens) (runs_loop tokens bs index o)
unfolding runs_loop
IsSpelled-loop tokens [] index none k h = tt
IsSpelled-loop tokens [] index (some start) k h =
    (slice-IsSpelled tokens start index k (omega arith), tt)
IsSpelled-loop tokens (true ∷ bs) index none k h =
    IsSpelled-loop tokens bs (index + 1) none tt (omega arith)
IsSpelled-loop tokens (true ∷ bs) index (some start) k h = (
  slice-IsSpelled tokens start index k (omega arith),
  IsSpelled-loop tokens bs (index + 1) none tt (omega arith),
)
IsSpelled-loop tokens (false ∷ bs) index none k h =
    IsSpelled-loop tokens bs (index + 1) (some index) (omega arith) (omega arith)
IsSpelled-loop tokens (false ∷ bs) index (some start) k h =
    IsSpelled-loop tokens bs (index + 1) (some start) (omega arith) (omega arith)

length-breaks :
    (d : Dictionary) (consumed : ℕ → Bool) (index : ℕ) (ts : List String)
    → length (breaks d consumed index ts) ≡ length ts
unfolding breaks
length-breaks d consumed index [] = refl
length-breaks d consumed index (t ∷ ts) = omega (arith, length-breaks d consumed (index + 1) ts)

-- Whether the word at a position is there and may be part of a name.
abbrev pub may_name : Dictionary → (ℕ → Bool) → ℕ → Option String → Bool
may_name d consumed i none = false
may_name d consumed i (some t) = not (consumed i) && (not (is_filler d t) && not (d.schema_terms t))

flag_from-breaks :
    (d : Dictionary) (consumed : ℕ → Bool) (ts : List String) (index i p : ℕ)
    → p ≡ index + i
    → flag_from index (breaks d consumed index ts) p ≡ not (may_name d consumed p (get_elem? ts i))
unfolding breaks
flag_from-breaks d consumed [] index i p h = refl
flag_from-breaks d consumed (t ∷ ts) index zero p h = grind arith
flag_from-breaks d consumed (t ∷ ts) index (suc i) p h =
    rw (sym (flag_from-breaks d consumed ts (index + 1) i p (omega arith))) (ground arith)

not-not : (b : Bool) → not (not b) ≡ b
not-not b = ground arith

-- The leftover runs of a question: which positions they cover, and how they lie.
pub record AreRuns (d : Dictionary) (tokens : List String) (consumed : ℕ → Bool)
    (runs : List TokenRun) : Type 0 where
  pub covered : (i : ℕ) → any (covers i) runs ≡ may_name d consumed i (get_elem? tokens i)
  pub apart : AllPairs IsApart runs
  pub spelled : All (IsSpelled tokens) runs

-- The leftover runs cover exactly the positions whose word matched nothing, is no filler and no word
-- of the schema; each is not empty and has the words of its place; and between two there is a word
-- that belongs to none, so that each run is as long as it can be.
pub runs_maximal :
    (d : Dictionary) (tokens : List String) (consumed : ℕ → Bool)
    → AreRuns d tokens consumed (leftover_runs d tokens consumed)
unfolding leftover_runs
runs_maximal d tokens consumed =
    let n = length-breaks d consumed 0 tokens in
    record {
      covered = λ i.
          cover_loop tokens i (breaks d consumed 0 tokens) 0 none tt (omega (arith, n))
          ∙ ap not (flag_from-breaks d consumed tokens 0 i i (omega arith))
          ∙ not-not _;
      apart = IsApart-loop tokens (breaks d consumed 0 tokens) 0 none tt (omega (arith, n));
      spelled = IsSpelled-loop tokens (breaks d consumed 0 tokens) 0 none tt (omega (arith, n));
    }
