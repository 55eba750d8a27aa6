-- ===== src/Matching/Spans.antt =====
-- The spans of the exact pass (`match_exact`).
use conversational_copil.Prelude.{
  ℕ, zero, suc, ◌+◌, ◌-◌, ◌≤◌, ◌<◌, max, String, ◌≡◌, refl, sym, ap, ◌∙◌, ◌⊎◌, inl, inr, Bool,
  false, ◌&&◌, ◌||◌, List, [], ◌∷◌, ◌++◌, arith, leb, ◌==◌, length, keep_if, any, join, All,
  AllPairs, All-append, Bool-cases,
}
use conversational_copil.Matching.{
  Candidate, EntitySpan, Dictionary, Tagging, is_common, tagged_span, slice, is_between, any_from,
  in_family, tag_with, tag_window, tag_starts, tag_sizes,
}

abbrev pub inside : ℕ → EntitySpan → Bool
inside i s = is_between s.start_token s.end_token i

-- Two spans share no word.
abbrev pub IsDisjoint : EntitySpan → EntitySpan → Type 0
IsDisjoint s t = (s.end_token ≤ t.start_token) ⊎ (t.end_token ≤ s.start_token)

-- A span is a place in the question whose words the dictionary knows; a single word is neither a stop
-- word nor one of the schema.
pub record IsNamed (d : Dictionary) (tokens : List String) (s : EntitySpan) : Type 0 where
  pub starts : s.start_token < s.end_token
  pub ends : s.end_token ≤ length tokens
  pub spelled : s.text ≡ join " " (slice s.start_token s.end_token tokens)
  pub first : Candidate
  pub others : List Candidate
  pub known : d.lookup_exact s.text ≡ first ∷ others
  pub offered : s.candidates ≡ first ∷ keep_if (in_family first) others
  pub allowed : ((s.end_token ≡ s.start_token + 1) → is_common d s.text ≡ false)

module _ {ℓ κ} {A : Type ℓ} (R : A → A → Type κ) where
  AllPairs-snoc :
      (xs : List A) (y : A) → AllPairs R xs → All (λ x. R x y) xs → AllPairs R (xs ++ (y ∷ []))
  AllPairs-snoc [] y h k = (tt, tt)
  AllPairs-snoc (x ∷ xs) y h k =
      (All-append (R x) xs (y ∷ []) h.0 (k.0, tt), AllPairs-snoc xs y h.1 k.1)

any-snoc :
    {A : Type 0} (p : A → Bool) (xs : List A) (y : A) → any p (xs ++ (y ∷ [])) ≡ (any p xs || p y)
unfolding any
any-snoc p [] y = ground arith
any-snoc p (x ∷ xs) y = ground (arith, any-snoc p xs y)

pub from_cases : (a b : ℕ) → a ≤ b → (b ≡ a) ⊎ (a + 1 ≤ b)
from_cases a b h = elim (Bool-cases (b == a)) [
  | inl e ↦ inl (ground arith)
  | inr e ↦ inr (ground arith)
]

pub any_from_none :
    (p : ℕ → Bool) (start count : ℕ)
    → any_from p start count ≡ false
    → (i : ℕ) → start ≤ i
    → i < start + count
    → p i ≡ false
unfolding any_from
any_from_none p start zero h i a b = absurd (omega arith)
any_from_none p start (suc count) h i a b = elim (from_cases start i a) [
  | inl e ↦ rw e (ground arith)
  | inr c ↦ any_from_none p (start + 1) count (ground arith) i c (omega arith)
]

-- The words taken are those inside the spans, which are apart.
pub record IsTagged (d : Dictionary) (tokens : List String) (g : Tagging) : Type 0 where
  pub taken : (i : ℕ) → g.consumed i ≡ any (inside i) g.spans
  pub disjoint : AllPairs IsDisjoint g.spans
  pub named : All (IsNamed d tokens) g.spans

pub apart-IsDisjoint :
    (s new : EntitySpan)
    → s.start_token < s.end_token
    → new.start_token < new.end_token
    → ((i : ℕ) → new.start_token ≤ i → i < new.end_token → inside i s ≡ false)
    → IsDisjoint s new
apart-IsDisjoint s new h k free = elim (Bool-cases (leb s.end_token new.start_token)) [
  | inl e ↦ inl (ground arith)
  | inr e ↦ elim (Bool-cases (leb new.end_token s.start_token)) [
    | inl f ↦ inr (ground arith)
    | inr f ↦ absurd (ground (arith, free (max s.start_token new.start_token)))
  ]
]

-- A span at a place that no word was taken from is apart from the spans.
new-IsDisjoint :
    (d : Dictionary) (tokens : List String) (spans : List EntitySpan) (new : EntitySpan)
    → new.start_token < new.end_token
    → All (IsNamed d tokens) spans
    → ((i : ℕ) → new.start_token ≤ i → i < new.end_token → any (inside i) spans ≡ false)
    → All (λ s. IsDisjoint s new) spans
unfolding any
new-IsDisjoint d tokens [] new k h free = tt
new-IsDisjoint d tokens (s ∷ ss) new k h free = (
  apart-IsDisjoint s new h.0.starts k (λ i a b. ground (arith, free i a b)),
  new-IsDisjoint d tokens ss new k h.1 (λ i a b. ground (arith, free i a b)),
)

module _ (d : Dictionary) (tokens : List String) where
  tag_with-IsTagged :
      (start size : ℕ) (cs : List Candidate) (g : Tagging)
      → start + suc size ≤ length tokens
      → d.lookup_exact (join " " (slice start (start + suc size) tokens)) ≡ cs
      → any_from g.consumed start (suc size) ≡ false
      → ((suc size ≡ 1) → is_common d (join " " (slice start (start + suc size) tokens)) ≡ false)
      → IsTagged d tokens g
      → IsTagged d tokens
          (tag_with (join " " (slice start (start + suc size) tokens)) start (suc size) cs g)
  tag_with-IsTagged start size [] g h e f a t = t
  tag_with-IsTagged start size (c ∷ cs) g h e f a t = record {
    taken = λ i.
        ap (λ b. b || is_between start (start + suc size) i) (t.taken i)
        ∙ sym (
            any-snoc (inside i) g.spans (
              tagged_span (join " " (slice start (start + suc size) tokens)) start (suc size) c
                cs));
    disjoint = AllPairs-snoc IsDisjoint g.spans _ t.disjoint (
        new-IsDisjoint d tokens g.spans
          (tagged_span (join " " (slice start (start + suc size) tokens)) start (suc size) c cs)
          (omega arith) t.named
          (λ i x y. sym (t.taken i) ∙ any_from_none g.consumed start (suc size) f i x y));
    named = All-append (IsNamed d tokens) g.spans _ t.named (
      record {
        starts = omega arith;
        ends = h;
        spelled = refl;
        first = c;
        others = cs;
        known = e;
        offered = refl;
        allowed = λ one. a (omega (arith, one));
      },
      tt,
    );
  }

  tag_window-IsTagged :
      (size start : ℕ) (g : Tagging)
      → start + suc size ≤ length tokens
      → IsTagged d tokens g
      → IsTagged d tokens (tag_window d tokens (suc size) start g)
  unfolding tag_window
  tag_window-IsTagged size start g h t = elim (Bool-cases (any_from g.consumed start (suc size))) [
    | inl e ↦ rw e t
    | inr e ↦
        rw e
          (elim (Bool-cases
            ((suc size == 1) && is_common d (join " " (slice start (start + suc size) tokens)))) [
              | inl f ↦ rw f t
              | inr f ↦
                  rw f (tag_with-IsTagged start size _ g h refl e (λ one. ground (arith, f, one)) t)
            ])
  ]

  tag_starts-IsTagged :
      (size count start : ℕ) (g : Tagging)
      → start + count + size ≤ length tokens
      → IsTagged d tokens g
      → IsTagged d tokens (tag_starts d tokens (suc size) count start g)
  unfolding tag_starts
  tag_starts-IsTagged size zero start g h t = t
  tag_starts-IsTagged size (suc count) start g h t =
      tag_starts-IsTagged size count (start + 1) _ (omega arith)
        (tag_window-IsTagged size start g (omega arith) t)

  pub tag_sizes-IsTagged :
      (size : ℕ) (g : Tagging)
      → size ≤ length tokens
      → IsTagged d tokens g
      → IsTagged d tokens (tag_sizes d tokens size g)
  unfolding tag_sizes
  tag_sizes-IsTagged zero g h t = t
  tag_sizes-IsTagged (suc size) g h t =
      tag_sizes-IsTagged size _ (omega arith)
        (tag_starts-IsTagged size (length tokens - size) 0 g (omega arith) t)
