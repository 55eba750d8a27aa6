-- ===== src/Wording/Normal.antt =====
-- A text that is normalised stays as it is when it is normalised again.
use Prim.Native.Char.{Char, code}
use conversational_copil.Prelude.{
  ◌⊎◌, ◌==◌, not, lower_by, String, ◌≡◌, refl, ◌∙◌, ap, Bool, true, false, inl, inr, Bool-cases,
  arith, to_lower, lower_letter,
}
use conversational_copil.Wording.{
  Place, nothing, inside, gap, to_gap, spaced, squeeze, is_kept, is_space, normalize_lookup_text,
  normalize_short_text,
}

module _ (keep : Char → Bool) (no_space : keep " " ≡ false) where
  squeeze-kept :
      (p : Place) (c : Char) (s : String)
      → keep c ≡ true
      → squeeze keep p (String.◌∷◌ c s) ≡ spaced p c (squeeze keep inside s)
  unfolding squeeze
  squeeze-kept p c s h = rw h refl

  squeeze-dropped :
      (p : Place) (c : Char) (s : String)
      → keep c ≡ false
      → squeeze keep p (String.◌∷◌ c s) ≡ squeeze keep (to_gap p) s
  unfolding squeeze
  squeeze-dropped p c s h = rw h refl

  -- What each place writes is read again at that place, and what is written after a gap also inside.
  again :
      (s : String)
      → (squeeze keep nothing (squeeze keep nothing s) ≡ squeeze keep nothing s)
        × (squeeze keep inside (squeeze keep inside s) ≡ squeeze keep inside s)
        × (squeeze keep inside (squeeze keep gap s) ≡ squeeze keep gap s)
  again String.[] = unfold squeeze in (refl, refl, refl)
  again (String.◌∷◌ c s) = elim (Bool-cases (keep c)) [
    | inl e ↦
        rw (squeeze-kept nothing c s e, squeeze-kept inside c s e, squeeze-kept gap c s e)
          (
            squeeze-kept nothing c _ e ∙ ap (String.◌∷◌ c) (again s).1,
            squeeze-kept inside c _ e ∙ ap (String.◌∷◌ c) (again s).1,
            squeeze-dropped inside " " _ no_space
                ∙ squeeze-kept gap c _ e
                ∙ ap (λ t. spaced gap c t) (again s).1,
          )
    | inr e ↦
        rw (squeeze-dropped nothing c s e, squeeze-dropped inside c s e, squeeze-dropped gap c s e)
          ((again s).0, (again s).2, (again s).2)
  ]

lower_letter-kept : (c : Char) → is_kept c ≡ true → lower_letter c ≡ c
lower_letter-kept c h = ground (arith, h)

lower-spaced :
    (p : Place) (c : Char) (s : String)
    → is_kept c ≡ true
    → to_lower (spaced p c s) ≡ spaced p c (to_lower s)
unfolding to_lower
lower-spaced nothing c s h = rw (lower_letter-kept c h) refl
lower-spaced inside c s h = rw (lower_letter-kept c h) refl
lower-spaced gap c s h = rw (lower_letter-kept c h) refl

-- What is kept is lowered already.
lower-squeeze : (p : Place) (s : String) → to_lower (squeeze is_kept p s) ≡ squeeze is_kept p s
lower-squeeze p String.[] = unfold squeeze to_lower in refl
lower-squeeze p (String.◌∷◌ c s) = elim (Bool-cases (is_kept c)) [
  | inl e ↦ rw (squeeze-kept is_kept refl p c s e) (
      lower-spaced p c (squeeze is_kept inside s) e
      ∙ ap (λ t. spaced p c t) (lower-squeeze inside s))
  | inr e ↦ rw (squeeze-dropped is_kept refl p c s e) (lower-squeeze (to_gap p) s)
]

-- What normalize_lookup_text gives of any text is left as it is when it is normalised again.
pub normalize_idem :
    (s : String) → normalize_lookup_text (normalize_lookup_text s) ≡ normalize_lookup_text s
unfolding normalize_lookup_text
normalize_idem s =
    ap (λ t. squeeze is_kept nothing t) (lower-squeeze nothing (to_lower s))
    ∙ (again is_kept refl (to_lower s)).0

-- the letters of a text that lowering leaves
abbrev AllLow : String → Type 0
AllLow String.[] = Unit
AllLow (String.◌∷◌ c s) = (lower_letter c ≡ c) × AllLow s

lower_by-cases :
    (us ls : String) (c : Char)
    → AllLow ls
    → (lower_by us ls c ≡ c) ⊎ (lower_letter (lower_by us ls c) ≡ lower_by us ls c)
lower_by-cases String.[] ls c h = inl refl
lower_by-cases (String.◌∷◌ u us) String.[] c h = inl refl
lower_by-cases (String.◌∷◌ u us) (String.◌∷◌ l ls) c h = elim (Bool-cases (code u == code c)) [
  | inl e ↦ rw e (inr h.0)
  | inr e ↦ rw e (lower_by-cases us ls c h.1)
]

all_low : AllLow "abcdefghijklmnopqrstuvwxyz"
all_low = (
  refl,
  (
    refl,
    (
      refl,
      (
        refl,
        (
          refl,
          (
            refl,
            (
              refl,
              (
                refl,
                (
                  refl,
                  (
                    refl,
                    (
                      refl,
                      (
                        refl,
                        (
                          refl,
                          (
                            refl,
                            (
                              refl,
                              (
                                refl,
                                (
                                  refl,
                                  (
                                    refl,
                                    (
                                      refl,
                                      (refl, (refl, (refl, (refl, (refl, (refl, (refl, tt))))))),
                                    ),
                                  ),
                                ),
                              ),
                            ),
                          ),
                        ),
                      ),
                    ),
                  ),
                ),
              ),
            ),
          ),
        ),
      ),
    ),
  ),
)

lower_letter_idem : (c : Char) → lower_letter (lower_letter c) ≡ lower_letter c
lower_letter_idem c =
    elim (lower_by-cases "ABCDEFGHIJKLMNOPQRSTUVWXYZ" "abcdefghijklmnopqrstuvwxyz" c all_low) [
      | inl e ↦ ap lower_letter e
      | inr e ↦ e
    ]

lower-put :
    (p : Place) (c : Char) (s : String)
    → lower_letter c ≡ c
    → to_lower (spaced p c s) ≡ spaced p c (to_lower s)
unfolding to_lower
lower-put nothing c s h = rw h refl
lower-put inside c s h = rw h refl
lower-put gap c s h = rw h refl

lower_cons :
    (c : Char) (s : String) → to_lower (String.◌∷◌ c s) ≡ String.◌∷◌ (lower_letter c) (to_lower s)
unfolding to_lower
lower_cons c s = refl

-- What was lowered before it is squeezed is lowered after it.
lower-squeezed :
    (keep : Char → Bool)
    → keep " " ≡ false
    → (p : Place) (s : String)
    → to_lower (squeeze keep p (to_lower s)) ≡ squeeze keep p (to_lower s)
lower-squeezed keep h p String.[] = unfold squeeze to_lower in refl
lower-squeezed keep h p (String.◌∷◌ c s) = elim (Bool-cases (keep (lower_letter c))) [
  | inl e ↦
      rw (lower_cons c s, squeeze-kept keep h p (lower_letter c) (to_lower s) e)
        (lower-put p (lower_letter c) (squeeze keep inside (to_lower s)) (lower_letter_idem c)
          ∙ ap (λ t. spaced p (lower_letter c) t) (lower-squeezed keep h inside s))
  | inr e ↦
      rw (lower_cons c s, squeeze-dropped keep h p (lower_letter c) (to_lower s) e)
        (lower-squeezed keep h (to_gap p) s)
]

pub short_text_idem :
    (s : String) → normalize_short_text (normalize_short_text s) ≡ normalize_short_text s
unfolding normalize_short_text
short_text_idem s =
    ap (λ t. squeeze (λ c. not (is_space c)) nothing t)
      (lower-squeezed (λ c. not (is_space c)) refl nothing s)
    ∙ (again (λ c. not (is_space c)) refl (to_lower s)).0
