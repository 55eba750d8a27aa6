-- ===== src/Resolving/Scopes.antt =====
-- The OpCos that the resolved slots of a plan fix (`_pinned_opcos`), slot by slot.
use conversational_copil.Prelude.{
  String, ◌≡◌, refl, sym, ◌∙◌, ap, inl, inr, Bool, true, false, Bool-cases, List, [], ◌∷◌,
  if◌then◌else◌, str_eq, subst, ◌&&◌, ◌||◌, not, truthy, or_text, elem_of, eq_iff,
}
use conversational_copil.Entities.{is_resolved, ResolvedSlot}
use conversational_copil.Resolving.{add_text}
use conversational_copil.Resolving.Outcomes.{pinned_opcos}

-- The slot is resolved to something of an OpCo, and names the OpCo where that is asked.
abbrev pub fixes : Bool → ResolvedSlot → Bool
fixes named s =
    is_resolved s.status
    && (truthy s.opco_code && (if named then str_eq s.entity_class "opco" else true))

-- Some slot that is resolved fixes an OpCo, or this one.
abbrev pub has_scope : Bool → List ResolvedSlot → Bool
has_scope named [] = false
has_scope named (s ∷ ss) = fixes named s || has_scope named ss

abbrev pub is_fixed : Bool → String → List ResolvedSlot → Bool
is_fixed named code [] = false
is_fixed named code (s ∷ ss) =
    (fixes named s && str_eq code (or_text s.opco_code "")) || is_fixed named code ss

elem_of-add :
    (code c : String) (cs : List String)
    → elem_of code (add_text c cs) ≡ (str_eq code c || elem_of code cs)
unfolding add_text elem_of
elem_of-add code c cs = elim (Bool-cases (elem_of c cs)) [
  | inl e ↦ rw e (elim (Bool-cases (str_eq code c)) [
    | inl f ↦ rw f (subst (λ x. elem_of x cs ≡ true) (sym ((eq_iff code c).0 f)) e)
    | inr f ↦ rw f refl
  ])
  | inr e ↦ rw e refl
]

-- The code's test of a slot.
fixes_tested :
    (named : Bool) (s : ResolvedSlot)
    → (is_resolved s.status && (truthy s.opco_code && (not named || str_eq s.entity_class "opco")))
      ≡ fixes named s
fixes_tested true s = refl
fixes_tested false s = refl

pub elem_of-pinned :
    (named : Bool) (code : String) (slots : List ResolvedSlot)
    → elem_of code (pinned_opcos named slots) ≡ is_fixed named code slots
unfolding pinned_opcos
elem_of-pinned named code [] = unfold elem_of in refl
elem_of-pinned named code (s ∷ ss) = elim (Bool-cases (fixes named s)) [
  | inl e ↦
      rw (fixes_tested named s, e)
        (elem_of-add code (or_text s.opco_code "") (pinned_opcos named ss)
          ∙ ap (λ b. str_eq code (or_text s.opco_code "") || b) (elem_of-pinned named code ss))
  | inr e ↦ rw (fixes_tested named s, e) (elem_of-pinned named code ss)
]

abbrev pub is_some_code : List String → Bool
is_some_code [] = false
is_some_code (c ∷ cs) = true

added : (c : String) (cs : List String) → is_some_code (add_text c cs) ≡ true
unfolding add_text elem_of
added c [] = refl
added c (x ∷ xs) = elim (Bool-cases (elem_of c (x ∷ xs))) [ inl e ↦ rw e refl | inr e ↦ rw e refl ]

pub scope_pinned :
    (named : Bool) (slots : List ResolvedSlot)
    → has_scope named slots ≡ is_some_code (pinned_opcos named slots)
unfolding pinned_opcos
scope_pinned named [] = refl
scope_pinned named (s ∷ ss) = elim (Bool-cases (fixes named s)) [
  | inl e ↦
      rw (fixes_tested named s, e) (sym (added (or_text s.opco_code "") (pinned_opcos named ss)))
  | inr e ↦ rw (fixes_tested named s, e) (scope_pinned named ss)
]
