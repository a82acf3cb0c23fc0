-- ===== src/Names/Words.antt =====
-- The words of a name (src/kyc/kyc.service.ts): how its normal form is made of them.
use Prim.Native.Char.{Char}
use mathlib.Core.Path.{subst}
use splitcore.Base.{
  ◌≡◌, ◌⊎◌, refl, sym, ap, ◌∙◌, inl, inr, ◌&&◌, Bool, true, false, List, [], ◌∷◌, ◌++◌, filter_by,
  Bool-cases,
}
use splitcore.Names.{
  Text, is_space, space, is_empty, not_empty, trim_start, trim_end, trim, collapse, upper_case,
  normalize_name, prepend, split_spaces, parts_of, join_rest, join,
}

-- The words of a text: the longest runs of characters that are not spaces.
abbrev pub words_from : Bool → Text → List Text
words_from in_run s = filter_by not_empty (split_spaces in_run s)

abbrev pub words : Text → List Text
words s = words_from false s

filter_prepend : (c : Char) (ws : List Text) → is_empty (filter_by not_empty (prepend c ws)) ≡ false
filter_prepend c [] = refl
filter_prepend c (w ∷ ws) = refl

words_from-space :
    (in_run : Bool) (c : Char) (s : Text)
    → is_space c ≡ true
    → words_from in_run (c ∷ s) ≡ words_from true s
words_from-space true c s a = rw a refl
words_from-space false c s a = rw a refl

-- A text is blank at its end exactly when no word is left.
blank_iff : (in_run : Bool) (s : Text) → is_empty (trim_end s) ≡ is_empty (words_from in_run s)
blank_iff true [] = refl
blank_iff false [] = refl
blank_iff in_run (c ∷ s) = elim (Bool-cases (is_space c)) [
  | inr a ↦ rw a (sym (filter_prepend c (split_spaces false s)))
  | inl a ↦ rw (words_from-space in_run c s a) (elim (Bool-cases (is_empty (trim_end s))) [
    | inl b ↦ rw (a, b) (sym (sym (blank_iff true s) ∙ b))
    | inr b ↦ rw (a, b) (sym (sym (blank_iff true s) ∙ b))
  ])
]

-- A first piece, and the words after it.
abbrev glue : List Text → Text
glue [] = []
glue (w ∷ ws) = w ++ join_rest (filter_by not_empty ws)

glue-prepend : (c : Char) (ws : List Text) → glue (prepend c ws) ≡ c ∷ glue ws
glue-prepend c [] = refl
glue-prepend c (w ∷ ws) = refl

join-prepend : (c : Char) (ws : List Text) → join (filter_by not_empty (prepend c ws)) ≡ c ∷ glue ws
join-prepend c [] = refl
join-prepend c (w ∷ ws) = refl

join_rest-not_empty : (ws : List Text) → is_empty ws ≡ false → join_rest ws ≡ space ∷ join ws
join_rest-not_empty [] h = absurd (cc (h))
join_rest-not_empty (w ∷ ws) h = refl

-- No space is left at the end.
abbrev IsTrimmed : Text → Type 0
IsTrimmed s = trim_end s ≡ s

abbrev tail : Text → Text
tail [] = []
tail (c ∷ s) = s

tail-IsTrimmed : (c : Char) (s : Text) → IsTrimmed (c ∷ s) → IsTrimmed s
tail-IsTrimmed c s h = elim (Bool-cases (is_space c && is_empty (trim_end s))) [
  | inl a ↦ absurd (cc (rw a at h))
  | inr a ↦ ap tail (rw a at h)
]

trim_end-IsTrimmed : (s : Text) → IsTrimmed (trim_end s)
trim_end-IsTrimmed [] = refl
trim_end-IsTrimmed (c ∷ s) = elim (Bool-cases (is_space c && is_empty (trim_end s))) [
  | inl a ↦ rw a refl
  | inr a ↦ rw a (rw (trim_end-IsTrimmed s) (rw a refl))
]

collapse_lem :
    (s : Text)
    → IsTrimmed s
    → (collapse true s ≡ join (words_from true s))
      × (collapse false s ≡ glue (split_spaces false s))
collapse_lem [] h = (refl, refl)
collapse_lem (c ∷ s) h =
    let (after, outside) = collapse_lem s (tail-IsTrimmed c s h) in
    elim (Bool-cases (is_space c)) [
      | inr a ↦ (
        rw a (ap (λ x. c ∷ x) outside ∙ sym (join-prepend c (split_spaces false s))),
        rw a (ap (λ x. c ∷ x) outside ∙ sym (glue-prepend c (split_spaces false s))),
      )
      | inl a ↦
          let left : is_empty (words_from true s) ≡ false =
            ap is_empty (sym (words_from-space false c s a))
            ∙ sym (blank_iff false (c ∷ s))
            ∙ ap is_empty h in
          (rw a after, rw a (ap (λ x. space ∷ x) after ∙ sym (join_rest-not_empty _ left)))
    ]

trim-cases :
    (s : Text) → (trim s ≡ []) ⊎ ((c : Char) × (t : Text) × (trim s ≡ c ∷ t) × (is_space c ≡ false))
trim-cases [] = inl refl
trim-cases (c ∷ s) = elim (Bool-cases (is_space c)) [
  | inl a ↦ rw a (trim-cases s)
  | inr a ↦ inr (c, trim_end s, rw a (rw a refl), a)
]

-- The normal form of a name is the upper case of its words with one space between each two, so it does
-- not depend on how the words were spaced.
pub normalize_name-parts_of :
    (upper : Char → Text) (name : Text)
    → normalize_name upper name ≡ upper_case upper (join (parts_of name))
unfolding normalize_name parts_of
normalize_name-parts_of upper name = ap (upper_case upper) (elim (trim-cases name) [
  | inl a ↦ rw a refl
  | inr (c, t, a, nonspace) ↦
      let trimmed : IsTrimmed (c ∷ t) = subst IsTrimmed a (trim_end-IsTrimmed (trim_start name)) in
      let (after, outside) = collapse_lem t (tail-IsTrimmed c t trimmed) in
      rw a (rw nonspace (ap (λ x. c ∷ x) outside ∙ sym (join-prepend c (split_spaces false t))))
])
