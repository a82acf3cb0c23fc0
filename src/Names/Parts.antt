-- ===== src/Names/Parts.antt =====
-- The two parts of a legal name (src/kyc/kyc.service.ts).
use Prim.Native.Char.{Char}
use splitcore.Base.{
  ◌≤◌, ◌≡◌, refl, ap, ◌∙◌, inl, inr, Bool, true, false, List, [], ◌∷◌, ◌++◌, arith, length,
  filter_by, All, Bool-cases,
}
use splitcore.Names.{
  Text, is_space, space, is_empty, not_empty, trim_end, trim, prepend, split_spaces, parts_of,
  join_rest, join, LegalName, name_of_parts, split_legal_name,
}

-- no character is a space
abbrev IsSolid : Text → Type 0
IsSolid = All (λ c. is_space c ≡ false)

abbrev IsWord : Text → Type 0
IsWord w = (is_empty w ≡ false) × IsSolid w

prepend-IsSolid :
    (c : Char) (ws : List Text) → is_space c ≡ false → All IsSolid ws → All IsSolid (prepend c ws)
prepend-IsSolid c [] a all = ((a, tt), tt)
prepend-IsSolid c (w ∷ ws) a (h, all) = ((a, h), all)

split_spaces-IsSolid : (in_run : Bool) (s : Text) → All IsSolid (split_spaces in_run s)
split_spaces-IsSolid in_run [] = (tt, tt)
split_spaces-IsSolid true (c ∷ s) = elim (Bool-cases (is_space c)) [
  | inl a ↦ rw a (split_spaces-IsSolid true s)
  | inr a ↦ rw a (prepend-IsSolid c _ a (split_spaces-IsSolid false s))
]
split_spaces-IsSolid false (c ∷ s) = elim (Bool-cases (is_space c)) [
  | inl a ↦ rw a (tt, split_spaces-IsSolid true s)
  | inr a ↦ rw a (prepend-IsSolid c _ a (split_spaces-IsSolid false s))
]

filter_by-IsWord : (ws : List Text) → All IsSolid ws → All IsWord (filter_by not_empty ws)
filter_by-IsWord [] all = tt
filter_by-IsWord ([] ∷ ws) (h, all) = filter_by-IsWord ws all
filter_by-IsWord ((c ∷ w) ∷ ws) (h, all) = ((refl, h), filter_by-IsWord ws all)

filter_by-words : (ws : List Text) → All IsWord ws → filter_by not_empty ws ≡ ws
filter_by-words [] all = refl
filter_by-words ([] ∷ ws) ((h, s), all) = absurd (cc (h))
filter_by-words ((c ∷ w) ∷ ws) (h, all) = ap (λ x. (c ∷ w) ∷ x) (filter_by-words ws all)

split_spaces-join :
    (w : Text) (ws : List Text)
    → IsSolid w
    → All IsWord ws
    → split_spaces false (w ++ join_rest ws) ≡ w ∷ ws
unfolding is_space
split_spaces-join [] [] s all = refl
split_spaces-join [] ([] ∷ ws) s ((h, t), all) = absurd (cc (h))
split_spaces-join [] ((c ∷ v) ∷ ws) s ((h, (t, u)), all) =
    rw t (ap (λ x. [] ∷ prepend c x) (split_spaces-join v ws u all))
split_spaces-join (c ∷ w) ws (a, s) all = rw a (ap (prepend c) (split_spaces-join w ws s all))

trim_end-join :
    (w : Text) (ws : List Text)
    → IsSolid w
    → All IsWord ws
    → trim_end (w ++ join_rest ws) ≡ w ++ join_rest ws
unfolding is_space
trim_end-join [] [] s all = refl
trim_end-join [] ([] ∷ ws) s ((h, t), all) = absurd (cc (h))
trim_end-join [] ((c ∷ v) ∷ ws) s ((h, (t, u)), all) =
    let e = trim_end-join v ws u all in rw t (ap (λ x. space ∷ (c ∷ x)) e)
trim_end-join (c ∷ w) ws (a, s) all = rw a (ap (λ x. c ∷ x) (trim_end-join w ws s all))

parts_of-join : (ws : List Text) → All IsWord ws → parts_of (join ws) ≡ ws
unfolding parts_of
parts_of-join [] all = refl
parts_of-join ([] ∷ ws) ((h, s), all) = absurd (cc (h))
parts_of-join ((c ∷ w) ∷ ws) ((h, (a, s)), all) = rw a (
    ap (filter_by not_empty) (
      ap (split_spaces false) (trim_end-join (c ∷ w) ws (a, s) all)
      ∙ split_spaces-join (c ∷ w) ws (a, s) all)
    ∙ filter_by-words ((c ∷ w) ∷ ws) ((h, (a, s)), all))

parts_of-IsWord : (name : Text) → All IsWord (parts_of name)
unfolding parts_of
parts_of-IsWord name = filter_by-IsWord _ (split_spaces-IsSolid false (trim name))

-- the two parts, with a space between them
abbrev pub full_name : LegalName → Text
full_name n = n.first_name ++ (space ∷ n.last_name)

full_name_of_parts : (ws : List Text) → 2 ≤ length ws → full_name (name_of_parts ws) ≡ join ws
full_name_of_parts [] h = absurd (omega arith)
full_name_of_parts (w ∷ []) h = absurd (omega arith)
full_name_of_parts (w ∷ v ∷ ws) h = refl

-- Nothing of a legal name of two words or more is lost when it is split: its first and its last name,
-- with a space between them, have the words of the legal name.
pub split_legal_name-parts_of :
    (name : Text)
    → 2 ≤ length (parts_of name)
    → parts_of (full_name (split_legal_name name)) ≡ parts_of name
unfolding split_legal_name
split_legal_name-parts_of name h =
    ap parts_of (full_name_of_parts (parts_of name) h)
    ∙ parts_of-join (parts_of name) (parts_of-IsWord name)
