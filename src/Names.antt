-- ===== src/Names.antt =====
-- The texts that onboarding compares and shows (src/kyc/kyc.service.ts): the normal form of a name, a
-- legal name in two parts, and a masked account number. A text is the list of its characters;
-- `upper` is Unicode's table of the upper case of a character.
pub mod Words
pub mod Parts
use Prim.Native.Char.{Char, code}
use Prim.Native.String.{String}
use splitcore.Base.{
  ℕ, zero, suc, ◌-◌, Bool, true, false, ◌&&◌, ◌||◌, Option, none, some, List, [], ◌∷◌, ◌++◌, ◌==◌,
  leb, length, filter_by, if◌then◌else◌,
}

abbrev pub Text : Type 0
Text = List Char

abbrev pub chars : String → Text
chars String.[] = []
chars (String.◌∷◌ c s) = c ∷ chars s

abbrev pub string_of : Text → String
string_of [] = String.[]
string_of (c ∷ s) = String.◌∷◌ c (string_of s)

-- what `\s` and `trim` of JavaScript take for a space
abbrev pub space_code : ℕ → Bool
space_code n =
    (leb 9 n && leb n 13)
    || n == 32
    || n == 160
    || n == 5760
    || (leb 8192 n && leb n 8202)
    || n == 8232
    || n == 8233
    || n == 8239
    || n == 8287
    || n == 12288
    || n == 65279

unfoldable pub is_space : Char → Bool
is_space c = space_code (code c)

abbrev pub space : Char
space = " "

abbrev pub is_empty {ℓ} : {A : Type ℓ} → List A → Bool
is_empty [] = true
is_empty (x ∷ xs) = false

abbrev pub not_empty {ℓ} : {A : Type ℓ} → List A → Bool
not_empty [] = false
not_empty (x ∷ xs) = true

-- the two halves of `trim`
abbrev pub trim_start : Text → Text
trim_start [] = []
trim_start (c ∷ s) = if is_space c then trim_start s else c ∷ s

abbrev pub trim_end : Text → Text
trim_end [] = []
trim_end (c ∷ s) = let rest = trim_end s in if is_space c && is_empty rest then [] else c ∷ rest

abbrev pub trim : Text → Text
trim s = trim_end (trim_start s)

-- `replace(/\s+/g, ' ')`, from inside of a run of spaces or from outside of one
abbrev pub collapse : Bool → Text → Text
collapse in_run [] = []
collapse in_run (c ∷ s) =
    let after = collapse true s in
    let outside = collapse false s in
    if is_space c then (if in_run then after else space ∷ after) else c ∷ outside

abbrev pub upper_case : (Char → Text) → Text → Text
upper_case upper [] = []
upper_case upper (c ∷ s) = upper c ++ upper_case upper s

unfoldable pub normalize_name : (Char → Text) → Text → Text
normalize_name upper name = upper_case upper (collapse false (trim name))

abbrev pub prepend : Char → List Text → List Text
prepend c [] = (c ∷ []) ∷ []
prepend c (w ∷ ws) = (c ∷ w) ∷ ws

-- `split(/\s+/)`
abbrev pub split_spaces : Bool → Text → List Text
split_spaces in_run [] = [] ∷ []
split_spaces in_run (c ∷ s) =
    let after = split_spaces true s in
    let outside = split_spaces false s in
    if is_space c then (if in_run then after else [] ∷ after) else prepend c outside

-- `trim().split(/\s+/).filter(Boolean)`
unfoldable pub parts_of : Text → List Text
parts_of name = filter_by not_empty (split_spaces false (trim name))

-- `join(' ')`, and what it makes after a first part
abbrev pub join_rest : List Text → Text
join_rest [] = []
join_rest (w ∷ ws) = space ∷ (w ++ join_rest ws)

abbrev pub join : List Text → Text
join [] = []
join (w ∷ ws) = w ++ join_rest ws

pub record LegalName : Type 0 where
  pub first_name : Text
  pub last_name : Text

abbrev pub name_of_parts : List Text → LegalName
name_of_parts [] = record { first_name = []; last_name = [] }
name_of_parts (w ∷ []) = record { first_name = w; last_name = w }
name_of_parts (w ∷ v ∷ ws) = record { first_name = w; last_name = join (v ∷ ws) }

unfoldable pub split_legal_name : Text → LegalName
split_legal_name name = name_of_parts (parts_of name)

-- `slice` from a position, and `repeat` of the star
abbrev pub drop : ℕ → Text → Text
drop zero s = s
drop (suc n) [] = []
drop (suc n) (c ∷ s) = drop n s

abbrev pub stars : ℕ → Text
stars zero = []
stars (suc n) = "*" ∷ stars n

-- `maskAccountNumber` of a number that is not empty: `length - 4` stops at 0, and so does
-- `slice(-4)`
unfoldable pub mask : Text → Text
mask s = stars (length s - 4) ++ drop (length s - 4) s
