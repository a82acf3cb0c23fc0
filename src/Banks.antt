-- ===== src/Banks.antt =====
-- BanksService (src/banks/banks.service.ts): the list of banks with its cache, and the bank that a
-- caller means. The provider, the clock, the collation of names and Unicode's upper case are
-- parameters; concurrent misses, which share one request, are one call.
pub mod Listing
use Prim.Native.Char.{Char, code}
use text.Mathlib.Text.{◌==◌ as str_eq}
use splitcore.Base.{
  ⊤, ℕ, zero, suc, ◌+◌, ◌*◌, ◌-◌, ◌&&◌, ◌||◌, not, Bool, true, false, Option, none, some, List, [],
  ◌∷◌, ◌++◌, map, String, ◌==◌, ltb, leb, length, is_some, find_by, filter_by, if◌then◌else◌,
}
use splitcore.Action.{
  Action, Result, ok, err, Error, ◌>>=◌, ◌>>◌, pure, throw, gets, lift, or_throw,
}
use splitcore.Payouts.{present, resolve_bank_code}
use splitcore.Names.{Text, chars, string_of, trim, collapse, upper_case, is_empty}

pub record Bank : Type 0 where
  pub name : String
  pub code : String

-- A bank as the provider reports it.
pub record ProviderBank : Type 0 where
  pub name : String
  pub code : String
  pub active : Bool
  pub supports_transfer : Bool

pub record BankCache : Type 0 where
  pub banks : List Bank
  pub fetched_at : ℕ

-- 24 hours, in milliseconds
abbrev pub cache_ttl_ms : ℕ
cache_ttl_ms = 24 * 60 * 60 * 1000

abbrev pub filled : String → Bool
filled t = is_some (present (some t))

abbrev pub is_usable : ProviderBank → Bool
is_usable b = b.active && b.supports_transfer && filled b.code && filled b.name

abbrev pub to_bank : ProviderBank → Bank
to_bank b = record { name = b.name; code = b.code }

abbrev pub fallback_names : List String
fallback_names =
    "GTBank" ∷ "Access Bank" ∷ "First Bank" ∷ "UBA" ∷ "Zenith Bank" ∷ "Stanbic IBTC"
    ∷ "Sterling Bank" ∷ "Polaris Bank" ∷ "Wema Bank" ∷ "Union Bank" ∷ "Ecobank" ∷ "Fidelity Bank"
    ∷ "FCMB" ∷ "Kuda Bank" ∷ "Opay" ∷ []

abbrev pub with_code : String → Option String → List Bank → List Bank
with_code name none rest = rest
with_code name (some code) rest = record { name = name; code = code } ∷ rest

-- the names with the codes that they have; a name without one is left out
abbrev pub coded : List String → List Bank
coded [] = []
coded (name ∷ names) = with_code name (present (resolve_bank_code name)) (coded names)

unfoldable pub fallback_banks : List Bank
unfolding resolve_bank_code
fallback_banks = coded fallback_names

module _ (sort_by_name : List Bank → List Bank) (provided : Result (List ProviderBank))
    (now : ℕ) where
  unfoldable pub usable_banks : Result (List ProviderBank) → List Bank
  usable_banks (err e) = []
  usable_banks (ok banks) = sort_by_name (map to_bank (filter_by is_usable banks))

  -- the catch block
  unfoldable pub after_failure : Option BankCache → List Bank
  after_failure none = fallback_banks
  after_failure (some cache) = cache.banks

  -- after the sort: a list without a bank is thrown into the catch block, as a failure is
  unfoldable pub after_fetch : List Bank → Action (Option BankCache) (List Bank)
  after_fetch [] cache = (ok (after_failure cache), cache)
  after_fetch (b ∷ bs) cache = (ok (b ∷ bs), some (record { banks = b ∷ bs; fetched_at = now }))

  unfoldable pub fetch : Action (Option BankCache) (List Bank)
  fetch = after_fetch (usable_banks provided)

  abbrev pub is_fresh : Option BankCache → Bool
  is_fresh none = false
  is_fresh (some cache) = ltb (now - cache.fetched_at) cache_ttl_ms

  abbrev pub cached_banks : Option BankCache → List Bank
  cached_banks none = []
  cached_banks (some cache) = cache.banks

  unfoldable pub list : Action (Option BankCache) (List Bank)
  list cache = if is_fresh cache then (ok (cached_banks cache), cache) else fetch cache

-- `\w`, and the punctuation of `[.,'()]`
abbrev pub is_word : Char → Bool
is_word c =
    (leb 48 (code c) && leb (code c) 57)
    || (leb 65 (code c) && leb (code c) 90)
    || (leb 97 (code c) && leb (code c) 122)
    || code c == 95

abbrev pub not_punctuation : Char → Bool
not_punctuation c =
    not (code c == 46 || code c == 44 || code c == 39 || code c == 40 || code c == 41)

-- a text that starts with another one, and a word boundary after it
abbrev pub ends_word : Text → Bool
ends_word [] = true
ends_word (c ∷ s) = not (is_word c)

abbrev pub starts_word : Text → Text → Bool
starts_word [] s = ends_word s
starts_word (p ∷ ps) [] = false
starts_word (p ∷ ps) (c ∷ s) = code p == code c && starts_word ps s

-- the length of PLC, LTD or LIMITED at the start of a text, as a whole word, or 0
unfoldable pub suffix_length : Text → ℕ
suffix_length s =
    if starts_word (chars "PLC") s
    then 3
    else if starts_word (chars "LTD") s
    then 3
    else if starts_word (chars "LIMITED") s
    then 7
    else 0

-- `replace(/\bPLC\b|\bLTD\b|\bLIMITED\b/g, '')`, with the characters still to skip and whether the
-- character before is one of a word
unfoldable pub strip_suffixes : ℕ → Bool → Text → Text
strip_suffixes skip in_word [] = []
strip_suffixes (suc skip) in_word (c ∷ s) = strip_suffixes skip (is_word c) s
strip_suffixes zero in_word (c ∷ s) = elim (if in_word then 0 else suffix_length (c ∷ s)) [
  | zero ↦ c ∷ strip_suffixes zero (is_word c) s
  | suc skip ↦ strip_suffixes skip (is_word c) s
]

-- `n.startsWith(wanted)`
abbrev pub starts_with : Text → Text → Bool
starts_with [] s = true
starts_with (p ∷ ps) [] = false
starts_with (p ∷ ps) (c ∷ s) = code p == code c && starts_with ps s

abbrev pub same_text : Text → Text → Bool
same_text s t = str_eq (string_of s) (string_of t)

module _ (upper : Char → Text) where
  unfoldable pub normalize_bank_name : Text → Text
  normalize_bank_name name = trim (
      collapse false
        (strip_suffixes zero false (filter_by not_punctuation (upper_case upper (trim name)))))

  abbrev pub normal : Bank → Text
  normal b = normalize_bank_name (chars b.name)

  abbrev pub is_exact : Text → Bank → Bool
  is_exact wanted b = same_text (normal b) wanted

  abbrev pub is_partial : Text → Bank → Bool
  is_partial wanted b = starts_with wanted (normal b) || starts_with (normal b) wanted

  -- `partial`: one candidate, or a refusal
  abbrev pub only_one : List Bank → Result Bank
  only_one (b ∷ []) = ok b
  only_one _ = err Error.bad_request

  unfoldable pub resolve_partial : List Bank → Text → Result Bank
  resolve_partial banks wanted = only_one (filter_by (is_partial wanted) banks)

  abbrev pub by_code : List Bank → String → Option Bank
  by_code banks code = find_by (λ b. str_eq b.code code) banks

  -- the bank of the alias, if the name is one
  abbrev pub alias_bank : List Bank → Option String → Option Bank
  alias_bank banks none = none
  alias_bank banks (some code) = by_code banks code

  abbrev pub or_partial : List Bank → Text → Option Bank → Result Bank
  or_partial banks wanted none = resolve_partial banks wanted
  or_partial banks wanted (some b) = ok b

  unfoldable pub resolve_alias : List Bank → String → Text → Result Bank
  resolve_alias banks name wanted =
      or_partial banks wanted
        (alias_bank banks (present (resolve_bank_code (string_of (trim (chars name))))))

  abbrev pub exact_or_alias : List Bank → String → Text → List Bank → Result Bank
  exact_or_alias banks name wanted (b ∷ []) = ok b
  exact_or_alias banks name wanted _ = resolve_alias banks name wanted

  unfoldable pub resolve_name : List Bank → String → Result Bank
  resolve_name banks name =
      let wanted = normalize_bank_name (chars name) in
      exact_or_alias banks name wanted (filter_by (is_exact wanted) banks)

  abbrev pub code_or_refuse : Option Bank → Result Bank
  code_or_refuse none = err Error.bad_request
  code_or_refuse (some b) = ok b

  -- a code, else a name, else a refusal; the empty text counts as none
  unfoldable pub resolve_in : List Bank → Option String → Option String → Result Bank
  resolve_in banks (some code) name = code_or_refuse (by_code banks code)
  resolve_in banks none (some name) = resolve_name banks name
  resolve_in banks none none = err Error.bad_request

  unfoldable pub resolve :
      (List Bank → List Bank)
      → Result (List ProviderBank)
      → ℕ
      → Option String
      → Option String
      → Action (Option BankCache) Bank
  resolve sort_by_name provided now bank_name bank_code = do
    banks ← list sort_by_name provided now
    lift (resolve_in banks (present bank_code) (present bank_name))
