-- ===== src/Banks/Listing.antt =====
-- What the list of banks and the choice of one promise (src/banks/banks.service.ts).
use Prim.Native.Char.{Char}
use text.Mathlib.Text.{◌==◌ as str_eq}
use text.Mathlib.TextEquality.{eq_iff}
use mathlib.Core.Option.{some-injective}
use mathlib.Core.Path.{subst}
use splitcore.Base.{
  ⊤, ℕ, ◌≡◌, refl, sym, ap, ◌∙◌, inl, inr, Bool, true, false, Option, none, some, List, [], ◌∷◌,
  String, find_by, find_by_holds, filter_by, All, Bool-cases, Option-cases,
}
use splitcore.Result.{ok-injective}
use splitcore.Action.{Result, ok}
use splitcore.Names.{Text, not_empty}
use splitcore.Banks.{Bank}
use splitcore.Banks.{
  ProviderBank, BankCache, fallback_banks, usable_banks, after_failure, after_fetch, fetch,
  is_fresh, list, is_exact, is_partial, only_one, resolve_partial, by_code, alias_bank, or_partial,
  resolve_alias, exact_or_alias, resolve_name, resolve_in,
}

-- A cache, if there is one, holds banks.
abbrev pub IsStocked : Option BankCache → Type 0
IsStocked none = ⊤
IsStocked (some cache) = not_empty cache.banks ≡ true

-- What a call of the list comes to: banks, and a cache that holds banks.
abbrev pub Listed : Result (List Bank) × Option BankCache → Type 0
Listed r = (banks : List Bank) × (r.0 ≡ ok banks) × (not_empty banks ≡ true) × IsStocked r.1

module _ (sort_by_name : List Bank → List Bank) (provided : Result (List ProviderBank))
    (now : ℕ) where
  failure-Listed :
      (cache : Option BankCache)
      → IsStocked cache
      → Listed (ok (after_failure sort_by_name provided now cache), cache)
  unfolding after_failure fallback_banks
  failure-Listed none h = (_, refl, refl, tt)
  failure-Listed (some cache) h = (cache.banks, refl, h, h)

  after_fetch-Listed :
      (banks : List Bank) (cache : Option BankCache)
      → IsStocked cache
      → Listed (after_fetch sort_by_name provided now banks cache)
  unfolding after_fetch
  after_fetch-Listed [] cache h = failure-Listed cache h
  after_fetch-Listed (b ∷ bs) cache h = (b ∷ bs, refl, refl, refl)

  list_cases :
      (cache : Option BankCache) (fresh : Bool)
      → is_fresh sort_by_name provided now cache ≡ fresh
      → IsStocked cache
      → Listed (list sort_by_name provided now cache)
  unfolding list fetch
  list_cases cache false e h =
      rw e (after_fetch-Listed (usable_banks sort_by_name provided now provided) cache h)
  list_cases none true e h = absurd (cc (e))
  list_cases (some cache) true e h = rw e (cache.banks, refl, h, h)

  -- From an empty cache or one that holds banks, the list always returns banks, at least one, whatever
  -- the provider answers or throws, and again leaves an empty cache or one that holds banks.
  pub list-Listed :
      (cache : Option BankCache) → IsStocked cache → Listed (list sort_by_name provided now cache)
  list-Listed cache h = list_cases cache (is_fresh sort_by_name provided now cache) refl h

module _ (P : Bank → Type 0) where
  find_by-All :
      (p : Bank → Bool) (bs : List Bank) {b : Bank} → All P bs → find_by p bs ≡ some b → P b
  find_by-All p [] all h = absurd (cc (h))
  find_by-All p (c ∷ bs) {b} (hc, all) h = elim (Bool-cases (p c)) [
    | inl a ↦ subst P (some-injective c b (rw a at h)) hc
    | inr a ↦ find_by-All p bs all (rw a at h)
  ]

  filter_by-All : (p : Bank → Bool) (bs : List Bank) → All P bs → All P (filter_by p bs)
  filter_by-All p [] all = tt
  filter_by-All p (c ∷ bs) (hc, all) = elim (Bool-cases (p c)) [
    | inl a ↦ rw a (hc, filter_by-All p bs all)
    | inr a ↦ rw a (filter_by-All p bs all)
  ]

  only_one-All :
      (upper : Char → Text) (bs : List Bank) {b : Bank} → All P bs → only_one upper bs ≡ ok b → P b
  only_one-All upper [] all h = absurd (cc (h))
  only_one-All upper (c ∷ []) {b} all h = subst P (ok-injective c b h) all.0
  only_one-All upper (c ∷ d ∷ bs) all h = absurd (cc (h))

  module _ (upper : Char → Text) (banks : List Bank) (all : All P banks) where
    alias_All :
        (code : Option String) (wanted : Text) {b : Bank}
        → or_partial upper banks wanted (alias_bank upper banks code) ≡ ok b
        → P b
    unfolding resolve_partial
    alias_All none wanted h =
        only_one-All upper _ (filter_by-All (is_partial upper wanted) banks all) h
    alias_All (some code) wanted {b} h = elim (Option-cases (by_code upper banks code)) [
      | inl a ↦ only_one-All upper _ (filter_by-All (is_partial upper wanted) banks all) (rw a at h)
      | inr (c, a) ↦
          subst P (ok-injective c b (rw a at h)) (find_by-All (λ x. str_eq x.code code) banks all a)
    ]

    exact_All :
        (name : String) (wanted : Text) (exact : List Bank) {b : Bank}
        → All P exact
        → exact_or_alias upper banks name wanted exact ≡ ok b
        → P b
    unfolding resolve_alias
    exact_All name wanted [] allx h = alias_All _ wanted h
    exact_All name wanted (c ∷ []) {b} allx h = subst P (ok-injective c b h) allx.0
    exact_All name wanted (c ∷ d ∷ bs) allx h = alias_All _ wanted h

    -- The bank that a caller is given is one of the list: what holds of every bank listed holds of it.
    -- If a code was sent, it is the bank with that code.
    pub resolve_in-All :
        (code name : Option String) {b : Bank}
        → resolve_in upper banks code name ≡ ok b
        → P b × ((c : String) → code ≡ some c → b.code ≡ c)
    unfolding resolve_in resolve_name
    resolve_in-All (some code) name {b} h = elim (Option-cases (by_code upper banks code)) [
      | inl a ↦ absurd (cc (rw a at h))
      | inr (c, a) ↦
          let e = ok-injective c b (rw a at h) in
          (
            subst P e (find_by-All (λ x. str_eq x.code code) banks all a),
            λ k q.
                sym (ap (λ x. x.code) e)
                ∙ (eq_iff c.code code).0 (find_by_holds (λ (x : Bank). str_eq x.code code) banks a)
                ∙ some-injective code k q,
          )
    ]
    resolve_in-All none (some name) h =
        (exact_All name _ _ (filter_by-All (is_exact upper _) banks all) h, λ k q. absurd (cc (q)))
    resolve_in-All none none h = absurd (cc (h))
