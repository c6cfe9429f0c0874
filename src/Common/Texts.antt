-- ===== src/Common/Texts.antt =====
-- Texts as JavaScript sees them: lists of UTF-16 code units, compared, searched, cut and joined.
use Prim.Native.Char.{code}
use mathlib.Core.Option.{Option, none, some}
use Prim.Native.Nat.{ℕ, zero, suc, ◌+◌, ◌-◌, ◌/◌, ◌%◌}
use Prim.Native.String.{String}
use mathlib.Core.Path.{◌≡◌, refl, ap, ◌∙◌}
use mathlib.Core.Logic.{inl, inr}
use mathlib.Core.Bool.{Bool, true, false, ◌&&◌, ◌||◌}
use mathlib.Core.List.{List, [], ◌∷◌, ◌++◌}
use native.Mathlib.Omega.{arith}
use open_pm.Common.Tests.{◌==◌, ltb, if◌then◌else◌, Bool-cases}
use open_pm.Common.Values.{Text}

-- The code units of a character: one, or a pair of surrogates.
abbrev pub units_of_code : ℕ → Text → Text
units_of_code c rest =
    if ltb c 0x10000
    then c ∷ rest
    else (0xD800 + (c - 0x10000) / 0x400) ∷ (0xDC00 + (c - 0x10000) % 0x400) ∷ rest

-- The code units of a literal.
abbrev pub units : String → Text
units String.[] = []
units (String.◌∷◌ c s) = units_of_code (code c) (units s)

-- `a === b`.
abbrev pub text_eq : Text → Text → Bool
text_eq [] [] = true
text_eq [] (y ∷ ys) = false
text_eq (x ∷ xs) [] = false
text_eq (x ∷ xs) (y ∷ ys) = (x == y) && text_eq xs ys

pub text_eq_sound : (xs ys : Text) → text_eq xs ys ≡ true → xs ≡ ys
text_eq_sound [] [] h = refl
text_eq_sound [] (y ∷ ys) h = absurd (ground arith)
text_eq_sound (x ∷ xs) [] h = absurd (ground arith)
text_eq_sound (x ∷ xs) (y ∷ ys) h = elim (Bool-cases (x == y)) [
  | inl e ↦
      let same : x ≡ y = ground arith in
      let rest : text_eq xs ys ≡ true = ground arith in
      ap (λ c. c ∷ xs) same ∙ ap (λ l. y ∷ l) (text_eq_sound xs ys rest)
  | inr e ↦ absurd (ground arith)
]

-- `a < b` on strings.
abbrev pub text_lt : Text → Text → Bool
text_lt xs [] = false
text_lt [] (y ∷ ys) = true
text_lt (x ∷ xs) (y ∷ ys) = let later = text_lt xs ys in ltb x y || ((x == y) && later)

abbrev pub is_empty : Text → Bool
is_empty [] = true
is_empty (c ∷ cs) = false

-- `text.includes(c)` for one code unit.
abbrev pub includes : ℕ → Text → Bool
includes c [] = false
includes c (x ∷ xs) = x == c || includes c xs

-- `parts.join(separator)`.
unfoldable pub join_texts : Text → List Text → Text
join_texts separator [] = []
join_texts separator (p ∷ []) = p
join_texts separator (p ∷ q ∷ ps) = p ++ separator ++ join_texts separator (q ∷ ps)

-- `text.split(c)` for one code unit: the first part and the others.
unfoldable pub split_at : ℕ → Text → Text × List Text
split_at c [] = ([], [])
split_at c (x ∷ xs) =
    let (first, others) = split_at c xs in
    if x == c then ([], first ∷ others) else (x ∷ first, others)

join-split_cons :
    (c x : ℕ) (first : Text) (others : List Text)
    → join_texts (c ∷ []) ((x ∷ first) ∷ others) ≡ x ∷ join_texts (c ∷ []) (first ∷ others)
unfolding join_texts
join-split_cons c x first [] = refl
join-split_cons c x first (q ∷ qs) = refl

-- What `split` cuts, `join` puts together again.
pub join_texts-split_at :
    (c : ℕ) (t : Text) → join_texts (c ∷ []) ((split_at c t).0 ∷ (split_at c t).1) ≡ t
unfolding split_at join_texts
join_texts-split_at c [] = refl
join_texts-split_at c (x ∷ xs) = elim (Bool-cases (x == c)) [
  | inl e ↦
      let same : c ≡ x = ground arith in
      rw e (ap (λ t. c ∷ t) (join_texts-split_at c xs) ∙ ap (λ y. y ∷ xs) same)
  | inr e ↦ rw e (
      join-split_cons c x (split_at c xs).0 (split_at c xs).1
      ∙ ap (λ t. x ∷ t) (join_texts-split_at c xs))
]

-- A part without the separator, and what follows the first separator.
pub split_at-append :
    (c : ℕ) (word t : Text)
    → includes c word ≡ false
    → split_at c (word ++ c ∷ t) ≡ (word, (split_at c t).0 ∷ (split_at c t).1)
unfolding split_at
split_at-append c [] t h = ground arith
split_at-append c (x ∷ xs) t h =
    let ne : (x == c) ≡ false = ground arith in rw (ne, split_at-append c xs t (ground arith))

pub split_at-alone : (c : ℕ) (word : Text) → includes c word ≡ false → split_at c word ≡ (word, [])
unfolding split_at
split_at-alone c [] h = refl
split_at-alone c (x ∷ xs) h =
    let ne : (x == c) ≡ false = ground arith in rw (ne, split_at-alone c xs (ground arith))

-- A whole number in a template.
abbrev pub digits : ℕ → ℕ → Text → Text
digits zero n later = later
digits (suc fuel) n later =
    let before = digits fuel (n / 10) ((48 + n % 10) ∷ later) in
    if ltb n 10 then (48 + n) ∷ later else before

-- A number has at most as many digits as it counts, and one.
abbrev pub decimal : ℕ → Text
decimal n = digits (suc n) n []

-- A text that is there and not empty, as `text ? … : …` tests it.
abbrev pub truthy : Option Text → Option Text
truthy none = none
truthy (some t) = if is_empty t then none else some t
