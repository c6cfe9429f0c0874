-- ===== src/Chat/Slash/Parse.antt =====
-- The parser of slash commands reads back what the cockpit prints.
use open_pm.Common.{
  ℕ, ◌≤◌, Text, none, some, List, [], ◌∷◌, ◌++◌, ◌≡◌, ◌≢◌, refl, ap, sym, ◌∙◌, subst, Bool, true,
  false, units, includes, split_at, split_at-append, split_at-alone, join_texts,
  join_texts-split_at, reverse, length, Bool-cases, inl, inr, arith, All, leb, ◌&&◌,
}
use mathlib.Core.List.{reverse-append, reverse-reverse, append_assoc, cons≢nil}
use open_pm.Lines.{strip_prefix, trim, trim_start, is_space}
use open_pm.Chat.Slash.{
  SlashCommandName, name_of, SlashCommandDef, slash_commands, slash, space, after_slash,
  find_command, parse_words, parse_slash_command, raw_input,
}

-- No space at either end.
abbrev pub IsTrimmed : Text → Type 0
IsTrimmed t = (trim_start t ≡ t) × (trim_start (reverse t) ≡ reverse t)

-- Lower-case ASCII letters only.
abbrev pub IsLower : Text → Type 0
IsLower t = All (λ (c : ℕ). leb 97 c && leb c 122 ≡ true) t

length-trim_start : (t : Text) → length (trim_start t) ≤ length t
unfolding trim_start
length-trim_start [] = omega arith
length-trim_start (c ∷ cs) = ground (arith, length-trim_start cs)

-- A text that starts with no space stays as it is with anything after it.
trim_start-append : (x r : Text) → trim_start x ≡ x → x ≢ [] → trim_start (x ++ r) ≡ x ++ r
unfolding trim_start
trim_start-append [] r h ne = absurd (ne refl)
trim_start-append (c ∷ cs) r h ne = elim (Bool-cases (is_space c)) [
  | inl e ↦ absurd (omega (arith, length-trim_start cs, ap length (rw e at h)))
  | inr e ↦ rw e refl
]

IsTrimmed-trim : (t : Text) → IsTrimmed t → trim t ≡ t
unfolding trim
IsTrimmed-trim t (start, end) =
    ap (λ s. reverse (trim_start (reverse s))) start ∙ ap reverse end ∙ reverse-reverse t

reverse-Nonempty : (t : Text) → t ≢ [] → reverse t ≢ []
reverse-Nonempty t ne e = ne (sym (reverse-reverse t) ∙ ap reverse e)

-- A text that ends with no space has none at its end with anything before it.
trim_start-reverse-append :
    (x r : Text)
    → trim_start (reverse r) ≡ reverse r
    → r ≢ []
    → trim_start (reverse (x ++ r)) ≡ reverse (x ++ r)
trim_start-reverse-append x r h ne =
    ap trim_start (reverse-append x r)
    ∙ trim_start-append (reverse r) (reverse x) h (reverse-Nonempty r ne)
    ∙ sym (reverse-append x r)

with_arg : (name arg : Text) → slash ∷ (name ++ space ∷ arg) ≡ (slash ∷ (name ++ space ∷ [])) ++ arg
with_arg name arg = ap (λ t. slash ∷ t) (sym (append_assoc name (space ∷ []) arg))

trim-raw_input :
    (name arg : Text)
    → name ≢ []
    → IsTrimmed name
    → IsTrimmed arg
    → trim (raw_input name arg) ≡ raw_input name arg
unfolding raw_input trim_start
trim-raw_input name [] ne (_, n) a =
    IsTrimmed-trim (slash ∷ name) (refl, trim_start-reverse-append (slash ∷ []) name n ne)
trim-raw_input name (c ∷ cs) ne n (_, a) =
    let whole = slash ∷ (name ++ space ∷ c ∷ cs) in
    let before = slash ∷ (name ++ space ∷ []) in
    IsTrimmed-trim whole (
      refl,
      subst (λ t. trim_start (reverse t) ≡ reverse t) (sym (with_arg name (c ∷ cs)))
          (trim_start-reverse-append before (c ∷ cs) a (λ e. cons≢nil e)),
    )

abbrev pub is_lower : Text → Bool
is_lower [] = true
is_lower (c ∷ cs) = leb 97 c && leb c 122 && is_lower cs

abbrev pub LowersLetters : (Text → Text) → Type 0
LowersLetters lower = (t : Text) → is_lower t ≡ true → lower t ≡ t

-- What the parser needs to know of a command's name.
abbrev Found : SlashCommandName → Type 0
Found c =
    (d : SlashCommandDef) × (find_command (units (name_of c)) slash_commands ≡ some d)
    × (d.name ≡ c)

record IsName (c : SlashCommandName) : Type 0 where
  trimmed : IsTrimmed (units (name_of c))
  lower_case : is_lower (units (name_of c)) ≡ true
  one_word : includes space (units (name_of c)) ≡ false
  nonempty : units (name_of c) ≢ []
  found : Found c

command-IsName : (c : SlashCommandName) → IsName c
unfolding trim_start find_command
command-IsName SlashCommandName.status = (record {
  trimmed = (refl, refl);
  lower_case = refl;
  one_word = refl;
  nonempty = λ e. cons≢nil e;
  found = (_, refl, refl);
})
command-IsName SlashCommandName.tasks = (record {
  trimmed = (refl, refl);
  lower_case = refl;
  one_word = refl;
  nonempty = λ e. cons≢nil e;
  found = (_, refl, refl);
})
command-IsName SlashCommandName.deadlines = (record {
  trimmed = (refl, refl);
  lower_case = refl;
  one_word = refl;
  nonempty = λ e. cons≢nil e;
  found = (_, refl, refl);
})
command-IsName SlashCommandName.blockers = (record {
  trimmed = (refl, refl);
  lower_case = refl;
  one_word = refl;
  nonempty = λ e. cons≢nil e;
  found = (_, refl, refl);
})
command-IsName SlashCommandName.contacts = (record {
  trimmed = (refl, refl);
  lower_case = refl;
  one_word = refl;
  nonempty = λ e. cons≢nil e;
  found = (_, refl, refl);
})
command-IsName SlashCommandName.search = (record {
  trimmed = (refl, refl);
  lower_case = refl;
  one_word = refl;
  nonempty = λ e. cons≢nil e;
  found = (_, refl, refl);
})
command-IsName SlashCommandName.export = (record {
  trimmed = (refl, refl);
  lower_case = refl;
  one_word = refl;
  nonempty = λ e. cons≢nil e;
  found = (_, refl, refl);
})
command-IsName SlashCommandName.cancel = (record {
  trimmed = (refl, refl);
  lower_case = refl;
  one_word = refl;
  nonempty = λ e. cons≢nil e;
  found = (_, refl, refl);
})
command-IsName SlashCommandName.clear = (record {
  trimmed = (refl, refl);
  lower_case = refl;
  one_word = refl;
  nonempty = λ e. cons≢nil e;
  found = (_, refl, refl);
})
command-IsName SlashCommandName.version = (record {
  trimmed = (refl, refl);
  lower_case = refl;
  one_word = refl;
  nonempty = λ e. cons≢nil e;
  found = (_, refl, refl);
})
command-IsName SlashCommandName.help = (record {
  trimmed = (refl, refl);
  lower_case = refl;
  one_word = refl;
  nonempty = λ e. cons≢nil e;
  found = (_, refl, refl);
})

trim-nothing : trim (join_texts (space ∷ []) []) ≡ []
unfolding trim trim_start join_texts
trim-nothing = refl

module _ (lower : Text → Text) (lowers : LowersLetters lower) where
  parse_words-name_of :
      (c : SlashCommandName) (rest : List Text) (arg : Text)
      → trim (join_texts (space ∷ []) rest) ≡ arg
      → parse_words lower (units (name_of c), rest) ≡ some (record { name = c; arg = arg })
  unfolding parse_words find_command
  parse_words-name_of c rest arg h =
      let (d, found, named) = (command-IsName c).found in
      let lowered : lower (units (name_of c)) ≡ units (name_of c) =
        lowers (units (name_of c)) (command-IsName c).lower_case in
      rw (lowered, found)
        (ap (λ n. some (record { name = n; arg = trim (join_texts (space ∷ []) rest) })) named
          ∙ ap (λ a. some (record { name = c; arg = a })) h)

  parse_words-split_at :
      (c : SlashCommandName) (arg : Text)
      → IsTrimmed arg
      → elim (after_slash (raw_input (units (name_of c)) arg)) [
        | none ↦ none
        | some rest ↦ parse_words lower (split_at space rest)
      ]
        ≡ some (record { name = c; arg = arg })
  unfolding raw_input strip_prefix
  parse_words-split_at c [] h =
      rw (split_at-alone space (units (name_of c)) (command-IsName c).one_word)
        (parse_words-name_of c [] [] trim-nothing)
  parse_words-split_at c (x ∷ xs) h =
      let arg = x ∷ xs in
      let rest = (split_at space arg).0 ∷ (split_at space arg).1 in
      ap (parse_words lower)
        (split_at-append space (units (name_of c)) arg (command-IsName c).one_word)
      ∙ parse_words-name_of c rest arg
          (ap trim (join_texts-split_at space arg) ∙ IsTrimmed-trim arg h)

  -- For every registered command and every argument without spaces at its ends, parsing the input
  -- that the cockpit prints for them, `/name` or `/name argument`, gives the command and the
  -- argument again, when `toLowerCase` keeps lower-case letters.
  pub parse_slash_command-raw_input :
      (c : SlashCommandName) (arg : Text)
      → IsTrimmed arg
      → parse_slash_command lower (raw_input (units (name_of c)) arg)
        ≡ some (record { name = c; arg = arg })
  unfolding parse_slash_command
  parse_slash_command-raw_input c arg h =
      ap
        (λ t. elim (after_slash t) [
          | none ↦ none
          | some rest ↦ parse_words lower (split_at space rest)
        ])
        (trim-raw_input (units (name_of c)) arg (command-IsName c).nonempty
          (command-IsName c).trimmed h)
      ∙ parse_words-split_at c arg h
