-- ===== src/Chat/Input/Laws.antt =====
-- What the popover offers, and how often an event of the input field calls the cockpit.
use open_pm.Common.{
  ℕ, suc, ◌+◌, ◌-◌, ◌%◌, ◌<◌, Text, Option, none, some, List, [], ◌∷◌, ◌++◌, ◌≡◌, refl, ap, sym,
  ◌∙◌, subst, Bool, true, false, not, ◌&&◌, ◌||◌, is_empty, is_some, includes, if◌then◌else◌,
  length, get_elem?, arith, ltb, Bool-cases, inl, inr, ◌⊎◌, append-nil, ◌otherwise◌, ltb→lt,
}
use native.Mathlib.Nat.{mod-lt}
use open_pm.Lines.{trim, trim_start}
use open_pm.Chat.Slash.{
  SlashCommandName, SlashCommandDef, ParsedCommand, match_slash_commands, after_slash, space,
  parse_slash_command,
}
use open_pm.Chat.Input.{
  Input, Setting, Call, Key, arrow_down, arrow_up, tab, enter, escape_key, other_key, KeyPress,
  Handled, cleared, select_with, select_slash_command, select_active, chosen_def, on_popover_key,
  submit_parsed, submit, on_enter, on_text_key, on_key, on_key_down, on_hover, on_input, InputEvent,
  typed, pressed, clicked, hovered, clicked_send, on_event, on_events,
}

-- The event called nothing, or it made one call and emptied the field.
abbrev pub CallsOnce : Handled → Type 0
CallsOnce h = (h.calls ≡ []) ⊎ ((c : Call) × (h.calls ≡ c ∷ []) × (h.input ≡ cleared))

module _ (lower : Text → Text) (setting : Setting) where
  -- The popover is closed, or it offers the completions of the text, one of which is active.
  abbrev pub IsOffering : Input → Type 0
  IsOffering i =
      (i.slash_matches ≡ [])
      ⊎ ((i.slash_matches ≡ match_slash_commands lower i.value)
          × (i.slash_active_idx < length i.slash_matches))

  -- An outcome that is right in both respects.
  abbrev IsRight : Handled → Type 0
  IsRight h = CallsOnce h × IsOffering h.input

  select_with-IsRight :
      (name : SlashCommandName) (i : Input) (o : Option SlashCommandDef)
      → IsOffering i
      → IsRight (select_with setting name i o)
  unfolding select_with
  select_with-IsRight name i none h = (inl refl, h)
  select_with-IsRight name i (some def) h =
      elim (Bool-cases (not def.takes_arg && setting.takes_commands)) [
        | inl e ↦ rw e (inr (_, refl, refl), inl refl)
        | inr e ↦ rw e (inl refl, inl refl)
      ]

  select_slash_command-IsRight :
      (name : SlashCommandName) (i : Input)
      → IsOffering i
      → IsRight (select_slash_command setting name i)
  unfolding select_slash_command
  select_slash_command-IsRight name i h =
      select_with-IsRight name i (chosen_def name i.slash_matches) h

  select_active-IsRight :
      (i : Input) (cs : List SlashCommandDef) → IsOffering i → IsRight (select_active setting i cs)
  unfolding select_active
  select_active-IsRight i [] h = (inl refl, h)
  select_active-IsRight i (c ∷ cs) h =
      let def = get_elem? (c ∷ cs) i.slash_active_idx otherwise c in
      select_slash_command-IsRight def.name i h

  calls-submit_parsed :
      (val : Text) (o : Option ParsedCommand)
      → (c : Call) × (submit_parsed lower setting val o ≡ c ∷ [])
  unfolding submit_parsed
  calls-submit_parsed val none = (_, refl)
  calls-submit_parsed val (some p) = elim (Bool-cases setting.takes_commands) [
    | inl e ↦ rw e (_, refl)
    | inr e ↦ rw e (_, refl)
  ]

  submit-IsRight : (i : Input) → IsOffering i → IsRight (submit lower setting i)
  unfolding submit
  submit-IsRight i h =
      let val = trim i.value in
      let sent = calls-submit_parsed val (parse_slash_command lower val) in
      elim (Bool-cases (is_empty val || setting.disabled)) [
        | inl e ↦ rw e (inl refl, h)
        | inr e ↦ rw e (inr (sent.0, sent.1, refl), inl refl)
      ]

  -- Nothing more is sent from the empty field.
  submit-cleared : submit lower setting cleared ≡ record { input = cleared; calls = [] }
  unfolding submit trim trim_start
  submit-cleared = refl

  twice :
      (h : Handled)
      → IsRight h
      → let g = submit lower setting h.input in
        IsRight (record { input = g.input; calls = h.calls ++ g.calls })
  twice h (inl e, v) =
      let g = submit lower setting h.input in
      subst (λ calls. IsRight (record { input = g.input; calls = calls ++ g.calls })) (sym e)
        (submit-IsRight h.input v)
  twice h (inr (c, e, k), v) =
      let g = submit lower setting h.input in
      let same : g ≡ record { input = cleared; calls = [] } =
        ap (submit lower setting) k ∙ submit-cleared in
      (
        inr (
          c,
          ap (λ (x : Handled). h.calls ++ x.calls) same ∙ append-nil h.calls ∙ e,
          ap (λ (x : Handled). x.input) same,
        ),
        (submit-IsRight h.input v).1,
      )

  on_enter-IsRight :
      (e : KeyPress) (i : Input) → IsOffering i → IsRight (on_enter lower setting e i)
  unfolding on_enter
  on_enter-IsRight e i h =
      let plain = not setting.is_mobile && not e.shift in
      let first = if plain then submit lower setting i else record { input = i; calls = [] } in
      let right : IsRight first = elim (Bool-cases plain) [
        | inl p ↦ rw p (submit-IsRight i h)
        | inr p ↦ rw p (inl refl, h)
      ] in
      elim (Bool-cases e.modified) [ inl m ↦ rw m (twice first right) | inr m ↦ rw m right ]

  on_text_key-IsRight :
      (e : KeyPress) (key : Key) (i : Input)
      → IsOffering i
      → IsRight (on_text_key lower setting e key i)
  unfolding on_text_key
  on_text_key-IsRight e enter i h = on_enter-IsRight e i h
  on_text_key-IsRight e arrow_down i h = (inl refl, h)
  on_text_key-IsRight e arrow_up i h = (inl refl, h)
  on_text_key-IsRight e tab i h = (inl refl, h)
  on_text_key-IsRight e escape_key i h = (inl refl, h)
  on_text_key-IsRight e other_key i h = (inl refl, h)

  -- Moving within the entries of the popover.
  moved :
      (n m : ℕ) (i : Input)
      → length i.slash_matches ≡ suc n
      → IsOffering i
      → IsOffering (record i { slash_active_idx = m % suc n })
  moved n m i l (inl e) = inl e
  moved n m i l (inr (e, lt)) = inr (e, subst (λ k. m % suc n < k) (sym l) (mod-lt m (omega arith)))

  on_popover_key-IsRight :
      (key : Key) (shift : Bool) (n : ℕ) (i : Input) (fallback : Handled)
      → length i.slash_matches ≡ suc n
      → IsOffering i
      → IsRight fallback
      → IsRight (on_popover_key setting key shift n i otherwise fallback)
  unfolding on_popover_key
  on_popover_key-IsRight arrow_down shift n i f l h r =
      (inl refl, moved n (i.slash_active_idx + 1) i l h)
  on_popover_key-IsRight arrow_up shift n i f l h r =
      (inl refl, moved n (i.slash_active_idx + suc n - 1) i l h)
  on_popover_key-IsRight tab shift n i f l h r = select_active-IsRight i i.slash_matches h
  on_popover_key-IsRight enter true n i f l h r = r
  on_popover_key-IsRight enter false n i f l h r = select_active-IsRight i i.slash_matches h
  on_popover_key-IsRight escape_key shift n i f l h r = (inl refl, inl refl)
  on_popover_key-IsRight other_key shift n i f l h r = r

  on_key-IsRight :
      (e : KeyPress) (i : Input) (cs : List SlashCommandDef)
      → i.slash_matches ≡ cs
      → IsOffering i
      → IsRight (on_key lower setting e i cs)
  unfolding on_key
  on_key-IsRight e i [] m h = on_text_key-IsRight e e.key i h
  on_key-IsRight e i (c ∷ cs) m h =
      on_popover_key-IsRight e.key e.shift (length cs) i (on_text_key lower setting e e.key i)
        (ap length m) h (on_text_key-IsRight e e.key i h)

  opened : (cs : List SlashCommandDef) → (cs ≡ []) ⊎ ((cs ≡ cs) × (0 < length cs))
  opened [] = inl refl
  opened (c ∷ cs) = inr (refl, ground arith)

  on_input-IsOffering : (val : Text) (i : Input) → IsOffering (on_input lower val i)
  unfolding on_input
  on_input-IsOffering val i =
      elim (Bool-cases (is_some (after_slash val) && not (includes space val))) [
        | inl e ↦ rw e (opened (match_slash_commands lower val))
        | inr e ↦
            rw e (elim (Bool-cases (is_empty val)) [
              | inl f ↦ rw f (inl refl)
              | inr f ↦ rw f (inl refl)
            ])
      ]

  on_hover-IsOffering : (n : ℕ) (i : Input) → IsOffering i → IsOffering (on_hover n i)
  unfolding on_hover
  on_hover-IsOffering n i (inl m) = elim (Bool-cases (ltb n (length i.slash_matches))) [
    | inl e ↦ rw e (inl m)
    | inr e ↦ rw e (inl m)
  ]
  on_hover-IsOffering n i (inr (m, lt)) = elim (Bool-cases (ltb n (length i.slash_matches))) [
    | inl e ↦ rw e (inr (m, ltb→lt n (length i.slash_matches) e))
    | inr e ↦ rw e (inr (m, lt))
  ]

  on_event-IsRight :
      (e : InputEvent) (i : Input) → IsOffering i → IsRight (on_event lower setting e i)
  unfolding on_event on_key_down
  on_event-IsRight (typed val) i h = (inl refl, on_input-IsOffering val i)
  on_event-IsRight (pressed e) i h = on_key-IsRight e i i.slash_matches refl h
  on_event-IsRight (clicked name) i h = select_slash_command-IsRight name i h
  on_event-IsRight (hovered n) i h = (inl refl, on_hover-IsOffering n i h)
  on_event-IsRight clicked_send i h = submit-IsRight i h

  on_events-IsOffering :
      (es : List InputEvent) (i : Input)
      → IsOffering i
      → IsOffering (on_events lower setting es i).input
  unfolding on_events
  on_events-IsOffering [] i h = h
  on_events-IsOffering (e ∷ es) i h =
      on_events-IsOffering es (on_event lower setting e i).input (on_event-IsRight e i h).1

  -- After any typing, keys, clicks on commands or on the Send button and pointer moves over the
  -- popover from the empty field, the popover is closed, or it offers exactly the commands
  -- that complete the text and its active entry is one of them; and any one further such event calls
  -- nothing, or calls one handler once and empties the field.
  pub on_events-CallsOnce :
      (es : List InputEvent) (e : InputEvent)
      → let i = (on_events lower setting es cleared).input in
        IsOffering i × CallsOnce (on_event lower setting e i)
  on_events-CallsOnce es e =
      let h = on_events-IsOffering es cleared (inl refl) in
      (h, (on_event-IsRight e (on_events lower setting es cleared).input h).0)
