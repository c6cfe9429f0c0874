-- ===== src/Settings/Form.antt =====
-- What the form for a provider can save.
use open_pm.Common.{
  Text, String, none, some, List, [], ◌∷◌, ◌≡◌, refl, ap, ◌∙◌, Bool, true, false, not, ◌&&◌, ◌||◌,
  eq_refl, is_empty, ◌otherwise◌, Dict, lookup, keep, All, All-keep, All-map, arith,
}
use open_pm.Settings.{
  ProviderConfig, ProviderType, openai_compat, Page, FormState, open_edit, set_name, set_assignment,
  is_typed, some_credentials, build_update_body, has_credential, is_form_valid, any_differs,
  any_typed, is_dirty, is_save_disabled, is_masked_secret, is_editing, has_fields,
}

pub data Edit : Type 0 where
  named : String → Edit
  assigned : (role model : String) → Edit

-- Edits that leave the credentials empty, as the form asks for when they are to stay.
unfoldable pub edit : List Edit → Page → Page
edit [] s = s
edit (named name ∷ es) s = edit es (set_name name s)
edit (assigned role model ∷ es) s = edit es (set_assignment role model s)

any_differs_refl : (a keys : Dict String) → any_differs a a keys ≡ false
unfolding any_differs
any_differs_refl a [] = refl
any_differs_refl a ((key, value) ∷ keys) =
    rw (eq_refl (lookup key a otherwise "")) (any_differs_refl a keys)

All-some_credentials :
    (P : String × Text → Type 0) (cs : Dict Text)
    → All P cs
    → All P (some_credentials cs otherwise [])
All-some_credentials P [] h = h
All-some_credentials P (c ∷ cs) h = h

or_middle : (a b c : Bool) → b ≡ true → (a || b || c) ≡ true
or_middle true b c h = refl
or_middle false b c h = rw h refl

or_last : (a b c : Bool) → c ≡ true → (a || b || c) ≡ true
or_last true b c h = refl
or_last false true c h = refl
or_last false false c h = h

open_edit-clean :
    (p : ProviderConfig) (s : Page)
    → not (is_dirty (open_edit p s).form (open_edit p s).editing) ≡ true
unfolding open_edit any_typed
open_edit-clean p s =
    rw (eq_refl p.name, any_differs_refl p.model_assignments p.model_assignments) refl

-- Opening a provider in the form leaves nothing to save; and of any form, an update sends only
-- credentials that are not empty and not masked, so that a masked value never comes back.
pub open_edit-safe :
    (p : ProviderConfig) (s : Page) (f : FormState)
    → (is_save_disabled (open_edit p s) ≡ true)
      × All
          (λ c. (is_empty c.1 ≡ false) × (is_masked_secret c.1 ≡ false))
          ((build_update_body f p).credentials otherwise [])
unfolding is_save_disabled build_update_body
open_edit-safe p s f =
    let body = some_credentials (keep is_typed f.credentials) otherwise [] in
    let typed =
      All-some_credentials (λ c. is_typed c ≡ true) (keep is_typed f.credentials)
        (All-keep is_typed f.credentials) in
    let t = open_edit p s in
    (
      or_middle t.saving (not (is_dirty t.form t.editing)) (not (is_form_valid t))
          (open_edit-clean p s),
      All-map (λ c. (is_empty c.1 ≡ false) × (is_masked_secret c.1 ≡ false))
          (λ c h. (ground (arith, h), ground (arith, h))) body typed,
    )

-- The form of a provider whose credentials are empty and that needs an address.
record Blocked (s : Page) : Type 0 where
  credentials : s.form.credentials ≡ []
  needs : s.form.provider_type ≡ openai_compat

edit-Blocked : (es : List Edit) (s : Page) → Blocked s → Blocked (edit es s)
unfolding edit set_name set_assignment
edit-Blocked [] s b = b
edit-Blocked (named name ∷ es) s b =
    edit-Blocked es (set_name name s) (record { credentials = b.credentials; needs = b.needs })
edit-Blocked (assigned role model ∷ es) s b =
    edit-Blocked es (set_assignment role model s)
      (record { credentials = b.credentials; needs = b.needs })

base_url-missing : (f : FormState) → f.credentials ≡ [] → has_credential "base_url" f ≡ false
unfolding lookup
base_url-missing f h =
    ap
      (λ (cs : Dict Text). elim (lookup "base_url" cs) as (λ _. Bool) [
        | none ↦ false
        | some v ↦ not (is_empty v)
      ])
      h

fields-missing :
    (type : ProviderType) (is_edit : Bool) (f : FormState)
    → type ≡ openai_compat
    → f.credentials ≡ []
    → has_fields type is_edit f ≡ false
fields-missing type is_edit f t c =
    let missing = base_url-missing f c in
    ap (λ x. has_fields x is_edit f) t ∙ and_false (is_edit || has_credential "api_key" f) missing
  where
    and_false : (a : Bool) {b : Bool} → b ≡ false → (a && b) ≡ false
    and_false true h = h
    and_false false h = refl

Blocked-invalid : (s : Page) → Blocked s → not (is_form_valid s) ≡ true
unfolding is_form_valid
Blocked-invalid s b =
    let missing =
      fields-missing s.form.provider_type (is_editing s.editing) s.form b.needs b.credentials in
    ground (arith, missing)

-- A provider of the type `openai_compat` cannot be renamed or given other models with its
-- credentials left empty: whatever the names and the models become, the button that saves stays
-- disabled.
pub edit-disabled :
    (p : ProviderConfig) (s : Page) (es : List Edit)
    → p.provider_type ≡ openai_compat
    → is_save_disabled (edit es (open_edit p s)) ≡ true
unfolding is_save_disabled open_edit
edit-disabled p s es h =
    let t = edit es (open_edit p s) in
    or_last t.saving (not (is_dirty t.form t.editing)) (not (is_form_valid t)) (
      Blocked-invalid t
        (edit-Blocked es (open_edit p s) (record { credentials = refl; needs = h })))
