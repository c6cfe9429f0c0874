-- ===== src/Settings/Tests.antt =====
-- Runs of the form for a provider.
use open_pm.Common.{none, [], ◌∷◌, ◌≡◌, refl, true, false, units, is_empty, All, ◌otherwise◌}
use open_pm.Settings.{
  ProviderConfig, openai_compat, llm, Page, FormState, empty_form, open_edit, build_update_body,
  is_masked_secret, is_save_disabled,
}
use open_pm.Settings.Form.{named, edit, open_edit-safe, edit-disabled}

abbrev provider : ProviderConfig
provider = record {
  id = "v1";
  name = "Lokal";
  provider_type = openai_compat;
  purpose = llm;
  credentials = ("base_url", units "http://••••") ∷ [];
  model_assignments = ("chat", "m1") ∷ [];
  is_active = true;
  created_at = "t1";
  updated_at = "t2";
  health = none;
  health_detail = none;
}

abbrev opened_page : Page
opened_page = record {
  providers = provider ∷ [];
  show_form = false;
  editing = none;
  form = empty_form llm;
  saving = false;
}

abbrev typed : FormState
typed = record {
  name = "Lokal";
  purpose = llm;
  provider_type = openai_compat;
  credentials = ("api_key", units "neu") ∷ ("base_url", units "http://••••") ∷ [];
  model_assignments = [];
}

open_edit-safe_example :
    (is_save_disabled (open_edit provider opened_page) ≡ true)
    × All
        (λ c. (is_empty c.1 ≡ false) × (is_masked_secret c.1 ≡ false))
        ((build_update_body typed provider).credentials otherwise [])
open_edit-safe_example = open_edit-safe provider opened_page typed

edit-disabled_example :
    is_save_disabled (edit (named "Neu" ∷ []) (open_edit provider opened_page)) ≡ true
edit-disabled_example = edit-disabled provider opened_page (named "Neu" ∷ []) refl
