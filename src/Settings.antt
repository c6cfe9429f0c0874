-- ===== src/Settings.antt =====
-- The form for the providers of models, frontend/src/app/settings/page.tsx, with the types of
-- frontend/src/lib/providers.ts.
pub mod Form
mod Tests
use open_pm.Common.{
  Text, String, Option, none, some, List, [], ◌∷◌, Bool, true, false, not, ◌&&◌, ◌||◌, str_eq,
  is_empty, includes, if◌then◌else◌, ◌otherwise◌, Dict, lookup, insert, keep,
}

pub data ProviderType : Type 0 where
  openrouter azure_openai openai_compat kreuzberg : ProviderType

pub data Purpose : Type 0 where
  llm embedding : Purpose

pub record ProviderConfig : Type 0 where
  pub id : String
  pub name : String
  pub provider_type : ProviderType
  pub purpose : Purpose
  -- As the backend masks them.
  pub credentials : Dict Text
  pub model_assignments : Dict String
  pub is_active : Bool
  pub created_at : String
  pub updated_at : String
  pub health : Option String
  pub health_detail : Option String

pub record CreateProviderBody : Type 0 where
  pub name : String
  pub provider_type : ProviderType
  pub purpose : Purpose
  pub credentials : Dict Text
  pub model_assignments : Dict String

pub record UpdateProviderBody : Type 0 where
  pub name : Option String
  pub credentials : Option (Dict Text)
  pub model_assignments : Dict String

-- "•". The regular expression of the code matches only texts with this character.
abbrev pub bullet : Text → Bool
bullet value = includes 8226 value

unfoldable pub is_masked_secret : Text → Bool
is_masked_secret value = bullet value

pub record FormState : Type 0 where
  pub name : String
  pub purpose : Purpose
  pub provider_type : ProviderType
  pub credentials : Dict Text
  pub model_assignments : Dict String

abbrev pub default_provider_type : Purpose → ProviderType
default_provider_type llm = openrouter
default_provider_type embedding = openai_compat

unfoldable pub empty_form : Purpose → FormState
empty_form purpose = record {
  name = "";
  purpose = purpose;
  provider_type = default_provider_type purpose;
  credentials = [];
  model_assignments = [];
}

pub record Page : Type 0 where
  pub providers : List ProviderConfig
  pub show_form : Bool
  pub editing : Option ProviderConfig
  pub form : FormState
  pub saving : Bool

unfoldable pub open_create : Purpose → Page → Page
open_create purpose s = record s { editing = none; form = empty_form purpose; show_form = true }

unfoldable pub open_edit : ProviderConfig → Page → Page
open_edit p s = record s {
  editing = some p;
  form = record {
    name = p.name;
    purpose = p.purpose;
    provider_type = p.provider_type;
    credentials = [];
    model_assignments = p.model_assignments;
  };
  show_form = true;
}

unfoldable pub set_cred : String → Text → Page → Page
set_cred key value s =
    let f = s.form in record s { form = record f { credentials = insert key value f.credentials } }

unfoldable pub set_name : String → Page → Page
set_name name s = let f = s.form in record s { form = record f { name = name } }

unfoldable pub set_assignment : String → String → Page → Page
set_assignment role model s =
    let f = s.form in
    record s { form = record f { model_assignments = insert role model f.model_assignments } }

unfoldable pub build_create_body : FormState → CreateProviderBody
build_create_body f = record {
  name = f.name;
  provider_type = f.provider_type;
  purpose = f.purpose;
  credentials = f.credentials;
  model_assignments = f.model_assignments;
}

-- `v.length > 0 && !isMaskedSecret(v)`.
abbrev pub is_typed : String × Text → Bool
is_typed (key, value) = not (is_empty value) && not (is_masked_secret value)

abbrev pub some_credentials : Dict Text → Option (Dict Text)
some_credentials [] = none
some_credentials (c ∷ cs) = some (c ∷ cs)

unfoldable pub build_update_body : FormState → ProviderConfig → UpdateProviderBody
build_update_body f original = record {
  name = if not (str_eq f.name original.name) then some f.name else none;
  credentials = some_credentials (keep is_typed f.credentials);
  model_assignments = f.model_assignments;
}

-- `!!form.credentials[key]`.
abbrev pub has_credential : String → FormState → Bool
has_credential key f = elim (lookup key f.credentials) [ none ↦ false | some v ↦ not (is_empty v) ]

abbrev pub has_fields : ProviderType → Bool → FormState → Bool
has_fields openrouter is_edit f = is_edit || has_credential "api_key" f
has_fields openai_compat is_edit f =
    (is_edit || has_credential "api_key" f) && has_credential "base_url" f
has_fields azure_openai is_edit f =
    (is_edit || has_credential "api_key" f)
    && has_credential "endpoint" f
    && has_credential "api_version" f
has_fields kreuzberg is_edit f = true

abbrev pub is_editing : Option ProviderConfig → Bool
is_editing none = false
is_editing (some p) = true

unfoldable pub is_form_valid : Page → Bool
is_form_valid s =
    let f = s.form in not (str_eq f.name "") && has_fields f.provider_type (is_editing s.editing) f

-- Whether a key has another value in the second map, where a missing one counts as empty.
abbrev pub differs : Dict String → Dict String → String → Bool
differs a b key = not (str_eq (lookup key a otherwise "") (lookup key b otherwise ""))

-- Whether one of the keys of `keys` has.
unfoldable pub any_differs : Dict String → Dict String → Dict String → Bool
any_differs a b [] = false
any_differs a b ((key, value) ∷ keys) = differs a b key || any_differs a b keys

unfoldable pub any_typed : Dict Text → Bool
any_typed [] = false
any_typed (c ∷ cs) = is_typed c || any_typed cs

abbrev pub is_dirty : FormState → Option ProviderConfig → Bool
is_dirty f none = not (str_eq f.name "")
is_dirty f (some p) =
    not (str_eq f.name p.name)
    || any_differs p.model_assignments f.model_assignments p.model_assignments
    || any_differs p.model_assignments f.model_assignments f.model_assignments
    || any_typed f.credentials

unfoldable pub is_save_disabled : Page → Bool
is_save_disabled s = s.saving || not (is_dirty s.form s.editing) || not (is_form_valid s)

-- The answer to an update, and to a creation, in the list.
unfoldable pub replace_provider : ProviderConfig → List ProviderConfig → List ProviderConfig
replace_provider updated [] = []
replace_provider updated (p ∷ ps) =
    let rest = replace_provider updated ps in
    if str_eq p.id updated.id then updated ∷ rest else p ∷ rest

abbrev pub same_purpose : Purpose → Purpose → Bool
same_purpose llm llm = true
same_purpose embedding embedding = true
same_purpose p q = false

-- The list after provider `p` was activated, which the server answers with its `id`.
unfoldable pub activate : Purpose → String → List ProviderConfig → List ProviderConfig
activate purpose id [] = []
activate purpose id (p ∷ ps) =
    let rest = activate purpose id ps in
    if same_purpose p.purpose purpose
    then record p { is_active = str_eq p.id id } ∷ rest
    else p ∷ rest
