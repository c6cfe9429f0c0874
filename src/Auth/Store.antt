-- ===== src/Auth/Store.antt =====
-- The store of frontend/src/store/authStore.ts. A field that is `null` or absent is `none`.
use open_pm.Common.{String, Option, none, some, Bool, false}

pub record User : Type 0 where
  pub id : String
  pub email : String
  pub name : Option String
  pub created_at : String

pub record AuthState : Type 0 where
  pub user : Option User
  pub token : Option String
  pub refresh_token : Option String
  pub has_hydrated : Bool

unfoldable pub signed_out : AuthState
signed_out = record { user = none; token = none; refresh_token = none; has_hydrated = false }

unfoldable pub set_auth : User → String → Option String → AuthState → AuthState
set_auth user token refresh_token s = record s {
  user = some user;
  token = some token;
  refresh_token = refresh_token;
}

unfoldable pub clear_auth : AuthState → AuthState
clear_auth s = record s { user = none; token = none; refresh_token = none }

unfoldable pub set_has_hydrated : Bool → AuthState → AuthState
set_has_hydrated value s = record s { has_hydrated = value }
