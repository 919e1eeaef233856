-- ===== src/Profile/Tests.antt =====
-- A run of renames on the sample database.
use travel_web_api.Db.Monad.{Db, ok}
use travel_web_api.Db.Users.{AppUser}
use travel_web_api.Prelude.{string_eq, nat_eq, ◌==◌, find, ◌≡◌, refl, some, [], ◌∷◌, arith}
use travel_web_api.Profile.Names.{
  NormalizedDisplayName, quarantine_former_name, DisplayNameMutation, rename_active, rename_body,
  rename_display_name,
}
use travel_web_api.Profile.Quarantine.{rename_display_name_quarantine}
use travel_web_api.Samples.{sample_py, guest, sample_db, sample_settings}

abbrev host : AppUser
host = record guest {
  id = 2;
  public_id = "usr_2";
  display_name = "Host";
  display_name_normalized = "host";
}

abbrev two_users : Db
two_users = record sample_db { users = guest ∷ host ∷ [] }

abbrev traveller : NormalizedDisplayName
traveller = record { presentation = "Traveller"; uniqueness_key = "traveller" }

abbrev as_guest : NormalizedDisplayName
as_guest = record { presentation = "GUEST"; uniqueness_key = "guest" }

abbrev traveller_mutation : DisplayNameMutation
traveller_mutation = record {
  public_user_id = "usr_1";
  display_name = "Traveller";
  changed_at = some 100;
}

renamed_ok :
    (rename_display_name sample_py sample_settings 1 traveller 100 two_users).0
    ≡ ok traveller_mutation
unfolding rename_display_name rename_body rename_active quarantine_former_name
renamed_ok = refl

host_found :
    find
      (λ x. x.id == 2)
      (rename_display_name sample_py sample_settings 1 traveller 100 two_users).1.users
    ≡ some host
unfolding rename_display_name rename_body rename_active quarantine_former_name
host_found = refl

rename_display_name_quarantine_example :
    let db' = (rename_display_name sample_py sample_settings 1 traveller 100 two_users).1 in
    (rename_display_name sample_py sample_settings 2 as_guest 5_000 db').1 ≡ db'
rename_display_name_quarantine_example =
    rename_display_name_quarantine sample_py sample_settings 1 2 traveller as_guest 100 5_000
      two_users guest host traveller_mutation refl refl refl renamed_ok (omega arith) refl
      host_found refl
