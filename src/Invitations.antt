-- ===== src/Invitations.antt =====
-- invitations/service.py: the normal form of a code, the lookup by its hash and when it is usable.
use travel_web_api.Db.Grants.{Invitation}
use travel_web_api.Db.Inserts.{insert_invitation}
use travel_web_api.Db.Monad.{Db, Tx, pure, ◌>>◌}
use travel_web_api.Db.Users.{Uuid, Time}
use travel_web_api.Prelude.{
  ltb, if◌then◌else◌, string_eq, nat_eq, ◌==◌, is_none, find, String, Bool, true, ◌&&◌, Option,
  none, some, starts_with,
}
use travel_web_api.Python.{Python}
use travel_web_api.Security.{Settings, hash_secret}

abbrev pub normalize_invitation_code : Python → String → String
normalize_invitation_code py raw =
    let trimmed = py.strip raw in
    if starts_with (py.casefold trimmed) "yt-" then py.upper trimmed else trimmed

-- `expires_at is None or expires_at > now`
abbrev pub expires_after : Option Time → Time → Bool
expires_after none now = true
expires_after (some at) now = ltb now at

unfoldable pub invitation_is_usable : Invitation → Time → Bool
invitation_is_usable i now =
    is_none i.disabled_at && is_none i.redeemed_at && expires_after i.expires_at now

abbrev pub find_invitation : Python → Settings → String → Db → Option Invitation
find_invitation py settings raw db =
    let secret_hash =
      hash_secret py (normalize_invitation_code py raw) "invitation" settings.secret_hash_pepper in
    find (λ i. i.secret_hash == secret_hash) db.invitations

-- The arguments of create_invitation, with what it draws: an id, a time and the opaque code.
pub record InvitationCall : Type 0 where
  pub id : Uuid
  pub raw_secret : String
  pub source_label : String
  pub expires_at : Option Time
  pub now : Time

abbrev pub new_invitation : Python → Settings → InvitationCall → Invitation
new_invitation py settings c = record {
  id = c.id;
  public_id = none;
  batch_id = none;
  sequence_number = none;
  secret_hash = hash_secret py c.raw_secret "invitation" settings.secret_hash_pepper;
  encrypted_secret = none;
  source_label = c.source_label;
  expires_at = c.expires_at;
  disabled_at = none;
  redeemed_at = none;
  created_at = c.now;
  updated_at = c.now;
}

unfoldable pub create_invitation : Python → Settings → InvitationCall → Tx (Invitation × String)
create_invitation py settings c = do
  insert_invitation (new_invitation py settings c)
  pure (new_invitation py settings c, c.raw_secret)
