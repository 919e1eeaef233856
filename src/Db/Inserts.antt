-- ===== src/Db/Inserts.antt =====
-- Inserts into the tables of users, codes, sessions and invitations, with the unique columns of
-- db/models.py that can refuse them.
use travel_web_api.Db.Grants.{Invitation, InvitationRedemption, QuotaGrant}
use travel_web_api.Db.Monad.{integrity_error, ok, err, Tx}
use travel_web_api.Db.Users.{AppUser, UserIdentity, EmailOtpChallenge, UserSession}
use travel_web_api.Prelude.{if◌then◌else◌, string_eq, nat_eq, ◌==◌, ◌=??◌, any, ◌&&◌, ◌||◌, ◌∷◌}

unfoldable pub insert_user : AppUser → Tx Unit
insert_user u db =
    if any (λ x. x.id == u.id || x.public_id == u.public_id) db.users
    then err (integrity_error "app_user")
    else if any (λ x. x.display_name_normalized == u.display_name_normalized) db.users
    then err (integrity_error "uq_app_user_display_name_normalized")
    else ok (tt, record db { users = u ∷ db.users })

unfoldable pub insert_identity : UserIdentity → Tx Unit
insert_identity i db =
    if any
      (λ x. x.id == i.id || x.provider == i.provider && x.provider_subject == i.provider_subject)
      db.identities
    then err (integrity_error "uq_identity_provider_subject")
    else ok (tt, record db { identities = i ∷ db.identities })

unfoldable pub insert_challenge : EmailOtpChallenge → Tx Unit
insert_challenge c db =
    if any (λ x. x.id == c.id || x.public_id == c.public_id) db.challenges
    then err (integrity_error "email_otp_challenge")
    else ok (tt, record db { challenges = c ∷ db.challenges })

unfoldable pub insert_session : UserSession → Tx Unit
insert_session s db =
    if any (λ x. x.id == s.id || x.token_hash == s.token_hash) db.sessions
    then err (integrity_error "user_session")
    else ok (tt, record db { sessions = s ∷ db.sessions })

unfoldable pub insert_redemption : InvitationRedemption → Tx Unit
insert_redemption r db =
    if any (λ x. x.id == r.id || x.invitation_id == r.invitation_id || x.user_id == r.user_id)
      db.redemptions
    then err (integrity_error "invitation_redemption")
    else ok (tt, record db { redemptions = r ∷ db.redemptions })

unfoldable pub insert_grant : QuotaGrant → Tx Unit
insert_grant g db =
    if g.units == 0
    then err (integrity_error "ck_quota_grant_positive_units")
    else if any
        (λ x. x.id == g.id || x.user_id == g.user_id && x.idempotency_key == g.idempotency_key)
        db.grants
    then err (integrity_error "uq_quota_grant_user_idempotency")
    else ok (tt, record db { grants = g ∷ db.grants })

unfoldable pub insert_invitation : Invitation → Tx Unit
insert_invitation i db =
    if any (λ x. x.id == i.id || x.public_id =?? i.public_id || x.secret_hash == i.secret_hash)
      db.invitations
    then err (integrity_error "invitation")
    else ok (tt, record db { invitations = i ∷ db.invitations })
