-- ===== src/Auth/SingleUse.antt =====
-- A one-time code works once, and is tried no more often than the challenge allows.
use travel_web_api.Auth.Codes.{code_purpose}
use travel_web_api.Auth.Outcomes.{decide-SameRest}
use travel_web_api.Auth.Verify.{
  otp_invalid, otp_used, AuthVerification, refused, VerifyCall, put_challenge, missed, decide,
  verify_challenge, verify_body, verify_auth_code,
}
use travel_web_api.Db.Monad.{Db, ok, settled, transaction, transaction-keeps, transaction-eq-ok}
use travel_web_api.Db.Statuses.{email_auth, is_email_auth, is_sent}
use travel_web_api.Db.Users.{Time, EmailOtpChallenge}
use travel_web_api.Prelude.{
  leb, string_eq, nat_eq, ◌==◌, is_some, Bool-cases, Option-cases, find, All, ℕ, ◌+◌, ◌≤◌, String,
  ◌≡◌, refl, sym, ap, ◌∙◌, subst, inl, inr, true, not, ◌||◌, none, some, List, [], ◌∷◌, arith,
}
use travel_web_api.Python.{Python}
use travel_web_api.Rows.{find_holds, find-All, All-update, Distinct, find-set_row_same}
use travel_web_api.Security.{Settings, secret_matches}

abbrev pub challenge_key : EmailOtpChallenge → ℕ
challenge_key c = c.id

abbrev pub used : Time → EmailOtpChallenge → EmailOtpChallenge
used now ch = record ch { consumed_at = some now }

-- The three ways in which a verification of a challenge returns: refused at once, a wrong code that
-- is counted, and a right code.
data Verdict (py : Python) (settings : Settings) (c : VerifyCall) (ch : EmailOtpChallenge)
    (db db' : Db) (r : AuthVerification) : Type 0 where
  unchanged : db' ≡ db → r.session_token ≡ none → Verdict py settings c ch db db' r
  counted :
      ch.attempt_count + 1 ≤ ch.max_attempts
      → db' ≡ put_challenge (missed ch) db
      → r.session_token ≡ none
      → Verdict py settings c ch db db' r
  accepted :
      is_email_auth ch.purpose ≡ true
      → is_sent ch.delivery_status ≡ true
      → decide py settings c ch (put_challenge (used c.now ch) db) ≡ ok (r, db')
      → Verdict py settings c ch db db' r

verify_challenge-Verdict :
    (py : Python) (settings : Settings) (c : VerifyCall) (ch : EmailOtpChallenge) (db : Db)
    {r : AuthVerification} {db' : Db}
    → verify_challenge py settings c ch db ≡ ok (r, db')
    → Verdict py settings c ch db db' r
unfolding verify_challenge
verify_challenge-Verdict py settings c ch db {r} {db'} e =
    elim (Bool-cases (not (is_email_auth ch.purpose) || not (is_sent ch.delivery_status))) [
      | inl bad ↦ unchanged (ground arith) (ground arith)
      | inr fits ↦
          elim (Bool-cases (
            is_some ch.consumed_at
            || leb ch.expires_at c.now
            || leb ch.max_attempts ch.attempt_count)) [
              | inl over ↦ unchanged (ground arith) (ground arith)
              | inr open_still ↦
                  elim (Bool-cases (
                    secret_matches py c.code ch.code_hash (code_purpose ch.public_id email_auth)
                      settings.secret_hash_pepper)) [
                        | inl right ↦ accepted (ground arith) (ground arith) (ground arith)
                        | inr wrong ↦ counted (ground arith) (ground arith) (ground arith)
                      ]
            ]
    ]

verify_body_found :
    (py : Python) (settings : Settings) (c : VerifyCall) (db : Db) (ch : EmailOtpChallenge)
    → find (λ x. x.public_id == c.challenge_id) db.challenges ≡ some ch
    → verify_body py settings c db ≡ verify_challenge py settings c ch db
unfolding verify_body
verify_body_found py settings c db ch is_found = rw (is_found, verify_body) refl

verify_body_missing :
    (py : Python) (settings : Settings) (c : VerifyCall) (db : Db)
    → find (λ x. x.public_id == c.challenge_id) db.challenges ≡ none
    → verify_body py settings c db ≡ ok (refused otp_invalid, db)
unfolding verify_body
verify_body_missing py settings c db missing = rw (missing, verify_body) refl

verify_challenge-used :
    (py : Python) (settings : Settings) (c : VerifyCall) (now : Time) (ch : EmailOtpChallenge)
    (db : Db)
    → is_email_auth ch.purpose ≡ true
    → is_sent ch.delivery_status ≡ true
    → verify_challenge py settings c (used now ch) db ≡ ok (refused otp_used, db)
unfolding verify_challenge
verify_challenge-used py settings c now ch db auth went = ground arith

-- A verification that gave a session has consumed its challenge.
consumed_challenge :
    (py : Python) (settings : Settings) (c : VerifyCall) (db : Db) {r : AuthVerification} {db' : Db}
    (token : String)
    → Distinct challenge_key db.challenges
    → verify_body py settings c db ≡ ok (r, db')
    → r.session_token ≡ some token
    → (ch : EmailOtpChallenge) × (is_email_auth ch.purpose ≡ true)
      × (is_sent ch.delivery_status ≡ true)
      × (find (λ x. x.public_id == c.challenge_id) db'.challenges ≡ some (used c.now ch))
consumed_challenge py settings c db {r} {db'} token distinct e given =
    elim (Option-cases
      (find (λ (x : EmailOtpChallenge). x.public_id == c.challenge_id) db.challenges)) [
        | inl missing ↦ absurd (cc (e, verify_body_missing py settings c db missing, given))
        | inr (ch, is_found) ↦
            elim (verify_challenge-Verdict py settings c ch db
              (sym (verify_body_found py settings c db ch is_found) ∙ e)) [
                | unchanged same no_token ↦ absurd (cc (no_token, given))
                | counted room same no_token ↦ absurd (cc (no_token, given))
                | accepted auth went decided ↦
                    let asks = λ (x : EmailOtpChallenge). x.public_id == c.challenge_id in
                    let rest =
                      decide-SameRest py settings c ch (put_challenge (used c.now ch) db) decided in
                    let picks : asks (used c.now ch) ≡ true =
                      find_holds asks db.challenges is_found in
                    let moved =
                      find-set_row_same challenge_key asks (used c.now ch) db.challenges distinct
                        is_found picks in
                    (ch, auth, went, ap (find asks) rest.same_challenges ∙ moved)
              ]
      ]

-- After a verification of a challenge that gave a session, every other verification of the same
-- challenge, with the right code or not, is answered OTP_USED and changes nothing.
pub verify_auth_code_once :
    (py : Python) (settings : Settings) (c again : VerifyCall) (db : Db) (r : AuthVerification)
    (token : String)
    → Distinct challenge_key db.challenges
    → (verify_auth_code py settings c db).0 ≡ ok r
    → r.session_token ≡ some token
    → again.challenge_id ≡ c.challenge_id
    → let db' = (verify_auth_code py settings c db).1 in
      verify_auth_code py settings again db' ≡ (ok (refused otp_used), db')
unfolding verify_auth_code
verify_auth_code_once py settings c again db r token distinct e given same_id =
    let db' = (transaction (verify_body py settings c) db).1 in
    let (ch, auth, went, is_used) =
      consumed_challenge py settings c db token distinct
        (transaction-eq-ok (verify_body py settings c) db e) given in
    let is_found : find (λ (x : EmailOtpChallenge). x.public_id == again.challenge_id)
          db'.challenges
        ≡ some (used c.now ch) =
      rw same_id is_used in
    ap (settled db') (
      verify_body_found py settings again db' (used c.now ch) is_found
      ∙ verify_challenge-used py settings again c.now ch db' auth went)

-- No challenge has been tried more often than it allows.
abbrev pub WithinAttempts : Db → Type 0
WithinAttempts db = All (λ c. c.attempt_count ≤ c.max_attempts) db.challenges

put_challenge-WithinAttempts :
    (ch : EmailOtpChallenge) (db : Db)
    → ch.attempt_count ≤ ch.max_attempts
    → WithinAttempts db
    → WithinAttempts (put_challenge ch db)
put_challenge-WithinAttempts ch db room h =
    All-update (λ x. x.attempt_count ≤ x.max_attempts) (λ x. x.id == ch.id) (λ _. ch) db.challenges
      (λ x k p. room) (λ x k p. k) h

verify_body-WithinAttempts :
    (py : Python) (settings : Settings) (c : VerifyCall) (db : Db) {r : AuthVerification} {db' : Db}
    → WithinAttempts db
    → verify_body py settings c db ≡ ok (r, db')
    → WithinAttempts db'
verify_body-WithinAttempts py settings c db {r} {db'} h e =
    let bounded = λ (x : EmailOtpChallenge). x.attempt_count ≤ x.max_attempts in
    elim (Option-cases
      (find (λ (x : EmailOtpChallenge). x.public_id == c.challenge_id) db.challenges)) [
        | inl missing ↦
            let kept = sym (verify_body_missing py settings c db missing) ∙ e in
            let same : db' ≡ db = cc kept in subst WithinAttempts (sym same) h
        | inr (ch, is_found) ↦
            elim (verify_challenge-Verdict py settings c ch db
              (sym (verify_body_found py settings c db ch is_found) ∙ e)) [
                | unchanged same no_token ↦ subst WithinAttempts (sym same) h
                | counted room same no_token ↦
                    subst WithinAttempts (sym same)
                      (put_challenge-WithinAttempts (missed ch) db room h)
                | accepted auth went decided ↦
                    let rest =
                      decide-SameRest py settings c ch (put_challenge (used c.now ch) db) decided in
                    let own =
                      find-All bounded (λ x. x.public_id == c.challenge_id) db.challenges is_found
                        h in
                    subst (All bounded) (sym rest.same_challenges)
                      (put_challenge-WithinAttempts (used c.now ch) db own h)
              ]
      ]

abbrev pub verify_all : Python → Settings → List VerifyCall → Db → Db
verify_all py settings [] db = db
verify_all py settings (c ∷ cs) db = verify_all py settings cs (verify_auth_code py settings c db).1

-- Any sequence of verifications, of any challenges and codes, keeps every challenge within its
-- number of attempts, if it was within before.
pub verify_all-WithinAttempts :
    (py : Python) (settings : Settings) (cs : List VerifyCall) (db : Db)
    → WithinAttempts db
    → WithinAttempts (verify_all py settings cs db)
unfolding verify_auth_code
verify_all-WithinAttempts py settings [] db h = h
verify_all-WithinAttempts py settings (c ∷ cs) db h = verify_all-WithinAttempts py settings cs _ (
    transaction-keeps WithinAttempts (verify_body py settings c) db
      (λ r db' e. verify_body-WithinAttempts py settings c db h e) h)
