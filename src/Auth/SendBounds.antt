-- ===== src/Auth/SendBounds.antt =====
-- The limits on one-time codes hold after a code was sent.
use travel_web_api.Auth.Codes.{
  over_limits, enforce_send_limits, SendCall, new_challenge, invitation_for, auth_code_body,
  after_mail, then_mail, send_auth_code,
}
use travel_web_api.Db.Inserts.{insert_challenge}
use travel_web_api.Db.Monad.{Db, Result, ok, err, transaction, >>=-eq-ok, transaction-eq-ok}
use travel_web_api.Db.Statuses.{Purpose, email_auth, Delivery, is_pending_delivery}
use travel_web_api.Db.Users.{Uuid, Time, Digest, EmailOtpChallenge}
use travel_web_api.Prelude.{
  leb, if◌then◌else◌, string_eq, nat_eq, ◌==◌, Bool-cases, count_where, ℕ, ◌+◌, ◌≤◌, String, ◌≡◌,
  refl, ap, ◌∙◌, inl, inr, Bool, true, false, ◌&&◌, ◌||◌, Option, none, ◌∷◌, arith,
}
use travel_web_api.Python.{Python, seconds}
use travel_web_api.Rows.{self_same, total-update_same}
use travel_web_api.Security.{Settings, hash}

-- A transaction that passes the limits leaves room for one more challenge in every window.
enforce_send_limits-eq-ok :
    (settings : Settings) (email : String) (ip_hash : Digest) (purpose : Purpose) (now : Time)
    (db : Db) {u : Unit {0}} {db' : Db}
    → enforce_send_limits settings email ip_hash purpose now db ≡ ok (u, db')
    → (db' ≡ db) × (over_limits settings email ip_hash now db.challenges ≡ false)
unfolding enforce_send_limits
enforce_send_limits-eq-ok settings email ip_hash purpose now db e = ground arith

invitation_for-eq-ok :
    (py : Python) (settings : Settings) (c : SendCall) (db : Db) {i : Option Uuid} {db' : Db}
    → invitation_for py settings c db ≡ ok (i, db')
    → db' ≡ db
unfolding invitation_for
invitation_for-eq-ok py settings c db e = ground arith

insert_challenge-eq-ok :
    (c : EmailOtpChallenge) (db : Db) {u : Unit {0}} {db' : Db}
    → insert_challenge c db ≡ ok (u, db')
    → db'.challenges ≡ c ∷ db.challenges
unfolding insert_challenge
insert_challenge-eq-ok c db e = ground arith

-- The number of challenges in a window does not depend on their delivery.
after_mail-count :
    (c : SendCall) (p : EmailOtpChallenge → Bool) (db : Db)
    → ((x : EmailOtpChallenge) (d : Delivery) → p (record x { delivery_status = d }) ≡ p x)
    → count_where p (after_mail c db).1.challenges ≡ count_where p db.challenges
unfolding after_mail
after_mail-count c p db same =
    let weight = λ (x : EmailOtpChallenge). if p x then 1 else 0 in
    let kept = λ (q : EmailOtpChallenge → Bool) (d : Delivery).
      total-update_same weight q (λ x. record x { delivery_status = d }) db.challenges
        (λ x. ap (λ b. if b then 1 else 0) (same x d)) in
    elim (Bool-cases c.delivered) [
      | inl went ↦ rw went (
          kept (λ x. x.public_id == c.public_id && is_pending_delivery x.delivery_status)
            Delivery.sent)
      | inr lost ↦ rw lost (kept (λ x. x.public_id == c.public_id) Delivery.failed)
    ]

-- What a request that passed has inserted.
auth_code_body-eq-ok :
    (py : Python) (settings : Settings) (c : SendCall) (db : Db) {u : Unit {0}} {db' : Db}
    → auth_code_body py settings c db ≡ ok (u, db')
    → (i : Option Uuid) × (over_limits settings c.email
          (hash py settings c.client_ip "client-ip")
          c.now
          db.challenges
        ≡ false)
      × (db'.challenges ≡ new_challenge py settings c c.mode email_auth i none ∷ db.challenges)
unfolding auth_code_body
auth_code_body-eq-ok py settings c db e =
    let ip_hash = hash py settings c.client_ip "client-ip" in
    let (_, db1, e1, k1) =
      >>=-eq-ok (enforce_send_limits settings c.email ip_hash email_auth c.now) _ db e in
    let (same1, room) = enforce_send_limits-eq-ok settings c.email ip_hash email_auth c.now db e1 in
    let (i, db2, e2, k2) = >>=-eq-ok (invitation_for py settings c) _ db1 k1 in
    let same2 = invitation_for-eq-ok py settings c db1 e2 in
    (
      i,
      room,
      insert_challenge-eq-ok _ db2 k2
          ∙ ap (λ (d : Db). new_challenge py settings c c.mode email_auth i none ∷ d.challenges)
              (same2 ∙ same1),
    )

then_mail_ok :
    (c : SendCall) (r : Result (Unit {0}) × Db) {u : Unit {0}}
    → r.0 ≡ ok u
    → then_mail c r ≡ after_mail c r.1
then_mail_ok c (ok u, db) e = refl
then_mail_ok c (err x, db) e = cc e

none_over :
    (a b c l m n : ℕ)
    → (leb l a || leb m b || leb n c) ≡ false
    → (a + 1 ≤ l) × (b + 1 ≤ m) × (c + 1 ≤ n)
none_over a b c l m n h = ground arith

one_more : (b : Bool) (n limit : ℕ) → n + 1 ≤ limit → (if b then 1 else 0) + n ≤ limit
one_more b n limit h = ground arith

at_least_one : (b : Bool) (n : ℕ) → b ≡ true → 1 ≤ (if b then 1 else 0) + n
at_least_one b n h = ground (arith, h)

-- Sent in the window that ends at this time.
abbrev pub is_in_last_seconds : ℕ → Time → EmailOtpChallenge → Bool
is_in_last_seconds n now x = leb now (x.sent_at + seconds n)

-- The challenge that a request inserts: its own address, the hash of its client's address, its time.
abbrev pub is_challenge_of : Python → Settings → SendCall → EmailOtpChallenge → Bool
is_challenge_of py settings c x =
    x.public_id == c.public_id
    && x.email == c.email
    && x.client_ip_hash == hash py settings c.client_ip "client-ip"
    && x.sent_at == c.now

is_challenge_of-new :
    (py : Python) (settings : Settings) (c : SendCall) (i : Option Uuid)
    → is_challenge_of py settings c (new_challenge py settings c c.mode email_auth i none) ≡ true
is_challenge_of-new py settings c i = rw (self_same c.public_id, self_same c.email) (ground arith)

-- A call of send_auth_code whose request was taken, whether its mail was then delivered or not, has
-- stored a challenge with the request's address, the hash of the client's address and the time of
-- the request. With it, the challenges that were sent at most otp_rate_window_seconds before are at
-- most as many as the settings allow: for the address, for the client's address and in all. No other
-- request is between its count and its insertion.
pub send_auth_code-bounded :
    (py : Python) (settings : Settings) (c : SendCall) (db : Db)
    → (transaction (auth_code_body py settings c) db).0 ≡ ok tt
    → let after = (send_auth_code py settings c db).1.challenges in
      let recent = is_in_last_seconds settings.otp_rate_window_seconds c.now in
      let ip_hash = hash py settings c.client_ip "client-ip" in
      (1 ≤ count_where (is_challenge_of py settings c) after)
      × (count_where (λ x. x.email == c.email && recent x) after ≤ settings.otp_per_email_limit)
      × (count_where (λ x. x.client_ip_hash == ip_hash && recent x) after
          ≤ settings.otp_per_ip_limit)
      × (count_where recent after ≤ settings.otp_global_limit)
unfolding send_auth_code
send_auth_code-bounded py settings c db e =
    let body = auth_code_body py settings c in
    let (i, room, made) = auth_code_body-eq-ok py settings c db (transaction-eq-ok body db e) in
    let kept =
      λ (p : EmailOtpChallenge → Bool)
          (same : (x : EmailOtpChallenge) (d : Delivery)
            → p (record x { delivery_status = d }) ≡ p x).
        after_mail-count c p (transaction body db).1 same ∙ ap (count_where p) made in
    let recent = is_in_last_seconds settings.otp_rate_window_seconds c.now in
    let ip_hash = hash py settings c.client_ip "client-ip" in
    let (by_email, by_ip, in_all) = none_over _ _ _ _ _ _ room in
    rw (then_mail_ok c (transaction body db) e) (
      rw (kept (is_challenge_of py settings c) (λ x d. refl))
          (at_least_one _ _ (is_challenge_of-new py settings c i)),
      rw (kept (λ x. x.email == c.email && recent x) (λ x d. refl)) (one_more _ _ _ by_email),
      rw (kept (λ x. x.client_ip_hash == ip_hash && recent x) (λ x d. refl)) (one_more _ _ _ by_ip),
      rw (kept recent (λ x d. refl)) (one_more _ _ _ in_all),
    )
