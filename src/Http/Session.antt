-- ===== src/Http/Session.antt =====
-- A login over HTTP, and the requests after it.
use sobkichu.Prelude.{
  ℕ, ◌+◌, ◌/◌, ◌<◌, ◌≤◌, ◌≡◌, refl, ap, ◌∙◌, sym, true, false, Bool, not, Option, none, some, ◌++◌,
  ℤ, ok, throw_if, bad_request, Text,
}
use sobkichu.Database.{UserRow}
use sobkichu.Session.Token.{session_ttl_seconds}
use sobkichu.Session.Guard.{AuthenticatedCaller, bearer, can_activate}
use sobkichu.Session.Issued.{IsDocumented}
use sobkichu.Identity.Numbers.{normalise_bd_phone}
use sobkichu.Identity.Otp.{generate_code}
use sobkichu.Identity.Users.{find_phone}
use sobkichu.Login.World.{World, continue, bind-eq-ok, bind-ok}
use sobkichu.Login.Store.{otp_key}
use sobkichu.Login.Service.{
  sent, authenticated, RequestOtpResult, VerifyOtpResult, request_otp, verify_otp,
}
use sobkichu.Login.Laws.{IsCache, IsChallengeJson}
use sobkichu.Login.Exchange.{Configured, may_try}
use sobkichu.Login.Admitted.{login_admits}
use sobkichu.Http.Requests.{
  RequestOtpDto, VerifyOtpDto, Request, post_otp_request, post_otp_verify, otp_requested,
  otp_verified,
}
use sobkichu.Http.Validation.{valid_verify_otp, valid_body, validate}
use sobkichu.Http.Server.{
  Deployment, is_public, call_route, pipe_route, serve, request_otp_route, verify_otp_route,
}

module _ {State : Type 0} (d : Deployment State) (now random : ℕ) (header : Option Text) where
  public_served :
      (request : Request) (w : World State)
      → is_public request ≡ true
      → serve d now random header request w ≡ pipe_route d now random none request w
  unfolding serve can_activate
  public_served request w opens =
      ap
        (λ b.
          continue (λ caller. pipe_route d now random caller request)
            (can_activate d.login.node d.login.json d.login.session_setting b header none now, w))
        opens

  private_served :
      (caller : AuthenticatedCaller) (request : Request) (w : World State)
      → is_public request ≡ false
      → can_activate d.login.node d.login.json d.login.session_setting false header none now
        ≡ ok (some caller)
      → serve d now random header request w ≡ pipe_route d now random (some caller) request w
  unfolding serve
  private_served caller request w closed passed =
      ap (λ g. continue (λ c. pipe_route d now random c request) (g, w))
        (ap (λ b. can_activate d.login.node d.login.json d.login.session_setting b header none now)
            closed
          ∙ passed)

  valid_piped :
      (caller : Option AuthenticatedCaller) (request : Request) (w : World State)
      → valid_body d.validators request ≡ true
      → pipe_route d now random caller request w ≡ call_route d now random caller request w
  unfolding pipe_route validate
  valid_piped caller request w valid =
      ap
        (λ b.
          continue (λ _. call_route d now random caller request)
            (throw_if (not b) (bad_request "Bad Request"), w))
        valid

  requested :
      (dto : RequestOtpDto) (w out : World State) (r : RequestOtpResult)
      → serve d now random header (post_otp_request dto) w ≡ (ok (otp_requested r), out)
      → request_otp d.login dto.phone now random w ≡ (ok r, out)
  unfolding is_public pipe_route validate call_route request_otp_route
  requested dto w out r h =
      split (valid_body d.validators (post_otp_request dto))
        (sym (public_served (post_otp_request dto) w refl) ∙ h)
    where
      split :
          (valid : Bool)
          → continue
              (λ _. call_route d now random none (post_otp_request dto))
              (throw_if (not valid) (bad_request "Bad Request"), w)
            ≡ (ok (otp_requested r), out)
          → request_otp d.login dto.phone now random w ≡ (ok r, out)
      split true e =
          let (answer, mid, ran, last) =
            bind-eq-ok (request_otp d.login dto.phone now random) _ w e in
          let same : answer ≡ r = cc in
          let left : mid ≡ out = ap (λ p. p.1) last in
          ran ∙ ap (λ a. (ok a, mid)) same ∙ ap (λ o. (ok r, o)) left
      split false e = absurd (cc)

verified :
    {State : Type 0} (d : Deployment State) (now random : ℕ) (header : Option Text)
    (dto : VerifyOtpDto) (w out : World State) (r : VerifyOtpResult)
    → valid_verify_otp d.validators dto ≡ true
    → verify_otp d.login dto.phone dto.code now w ≡ (ok r, out)
    → serve d now random header (post_otp_verify dto) w ≡ (ok (otp_verified r), out)
unfolding is_public valid_body call_route verify_otp_route
verified d now random header dto w out r valid ran =
    public_served d now random header (post_otp_verify dto) w refl
    ∙ valid_piped d now random header none (post_otp_verify dto) w valid
    ∙ bind-ok (verify_otp d.login dto.phone dto.code now) _ ran

-- While Redis is up and Buffer, node:crypto and JSON do what they document: after a request over HTTP
-- that answers that a code is sent, a valid request with the code within five minutes, under any
-- spelling of the number, is answered with a token, if the challenge and the user are as the first
-- request left them, the limiter lets the attempt pass, the session secret is configured, the
-- database commits a read, the clock is in the range of dates and the code was drawn below a
-- million. For thirty days a request on a route that is not public, with that token in its header,
-- then reaches its controller's method as that user's, with no role.
pub login_opens_routes :
    {State : Type 0} (d : Deployment State) (value : Text → State → Option Text)
    (is_cache : IsCache d.login.limiter d.login.cache value)
    (is_json : IsChallengeJson d.login.challenges)
    (documented : IsDocumented d.login.node d.login.json) (phone raw again key : Text)
    (now waited later random : ℕ) (reset : ℤ) (header : Option Text) (request : Request)
    (w out mid next : World State)
    → normalise_bd_phone raw ≡ some phone
    → normalise_bd_phone again ≡ some phone
    → serve d now random header (post_otp_request (record { phone = raw })) w
      ≡ (ok (otp_requested (sent reset)), out)
    → now ≤ 8000000000000000
    → waited ≤ 300000
    → random < 1000000
    → value (otp_key phone) mid.cache ≡ value (otp_key phone) out.cache
    → find_phone phone mid.db.users ≡ find_phone phone out.db.users
    → d.login.engine.commits mid.db ≡ none
    → may_try d.login phone mid ≡ true
    → Configured d.login.session_setting key
    → valid_verify_otp d.validators (record { phone = again; code = generate_code random }) ≡ true
    → later / 1000 < (now + waited) / 1000 + session_ttl_seconds
    → is_public request ≡ false
    → (user : UserRow) × (token : Text) × (after : World State) × (find_phone phone out.db.users
        ≡ some user)
      × (serve d
            (now + waited)
            random
            header
            (post_otp_verify (record { phone = again; code = generate_code random }))
            mid
          ≡ (ok (otp_verified (authenticated token user.id)), after))
      × (serve d later random (some (bearer ++ token)) request next
          ≡ pipe_route d later random
              (some (record { user_id = user.id; active_role_id = none }))
              request
              next)
login_opens_routes d value is_cache is_json documented phone raw again key now waited later random
      reset header request w out mid next given given' asked valid soon drawn kept known commits
      allowed configured well_formed alive closed =
    let sent_code =
      requested d now random header (record { phone = raw }) w out (sent reset) asked in
    let (user, token, after, is_user, ran, _, _, admits) =
      login_admits d.login value is_cache is_json phone documented raw again key now waited later
        random reset w out mid none given given' sent_code valid soon drawn kept known commits
        allowed configured alive in
    (
      user,
      token,
      after,
      is_user,
      verified d (now + waited) random header
          (record { phone = again; code = generate_code random }) mid after _ well_formed ran,
      private_served d later random (some (bearer ++ token))
          (record { user_id = user.id; active_role_id = none }) request next closed admits,
    )
