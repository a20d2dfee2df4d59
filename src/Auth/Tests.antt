-- ===== src/Auth/Tests.antt =====
-- Witnesses for authentication: one user who signs in, refreshes and signs out. The parameters are
-- simple functions that tell their arguments apart.
use learning_system.Prelude.{
  ℕ, ◌≤◌, ◌≡◌, refl, Bool, true, false, Option, none, some, [], ◌∷◌, arith, In, here, err, Text,
  text_eq, strip, find_where, update_where, count_where,
}
use learning_system.Auth.{
  UserStatus, SessionStatus, naive_datetime, learner, User, AuthSession, RefreshToken, Store,
  AuthSettings, AccessTokenClaims, Drawn,
}
use learning_system.Auth.Repository.{
  get_active_user, get_refresh_token, get_active_session, get_user_by_normalized_email,
}
use learning_system.Auth.Service.{login, logout, logout_all}
use learning_system.Auth.Refresh.{refresh}
use learning_system.Auth.Cookies.{parse, cookie_value, parse-cookie_value}
use learning_system.Auth.Access.{get_current_principal}
use learning_system.Auth.Steps.Ended.{IsEnded, logout-IsEnded, logout_all-refuses}
use learning_system.Auth.Steps.Lasting.{
  IsDrawn, IsHeld, IsNew, Round, IsInTime, all_return, in_time-all_return,
}
use learning_system.Auth.Steps.{Step, Steps}
use learning_system.Auth.Steps.Once.{returns, exchanged_once}
use learning_system.Auth.Steps.Single.{IsSingle, Steps-IsSingle}

abbrev digest : Text → Text
digest t = 35 ∷ t

abbrev lower : Text → Text
lower t = t

abbrev verify : Text → Text → Bool
verify password hash = text_eq (digest password) hash

abbrev settings : AuthSettings
settings = record {
  access_ttl = 50;
  refresh_idle_ttl = 100;
  refresh_absolute_ttl = 300;
  refresh_rotation_grace = 3;
}

abbrev alice : User
alice = record {
  id = 65 ∷ [];
  email = 97 ∷ [];
  normalized_email = 97 ∷ [];
  display_name = 65 ∷ [];
  status = UserStatus.active;
  password_hash = some (digest (112 ∷ []));
  role = learner;
  token_version = 1;
  password_changed_at = none;
  last_login_at = none;
}

abbrev start : Store
start = record { users = alice ∷ []; profiles = []; sessions = []; tokens = []; keeps_zones = true }

abbrev drawn : ℕ → Drawn
drawn n = record { token_id = n ∷ []; secret = n ∷ n ∷ [] }

abbrev no_agent : Option Text
no_agent = none

-- Alice signs in at 10.
abbrev signed_in : Store
signed_in =
    (login digest lower verify settings start (97 ∷ []) (112 ∷ []) 10 no_agent (83 ∷ []) (drawn 49)
      []).0

abbrev first_cookie : Option Text
first_cookie = some (cookie_value (drawn 49))

-- She refreshes at 20.
abbrev refreshed : Store
refreshed = (refresh digest settings signed_in first_cookie no_agent (drawn 50) [] 20).0

parse-cookie_value_example : parse (some (cookie_value (drawn 49))) ≡ some (49 ∷ [], 49 ∷ 49 ∷ [])
parse-cookie_value_example = parse-cookie_value (drawn 49) (refl, tt) refl refl

first_returns :
    returns (refresh digest settings signed_in first_cookie no_agent (drawn 50) [] 20) ≡ true
unfolding login refresh find_where get_user_by_normalized_email strip update_where
first_returns = refl

exchanged_once_example :
    returns
      (refresh digest settings (logout refreshed none 21) first_cookie no_agent (drawn 51) [] 22)
    ≡ false
unfolding refresh
exchanged_once_example =
    exchanged_once digest lower digest verify settings signed_in (logout refreshed none 21)
      first_cookie no_agent no_agent (drawn 50) (drawn 51) [] [] 20 22 first_returns
      (Steps.call (Step.logs_out refreshed none 21) (Steps.stay (logout refreshed none 21)))

Steps-IsSingle_example : IsSingle refreshed
unfolding login refresh
Steps-IsSingle_example = Steps-IsSingle digest lower digest verify settings start refreshed refl (
    Steps.call (Step.logs_in start (97 ∷ []) (112 ∷ []) 10 no_agent (83 ∷ []) (drawn 49) []) (
      Steps.call (Step.refreshes signed_in first_cookie no_agent (drawn 50) [] 20)
        (Steps.stay refreshed)))

abbrev her_session : AuthSession
her_session = record {
  id = 83 ∷ [];
  user_id = 65 ∷ [];
  status = SessionStatus.active;
  last_seen_at = 10;
  idle_expires_at = 110;
  absolute_expires_at = 310;
  revoked_at = none;
  revoke_reason = none;
  user_agent_hash = none;
}

abbrev first_token : RefreshToken
first_token = record {
  id = 49 ∷ [];
  session_id = 83 ∷ [];
  token_hash = digest (49 ∷ 49 ∷ []);
  parent_token_id = none;
  replaced_by_token_id = none;
  issued_at = 10;
  expires_at = 110;
  used_at = none;
  revoked_at = none;
  reuse_detected_at = none;
}

abbrev used_token : RefreshToken
used_token = record first_token { used_at = some 20; replaced_by_token_id = some (50 ∷ []) }

abbrev seen_session : AuthSession
seen_session = record her_session { last_seen_at = 20; idle_expires_at = 120 }

abbrev seen_alice : User
seen_alice = record alice { last_login_at = some 10 }

-- Somebody else presents the first cookie at 40.
abbrev attacked : Store
attacked = (refresh digest settings refreshed first_cookie no_agent (drawn 52) [] 40).0

-- The same on SQLite, where nothing is written and the session goes on.
abbrev on_sqlite : Store
on_sqlite = record refreshed { keeps_zones = false }

attacked_on_sqlite :
    refresh digest settings on_sqlite first_cookie no_agent (drawn 52) [] 40
    ≡ (on_sqlite, err naive_datetime)
unfolding login refresh find_where get_user_by_normalized_email strip update_where
attacked_on_sqlite = refl

session_there : In her_session signed_in.sessions
unfolding login find_where get_user_by_normalized_email strip update_where
session_there = here

logout-IsEnded_example : IsEnded digest settings (83 ∷ []) (logout signed_in (some (83 ∷ [])) 30)
logout-IsEnded_example =
    logout-IsEnded digest lower digest verify settings signed_in
      (logout signed_in (some (83 ∷ [])) 30) (83 ∷ []) her_session 30 refl session_there refl
      (Steps.stay (logout signed_in (some (83 ∷ [])) 30))

abbrev her_claims : AccessTokenClaims
her_claims = record {
  user_id = 65 ∷ [];
  session_id = 83 ∷ [];
  role = learner;
  token_version = 1;
  token_id = [];
  issued_at = 10;
  expires_at = 60;
}

alice_there : get_active_user signed_in (65 ∷ []) ≡ some seen_alice
unfolding login find_where get_user_by_normalized_email strip update_where get_active_user
alice_there = refl

alice_once : count_where (λ v. text_eq v.id (65 ∷ [])) signed_in.users ≤ 1
unfolding login find_where get_user_by_normalized_email strip update_where count_where
alice_once = omega arith

logout_all-refuses_example :
    get_current_principal (logout_all signed_in (65 ∷ []) 30) her_claims 31 ≡ none
logout_all-refuses_example =
    logout_all-refuses digest lower digest verify settings signed_in
      (logout_all signed_in (65 ∷ []) 30) (65 ∷ []) seen_alice 30 31 her_claims alice_there
      alice_once refl (omega arith) (Steps.stay (logout_all signed_in (65 ∷ []) 30))

drawn-IsDrawn : IsDrawn (drawn 50)
drawn-IsDrawn = record { no_full_stop = (refl, tt); some_id = refl; some_secret = refl }

signed_in-IsHeld : IsHeld digest signed_in (drawn 49) 110 310
unfolding login find_where get_user_by_normalized_email strip update_where get_active_user
    get_refresh_token get_active_session
signed_in-IsHeld = record {
  drawn = record { no_full_stop = (refl, tt); some_id = refl; some_secret = refl };
  token = first_token;
  session = her_session;
  user = seen_alice;
  is_token = refl;
  is_session = refl;
  is_user = refl;
  same_hash = refl;
  unused = refl;
  valid = refl;
  expires = refl;
  idle_until = refl;
  ends = refl;
}

abbrev one_round : Round
one_round = record { at = 20; agent = none; fresh = drawn 50; jti = [] }

drawn-IsNew : IsNew digest signed_in (drawn 50)
unfolding login find_where get_user_by_normalized_email strip update_where
drawn-IsNew = record { drawn = drawn-IsDrawn; free = refl }

one_round-IsInTime : IsInTime digest settings 310 signed_in (drawn 49) 110 (one_round ∷ [])
one_round-IsInTime =
    IsInTime.one_more signed_in (drawn 49) 110 one_round [] (omega arith) (omega arith) drawn-IsNew
      (IsInTime.no_more _ _ _)

in_time-all_return_example : all_return digest settings signed_in (drawn 49) (one_round ∷ []) ≡ true
in_time-all_return_example =
    in_time-all_return digest settings signed_in (drawn 49) 110 310 (one_round ∷ [])
      signed_in-IsHeld one_round-IsInTime
