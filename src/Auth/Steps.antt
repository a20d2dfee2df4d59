-- ===== src/Auth/Steps.antt =====
-- The methods of AuthService as steps on the tables, and what settled rows stay.
pub mod Settled
pub mod Kept
pub mod Once
pub mod Ended
pub mod Lasting
pub mod Single
use learning_system.Prelude.{ℕ, ◌-◌, Bool, Option, Text}
use learning_system.Auth.{Store, AuthSettings, Drawn}
use learning_system.Auth.Service.{register, login, set_legacy_password, logout, logout_all}
use learning_system.Auth.Refresh.{refresh}
use learning_system.Auth.Writes.{Writes, done, Writes-trans}
use learning_system.Auth.Writes.Operations.{
  register-Writes, login-Writes, set_legacy_password-Writes, refresh-Writes, logout-Writes,
  logout_all-Writes,
}

module _ (digest lower hash_password : Text → Text) (verify : Text → Text → Bool)
    (cfg : AuthSettings) where
  -- A call of one method, whether it raises or not.
  pub data Step : Store → Store → Type 0 where
    registers :
        (s : Store) (email password name : Text) (now : ℕ) (agent : Option Text) (user_id id : Text)
        (fresh : Drawn) (jti : Text)
        → Step s
            (register digest lower hash_password cfg s email password name now agent user_id id
              fresh jti).0
    logs_in :
        (s : Store) (email password : Text) (now : ℕ) (agent : Option Text) (id : Text)
        (fresh : Drawn) (jti : Text)
        → Step s (login digest lower verify cfg s email password now agent id fresh jti).0
    sets_password :
        (s : Store) (email password : Text) (now : ℕ)
        → Step s (set_legacy_password lower hash_password s email password now).0
    refreshes :
        (s : Store) (cookie agent : Option Text) (fresh : Drawn) (jti : Text) (now : ℕ)
        → Step s (refresh digest cfg s cookie agent fresh jti now).0
    logs_out : (s : Store) (session : Option Text) (now : ℕ) → Step s (logout s session now)
    logs_out_all : (s : Store) (user : Text) (now : ℕ) → Step s (logout_all s user now)

  -- Any number of calls, one after the other.
  pub data Steps : Store → Store → Type 0 where
    stay : (s : Store) → Steps s s
    call : {s s' s'' : Store} → Step s s' → Steps s' s'' → Steps s s''

  pub Step-Writes : {s s' : Store} → Step s s' → Writes s s'
  Step-Writes (registers s email password name now agent user_id id fresh jti) =
      register-Writes digest lower hash_password verify cfg s email password name now agent user_id
        id fresh jti
  Step-Writes (logs_in s email password now agent id fresh jti) =
      login-Writes digest lower hash_password verify cfg s email password now agent id fresh jti
  Step-Writes (sets_password s email password now) =
      set_legacy_password-Writes digest lower hash_password verify cfg s email password now
  Step-Writes (refreshes s cookie agent fresh jti now) =
      refresh-Writes digest lower hash_password verify cfg s cookie agent fresh jti now
  Step-Writes (logs_out s session now) = logout-Writes s session now
  Step-Writes (logs_out_all s user now) = logout_all-Writes s user now

  pub Steps-Writes : {s s' : Store} → Steps s s' → Writes s s'
  Steps-Writes (stay s) = done s
  Steps-Writes (call w ws) = Writes-trans (Step-Writes w) (Steps-Writes ws)
