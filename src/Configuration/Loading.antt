-- ===== src/Configuration/Loading.antt =====
-- app/config.py: which environments the module is imported in.
use monitoring_service.Prelude.{
  ℕ, ◌≡◌, refl, ◌∙◌, ap, Bool, true, false, ◌&&◌, Option, none, some, List, [], ◌∷◌, arith,
}
use monitoring_service.Prelude.Text.{Text, text}
use monitoring_service.Prelude.Text.Str.{is_space, strip, lstrip, rstrip}
use monitoring_service.Prelude.Text.Decimal.{int, scan, scan_signed}
use monitoring_service.Model.Int.{ℤ}
use monitoring_service.Configuration.{
  Environment, Import, imported, key_error, value_error, ◌>>=◌, lookup, environ, getenv, getenv_int,
  int_or_error, found_or, found_or_error, load,
}

abbrev pub is_imported : {A : Type 0} → Import A → Bool
is_imported (imported a) = true
is_imported _ = false

abbrev pub is_some : {A : Type 0} → Option A → Bool
is_some none = false
is_some (some a) = true

-- The variables that have no default, and those that are to be integers.
abbrev pub required : List Text
required = text "REDIS_URL" ∷ text "DATABASE_URL" ∷ text "SECRET_KEY" ∷ []

abbrev pub integers : List Text
integers =
    text "ACCESS_TOKEN_EXPIRE_MINUTES"
    ∷ text "SMTP_PORT"
    ∷ text "MAX_ENDPOINTS_PER_USER"
    ∷ text "OVERDUE_GRACE_SECONDS"
    ∷ text "RETENTION_DAYS"
    ∷ text "PURGE_BATCH_SIZE"
    ∷ []

abbrev pub is_set : Environment → Text → Bool
is_set env key = is_some (lookup key env)

-- Unset, or an integer's text.
abbrev pub may_be_integer : Option Text → Bool
may_be_integer none = true
may_be_integer (some v) = is_some (int v)

abbrev pub is_integer : Environment → Text → Bool
is_integer env key = may_be_integer (lookup key env)

abbrev pub all_of : (Text → Bool) → List Text → Bool
all_of p [] = true
all_of p (key ∷ keys) = p key && all_of p keys

is_imported-bind :
    {A B : Type 0} (m : Import A) (f : A → Import B) (b : Bool)
    → ((a : A) → is_imported (f a) ≡ b)
    → is_imported (m >>= f) ≡ (is_imported m && b)
is_imported-bind (imported a) f b h = h a
is_imported-bind (key_error key) f b h = refl
is_imported-bind (value_error key) f b h = refl

is_imported-found_or_error :
    (key : Text) (o : Option Text) → is_imported (found_or_error key o) ≡ is_some o
is_imported-found_or_error key none = refl
is_imported-found_or_error key (some v) = refl

is_imported-int_or_error :
    (key : Text) (n : Option (Bool × ℕ)) → is_imported (int_or_error key n) ≡ is_some n
is_imported-int_or_error key none = refl
is_imported-int_or_error key (some n) = refl

is_imported-found_or :
    (key default : Text) (o : Option Text)
    → is_some (int default) ≡ true
    → is_imported (int_or_error key (int (found_or default o))) ≡ may_be_integer o
is_imported-found_or key default none h = is_imported-int_or_error key (int default) ∙ h
is_imported-found_or key default (some v) h = is_imported-int_or_error key (int v)

is_imported-environ :
    {B : Type 0} (env : Environment) (key : Text) (f : Text → Import B) (b : Bool)
    → ((a : Text) → is_imported (f a) ≡ b)
    → is_imported (environ env key >>= f) ≡ (is_set env key && b)
unfolding environ
is_imported-environ env key f b h =
    is_imported-bind (environ env key) f b h
    ∙ ap (λ x. x && b) (is_imported-found_or_error key (lookup key env))

is_imported-getenv_int :
    {B : Type 0} (env : Environment) (key default : Text)
    → is_some (int default) ≡ true
    → (f : ℤ → Import B) (b : Bool) → ((a : ℤ) → is_imported (f a) ≡ b)
    → is_imported (getenv_int env key default >>= f) ≡ (is_integer env key && b)
unfolding getenv_int getenv
is_imported-getenv_int env key default d f b h =
    is_imported-bind (getenv_int env key default) f b h
    ∙ ap (λ x. x && b) (is_imported-found_or key default (lookup key env) d)

-- The defaults are integers.
thirty_IsInteger : is_some (int (text "30")) ≡ true
unfolding int scan_signed scan is_space strip lstrip rstrip
thirty_IsInteger = refl

smtp_default_IsInteger : is_some (int (text "1025")) ≡ true
unfolding int scan_signed scan is_space strip lstrip rstrip
smtp_default_IsInteger = refl

batch_default_IsInteger : is_some (int (text "10000")) ≡ true
unfolding int scan_signed scan is_space strip lstrip rstrip
batch_default_IsInteger = refl

and_regroup :
    {x : Bool} (a b c d : Bool) → x ≡ (a && (b && (c && d))) → x ≡ ((a && (b && (c && true))) && d)
and_regroup a b c d h = ground arith

module _ (lower upper : Text → Text) (env : Environment) where
  -- The module is imported in an environment exactly if it sets the three variables that have no
  -- default, and each of the six that are to be integers is unset or is one.
  pub is_imported-load :
      is_imported (load lower upper env)
      ≡ (all_of (is_set env) required && all_of (is_integer env) integers)
  unfolding load
  is_imported-load =
      and_regroup (is_set env (text "REDIS_URL")) (is_set env (text "DATABASE_URL"))
        (is_set env (text "SECRET_KEY")) (all_of (is_integer env) integers)
        (is_imported-environ env (text "REDIS_URL") _ _ (λ x0.
          is_imported-environ env (text "DATABASE_URL") _ _ (λ x1.
            is_imported-environ env (text "SECRET_KEY") _ _ (λ x2.
              is_imported-getenv_int env (text "ACCESS_TOKEN_EXPIRE_MINUTES") (text "30")
                thirty_IsInteger _ _
                (λ x3.
                  is_imported-getenv_int env (text "SMTP_PORT") (text "1025") smtp_default_IsInteger
                    _ _
                    (λ x4.
                      is_imported-getenv_int env (text "MAX_ENDPOINTS_PER_USER") (text "30")
                        thirty_IsInteger _ _
                        (λ x5.
                          is_imported-getenv_int env (text "OVERDUE_GRACE_SECONDS") (text "30")
                            thirty_IsInteger _ _
                            (λ x6.
                              is_imported-getenv_int env (text "RETENTION_DAYS") (text "30")
                                thirty_IsInteger _ _
                                (λ x7.
                                  is_imported-getenv_int env (text "PURGE_BATCH_SIZE")
                                    (text "10000") batch_default_IsInteger _ _ (λ x8. refl))))))))))
