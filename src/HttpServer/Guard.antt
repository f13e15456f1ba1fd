-- ===== src/HttpServer/Guard.antt =====
-- Who can change the settings of the broker over HTTP, and which.
use live_mutex.Prelude.{ℕ, ◌≡◌, refl, ◌⊎◌, inl, inr, Bool, true, Option, none, some, Bool-cases}
use live_mutex.Framing.{Text}
use live_mutex.HttpServer.Admin.{
  Field, boolean, string, other_field, LogLevel, Settings, Route, otel, log_level_route, tcp,
  Method, get, post, other_method, Body, refused, falsy, field, coerce_bool, parse_level, from_bool,
  from_level, post_field, post_body, Headers, check_admin_auth, handle_authorized, handle_admin,
}

-- The settings but the one of a route are the same.
abbrev pub IsElsewhereSame : Route → Settings → Settings → Type 0
IsElsewhereSame otel s s' = (s'.log_level ≡ s.log_level) × (s'.no_delay ≡ s.no_delay)
IsElsewhereSame log_level_route s s' =
    (s'.otel_enabled ≡ s.otel_enabled) × (s'.no_delay ≡ s.no_delay)
IsElsewhereSame tcp s s' = (s'.otel_enabled ≡ s.otel_enabled) × (s'.log_level ≡ s.log_level)

-- The settings stay, or a `POST` with the token to this route went through.
abbrev pub IsGuarded :
    (authorized : Bool) → Route → Method → Settings → Settings × Option ℕ → Type 0
IsGuarded authorized route method s (s', status) =
    (s' ≡ s)
    ⊎ ((authorized ≡ true) × (method ≡ post) × (status ≡ some 200) × IsElsewhereSame route s s')

from_bool-IsGuarded :
    (route : Route) (o : Option Bool) (set : Bool → Settings) (s : Settings)
    → ((b : Bool) → IsElsewhereSame route s (set b))
    → IsGuarded true route post s (from_bool o set s)
from_bool-IsGuarded route none set s same = inl refl
from_bool-IsGuarded route (some b) set s same = inr (refl, refl, refl, same b)

from_level-IsGuarded :
    (o : Option LogLevel) (s : Settings) → IsGuarded true log_level_route post s (from_level o s)
from_level-IsGuarded none s = inl refl
from_level-IsGuarded (some l) s = inr (refl, refl, refl, (refl, refl))

post_field-IsGuarded :
    (route : Route) (v : Field) (s : Settings) → IsGuarded true route post s (post_field route v s)
unfolding post_field
post_field-IsGuarded otel v s =
    from_bool-IsGuarded otel (coerce_bool v) (λ b. record s { otel_enabled = b }) s
      (λ b. (refl, refl))
post_field-IsGuarded tcp v s =
    from_bool-IsGuarded tcp (coerce_bool v) (λ b. record s { no_delay = b }) s (λ b. (refl, refl))
post_field-IsGuarded log_level_route (boolean b) s = inl refl
post_field-IsGuarded log_level_route (string l) s = from_level-IsGuarded (parse_level l) s
post_field-IsGuarded log_level_route other_field s = inl refl

handle_authorized-IsGuarded :
    (route : Route) (method : Method) (body : Body) (s : Settings)
    → IsGuarded true route method s (handle_authorized route method body s)
unfolding post_body
handle_authorized-IsGuarded route get body s = inl refl
handle_authorized-IsGuarded route other_method body s = inl refl
handle_authorized-IsGuarded route post (refused status) s = inl refl
handle_authorized-IsGuarded route post falsy s = inl refl
handle_authorized-IsGuarded route post (field v) s = post_field-IsGuarded route v s

-- A request to a route under `/admin/` leaves all settings as they are, unless it is a `POST` that carries the token
-- and is answered by 200; then the settings of the other routes are as they were.
pub handle_admin-IsGuarded :
    (env : Text) (h : Headers) (route : Route) (method : Method) (body : Body) (s : Settings)
    → IsGuarded (check_admin_auth env h) route method s (handle_admin env h route method body s)
unfolding handle_admin
handle_admin-IsGuarded env h route method body s = elim (Bool-cases (check_admin_auth env h)) [
  | inl allowed ↦ rw allowed (handle_authorized-IsGuarded route method body s)
  | inr denied ↦ rw denied (inl refl)
]
