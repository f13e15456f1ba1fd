-- ===== src/HttpServer/Admin.antt =====
-- src/http-server.ts: `checkAdminAuth`, `coerceBool` and the routes under `/admin/`, and `parseLevel` of
-- src/log-level.ts. `toLowerCase` is that of ASCII: the texts compared with have no other letters.
use live_mutex.Prelude.{
  ℕ, ◌+◌, Bool, true, false, ◌&&◌, ◌||◌, not, Option, none, some, List, [], ◌∷◌, leb, if◌then◌else◌,
  contains,
}
use live_mutex.Framing.{Text}
use live_mutex.Versions.{same_text}

-- The characters that `trim` drops and that `\s` stands for.
abbrev pub is_space : ℕ → Bool
is_space c =
    (leb 9 c && leb c 13)
    || (leb 8192 c && leb c 8202)
    || contains c (32 ∷ 160 ∷ 5760 ∷ 8232 ∷ 8233 ∷ 8239 ∷ 8287 ∷ 12288 ∷ 65279 ∷ [])

unfoldable pub trim_start : Text → Text
trim_start [] = []
trim_start (c ∷ s) = if is_space c then trim_start s else c ∷ s

unfoldable pub trim_end : Text → Text
trim_end [] = []
trim_end (c ∷ s) =
    let rest = trim_end s in
    elim rest [ [] ↦ (if is_space c then [] else c ∷ []) | d ∷ t ↦ c ∷ d ∷ t ]

unfoldable pub trim : Text → Text
unfolding trim_start trim_end
trim s = trim_end (trim_start s)

unfoldable pub to_lower_case : Text → Text
to_lower_case [] = []
to_lower_case (c ∷ s) = (if leb 65 c && leb c 90 then c + 32 else c) ∷ to_lower_case s

-- A value of a body.
pub data Field : Type 0 where
  boolean : Bool → Field
  string : Text → Field
  other_field : Field

-- `true` and `false`
abbrev pub true_text : Text
true_text = 116 ∷ 114 ∷ 117 ∷ 101 ∷ []

abbrev pub false_text : Text
false_text = 102 ∷ 97 ∷ 108 ∷ 115 ∷ 101 ∷ []

unfoldable pub coerce_bool : Field → Option Bool
unfolding trim to_lower_case
coerce_bool (boolean v) = some v
coerce_bool (string v) =
    let s = to_lower_case (trim v) in
    if same_text s true_text then some true else if same_text s false_text then some false else none
coerce_bool other_field = none

pub data LogLevel : Type 0 where
  silent error warn info debug trace : LogLevel

-- `LEVELS`
abbrev pub levels : List (Text × LogLevel)
levels =
    (115 ∷ 105 ∷ 108 ∷ 101 ∷ 110 ∷ 116 ∷ [], silent)
    ∷ (101 ∷ 114 ∷ 114 ∷ 111 ∷ 114 ∷ [], error)
    ∷ (119 ∷ 97 ∷ 114 ∷ 110 ∷ [], warn)
    ∷ (105 ∷ 110 ∷ 102 ∷ 111 ∷ [], info)
    ∷ (100 ∷ 101 ∷ 98 ∷ 117 ∷ 103 ∷ [], debug)
    ∷ (116 ∷ 114 ∷ 97 ∷ 99 ∷ 101 ∷ [], trace)
    ∷ []

unfoldable pub find_level : Text → List (Text × LogLevel) → Option LogLevel
find_level s [] = none
find_level s ((name, level) ∷ rest) = if same_text s name then some level else find_level s rest

unfoldable pub parse_level : Text → Option LogLevel
unfolding find_level trim to_lower_case
parse_level raw = find_level (to_lower_case (trim raw)) levels

-- What the routes under `/admin/` change.
pub record Settings : Type 0 where
  pub otel_enabled : Bool
  pub log_level : LogLevel
  pub no_delay : Bool

pub data Route : Type 0 where
  otel log_level_route tcp : Route

pub data Method : Type 0 where
  get post other_method : Method

-- What `readPostBody` gives: nothing, after it has sent a status; a value that is false, for which nothing is sent; or
-- the field that the route looks at.
pub data Body : Type 0 where
  refused : (status : ℕ) → Body
  falsy : Body
  field : Field → Body

abbrev pub from_bool : Option Bool → (Bool → Settings) → Settings → Settings × Option ℕ
from_bool none set s = (s, some 400)
from_bool (some v) set s = (set v, some 200)

abbrev pub from_level : Option LogLevel → Settings → Settings × Option ℕ
from_level none s = (s, some 400)
from_level (some l) s = (record s { log_level = l }, some 200)

-- A `POST` whose body is read.
unfoldable pub post_field : Route → Field → Settings → Settings × Option ℕ
unfolding coerce_bool parse_level
post_field otel v s = from_bool (coerce_bool v) (λ b. record s { otel_enabled = b }) s
post_field tcp v s = from_bool (coerce_bool v) (λ b. record s { no_delay = b }) s
post_field log_level_route (string l) s = from_level (parse_level l) s
post_field log_level_route _ s = (s, some 400)

unfoldable pub post_body : Route → Body → Settings → Settings × Option ℕ
unfolding post_field
post_body route (refused status) s = (s, some status)
post_body route falsy s = (s, none)
post_body route (field v) s = post_field route v s

-- `all-dogs-go-to-heaven`
abbrev pub default_token : Text
default_token =
    97 ∷ 108 ∷ 108 ∷ 45 ∷ 100 ∷ 111 ∷ 103 ∷ 115 ∷ 45 ∷ 103 ∷ 111 ∷ 45 ∷ 116 ∷ 111 ∷ 45 ∷ 104 ∷ 101
    ∷ 97 ∷ 118 ∷ 101 ∷ 110 ∷ []

abbrev pub or_default_token : Text → Text
or_default_token [] = default_token
or_default_token (c ∷ s) = c ∷ s

-- `adminToken`, of the variable `LMX_ADMIN_TOKEN`, empty if it is not set
unfoldable pub admin_token : Text → Text
unfolding trim
admin_token env = or_default_token (trim env)

-- What follows a prefix, whatever the case of its letters; the prefix is in lower case.
unfoldable pub after_prefix : Text → Text → Option Text
unfolding to_lower_case
after_prefix [] s = some s
after_prefix (c ∷ p) [] = none
after_prefix (c ∷ p) (d ∷ s) =
    let rest = after_prefix p s in
    if same_text (to_lower_case (d ∷ [])) (c ∷ []) then rest else none

-- `bearer`
abbrev pub bearer : Text
bearer = 98 ∷ 101 ∷ 97 ∷ 114 ∷ 101 ∷ 114 ∷ []

-- A character that `.` does not match.
unfoldable pub has_line_end : Text → Bool
has_line_end [] = false
has_line_end (c ∷ s) = contains c (10 ∷ 13 ∷ 8232 ∷ 8233 ∷ []) || has_line_end s

abbrev pub behind_spaces : Option Text → Text
behind_spaces none = []
behind_spaces (some []) = []
behind_spaces (some (c ∷ s)) =
    if is_space c && not (has_line_end (trim_start s)) then trim (trim_start s) else []

-- `/^Bearer\s+(.+)$/i.exec(authHeader)?.[1]?.trim() || ''`
unfoldable pub bearer_token : Text → Text
unfolding after_prefix has_line_end trim trim_start
bearer_token s = behind_spaces (after_prefix bearer s)

-- The two headers, empty if they are missing.
pub record Headers : Type 0 where
  pub x_admin_token : Text
  pub authorization : Text

unfoldable pub check_admin_auth : (env : Text) → Headers → Bool
unfolding admin_token bearer_token trim
check_admin_auth env h =
    same_text (trim h.x_admin_token) (admin_token env)
    || same_text (bearer_token (trim h.authorization)) (admin_token env)

abbrev pub handle_authorized : Route → Method → Body → Settings → Settings × Option ℕ
handle_authorized route get body s = (s, some 200)
handle_authorized route post body s = post_body route body s
handle_authorized route other_method body s = (s, some 405)

-- The part of `handle` for a route under `/admin/`: the settings and the status, `none` if nothing is sent.
unfoldable pub handle_admin :
    (env : Text) → Headers → Route → Method → Body → Settings → Settings × Option ℕ
unfolding check_admin_auth post_body
handle_admin env h route method body s =
    if check_admin_auth env h then handle_authorized route method body s else (s, some 401)
