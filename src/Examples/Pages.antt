-- ===== src/Examples/Pages.antt =====
-- The theorems on the HTTP server at concrete inputs.
use live_mutex.HttpServer.Admin.{
  Headers, Settings, default_token, info, check_admin_auth, admin_token, bearer_token, tcp, post,
  field, boolean, handle_admin,
}
use live_mutex.Versions.{same_text}
use live_mutex.HttpServer.Guard.{IsGuarded, handle_admin-IsGuarded}
use live_mutex.Prelude.{
  true, false, refl, ℕ, ◌≡◌, none, some, List, [], ◌∷◌, ltb, if◌then◌else◌, length,
}
use live_mutex.HttpServer.{esc, read_body}
use live_mutex.HttpServer.Escaping.{escape_each, IsInert, esc-IsInert}
use live_mutex.HttpServer.Bodies.{joined, read_body-joined}

-- The text `<b&`
abbrev tagged : List ℕ
tagged = 60 ∷ 98 ∷ 38 ∷ []

esc-IsInert_example : (esc tagged ≡ escape_each tagged) × IsInert (esc tagged)
esc-IsInert_example = esc-IsInert tagged

abbrev chunks : List (List ℕ)
chunks = (1 ∷ 2 ∷ []) ∷ [] ∷ (3 ∷ []) ∷ []

read_body-joined_example :
    read_body 2 chunks ≡ (if ltb 2 (length (joined chunks)) then none else some (joined chunks))
read_body-joined_example = read_body-joined 2 chunks

-- `Bearer all-dogs-go-to-heaven`
abbrev credentials : Headers
credentials = record {
  x_admin_token = [];
  authorization = 66 ∷ 101 ∷ 97 ∷ 114 ∷ 101 ∷ 114 ∷ 32 ∷ default_token;
}

abbrev settings : Settings
settings = record { otel_enabled = true; log_level = info; no_delay = true }

credentials_accepted : check_admin_auth [] credentials ≡ true
unfolding check_admin_auth admin_token bearer_token same_text
credentials_accepted = refl

handle_admin-IsGuarded_example :
    IsGuarded
      (check_admin_auth [] credentials)
      tcp
      post
      settings
      (handle_admin [] credentials tcp post (field (boolean false)) settings)
handle_admin-IsGuarded_example =
    handle_admin-IsGuarded [] credentials tcp post (field (boolean false)) settings
