-- ===== src/Backend.antt =====
-- What the services take from the clients of Supabase and from src/lib/auth/current-user.ts. A query
-- gives its data or an error with the message that the client reports, or throws. The store behind
-- the client is a type that the services only pass on. Besides, what the functions of the database
-- know of their caller.
use godel_design.Prelude.{Bool, true, false, Option, some, none}
use godel_design.Database.{AppRole, admin, supervisor, trabajador}
use godel_design.JsText.{Text, trim, includes}

pub data Response (A : Type 0) : Type 0 where
  answer : A → Response A
  error : (message : Option Text) → Response A
  threw : Response A

pub record Profile : Type 0 where
  pub id : Text
  pub role : AppRole

-- `message?.trim()?.includes(part)`, where an absent message includes nothing.
unfoldable pub mentions : Option Text → Text → Bool
unfolding includes trim
mentions none part = false
mentions (some message) part = includes part (trim message)

-- `auth.uid()`, `private.current_user_is_active()`, and the role of the profile.
pub record Caller : Type 0 where
  pub uid : Option Text
  pub is_active : Bool
  pub role : AppRole

-- `private.is_admin_or_supervisor()`, of the role.
abbrev pub is_admin_or_supervisor : AppRole → Bool
is_admin_or_supervisor admin = true
is_admin_or_supervisor supervisor = true
is_admin_or_supervisor trabajador = false
