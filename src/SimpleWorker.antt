-- ===== src/SimpleWorker.antt =====
-- cmd/simpleworker/container.go: the containers of the simple worker, their defaults and checks. The
-- parsers of image references and of durations are parameters.
pub mod Docker
pub mod Daemon
pub mod Cli
use Prim.Native.Char.{Char, code}
use hambo.Base.{
  ℕ, ◌+◌, String, Bool, true, false, not, ◌&&◌, ◌||◌, List, [], ◌∷◌, Option, none, some, Result, ok,
  err, Error, failure, if◌then◌else◌, ◌==◌, nat_eq, ltb, leb, ◌>>=◌, ◌>>◌, or_fail,
}
use hambo.Base.Int.{ℤ, pos, negsuc}

-- A slice that is nil is none. The environment is a map.
pub record ContainerConfig : Type 0 where
  pub name : String
  pub image : String
  pub pull_policy : String
  pub entrypoint : Option (List String)
  pub command : Option (List String)
  pub environment : List (String × String)
  pub working_dir : String
  pub restart : String
  pub stop_grace_period : String

pub record ContainerStatus : Type 0 where
  pub docker_id : String
  pub state : String
  pub exit_code : Option ℤ
  pub error : String

pub record Container : Type 0 where
  pub id : String
  pub config : ContainerConfig
  pub status : ContainerStatus

abbrev pub pull_missing : String
pull_missing = "missing"

abbrev pub pull_always : String
pull_always = "always"

abbrev pub pull_never : String
pull_never = "never"

abbrev or_default : String → String → String
or_default text default_text = if text == "" then default_text else text

unfoldable pub apply_container_defaults : ContainerConfig → ContainerConfig
apply_container_defaults c = record c {
  pull_policy = or_default c.pull_policy pull_missing;
  restart = or_default c.restart "no";
  stop_grace_period = or_default c.stop_grace_period "10s";
}

-- How many bytes the UTF-8 text of a character has, and `len` of a text.
unfoldable pub utf8_width : Char → ℕ
utf8_width c =
    if ltb (code c) 0x80
    then 1
    else if ltb (code c) 0x800
    then 2
    else if ltb (code c) 0x10000
    then 3
    else 4

unfoldable pub byte_length : String → ℕ
unfolding utf8_width
byte_length String.[] = 0
byte_length (String.◌∷◌ c s) = utf8_width c + byte_length s

abbrev is_alphanumeric : ℕ → Bool
is_alphanumeric n = (leb 48 n && leb n 57) || (leb 65 n && leb n 90) || (leb 97 n && leb n 122)

-- `[a-zA-Z0-9_.-]`
abbrev is_name_char : ℕ → Bool
is_name_char n = is_alphanumeric n || nat_eq n b'_' || nat_eq n b'.' || nat_eq n b'-'

unfoldable pub all_name_chars : String → Bool
all_name_chars String.[] = true
all_name_chars (String.◌∷◌ c s) = is_name_char (code c) && all_name_chars s

-- The pattern `^[a-zA-Z0-9][a-zA-Z0-9_.-]*$`.
unfoldable pub matches_name : String → Bool
unfolding all_name_chars
matches_name String.[] = false
matches_name (String.◌∷◌ c s) = is_alphanumeric (code c) && all_name_chars s

unfoldable pub check_name : String → Result (Unit {0})
unfolding byte_length matches_name
check_name name =
    if name == ""
    then err (failure "name is required")
    else if ltb 63 (byte_length name)
    then err (failure "name must not exceed 63 characters")
    else if not (matches_name name)
    then err (failure "invalid container name")
    else ok tt

unfoldable pub is_one_of : String → String → String → String → Bool
is_one_of text a b c = (text == a) || (text == b) || (text == c)

-- Whether a command gives an executable.
unfoldable pub gives_executable : Option (List String) → Bool
gives_executable none = false
gives_executable (some []) = false
gives_executable (some (x ∷ xs)) = not (x == "")

unfoldable pub check_entrypoint : Option (List String) → Option (List String) → Result (Unit {0})
unfolding gives_executable
check_entrypoint none command = ok tt
check_entrypoint (some []) command =
    if gives_executable command
    then ok tt
    else err (failure "command must provide an executable when entrypoint is cleared")
check_entrypoint (some (x ∷ xs)) command =
    if x == ""
    then err (failure "entrypoint executable cannot be empty; use [] to clear it")
    else ok tt

unfoldable pub has_equals : String → Bool
has_equals String.[] = false
has_equals (String.◌∷◌ c s) = nat_eq (code c) b'=' || has_equals s

unfoldable pub check_environment : List (String × String) → Result (Unit {0})
unfolding has_equals
check_environment [] = ok tt
check_environment ((key, value) ∷ rest) =
    let later = check_environment rest in
    if key == "" || has_equals key then err (failure "invalid environment variable name") else later

-- `path.IsAbs`
unfoldable pub is_abs : String → Bool
is_abs String.[] = false
is_abs (String.◌∷◌ c s) = nat_eq (code c) b'/'

unfoldable pub check_working_dir : String → Result (Unit {0})
unfolding is_abs
check_working_dir dir =
    if not (dir == "") && not (is_abs dir)
    then err (failure "working_dir must be an absolute container path")
    else ok tt

unfoldable pub check_grace_period : ℤ → Result (Unit {0})
check_grace_period (pos n) = ok tt
check_grace_period (negsuc n) = err (failure "stop_grace_period cannot be negative")

unfoldable pub check_that : Bool → Error → Result (Unit {0})
check_that holds e = if holds then ok tt else err e

-- `parses_image` is whether `reference.ParseNormalizedNamed` succeeds, `parse_duration` is
-- `time.ParseDuration` in nanoseconds.
unfoldable pub validate_container :
    (String → Bool) → (String → Option ℤ) → ContainerConfig → Result (Unit {0})
unfolding check_name is_one_of check_entrypoint check_environment check_working_dir
    check_grace_period check_that
validate_container parses_image parse_duration c = do
  check_name c.name
  check_that (not (c.image == "")) (failure "image is required")
  check_that (parses_image c.image) (failure "invalid image")
  check_that (is_one_of c.pull_policy pull_missing pull_always pull_never)
      (failure "unsupported pull policy")
  check_entrypoint c.entrypoint c.command
  check_environment c.environment
  check_working_dir c.working_dir
  check_that (is_one_of c.restart "no" "on-failure" "always") (failure "unsupported restart policy")
  grace ← or_fail (parse_duration c.stop_grace_period) (failure "invalid stop_grace_period")
  check_grace_period grace
