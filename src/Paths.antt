-- ===== src/Paths.antt =====
-- The names of files and folders: the sanitizers of gateway/core/utils.py and gateway/api/utils.py, and
-- gateway/core/services/storage/path_builder.py. A regular expression is a walk over the characters.
pub mod Safe
pub mod Segments
pub mod Folders
pub mod Layout
pub mod Titles
use Prim.Native.Char.{Char, code}
use Prim.Native.String.{String, ◌++◌}
use qiskit_serverless.Base.{
  Bool, List, Option, [], false, filter, if◌then◌else◌, leb, not, none, nonempty, some, truthy,
  ◌&&◌, ◌==◌, ◌||◌, ◌∷◌,
}
use qiskit_serverless.Base.Text.{join, split}

abbrev pub is_dot : Char → Bool
is_dot c = code c == b'.'

abbrev pub is_slash : Char → Bool
is_slash c = code c == b'/'

abbrev pub is_letter : Char → Bool
is_letter c = (leb b'a' (code c) && leb (code c) b'z') || (leb b'A' (code c) && leb (code c) b'Z')

abbrev pub is_digit : Char → Bool
is_digit c = leb b'0' (code c) && leb (code c) b'9'

-- `[0-9a-zA-Z-_]`
abbrev pub word_char : Char → Bool
word_char c = is_letter c || is_digit c || code c == b'-' || code c == b'_'

-- `[0-9a-zA-Z-_.]`, a character of a file's name.
abbrev pub name_char : Char → Bool
name_char c = word_char c || is_dot c

-- `[0-9a-zA-Z-_./]`, a character of a path; `os.sep` is the slash.
abbrev pub path_char : Char → Bool
path_char c = name_char c || is_slash c

-- `".." in s`, behind a dot or not.
unfoldable pub dots_after : Bool → String → Bool
dots_after b String.[] = false
dots_after b (String.◌∷◌ c s) = (b && is_dot c) || dots_after (is_dot c) s

abbrev pub has_dots : String → Bool
has_dots s = dots_after false s

-- `s.replace("..", "_")`
unfoldable pub replace_dots : String → String
replace_dots String.[] = ""
replace_dots (String.◌∷◌ c String.[]) = String.◌∷◌ c ""
replace_dots (String.◌∷◌ c (String.◌∷◌ d s)) =
    let pair = String.◌∷◌ "_" (replace_dots s) in
    let single = String.◌∷◌ c (replace_dots (String.◌∷◌ d s)) in
    if is_dot c && is_dot d then pair else single

-- `re.sub("[^...]+", "_", s)`: a run of other characters is one underscore. The flag says whether
-- the walk is inside of a run.
unfoldable pub replace_runs : (Char → Bool) → Bool → String → String
replace_runs ok inside String.[] = ""
replace_runs ok inside (String.◌∷◌ c s) =
    let rest = replace_runs ok (not (ok c)) s in
    if ok c then String.◌∷◌ c rest else if inside then rest else String.◌∷◌ "_" rest

-- `sanitize_file_path`
unfoldable pub sanitize_file_path : String → String
unfolding replace_dots replace_runs dots_after
sanitize_file_path path =
    replace_runs path_char false (if has_dots path then replace_dots path else path)

-- `sanitize_file_name`, for the name of one file.
unfoldable pub sanitize_file_name : Option String → Option String
unfolding replace_dots replace_runs dots_after
sanitize_file_name none = none
sanitize_file_name (some name) =
    if nonempty name
    then some (replace_runs name_char false (if has_dots name then replace_dots name else name))
    else some name

-- `sanitize_sub_path`
unfoldable pub sanitize_sub_path : Option String → String
unfolding replace_dots replace_runs
sanitize_sub_path none = ""
sanitize_sub_path (some sub_path) =
    if nonempty sub_path
    then join "/"
        (filter nonempty (split "/" (replace_runs path_char false (replace_dots sub_path))))
    else ""

-- `re.sub("[^a-zA-Z0-9_\\-/]", "", s)`
unfoldable pub keep_title_chars : String → String
keep_title_chars String.[] = ""
keep_title_chars (String.◌∷◌ c s) =
    let rest = keep_title_chars s in if word_char c || is_slash c then String.◌∷◌ c rest else rest

-- `sanitize_name`; the early return for an empty text changes nothing.
unfoldable pub sanitize_name : Option String → Option String
unfolding keep_title_chars
sanitize_name none = none
sanitize_name (some name) = some (keep_title_chars name)

pub data TitleError : Type 0 where
  provider_twice malformed : TitleError

pub data Titled : Type 0 where
  titled : String → Option String → Titled
  refused : TitleError → Titled

abbrev pub has_slash : String → Bool
has_slash String.[] = false
has_slash (String.◌∷◌ c s) = is_slash c || has_slash s

-- A title that may begin with its provider.
abbrev pub from_parts : String → List String → Titled
from_parts title (provider ∷ name ∷ []) =
    titled (keep_title_chars name) (some (keep_title_chars provider))
from_parts title (name ∷ []) = titled (keep_title_chars title) none
from_parts title parts = refused malformed

-- `parse_title_and_provider`
unfoldable pub parse_title_and_provider : String → Option String → Titled
parse_title_and_provider title provider =
    if truthy provider
    then (if has_slash title
        then refused provider_twice
        else titled (keep_title_chars title) (sanitize_name provider))
    else from_parts title (split "/" title)

abbrev pub starts_slash : String → Bool
starts_slash String.[] = false
starts_slash (String.◌∷◌ c s) = is_slash c

abbrev pub ends_slash : String → Bool
ends_slash String.[] = false
ends_slash (String.◌∷◌ c String.[]) = is_slash c
ends_slash (String.◌∷◌ c (String.◌∷◌ d s)) = ends_slash (String.◌∷◌ d s)

-- `os.path.join(path, part)`
unfoldable pub join_path : String → String → String
join_path path part =
    if starts_slash part
    then part
    else if not (nonempty path) || ends_slash path
    then path ++ part
    else path ++ ("/" ++ part)

pub data WorkingDir : Type 0 where
  user_storage provider_storage : WorkingDir

abbrev with_extra : String → Option String → String
with_extra path none = path
with_extra path (some extra) = join_path path extra

-- `__get_user_sub_path`
unfoldable pub user_sub_path : String → String → Option String → Option String → String
unfolding sanitize_file_path join_path
user_sub_path username function_title none extra = sanitize_file_path (with_extra username extra)
user_sub_path username function_title (some provider_name) extra =
    sanitize_file_path
      (with_extra (join_path (join_path username provider_name) function_title) extra)

-- `__get_provider_sub_path`; `os.path.join` raises a TypeError on a provider that is None.
unfoldable pub provider_sub_path : String → Option String → Option String → Option String
unfolding sanitize_file_path join_path
provider_sub_path function_title none extra = none
provider_sub_path function_title (some provider_name) extra =
    some (sanitize_file_path (with_extra (join_path provider_name function_title) extra))

-- `PathBuilder.sub_path`
unfoldable pub sub_path :
    WorkingDir → String → String → Option String → Option String → Option String
unfolding user_sub_path provider_sub_path
sub_path user_storage username function_title provider_name extra =
    some (user_sub_path username function_title provider_name extra)
sub_path provider_storage username function_title provider_name extra =
    provider_sub_path function_title provider_name extra

-- The path of `PathBuilder.absolute_path`, below the root of the media; the folder is then made.
unfoldable pub absolute_path :
    String → WorkingDir → String → String → Option String → Option String → Option String
unfolding sub_path sanitize_file_path join_path
absolute_path media_root dir username function_title provider_name extra =
    elim (sub_path dir username function_title provider_name extra) [
      | none ↦ none
      | some sub ↦ some (sanitize_file_path (join_path media_root sub))
    ]
