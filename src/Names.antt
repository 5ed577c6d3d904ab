-- ===== src/Names.antt =====
-- The names of the parts of a cluster and how they are parsed (common/src/names.rs).
pub mod Parsing
use plane.Prelude.{
  Bool, Option, [], if◌then◌else◌, leb, ltb, none, some, ℕ, ◌&&◌, ◌++◌, ◌+◌, ◌==◌, ◌||◌, ◌∷◌,
}
use plane.Text.{Text, starts_with, strip_prefix}

abbrev pub max_name_length : ℕ
max_name_length = 45

pub data NameError : Type 0 where
  invalid_any_prefix : Text → NameError
  invalid_prefix : Text → Text → NameError
  invalid_character : ℕ → ℕ → NameError
  too_long : ℕ → NameError

pub data Result (A : Type 0) : Type 0 where
  ok : A → Result A
  err : NameError → Result A

-- The bytes of a character in UTF-8, and of a string (`len`).
abbrev pub len_utf8 : ℕ → ℕ
len_utf8 c = if ltb c 128 then 1 else if ltb c 2048 then 2 else if ltb c 65536 then 3 else 4

unfoldable pub len : Text → ℕ
len [] = 0
len (c ∷ s) = len_utf8 c + len s

-- `'-'`
abbrev pub hyphen : ℕ
hyphen = 45

-- `is_ascii_lowercase`, `is_ascii_digit`, and the test of a name's characters.
abbrev pub is_ascii_lowercase : ℕ → Bool
is_ascii_lowercase c = leb 97 c && leb c 122

abbrev pub is_ascii_digit : ℕ → Bool
is_ascii_digit c = leb 48 c && leb c 57

unfoldable pub is_allowed : ℕ → Bool
is_allowed c = is_ascii_lowercase c || is_ascii_digit c || (c == hyphen)

-- The first character that a name may not have, from position `i`.
unfoldable pub first_invalid : ℕ → Text → Option (ℕ × ℕ)
first_invalid i [] = none
first_invalid i (c ∷ s) = if is_allowed c then first_invalid (i + 1) s else some (c, i)

abbrev pub checked_characters : Text → Option (ℕ × ℕ) → Result Text
checked_characters s none = ok s
checked_characters s (some (c, i)) = err (invalid_character c i)

abbrev pub checked_length : Text → Result Text
checked_length s =
    if ltb max_name_length (len s)
    then err (too_long (len s))
    else checked_characters s (first_invalid 0 s)

-- `TryFrom<String>` of a kind of name, whose prefix is an argument.
unfoldable pub try_from : Option Text → Text → Result Text
try_from none s = checked_length s
try_from (some prefix) s =
    if starts_with prefix s then checked_length s else err (invalid_prefix s prefix)

-- `"px"`, `"dr"`, `"ns"` and `"plane-"`
abbrev pub proxy_prefix : Text
proxy_prefix = 112 ∷ 120 ∷ []

abbrev pub drone_prefix : Text
drone_prefix = 100 ∷ 114 ∷ []

abbrev pub acme_dns_server_prefix : Text
acme_dns_server_prefix = 110 ∷ 115 ∷ []

abbrev pub container_prefix : Text
container_prefix = 112 ∷ 108 ∷ 97 ∷ 110 ∷ 101 ∷ hyphen ∷ []

-- `BackendName::to_container_id` and `BackendName::from_container_id`.
unfoldable pub to_container_id : Text → Text
to_container_id name = container_prefix ++ name

abbrev pub parsed_container : Text → Option Text → Result Text
parsed_container id none = err (invalid_prefix id container_prefix)
parsed_container id (some name) = try_from none name

unfoldable pub from_container_id : Text → Result Text
from_container_id id = parsed_container id (strip_prefix container_prefix id)

pub data NodeKind : Type 0 where
  proxy : NodeKind
  drone : NodeKind
  acme_dns_server : NodeKind

-- `AnyNodeName`: the kind of the name, which `kind` returns, and its text, which `Display` prints.
pub record AnyNodeName : Type 0 where
  pub kind : NodeKind
  pub name : Text

abbrev pub of_kind : NodeKind → Result Text → Result AnyNodeName
of_kind k (ok s) = ok (record { kind = k; name = s })
of_kind k (err e) = err e

unfoldable pub any_try_from : Text → Result AnyNodeName
any_try_from s =
    if starts_with proxy_prefix s
    then of_kind proxy (try_from (some proxy_prefix) s)
    else if starts_with drone_prefix s
    then of_kind drone (try_from (some drone_prefix) s)
    else if starts_with acme_dns_server_prefix s
    then of_kind acme_dns_server (try_from (some acme_dns_server_prefix) s)
    else err (invalid_any_prefix s)

-- `NodeName::kind`'s prefix.
unfoldable pub prefix_of : NodeKind → Text
prefix_of proxy = proxy_prefix
prefix_of drone = drone_prefix
prefix_of acme_dns_server = acme_dns_server_prefix
