-- ===== src/Routing/Names.antt =====
-- Which installed model a name denotes (packages/rust-core/src/platform/routing.rs, `installed_model`).
pub mod Denotes
use Prim.Native.String.{◌++◌ as ◌+++◌, len, slice, find as find_text}
use free_llama.Base.{
  Bool, List, [], ◌∷◌, map, Option, none, some, String, same_text, leb, find, retain, is_some_and,
  if◌then◌else◌, Result, ok, err,
}
use free_llama.Routing.{CatalogModel, RouteError}

-- `str::contains(':')`, and the text before the first colon (`str::split_once(':')`).
abbrev pub contains_colon : String → Bool
contains_colon s = leb (find_text s ":") (len s)

abbrev pub before_colon : String → Option String
before_colon s = if contains_colon s then some (slice s 0 (find_text s ":")) else none

abbrev pub has_name : String → CatalogModel → Bool
has_name name m = same_text m.name name

abbrev pub latest : String → String
latest requested = requested +++ ":latest"

abbrev pub in_family : String → CatalogModel → Bool
in_family requested m = is_some_and (before_colon m.name) (λ name. same_text name requested)

abbrev pub names : List CatalogModel → List String
names models = map (λ m. m.name) models

abbrev pub one_of_family :
    List CatalogModel → String → List CatalogModel → Result CatalogModel RouteError
one_of_family models requested [] = err (RouteError.not_installed requested (names models))
one_of_family models requested (only ∷ []) = ok only
one_of_family models requested (a ∷ b ∷ rest) =
    err (RouteError.ambiguous requested (names (a ∷ b ∷ rest)))

abbrev pub found_or :
    Option CatalogModel → Result CatalogModel RouteError → Result CatalogModel RouteError
found_or (some m) otherwise = ok m
found_or none otherwise = otherwise

unfoldable pub installed_model : List CatalogModel → String → Result CatalogModel RouteError
installed_model models requested = found_or (find (has_name requested) models) (
    if contains_colon requested
    then err (RouteError.not_installed requested (names models))
    else found_or (find (has_name (latest requested)) models)
        (one_of_family models requested (retain (in_family requested) models)))
