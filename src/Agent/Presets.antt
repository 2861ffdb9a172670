-- ===== src/Agent/Presets.antt =====
-- internal/presets/presets.go: the environment of a preset. A map is a list of its entries, and the list of
-- the environment is in the map's order, not sorted; `trim` is `strings.TrimSpace`.
use mathlib.Core.Path.{subst}
use terminal_x.Common.{
  ◌≡◌, ◌≢◌, refl, inl, inr, false, ◌||◌, String, Option, none, some, List, [], ◌∷◌, if◌then◌else◌,
  string_key, ◌==◌, Bool-cases,
}
use terminal_x.Common.Maps.{lookup}
use text.Mathlib.TextEquality.{eq_iff}

pub record Resolver : Type 0 where
  pub minimax_api_key : String
  pub minimax_base_url : String
  pub relay_station_base_url : String
  pub relay_station_api_key : String
  pub custom : List (String × List (String × String))

abbrev pub Env : Type 0
Env = List (String × String)

abbrev pub base_or_default : String → String
base_or_default base = if base == "" then "https://api.minimax.io/anthropic" else base

abbrev anthropic_env : String → String → Env
anthropic_env base token = ("ANTHROPIC_BASE_URL", base) ∷ ("ANTHROPIC_AUTH_TOKEN", token) ∷ []

-- The presets of the program; `none` is an error.
unfoldable pub built_in : Resolver → String → Option Env
built_in r name =
    if name == "anthropic"
    then some []
    else if name == "minimax"
    then if r.minimax_api_key == ""
      then none
      else some (anthropic_env (base_or_default r.minimax_base_url) r.minimax_api_key)
    else if name == "relay-station"
    then if r.relay_station_base_url == "" || r.relay_station_api_key == ""
      then none
      else some (anthropic_env r.relay_station_base_url r.relay_station_api_key)
    else none

unfoldable pub resolve : (String → String) → Resolver → String → Option Env
unfolding built_in
resolve trim r name =
    if trim name == ""
    then some []
    else elim (lookup (trim name) r.custom) [ some m ↦ some m | none ↦ built_in r (trim name) ]

-- Nothing is set to the empty text.
abbrev pub Filled : Env → Type 0
Filled [] = Unit
Filled ((k, v) ∷ env) = (v ≢ "") × Filled env

abbrev Full : Option Env → Type 0
Full none = Unit
Full (some env) = Filled env

not_empty : (s : String) → s == "" ≡ false → s ≢ ""
not_empty s e q = cc ((eq_iff s "").1 q)

base-not_empty : (base : String) → base_or_default base ≢ ""
base-not_empty base = elim (Bool-cases (base == "")) [
  | inl e ↦ rw e (not_empty "https://api.minimax.io/anthropic" refl)
  | inr e ↦ rw e (not_empty base e)
]

built_in-Full : (r : Resolver) (name : String) → Full (built_in r name)
unfolding built_in
built_in-Full r name = elim (Bool-cases (name == "anthropic")) [
  | inl a ↦ rw a tt
  | inr a ↦ rw a (elim (Bool-cases (name == "minimax")) [
    | inl m ↦ rw m (elim (Bool-cases (r.minimax_api_key == "")) [
      | inl k ↦ rw k tt
      | inr k ↦ rw k (base-not_empty r.minimax_base_url, (not_empty r.minimax_api_key k, tt))
    ])
    | inr m ↦ rw m (elim (Bool-cases (name == "relay-station")) [
      | inr s ↦ rw s tt
      | inl s ↦ rw s (elim (Bool-cases (r.relay_station_base_url == "")) [
        | inl b ↦ rw b tt
        | inr b ↦ rw b (elim (Bool-cases (r.relay_station_api_key == "")) [
          | inl k ↦ rw k tt
          | inr k ↦
              rw k (not_empty r.relay_station_base_url b, (not_empty r.relay_station_api_key k, tt))
        ])
      ])
    ])
  ])
]

-- A preset that is not one of the user's either fails or sets nothing to the empty text: no tool starts half
-- configured.
pub resolve-Filled :
    (trim : String → String) (r : Resolver) (name : String) (env : Env)
    → lookup (trim name) r.custom ≡ none
    → resolve trim r name ≡ some env
    → Filled env
unfolding resolve
resolve-Filled trim r name env c e = elim (Bool-cases (trim name == "")) [
  | inl n ↦ subst Full (rw (n, resolve) at e) tt
  | inr n ↦ subst Full (rw (n, c, resolve) at e) (built_in-Full r (trim name))
]
