-- ===== src/Scripts/Env.antt =====
-- agent/internal/scripts/env.go: the environment of a job. A map is an association list that holds a key once.
pub mod Allowed
use everwas.Base.{
  ℕ, ◌≡◌, Bool, true, false, not, ◌&&◌, ◌||◌, Option, none, some, List, [], ◌∷◌, ◌++◌, map,
  contains, ltb, ◌==◌, if◌then◌else◌,
}
use everwas.Base.Text.{sort_texts, Text, codes, text_eq, member, cut, to_lower}

abbrev pub env_allowlist : List Text
env_allowlist =
    codes "PATH"
    ∷ codes "HOME"
    ∷ codes "USER"
    ∷ codes "LOGNAME"
    ∷ codes "LANG"
    ∷ codes "LC_ALL"
    ∷ codes "TZ"
    ∷ codes "SHELL"
    ∷ codes "TMPDIR"
    ∷ codes "TEMP"
    ∷ codes "TMP"
    ∷ codes "SystemRoot"
    ∷ codes "SystemDrive"
    ∷ codes "ComSpec"
    ∷ codes "PATHEXT"
    ∷ codes "windir"
    ∷ codes "USERPROFILE"
    ∷ codes "USERNAME"
    ∷ codes "PROGRAMFILES"
    ∷ codes "PROGRAMDATA"
    ∷ codes "APPDATA"
    ∷ codes "LOCALAPPDATA"
    ∷ codes "NUMBER_OF_PROCESSORS"
    ∷ codes "PROCESSOR_ARCHITECTURE"
    ∷ []

abbrev pub env_allow_set : List Text
env_allow_set = map to_lower env_allowlist

abbrev pub Env : Type 0
Env = List (Text × Text)

-- `m[k] = v` and `m[k]`.
unfoldable pub set_key : Text → Text → Env → Env
set_key k v [] = (k, v) ∷ []
set_key k v (e ∷ es) = let rest = set_key k v es in if text_eq e.0 k then (k, v) ∷ es else e ∷ rest

unfoldable pub lookup : Text → Env → Option Text
lookup k [] = none
lookup k (e ∷ es) = let rest = lookup k es in if text_eq e.0 k then some e.1 else rest

unfoldable pub keep_host : List Text → Env → Env
unfolding set_key
keep_host [] kept = kept
keep_host (kv ∷ host) kept = elim (cut b'=' kv) [
  | none ↦ keep_host host kept
  | some (k, v) ↦
      let without = keep_host host kept in
      let with = keep_host host (set_key k v kept) in
      if text_eq k [] || not (member (to_lower k) env_allow_set) then without else with
]

-- `strings.ContainsAny(k, "=\x00")`.
abbrev pub forges : Text → Bool
forges k = contains b'=' k || contains 0 k

unfoldable pub add_extra : Env → Env → Env
unfolding set_key
add_extra [] kept = kept
add_extra (e ∷ extra) kept =
    let without = add_extra extra kept in
    let with = add_extra extra (set_key e.0 e.1 kept) in
    if text_eq e.0 [] || forges e.0 then without else with

abbrev pub assignment : Text × Text → Text
assignment e = e.0 ++ b'=' ∷ e.1

unfoldable pub kept_env : List Text → Env → Env
unfolding keep_host add_extra
kept_env host_env extra = add_extra extra (keep_host host_env [])

unfoldable pub scrub_env : List Text → Env → List Text
unfolding kept_env sort_texts
scrub_env host_env extra = sort_texts (map assignment (kept_env host_env extra))
