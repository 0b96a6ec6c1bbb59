-- ===== src/Bootstrap/Plans/Policy.antt =====
-- bin/workspace_harbor_bootstrap.py: `_mapping`, `_deep_merge` and `load_policy`. A document of YAML
-- is a value as one of JSON is; its keys are texts.
use serena_workspace_orchest.Prelude.{
  any, Bool, true, false, not, ◌&&◌, Option, none, some, List, [], ◌∷◌, String,
}
use serena_workspace_orchest.Prelude.Strings.{is_empty}
use serena_workspace_orchest.Prelude.Results.{Result, ok, err, ◌>>=◌, ◌>>◌, raise_if, or_raise}
use serena_workspace_orchest.Json.{
  Value, null, bool, obj, arr, str, Fields, field, end, Items, cons, nil, get, put, as_dict,
}
use serena_workspace_orchest.Bootstrap.Decisions.{has_only}
use serena_workspace_orchest.Bootstrap.Plans.Paths.{FilePath, child}
use serena_workspace_orchest.Bootstrap.Plans.Data.{Document, absent, parsed, Files, Host}

-- `_mapping`
unfoldable pub mapping : Document → Result String Fields
mapping absent = ok end
mapping (parsed null) = ok end
mapping (parsed (obj d)) = ok d
mapping (parsed _) = err "mapping required"
mapping _ = err "invalid YAML"

-- `_deep_merge`, and the value that it gives to a key.
unfoldable mutual
  unfolding get put

  pub deep_merge : Fields → Fields → Fields
  deep_merge base end = base
  deep_merge base (field k v d) = deep_merge (put k (merge_value (get k base) v) base) d

  pub merge_value : Option Value → Value → Value
  merge_value (some (obj old)) (obj new) = obj (deep_merge old new)
  merge_value _ v = v

-- `isinstance(v, list) and all(isinstance(t, str) and t for t in v)`
unfoldable pub are_texts : Items → Bool
are_texts nil = true
are_texts (cons (str s) vs) = not (is_empty s) && are_texts vs
are_texts (cons _ vs) = false

unfoldable pub texts : Items → List String
texts nil = []
texts (cons (str s) vs) = s ∷ texts vs
texts (cons _ vs) = texts vs

-- The elements of a list at a key, without it none.
unfoldable pub items_at : String → Fields → Items
unfolding get
items_at key d = elim (get key d) [ none ↦ nil | some v ↦ elements v ]
  where
    elements : Value → Items
    elements (arr vs) = vs
    elements _ = nil

unfoldable pub texts_at : String → Fields → List String
unfolding items_at texts
texts_at key d = texts (items_at key d)

-- What a key of the policy may hold.
abbrev pub is_bool : Value → Bool
is_bool (bool b) = true
is_bool _ = false

abbrev pub is_text : Value → Bool
is_text (str s) = true
is_text _ = false

abbrev pub is_filled_text : Value → Bool
is_filled_text (str s) = not (is_empty s)
is_filled_text _ = false

abbrev pub is_list : Value → Bool
is_list (arr vs) = true
is_list _ = false

unfoldable pub is_text_list : Value → Bool
unfolding are_texts
is_text_list (arr vs) = are_texts vs
is_text_list _ = false

unfoldable pub is_filled_list : Value → Bool
unfolding are_texts
is_filled_list (arr nil) = false
is_filled_list (arr vs) = are_texts vs
is_filled_list _ = false

-- `key not in d or test(d[key])`
unfoldable pub is_absent_or : (Value → Bool) → String → Fields → Bool
unfolding get
is_absent_or test key d = elim (get key d) [ none ↦ true | some v ↦ test v ]

unfoldable pub has_key : String → Fields → Bool
unfolding get
has_key key d = elim (get key d) [ none ↦ false | some v ↦ true ]

unfoldable pub are_lists : Fields → Bool
are_lists end = true
are_lists (field k v d) = is_list v && are_lists d

-- `d.get(key, {})`, and `none` if it is no dictionary.
unfoldable pub dict_at : String → Fields → Option Fields
unfolding get
dict_at key d = elim (get key d) [ none ↦ some end | some v ↦ as_dict v ]

unfoldable pub check_command : (String → Bool) → Value → Result String (Unit {0})
unfolding has_only is_absent_or is_text_list is_filled_list texts_at has_key
check_command has_secret value = do
  command ← or_raise (as_dict value) "invalid command schema"
  raise_if (not (has_only ("argv" ∷ "cwd" ∷ "inputs" ∷ "markers" ∷ []) command))
      "invalid command schema"
  raise_if (not (has_key "argv" command && is_absent_or is_filled_list "argv" command))
      "command argv must be non-empty strings"
  raise_if (any has_secret (texts_at "argv" command))
      "command argv must not contain inline credentials or likely secrets"
  raise_if (not (is_absent_or is_text_list "inputs" command)) "command inputs must be strings"
  raise_if (not (is_absent_or is_text_list "markers" command)) "command markers must be strings"
  raise_if (not (is_absent_or is_text "cwd" command)) "command cwd must be string"

unfoldable pub check_boundaries : Fields → Result String (Unit {0})
unfolding has_only dict_at are_lists
check_boundaries bootstrap = do
  boundaries ← or_raise (dict_at "boundaries" bootstrap) "invalid boundaries schema"
  raise_if (not (has_only ("include" ∷ "ignore" ∷ []) boundaries)) "invalid boundaries schema"
  raise_if (not (are_lists boundaries)) "boundary values must be lists"

-- The checks of `load_policy`, on the `bootstrap` of the policy.
unfoldable pub check_bootstrap : (String → Bool) → Fields → Result String (Unit {0})
unfolding is_absent_or has_key check_command check_boundaries get
check_bootstrap has_secret bootstrap = do
  raise_if (has_key "task" bootstrap && has_key "command" bootstrap)
      "bootstrap task and command are mutually exclusive"
  raise_if (not (is_absent_or is_bool "enabled" bootstrap)) "bootstrap enabled must be boolean"
  raise_if (not (is_absent_or is_bool "use_builtin_recipes" bootstrap))
      "use_builtin_recipes must be boolean"
  raise_if (not (is_absent_or is_filled_text "task" bootstrap)) "task must be a non-empty string"
  elim (get "command" bootstrap) [ none ↦ ok tt | some command ↦ check_command has_secret command ]
  check_boundaries bootstrap

abbrev pub local_config : FilePath → FilePath
local_config root = child (child root ".serena") "codex-integration.yml"

-- `load_policy`: the `bootstrap` of the policy
unfoldable pub load_policy : Host → Files → FilePath → Result String Fields
unfolding mapping deep_merge dict_at check_bootstrap
load_policy host files root = do
  global ← mapping (files.document host.global_config)
  data_of_root ← mapping (files.document (local_config root))
  bootstrap ←
      or_raise (dict_at "bootstrap" (deep_merge (deep_merge end global) data_of_root))
        "bootstrap must be a mapping"
  check_bootstrap host.has_secret bootstrap
  ok bootstrap
