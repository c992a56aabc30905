-- ===== src/Agent/Loop/Summary.antt =====
-- `_observation_summary` of backend/app/agent/loop.py: the wording of an observation, which the step
-- takes as its parameter `summary`. `text` is Python's `str`, `repr` its repr, and `plain` the
-- json.dumps with the keys in their order.
use Prim.Native.String.{◌++◌ as str_append}
use code_mate.Prelude.{
  ℕ, zero, suc, String, Option, none, some, List, [], ◌∷◌, ◌++◌, ◌==◌, if◌then◌else◌,
}
use code_mate.Lists.{member}
use code_mate.Text.{take, length}
use code_mate.Json.{
  Json, Items, Fields, bool, num, pos, str, arr, obj, nil, cons, get, get_default, truthy,
}
use code_mate.Agent.Loop.Actions.{
  Action, Request, read_file, get_import_graph, get_call_graph, run_tests, action_name,
}

-- `"".join(parts)`
unfoldable pub concat : List String → String
concat [] = ""
concat (s ∷ ss) = str_append s (concat ss)

-- `", ".join(parts)`
unfoldable pub join_commas : List String → String
join_commas [] = ""
join_commas (s ∷ []) = s
join_commas (s ∷ (t ∷ ts)) = let rest = join_commas (t ∷ ts) in str_append s (str_append ", " rest)

-- `len(items)`
unfoldable pub count_items : Items → ℕ
count_items nil = 0
count_items (cons v xs) = suc (count_items xs)

-- `item.get("file_path") if isinstance(item, dict) else item`
abbrev pub path_of : Json → Json
path_of (obj d) = get "file_path" d
path_of v = v

abbrev pub add_path : Json → List String → List String
add_path (str s) paths = if member s paths then paths else paths ++ (s ∷ [])
add_path v paths = paths

-- The loop over the first items, with the paths so far.
unfoldable pub collect_paths : ℕ → Items → List String → List String
collect_paths zero xs paths = paths
collect_paths (suc n) nil paths = paths
collect_paths (suc n) (cons v xs) paths = collect_paths n xs (add_path (path_of v) paths)

-- `paths or 'no paths'`, joined.
abbrev pub paths_text : List String → String
paths_text [] = "no paths"
paths_text (p ∷ ps) = join_commas (p ∷ ps)

module _ (text : Json → String) (repr : Json → String) (plain : Json → String)
    (sha256 : String → String) where
  abbrev pub number : ℕ → String
  number n = text (num (pos n))

  -- `len(result.get(key) or [])` for a list or a missing key
  abbrev pub count_in : Json → ℕ
  count_in (arr xs) = count_items xs
  count_in v = 0

  -- `action.end_line or 'bounded'`
  abbrev pub end_text : Option ℕ → String
  end_text none = "bounded"
  end_text (some n) = if n == 0 then "bounded" else number n

  abbrev pub read_summary : String → ℕ → Option ℕ → Fields → String
  read_summary path start_line end_line d =
      let content = text (if truthy (get "content" d) then get "content" d else str "") in
      concat (
        "Read "
        ∷ path
        ∷ ":"
        ∷ number start_line
        ∷ "-"
        ∷ end_text end_line
        ∷ " ("
        ∷ number (length content)
        ∷ " chars, sha256="
        ∷ take 12 (sha256 content)
        ∷ ")."
        ∷ [])

  abbrev pub tests_summary : Fields → String
  tests_summary d = concat (
      "Diagnostic tests command="
      ∷ repr (get "command" d)
      ∷ ", tests_ran="
      ∷ text (bool (truthy (get "tests_ran" d)))
      ∷ ", exit_code="
      ∷ text (get "exit_code" d)
      ∷ ", passed="
      ∷ text (bool (truthy (get "passed" d)))
      ∷ "."
      ∷ [])

  abbrev pub graph_summary : String → Fields → String
  graph_summary name d = concat (
      name
      ∷ " returned "
      ∷ number (count_in (get "nodes" d))
      ∷ " static-navigation node(s) and "
      ∷ number (count_in (get "edges" d))
      ∷ " "
      ∷ text (get_default "relation" d (str "relations"))
      ∷ " candidate edge(s)."
      ∷ [])

  -- The end of the method, for any action.
  abbrev pub other_summary : String → Json → String
  other_summary name (arr xs) = concat (
      name
      ∷ " returned "
      ∷ number (count_items xs)
      ∷ " result(s): "
      ∷ paths_text (collect_paths 8 xs [])
      ∷ "."
      ∷ [])
  other_summary name result = concat (name ∷ " returned: " ∷ take 1000 (plain result) ∷ [])

  -- The tests of the action, for a result that is a dict.
  abbrev pub dict_summary : Request → Fields → String
  dict_summary (read_file path start_line end_line) d = read_summary path start_line end_line d
  dict_summary (run_tests command) d = tests_summary d
  dict_summary (get_import_graph path direction depth) d = graph_summary "GetImportGraph" d
  dict_summary (get_call_graph symbol direction depth) d = graph_summary "GetCallGraph" d
  dict_summary r d = other_summary (action_name r) (obj d)

  -- `_observation_summary`
  abbrev pub observation_summary : Action → Json → String
  observation_summary a (obj d) = dict_summary a.request d
  observation_summary a result = other_summary (action_name a.request) result
