-- ===== src/Tests/CodeMaps.antt =====
-- The refinement of the map of codes at a concrete input.
use guillotina_oauth_server.Prelude.{ℕ, ◌≡◌, List, [], ◌∷◌, none}
use guillotina_oauth_server.Storage.CodeMap.{
  CodeCall, create, find, consume, delete, answer_call, answer_on_map, codes_of, answers,
}
use guillotina_oauth_server.Storage.CodeMap.Refined.{answers-answer_call}
use guillotina_oauth_server.Tests.Data.{store, database, database-IsWellFormed}

-- A code is found, consumed, and missing; another is stored, found until it expires, and deleted.
abbrev calls : List (ℕ × CodeCall)
calls =
    (1000, find "code-1")
    ∷ (1500, consume "code-1")
    ∷ (1501, consume "code-1")
    ∷ (1502, create "code-2" "app" "alice" "https://app.example/cb" [] [] none)
    ∷ (1503, find "code-2")
    ∷ (1504, delete "code-2")
    ∷ []

answers-answer_call_example :
    answers answer_call store calls database
    ≡ answers answer_on_map store calls (codes_of "db/guillotina" database)
answers-answer_call_example = answers-answer_call store calls database database-IsWellFormed
