-- ===== src/Tests/Strings.antt =====
-- The helpers at concrete strings: wfptools/main.cpp and wfpdriver/util.c.
use wfpdriver.Shared.{ℕ, ◌≡◌, true, some, Option, [], ◌∷◌, pos, arith}
use wfpdriver.Tools.FilePath.{find_in_multi_sz, terminated}
use wfpdriver.Tools.FindLaws.{Finds, find_in_multi_sz-first}
use wfpdriver.Process.{
  ProcessAnswers, NamePath, IsAnswered, query_process_name_path, query_process_name_path-IsAnswered,
}

find_in_multi_sz-first_example :
    (r : Option ℕ) × (find_in_multi_sz (65 ∷ 0 ∷ 66 ∷ 67 ∷ 0 ∷ 0 ∷ []) (pos 6) (66 ∷ 67 ∷ [])
      ≡ some r)
    × Finds (terminated (66 ∷ 67 ∷ [])) 4 0 (65 ∷ 0 ∷ 66 ∷ 67 ∷ 0 ∷ 0 ∷ []) r
find_in_multi_sz-first_example =
    find_in_multi_sz-first (65 ∷ 0 ∷ 66 ∷ 67 ∷ 0 ∷ 0 ∷ []) (66 ∷ 67 ∷ []) 6 (omega arith)
      (omega arith) (omega arith)

-- A name of one character and its end.
abbrev process : ProcessAnswers
process = record {
  open_process = true;
  image_name = some (record { length = 2; buffer = 97 ∷ 0 ∷ 0 ∷ 0 ∷ [] });
}

query_process_name_path-IsAnswered_example :
    (r : NamePath) × (query_process_name_path process (9 ∷ 9 ∷ 9 ∷ 9 ∷ 9 ∷ []) 5 ≡ some r)
    × (r.closed ≡ r.opened)
    × IsAnswered process.image_name (9 ∷ 9 ∷ 9 ∷ 9 ∷ 9 ∷ []) (r.found, r.path)
query_process_name_path-IsAnswered_example =
    query_process_name_path-IsAnswered process (9 ∷ 9 ∷ 9 ∷ 9 ∷ 9 ∷ []) 5 (omega arith)
      (omega arith)
