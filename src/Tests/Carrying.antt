-- ===== src/Tests/Carrying.antt =====
-- A transfer of two tables, whose rows are numbers.
use yt_scrapper.Base.{
  ℕ, String, true, false, Option, some, List, [], ◌∷◌, ◌++◌, same, contains, ◌≡◌, ◌≢◌, refl,
  if◌then◌else◌,
}
use yt_scrapper.Errors.{ok}
use yt_scrapper.Transfer.{Tables, Database, TransferOutcome, transfer, batches}
use yt_scrapper.Transfer.Rows.{Appends}
use yt_scrapper.Transfer.Copies.{transfer-ok, transfer-refused}

abbrev commit : String → List ℕ → List ℕ → Option (List ℕ)
commit name old b = some (old ++ b)

commit-Appends : Appends commit
commit-Appends name old b new e = cc

abbrev names : List String
names = "jobs" ∷ "artifacts" ∷ []

abbrev file : Database ℕ
file = record {
  placement = ok tt;
  gaps = [];
  tables = λ n. if same n "jobs" then 1 ∷ 2 ∷ [] else (if same n "artifacts" then 3 ∷ [] else []);
}

abbrev server : Database ℕ
server = record {
  placement = ok tt;
  gaps = [];
  tables = λ n. if same n "other" then 9 ∷ [] else [];
}

abbrev carried : Tables ℕ
carried = (transfer commit names file server).1

transfer-file : (transfer commit names file server).0 ≡ ok (("jobs", 2) ∷ ("artifacts", 1) ∷ [])
unfolding transfer batches
transfer-file = refl

transfer-ok_example :
    (Path TransferOutcome
      (("jobs", 2) ∷ ("artifacts", 1) ∷ [])
      (("jobs", 2) ∷ ("artifacts", 1) ∷ []))
    × ((name : String)
        → contains name names ≡ true
        → (server.tables name ≡ []) × (carried name ≡ file.tables name))
    × ((name : String) → contains name names ≡ false → carried name ≡ server.tables name)
unfolding transfer batches
transfer-ok_example = transfer-ok commit names file server commit-Appends (refl, (refl, tt)) refl

abbrev one_row : List ℕ
one_row = 1 ∷ []

not_empty : one_row ≢ []
not_empty h = cc

transfer-refused_example :
    let (r, tables) = transfer commit names server (record file { tables = λ n. one_row }) in
    ((out : TransferOutcome) → r ≢ ok out) × (tables ≡ λ n. one_row)
transfer-refused_example =
    transfer-refused commit names server (record file { tables = λ n. one_row }) "jobs" refl
      not_empty
