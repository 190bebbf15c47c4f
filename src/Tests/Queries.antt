-- ===== src/Tests/Queries.antt =====
-- Following the pages of a query, on splits that are numbers.
use daichod.Base.{arith, ℕ, ◌≡◌, refl, none, some, List, [], ◌∷◌}
use daichod.Base.Text.{empty, bytes_eq, Bytes}
use daichod.Base.Int.{pos, sub_ℕ}
use daichod.Rpc.QuerySplits.{Query}
use daichod.Rpc.QuerySplits.Pages.{all_pages, all_pages_complete}

abbrev toy_guid : ℕ → Bytes
toy_guid n = n ∷ []

abbrev same : ℕ → ℕ
same n = n

-- Pages of two, of the splits of at least 3.
abbrev from_three : Query ℕ
from_three = record { page_token = []; page_size = pos 2; value_min = some 3; value_max = none }

abbrev five : List ℕ
five = 4 ∷ 1 ∷ 3 ∷ 9 ∷ 5 ∷ []

all_pages_complete_example :
    all_pages toy_guid same sub_ℕ from_three five 6 [] ≡ some (4 ∷ 3 ∷ 9 ∷ 5 ∷ [])
unfolding bytes_eq empty
all_pages_complete_example =
    all_pages_complete toy_guid same sub_ℕ from_three five
      (refl, (refl, (refl, (refl, (refl, tt))))) (refl, (refl, (refl, (refl, (refl, tt))))) 6
      (omega arith)
