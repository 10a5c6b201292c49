-- ===== src/Tests/Pools.antt =====
-- The pool on a few transactions.
use des_ka_project.Prelude.{◌≡◌, refl, true, false, [], ◌∷◌, List, codes, str_discrete, is_ok}
use des_ka_project.Types.{Transaction}
use des_ka_project.Mempool.{Candidate, has_id, add}
use des_ka_project.Mempool.Unique.{add-has_id}
use des_ka_project.Tests.Data.{transfer_tx}

abbrev pool : List Transaction
pool = transfer_tx ∷ record transfer_tx { id = codes "t2" } ∷ transfer_tx ∷ []

add-has_id_example :
    (is_ok (add transfer_tx pool).0 ≡ false) × (has_id (codes "t2") (add transfer_tx pool).1 ≡ true)
unfolding str_discrete
add-has_id_example = add-has_id (codes "t2") transfer_tx pool refl refl

abbrev candidates : List Candidate
candidates =
    record { tx = transfer_tx; gas = 15 }
    ∷ record { tx = transfer_tx; gas = 90 }
    ∷ record { tx = transfer_tx; gas = 20 }
    ∷ []
