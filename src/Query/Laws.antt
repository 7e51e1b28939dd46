-- ===== src/Query/Laws.antt =====
-- What a query forgets and what it keeps.
use restq.Base.{ℕ, ◌≡◌, refl, ◌↔◌, Bool, arith}
use restq.Query.{Query, empty, clear, has_failed, set_error_code}

-- A cleared query is a new one: nothing of the previous request is left in it.
pub clear-eq-empty : (q : Query) → clear q ≡ empty
unfolding clear
clear-eq-empty q = refl

pub has_failed-set_error_code :
    (code : ℕ) (q : Query) → (has_failed (set_error_code code q) ≡ Bool.false) ↔ (code ≡ 0)
unfolding has_failed set_error_code
has_failed-set_error_code code q = ground arith
