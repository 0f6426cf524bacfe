-- ===== src/Domain/States/Laws.antt =====
-- Laws of the transition table of app/domain/states.py, and what a chain of allowed moves can do.
use lending_bank_gateway.Prelude.{◌≡◌, ◌⊎◌, true, arith}
use lending_bank_gateway.Domain.States.{
  OrderStatus, same, may_move, accepted, succeeded, failed, expired, cancelled, partially_reversed,
  reversed,
}

-- a chain of moves that `assert_transition` lets pass
pub data Reaches (s : OrderStatus) : OrderStatus → Type 0 where
  here : Reaches s s
  move : {t u : OrderStatus} → Reaches s t → may_move t u ≡ true → Reaches s u

pub Reaches-trans : {s t u : OrderStatus} → Reaches s t → Reaches t u → Reaches s u
Reaches-trans r here = r
Reaches-trans r (move q m) = move (Reaches-trans r q) m

-- where an order in each status can ever get to, for the statuses at rest
abbrev pub Later : OrderStatus → OrderStatus → Type 0
Later succeeded t = (t ≡ succeeded) ⊎ (t ≡ partially_reversed) ⊎ (t ≡ reversed)
Later partially_reversed t = (t ≡ partially_reversed) ⊎ (t ≡ reversed)
Later failed t = t ≡ failed
Later expired t = t ≡ expired
Later cancelled t = t ≡ cancelled
Later reversed t = t ≡ reversed
Later _ t = Unit

Later-move : (s t u : OrderStatus) → Later s t → may_move t u ≡ true → Later s u
unfolding may_move
Later-move accepted t u l m = tt
Later-move s t u l m = ground arith

Later-refl : (s : OrderStatus) → Later s s
Later-refl accepted = tt
Later-refl s = ground arith

-- Along any chain of allowed moves FAILED, EXPIRED, CANCELLED and REVERSED stay what they are, and
-- SUCCEEDED is at most reversed, in part or in whole: no failure follows a success.
pub Reaches-Later : {s t : OrderStatus} → Reaches s t → Later s t
Reaches-Later {s} here = Later-refl s
Reaches-Later {s} (move {t} {u} r m) = Later-move s t u (Reaches-Later r) m

pub same-eq : (a b : OrderStatus) → same a b ≡ true → a ≡ b
same-eq a b h = ground arith
